-- ===== src/Exec/Parse.antt =====
-- `Exec_uthread` reads back what `execv` has packed.
use yinyang_os.Base.{
  All, List, [], arith, length, length-append, suc, update, zero, ℕ, ◌+◌, ◌∙◌, ◌∷◌, ◌≡◌, ◌≤◌,
}
use yinyang_os.Exec.{Argv, advance, argv_size, execv, nr_argv, parse, parse_loop, parsed, push}
use yinyang_os.Exec.Bytes.{At, IsArg, encode, starts}
use yinyang_os.Exec.Pack.{execv_lem}
use yinyang_os.Exec.Reading.{
  Reading, Reads, arg-Reading, arg-Reads, char-Reading, char-Reads, end-Reads,
}
use yinyang_os.Exec.Steps.{step-arg, step-char, step-end}

length-encode : (more : List (List ℕ)) → 1 ≤ length (encode more)
unfolding encode
length-encode [] = omega arith
length-encode (a ∷ more) = omega (arith, length-append a (0 ∷ encode more))

char-step :
    (f : ℕ) (user : ℕ → ℕ) (st : Argv) (c : ℕ) (cs : List ℕ) (more : List (List ℕ))
    → Reading (suc f) user st (c ∷ cs) more
    → parse_loop (suc f) user st ≡ parse_loop f user (advance user st)
char-step f user st c cs more v =
    step-char f user st (omega (arith, v.fits, length-append cs (0 ∷ encode more)))
      (ground (arith, v.ahead.0, v.chars.0))

end-step :
    (f : ℕ) (user : ℕ → ℕ) (st : Argv)
    → Reading (suc (suc f)) user st [] []
    → parse_loop (suc (suc f)) user st ≡ parsed (advance user (push (advance user st)))
unfolding advance push encode
end-step f user st v =
    step-arg (suc f) user st (omega (arith, v.fits)) v.ahead.0 v.prev (omega (arith, v.room))
    ∙ step-end f user (push (advance user st)) (omega (arith, v.fits)) v.ahead.1.0
        (ground (arith, v.ahead.0))

arg-step :
    (f : ℕ) (user : ℕ → ℕ) (st : Argv) (b : ℕ) (bs : List ℕ) (more : List (List ℕ))
    → Reading (suc (suc f)) user st [] ((b ∷ bs) ∷ more)
    → parse_loop (suc (suc f)) user st ≡ parse_loop f user (advance user (push (advance user st)))
unfolding advance push encode
arg-step f user st b bs more v =
    step-arg (suc f) user st (omega (arith, v.fits)) v.ahead.0 v.prev (omega (arith, v.room))
    ∙ step-char f user (push (advance user st))
        (omega (arith, v.fits, length-append bs (0 ∷ encode more)))
        (ground (arith, v.ahead.1.0, v.args.0.0))

parse_loop_lem :
    (f : ℕ) (user : ℕ → ℕ) (st : Argv) (cs : List ℕ) (more : List (List ℕ))
    → Reading f user st cs more
    → Reads st cs more (parse_loop f user st)
parse_loop_lem zero user st cs more v =
    absurd (omega (arith, v.enough, length-append cs (0 ∷ encode more)))
parse_loop_lem (suc f) user st (c ∷ cs) more v =
    char-Reads f user st c cs more _ _ v (char-step f user st c cs more v)
      (parse_loop_lem f user (advance user st) cs more (char-Reading f user st c cs more v))
parse_loop_lem (suc zero) user st [] more v = absurd (omega (arith, v.enough, length-encode more))
parse_loop_lem (suc (suc f)) user st [] [] v = end-Reads user st _ v.ahead (end-step f user st v)
parse_loop_lem (suc (suc f)) user st [] ([] ∷ more) v = absurd v.args.0
parse_loop_lem (suc (suc f)) user st [] ((b ∷ bs) ∷ more) v =
    arg-Reads f user st b bs more _ _ v (arg-step f user st b bs more v) (
      parse_loop_lem f user (advance user (push (advance user st))) bs more
        (arg-Reading f user st b bs more v))

-- What `Exec_uthread` has read: the number of arguments, a pointer to each, and their bytes.
pub record HasArgs (args : List (List ℕ)) (st : Argv) : Type 0 where
  pub count : st.argc ≡ length args
  pub pointers : At st.argv_ptr 0 (starts 0 args)
  pub copied : At st.bytes 0 (encode args)

-- When `execv` packs at least one argument, none of them empty and no more than 10, in at most 150
-- bytes, and `Exec_uthread` reads that memory, it has their number, a pointer to each, and their
-- bytes.
pub parse-execv :
    (args : List (List ℕ)) (buf : ℕ → ℕ) (st : Argv)
    → 1 ≤ length args
    → All IsArg args
    → length args ≤ nr_argv
    → length (encode args) ≤ argv_size
    → (st' : Argv) × (parse (execv args buf) st ≡ parsed st') × HasArgs args st'
unfolding parse encode starts
parse-execv [] buf st some_arg full few fits = absurd (omega arith)
parse-execv ([] ∷ more) buf st some_arg full few fits = absurd full.0
parse-execv ((b ∷ bs) ∷ more) buf st some_arg full few fits =
    let same : 2 + length bs ≡ 0 + suc (length bs) + 1 = omega arith in
    let packed = execv_lem ((b ∷ bs) ∷ more) buf in
    let user : ℕ → ℕ = execv ((b ∷ bs) ∷ more) buf in
    let x =
      parse_loop_lem (argv_size + 1) user
        (record st { left = 0; right = 0; argc = 0; bytes = update st.bytes 0 (user 0) }) bs more
        (record {
          prev = ground (arith, packed.0, full.0.0);
          ahead = packed.1;
          chars = full.0.1;
          args = full.1;
          fits = omega (arith, fits);
          room = omega (arith, few);
          enough = omega (arith, fits);
        }) in
    (
      x.final,
      x.result,
      record {
        count = omega (arith, x.argc);
        pointers = (x.ptrs.0, rw same at x.ptrs.1);
        copied = (x.old_bytes 0 (omega arith) ∙ packed.0, x.bytes);
      },
    )
