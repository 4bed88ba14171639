-- ===== src/Exec/Reading.antt =====
-- What the loop of `Exec_uthread` has read, round by round.
use yinyang_os.Base.{All, List, [], arith, length, suc, ℕ, ◌++◌, ◌+◌, ◌<◌, ◌∙◌, ◌∷◌, ◌≡◌, ◌≤◌}
use yinyang_os.Exec.{Argv, Parsed, advance, argv_size, nr_argv, parsed, push}
use yinyang_os.Exec.Bytes.{At, IsArg, encode, starts}

-- The loop stands behind a byte that is not 0; `cs` is left of the argument, and then come `more`.
pub record Reading (f : ℕ) (user : ℕ → ℕ) (st : Argv) (cs : List ℕ) (more : List (List ℕ))
    : Type 0 where
  pub prev : 0 < st.bytes st.right
  pub ahead : At user (st.right + 1) (cs ++ 0 ∷ encode more)
  pub chars : All (λ c. 0 < c) cs
  pub args : All IsArg more
  pub fits : st.right + 1 + length (cs ++ 0 ∷ encode more) ≤ argv_size
  pub room : st.argc + suc (length more) ≤ nr_argv
  pub enough : length (cs ++ 0 ∷ encode more) ≤ f

-- It ends with a pointer to each argument and the bytes copied.
pub record Reads (st : Argv) (cs : List ℕ) (more : List (List ℕ)) (r : Parsed) : Type 0 where
  pub final : Argv
  pub result : r ≡ parsed final
  pub argc : final.argc ≡ st.argc + suc (length more)
  pub ptrs : At final.argv_ptr st.argc (st.left ∷ starts (st.right + 2 + length cs) more)
  pub old_ptrs : (i : ℕ) → i < st.argc → final.argv_ptr i ≡ st.argv_ptr i
  pub bytes : At final.bytes (st.right + 1) (cs ++ 0 ∷ encode more)
  pub old_bytes : (i : ℕ) → i ≤ st.right → final.bytes i ≡ st.bytes i

-- A character is read.
pub char-Reading :
    (f : ℕ) (user : ℕ → ℕ) (st : Argv) (c : ℕ) (cs : List ℕ) (more : List (List ℕ))
    → Reading (suc f) user st (c ∷ cs) more
    → Reading f user (advance user st) cs more
unfolding advance
char-Reading f user st c cs more v = record {
  prev = ground (arith, v.ahead.0, v.chars.0);
  ahead = v.ahead.1;
  chars = v.chars.1;
  args = v.args;
  fits = omega (arith, v.fits);
  room = v.room;
  enough = omega (arith, v.enough);
}

pub char-Reads :
    (f : ℕ) (user : ℕ → ℕ) (st : Argv) (c : ℕ) (cs : List ℕ) (more : List (List ℕ)) (r r' : Parsed)
    → Reading (suc f) user st (c ∷ cs) more
    → r ≡ r'
    → Reads (advance user st) cs more r'
    → Reads st (c ∷ cs) more r
unfolding advance
char-Reads f user st c cs more r r' v e x =
    let same : (st.right + 1) + 2 + length cs ≡ st.right + 2 + suc (length cs) = omega arith in
    record {
      final = x.final;
      result = e ∙ x.result;
      argc = x.argc;
      ptrs = rw same at x.ptrs;
      old_ptrs = x.old_ptrs;
      bytes = (x.old_bytes (st.right + 1) (omega arith) ∙ ground (arith, v.ahead.0), x.bytes);
      old_bytes = λ i h. x.old_bytes i (omega arith) ∙ ground arith;
    }

-- The last argument ends, and then the list.
pub end-Reads :
    (user : ℕ → ℕ) (st : Argv) (r : Parsed)
    → At user (st.right + 1) (0 ∷ encode [])
    → r ≡ parsed (advance user (push (advance user st)))
    → Reads st [] [] r
unfolding advance push encode starts
end-Reads user st r ahead e = record {
  final = advance user (push (advance user st));
  result = e;
  argc = omega arith;
  ptrs = (ground arith, tt);
  old_ptrs = λ i h. ground arith;
  bytes = (ground (arith, ahead.0), (ground (arith, ahead.1.0), tt));
  old_bytes = λ i h. ground arith;
}

-- An argument ends, and the next begins with `b`.
pub arg-Reading :
    (f : ℕ) (user : ℕ → ℕ) (st : Argv) (b : ℕ) (bs : List ℕ) (more : List (List ℕ))
    → Reading (suc (suc f)) user st [] ((b ∷ bs) ∷ more)
    → Reading f user (advance user (push (advance user st))) bs more
unfolding advance push encode
arg-Reading f user st b bs more v = record {
  prev = ground (arith, v.ahead.1.0, v.args.0.0);
  ahead = v.ahead.1.1;
  chars = v.args.0.1;
  args = v.args.1;
  fits = omega (arith, v.fits);
  room = omega (arith, v.room);
  enough = omega (arith, v.enough);
}

pub arg-Reads :
    (f : ℕ) (user : ℕ → ℕ) (st : Argv) (b : ℕ) (bs : List ℕ) (more : List (List ℕ)) (r r' : Parsed)
    → Reading (suc (suc f)) user st [] ((b ∷ bs) ∷ more)
    → r ≡ r'
    → Reads (advance user (push (advance user st))) bs more r'
    → Reads st [] ((b ∷ bs) ∷ more) r
unfolding advance push encode starts
arg-Reads f user st b bs more r r' v e x =
    let same : (st.right + 1 + 1) + 2 + length bs ≡ st.right + 2 + 0 + suc (length bs) + 1 =
      omega arith in
    let here : st.right + 1 + 1 ≡ st.right + 2 + 0 = omega arith in
    record {
      final = x.final;
      result = e ∙ x.result;
      argc = omega (arith, x.argc);
      ptrs =
          (x.old_ptrs st.argc (omega arith) ∙ ground arith, (x.ptrs.0 ∙ here, rw same at x.ptrs.1));
      old_ptrs = λ i h. x.old_ptrs i (omega arith) ∙ ground arith;
      bytes = (
        x.old_bytes (st.right + 1) (omega arith) ∙ ground (arith, v.ahead.0),
        (x.old_bytes (st.right + 1 + 1) (omega arith) ∙ ground (arith, v.ahead.1.0), x.bytes),
      );
      old_bytes = λ i h. x.old_bytes i (omega arith) ∙ ground arith;
    }
