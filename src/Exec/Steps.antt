-- ===== src/Exec/Steps.antt =====
-- The rounds of the loop by which `Exec_uthread` reads its arguments.
use yinyang_os.Base.{suc, ℕ, ◌+◌, ◌<◌, ◌≡◌, arith, refl, ◌-◌}
use yinyang_os.Exec.{Argv, advance, argv_size, nr_argv, parse_loop, parsed, push}

pub advance-facts :
    (user : ℕ → ℕ) (st : Argv)
    → ((advance user st).right ≡ st.right + 1)
      × ((advance user st).bytes (advance user st).right ≡ user (st.right + 1))
      × ((advance user st).bytes ((advance user st).right - 1) ≡ st.bytes st.right)
      × ((advance user st).argc ≡ st.argc)
unfolding advance
advance-facts user st = (refl, ground arith, ground arith, refl)

-- What the loop does in a round.
pub step-char :
    (f : ℕ) (user : ℕ → ℕ) (st : Argv)
    → st.right + 1 < argv_size
    → 0 < user (st.right + 1)
    → parse_loop (suc f) user st ≡ parse_loop f user (advance user st)
unfolding parse_loop
step-char f user st h c = let (r, b, p, a) = advance-facts user st in ground arith

pub step-arg :
    (f : ℕ) (user : ℕ → ℕ) (st : Argv)
    → st.right + 1 < argv_size
    → user (st.right + 1) ≡ 0
    → 0 < st.bytes st.right
    → st.argc < nr_argv
    → parse_loop (suc f) user st ≡ parse_loop f user (push (advance user st))
unfolding parse_loop
step-arg f user st h c prev room = let (r, b, p, a) = advance-facts user st in ground arith

pub step-end :
    (f : ℕ) (user : ℕ → ℕ) (st : Argv)
    → st.right + 1 < argv_size
    → user (st.right + 1) ≡ 0
    → st.bytes st.right ≡ 0
    → parse_loop (suc f) user st ≡ parsed (advance user st)
unfolding parse_loop
step-end f user st h c prev = let (r, b, p, a) = advance-facts user st in ground arith
