-- ===== src/Process/Table.antt =====
-- The invariant of the process table, kept by every operation on it.
use yinyang_os.Base.{
  ℕ, ◌≤◌, ◌<◌, ◌≡◌, refl, true, not, List, [], ◌∷◌, ◌++◌, some, arith, has, Distinct,
}
use yinyang_os.Ring.Queue.{IsQueue}
use yinyang_os.Kernel.{System, max_proc}
use yinyang_os.Process.{init_message_pool, init_proc}
use yinyang_os.Ring.{link_self}

-- `live` are the processes behind `init` in the ring, in the order in which they came; `held` are
-- entries taken for processes that have not entered the ring. All others are free, and only they.
pub record IsTable (s : System) (held live : List ℕ) : Type 0 where
  pub ring : IsQueue s.ring (some 0) (0 ∷ live)
  pub distinct : Distinct (0 ∷ held ++ live)
  pub in_table : (i : ℕ) → has i (held ++ live) ≡ true → i < max_proc
  pub free : (i : ℕ) → 1 ≤ i → i < max_proc → (s.proc i).flag ≡ not (has i (held ++ live))
  pub pids : (i : ℕ) → has i (0 ∷ held ++ live) ≡ true → (s.proc i).pid ≡ i

-- `init_proc` leaves a table in order: `init` alone in the ring, and every other entry free.
pub init_proc-IsTable : (s : System) → IsTable (init_proc s) [] []
unfolding init_proc link_self init_message_pool
init_proc-IsTable s = record {
  ring = ground arith;
  distinct = (refl, tt);
  in_table = λ i h. cc;
  free = λ i l h. ground arith;
  pids = λ i h. ground arith;
}
