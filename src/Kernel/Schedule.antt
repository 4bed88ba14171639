-- ===== src/Kernel/Schedule.antt =====
-- kernel/process/schedule.c: the next process that waits for the processor, in the order of the
-- ring.
use yinyang_os.Base.{ℕ, zero, suc, Bool, true, false, Option, none, some, if◌then◌else◌}
use yinyang_os.Kernel.{Status, System, waiting, sleeping, running, set_status}

unfoldable pub is_waiting : Status → Bool
is_waiting waiting = true
is_waiting sleeping = false
is_waiting running = false

-- `find_next_live_process`, at `p`; `none` when the rounds run out. The links of a ring are never
-- NULL, so with no process waiting the loop of the source goes round for ever.
unfoldable pub find_live_from : (fuel : ℕ) → System → ℕ → Option ℕ
find_live_from zero s p = none
find_live_from (suc f) s p =
    let rest = find_live_from f s (s.ring.next p) in
    if is_waiting (s.proc p).status then some p else rest

unfoldable pub is_running : Status → Bool
is_running waiting = false
is_running sleeping = false
is_running running = true

-- The running process becomes one that waits.
unfoldable pub demote : System → System
unfolding is_running
demote s =
    let down = set_status s s.current waiting in
    record s { proc = if is_running (s.proc s.current).status then down.proc else s.proc }

unfoldable pub run_next : ℕ → System → System
run_next p s = record (set_status s p running) { current = p; need_sched = false }

pub data Scheduled : Type 0 where
  switched : System → Scheduled
  spinning : Scheduled

unfoldable pub schedule : (fuel : ℕ) → System → Scheduled
schedule fuel s =
    let s' = demote s in
    if s.need_sched
    then (elim (find_live_from fuel s' (s'.ring.next s'.current)) [
      | none ↦ spinning
      | some p ↦ switched (run_next p s')
    ])
    else switched s

abbrev pub live_at : System → ℕ → Bool
live_at s i = is_waiting (s.proc i).status
