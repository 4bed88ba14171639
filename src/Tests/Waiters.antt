-- ===== src/Tests/Waiters.antt =====
-- kernel/pm.c with three processes that wait, two of them for process 4.
use yinyang_os.Base.{if◌then◌else◌, ◌==◌}
use yinyang_os.Waiters.{Waiters, wake_up}
use yinyang_os.Waiters.Wake.{wake_up_lem, WakesUp}

abbrev pub three_waiters : Waiters
three_waiters = record {
  queue = λ i.
      if i == 0
      then record { pid = 7; wait_for = 4 }
      else if i == 1
      then record { pid = 8; wait_for = 5 }
      else record { pid = 9; wait_for = 4 };
  wq_ptr = 3;
}

wake_up_lem_example : WakesUp 4 three_waiters (wake_up 4 three_waiters)
wake_up_lem_example = wake_up_lem 4 three_waiters
