-- ===== src/Tests/Timer.antt =====
-- kernel/drivers/timer.c with two alarms.
use yinyang_os.Base.{
  List, [], arith, if◌then◌else◌, length, none, refl, some, ℕ, ◌+◌, ◌==◌, ◌∷◌, ◌≡◌,
}
use yinyang_os.Timer.{Timer, init_alarm, new_alarm, timer_intr}
use yinyang_os.Timer.Alarms.{Entry, IsTimer}
use yinyang_os.Timer.Arm.{Arms, new_alarm_lem}
use yinyang_os.Timer.Expire.{timer_intr_lem}
use yinyang_os.Timer.Start.{indices, init_alarm-IsTimer}
use yinyang_os.Timer.Tick.{fired, left}

abbrev cold : Timer
cold = record {
  pool = λ i. record { pid = 0; remain_time = 0; next = none };
  free = none;
  queue = none;
}

init_alarm-IsTimer_example : IsTimer (init_alarm cold) [] (indices 32 0)
init_alarm-IsTimer_example = init_alarm-IsTimer cold refl

-- Alarms 0 and 1 in the queue, for processes 7 and 9 after 1 and 201 ticks; 2 is free.
abbrev two_alarms : Timer
two_alarms = record {
  pool = λ i.
      if i == 0
      then record { pid = 7; remain_time = 1; next = some 1 }
      else if i == 1
      then record { pid = 9; remain_time = 200; next = none }
      else record { pid = 0; remain_time = 0; next = none };
  free = some 2;
  queue = some 0;
}

abbrev due_alarms : List Entry
due_alarms = record { node = 0; pid = 7; due = 1 } ∷ record { node = 1; pid = 9; due = 201 } ∷ []

two_alarms-IsTimer : IsTimer two_alarms due_alarms (2 ∷ [])
two_alarms-IsTimer = record {
  queued = (refl, refl, refl, omega arith, (refl, refl, refl, omega arith, refl));
  unused = (refl, refl);
  distinct = (refl, (refl, (refl, tt)));
  in_pool = λ i h. ground arith;
}

new_alarm_lem_example : Arms 5 1 due_alarms (2 ∷ []) (new_alarm 5 1 two_alarms)
new_alarm_lem_example =
    new_alarm_lem 5 1 two_alarms due_alarms (2 ∷ []) two_alarms-IsTimer (omega arith)

timer_intr_lem_example :
    (t' : Timer) × (ns' : List ℕ) × (timer_intr two_alarms ≡ some (fired due_alarms, t'))
    × IsTimer t' (left due_alarms) ns'
    × (length (left due_alarms) + length ns' ≡ 3)
timer_intr_lem_example =
    timer_intr_lem two_alarms due_alarms (2 ∷ []) two_alarms-IsTimer
      (omega arith, (omega arith, tt))
