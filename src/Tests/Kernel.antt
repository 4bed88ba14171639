-- ===== src/Tests/Kernel.antt =====
-- kernel/lock.c and kernel/process/schedule.c at a ring of three processes.
use yinyang_os.Base.{
  [], arith, false, if◌then◌else◌, none, refl, some, true, ℕ, ◌%◌, ◌+◌, ◌==◌, ◌∷◌, ◌≡◌,
}
use yinyang_os.Kernel.{Cpu, Mailbox, Message, Pcb, Status, System, running, sleeping, waiting}
use yinyang_os.Kernel.Lock.{Calls, enter, leave, run, run_inside, run_left, start}
use yinyang_os.Kernel.RoundRobin.{OneRuns, schedule_ends, schedule_lem, schedule-OneRuns}
use yinyang_os.Kernel.Yield.{yielded}
use yinyang_os.Kernel.Schedule.{
  demote, is_running, is_waiting, schedule, switched, find_live_from, run_next,
}
use yinyang_os.Ring.Linked.{Linked}
use yinyang_os.Split.{Split, split_first}

abbrev idle_cpu : Cpu
idle_cpu = record { lock_counter = 0; enter_interrupt = 0; interrupts = true }

abbrev two_sections : Calls 2
two_sections = enter (omega arith) (enter (omega arith) start)

abbrev one_section : Calls 1
one_section = leave two_sections

run_inside_example :
    ((run two_sections idle_cpu).lock_counter ≡ 2)
    × ((run two_sections idle_cpu).interrupts ≡ false)
run_inside_example = run_inside two_sections idle_cpu refl

run_left_example :
    ((run (leave one_section) idle_cpu).lock_counter ≡ 0)
    × ((run (leave one_section) idle_cpu).interrupts ≡ true)
run_left_example = run_left one_section idle_cpu refl refl

abbrev pub blank_message : Message
blank_message = record { src = 0; dest = 0; kind = 0; w0 = 0; w1 = 0; w2 = 0; w3 = 0 }

abbrev pub blank_mailbox : Mailbox
blank_mailbox = record {
  msg = λ i. blank_message;
  links = record { next = λ i. 0; prev = λ i. 0 };
  flag = λ i. true;
  msg_rec = none;
  msg_ign = none;
}

abbrev pub process : Status → ℕ → Pcb
process st n = record {
  flag = false;
  status = st;
  pid = n;
  msg_lock = record { token = 0; queue_tail = 0; queue = λ i. 0 };
  mailbox = blank_mailbox;
  time_elapsed = 0;
}

-- Processes 0, 1 and 2 in the ring; 0 gives up the processor.
abbrev pub three : (ℕ → Status) → System
three st = record {
  proc = λ i. process (st i) i;
  ring = record { next = λ i. (i + 1) % 3; prev = λ i. (i + 2) % 3 };
  current = 0;
  need_sched = true;
  cpu = idle_cpu;
}

abbrev mixed : System
mixed = three (λ i. if i == 0 then running else if i == 1 then sleeping else waiting)

abbrev pub frozen : System
frozen = three (λ i. sleeping)

mixed_ring : Linked mixed.ring 0 (1 ∷ 2 ∷ []) 0
mixed_ring = (refl, refl, (refl, refl, (refl, refl)))

abbrev choice : Split ℕ
choice = record { before = 1 ∷ []; hit = 2; after = 0 ∷ [] }

mixed-choice : split_first (λ i. is_waiting (yielded mixed i)) (1 ∷ 2 ∷ 0 ∷ []) ≡ some choice
unfolding split_first is_waiting demote is_running
mixed-choice = refl

schedule_lem_example :
    (t : System) × (schedule 3 mixed ≡ switched t)
    × (t.current ≡ 2)
    × (t.need_sched ≡ false)
    × ((q : ℕ)
        → t.proc q ≡ record (mixed.proc q) { status = if q == 2 then running else yielded mixed q })
    × (t.ring ≡ mixed.ring)
    × (t.cpu ≡ mixed.cpu)
schedule_lem_example =
    schedule_lem 3 mixed (1 ∷ 2 ∷ []) choice mixed_ring (omega arith) refl mixed-choice

schedule_ends_example : (t : System) × (schedule 3 mixed ≡ switched t)
schedule_ends_example = schedule_ends 3 mixed (1 ∷ 2 ∷ []) mixed_ring (omega arith) refl

mixed_one : OneRuns mixed
mixed_one q e = ground arith

mixed_switch : schedule 3 mixed ≡ switched (run_next 2 (demote mixed))
unfolding schedule find_live_from is_waiting demote is_running
mixed_switch = refl

schedule-OneRuns_example : OneRuns (run_next 2 (demote mixed))
schedule-OneRuns_example = schedule-OneRuns 3 mixed mixed_one mixed_switch
