-- ===== src/Timer.antt =====
-- kernel/drivers/timer.c: the queue of alarms. Every alarm keeps the time that remains after the
-- alarm in front of it; the alarms that are not in the queue are in a second list.
pub mod Alarms
pub mod Insert
pub mod Walk
pub mod Behind
pub mod Filled
pub mod Arm
pub mod Tick
pub mod Expire
pub mod Start
use yinyang_os.Base.{
  List, Option, [], add32, if◌then◌else◌, ltb, none, slt32, some, sub32, suc, true, u32_mod, update,
  zero, ℕ, ◌%◌, ◌*◌, ◌+◌, ◌-◌, ◌==◌, ◌∷◌,
}
use yinyang_os.Kernel.{System, set_proc}

abbrev pub nr_proc_time : ℕ
nr_proc_time = 5

abbrev pub nr_process : ℕ
nr_process = 32

-- `struct Alarm`
pub record Alarm : Type 0 where
  pub pid : ℕ
  pub remain_time : ℕ
  pub next : Option ℕ

-- `alarm_pool`, `alarm_free` and `alarm_queue`. A pointer to an alarm is its index in the pool.
pub record Timer : Type 0 where
  pub pool : ℕ → Alarm
  pub free : Option ℕ
  pub queue : Option ℕ

-- `init_alarm`
unfoldable pub init_alarm : Timer → Timer
init_alarm t = record {
  pool =
      λ i. if ltb i (nr_process - 1) then record (t.pool i) { next = some (i + 1) } else t.pool i;
  free = some 0;
  queue = none;
}

-- `ptr->remain_time -= cnt->remain_time`
unfoldable pub lessen : (ptr cnt : ℕ) → (ℕ → Alarm) → ℕ → Alarm
lessen ptr cnt pool =
    let a = pool ptr in
    update pool ptr (record a { remain_time = sub32 a.remain_time (pool cnt).remain_time })

-- The loop of `new_alarm` at `cnt`, for the alarm `ptr`: the alarm behind which it goes.
unfoldable pub find_place : (fuel : ℕ) → (ptr cnt : ℕ) → (ℕ → Alarm) → Option ((ℕ → Alarm) × ℕ)
find_place zero ptr cnt pool = none
find_place (suc f) ptr cnt pool =
    let less = lessen ptr cnt pool in
    elim (less cnt).next [
      | none ↦ some (less, cnt)
      | some n ↦
          (let rest = find_place f ptr n less in
            if slt32 (less ptr).remain_time (less n).remain_time then some (less, cnt) else rest)
    ]

-- `ptr->next = cnt->next; cnt->next = ptr`
unfoldable pub link_after : ℕ → ℕ → (ℕ → Alarm) → ℕ → Alarm
link_after ptr cnt pool =
    let named = update pool ptr (record (pool ptr) { next = (pool cnt).next }) in
    update named cnt (record (named cnt) { next = some ptr })

-- Lines 128 and 129: the alarm behind the new one counts from it.
unfoldable pub settle : ℕ → (ℕ → Alarm) → ℕ → Alarm
settle ptr pool = elim (pool ptr).next [
  | none ↦ pool
  | some n ↦
      update pool n
        (record (pool n) { remain_time = sub32 (pool n).remain_time (pool ptr).remain_time })
]

-- Lines 115 to 129: behind the head of the queue.
unfoldable pub insert_behind : (fuel : ℕ) → (ptr cnt : ℕ) → (ℕ → Alarm) → Option (ℕ → Alarm)
insert_behind f ptr cnt pool = elim (find_place f ptr cnt pool) [
  | none ↦ none
  | some (less, c) ↦ some (settle ptr (link_after ptr c less))
]

-- What `new_alarm` comes to: `no_alarm` is the use of a free list that is empty.
pub data Armed : Type 0 where
  armed : Timer → Armed
  no_alarm : Armed
  out_of_fuel : Armed

-- Lines 110 to 129, with the alarm `ptr` taken from the free list and filled in.
unfoldable pub insert : ℕ → Timer → Armed
insert ptr t =
    let pool = settle ptr (update t.pool ptr (record (t.pool ptr) { next = t.queue })) in
    let front = armed (record t { pool = pool; queue = some ptr }) in
    elim t.queue [
      | none ↦ front
      | some h ↦
          (let behind : Armed = elim (insert_behind nr_process ptr h t.pool) [
            | none ↦ out_of_fuel
            | some pool' ↦ armed (record t { pool = pool' })
          ] in
            if slt32 (t.pool ptr).remain_time (t.pool h).remain_time then front else behind)
    ]

-- `new_alarm(pid, second)`
unfoldable pub new_alarm : (pid second : ℕ) → Timer → Armed
new_alarm pid second t = elim t.free [
  | none ↦ no_alarm
  | some ptr ↦ insert ptr (record t {
    free = (t.pool ptr).next;
    pool =
        update t.pool ptr (record (t.pool ptr) { remain_time = second * 100 % u32_mod; pid = pid });
  })
]

-- `pop_alarm`, with `ptr` at the head of the queue
unfoldable pub pop_alarm : ℕ → Timer → Timer
pop_alarm ptr t = record {
  pool = update t.pool ptr (record (t.pool ptr) { next = t.free });
  free = some ptr;
  queue = (t.pool ptr).next;
}

-- The loop of `timer_intr`: the processes for which it sends TIMER_ALRM_FIRE, in this order.
unfoldable pub expire : (fuel : ℕ) → Timer → Option (List ℕ × Timer)
expire zero t = none
expire (suc f) t = elim t.queue [
  | none ↦ some ([], t)
  | some h ↦
      (let rest = expire f (pop_alarm h t) in
        if slt32 0 (t.pool h).remain_time
        then some ([], t)
        else elim rest [ none ↦ none | some (ps, t') ↦ some ((t.pool h).pid ∷ ps, t') ])
]

-- Lines 63 to 79 of `timer_intr`. There are at most 32 alarms to expire.
unfoldable pub timer_intr : Timer → Option (List ℕ × Timer)
timer_intr t = elim t.queue [
  | none ↦ some ([], t)
  | some h ↦ expire (nr_process + 1) (record t {
    pool = update t.pool h (record (t.pool h) { remain_time = sub32 (t.pool h).remain_time 1 });
  })
]

-- Lines 59 to 62: the running process is charged a tick, and gives way after every fifth.
unfoldable pub charge : System → System
charge s =
    let c = s.proc s.current in
    let elapsed = add32 c.time_elapsed 1 in
    record (set_proc s s.current (record c { time_elapsed = elapsed })) {
      need_sched = if elapsed % nr_proc_time == 0 then true else s.need_sched;
    }
