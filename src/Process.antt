-- ===== src/Process.antt =====
-- The process table: kernel/process/util.c, and the parts of kernel/pm.c by which processes enter
-- and leave the table and the ring of live processes. `init` is `Proc[0]`.
pub mod Table
pub mod Moves
pub mod Entries
use yinyang_os.Base.{
  ℕ, zero, suc, ◌+◌, ◌-◌, Bool, true, false, Option, none, some, ltb, if◌then◌else◌, update, ◌==◌,
}
use yinyang_os.Ring.{Links, link_before, unlink, link_self}
use yinyang_os.Kernel.{
  Mailbox, Pcb, Status, System, waiting, sleeping, max_proc, max_message_pool, set_proc,
}
use yinyang_os.Kernel.Lock.{lock, unlock}
use yinyang_os.Kernel.Semaphore.{sem_init}

-- The loop of `Find_Empty_PCB` from `i` on, for the rounds that are left.
unfoldable pub find_empty_from : (rounds : ℕ) → ℕ → (ℕ → Pcb) → Option ℕ
find_empty_from zero i proc = none
find_empty_from (suc k) i proc =
    let rest = find_empty_from k (i + 1) proc in if (proc i).flag then some i else rest

-- `Find_Empty_PCB`; `none` is `PROC_FULL`.
unfoldable pub find_empty_pcb : System → Option ℕ
find_empty_pcb s = find_empty_from (max_proc - 1) 1 s.proc

-- `init_message_pool`: the loop sets the flags of the whole pool.
unfoldable pub init_message_pool : Pcb → Pcb
init_message_pool c =
    let mb = c.mailbox in
    record c {
      mailbox = record mb {
        flag = λ i. if ltb i max_message_pool then true else mb.flag i;
        msg_rec = none;
        msg_ign = none;
      };
      msg_lock = sem_init c.msg_lock 0;
    }

-- A new entry of the table, as `Fork_uthread` and `Create_uthread` fill it in: taken, but not yet
-- in the ring.
unfoldable pub take_entry : ℕ → (elapsed : ℕ) → System → System
take_entry new elapsed s =
    set_proc s new
      (init_message_pool (record (s.proc new) { pid = new; flag = false; time_elapsed = elapsed }))

-- The entry joins the ring behind all others, ready to be scheduled.
unfoldable pub make_ready : ℕ → System → System
make_ready new s = record s {
  ring = link_before s.ring 0 new;
  proc = update s.proc new (record (s.proc new) { status = waiting });
}

-- What a request for a new process comes to: its number, or "Process Table is Full!".
pub data Created : Type 0 where
  created : ℕ → System → Created
  panic : Created

-- `Create_kthread`, less the words that it pushes on the new stack.
unfoldable pub create_kthread : System → Created
create_kthread s = elim (find_empty_pcb s) [
  | none ↦ panic
  | some new ↦ created new (take_entry new 0 (make_ready new s))
]

-- Lines 254 to 274 of `Fork_uthread`.
unfoldable pub fork_begin : (parent : ℕ) → System → Created
fork_begin parent s = elim (find_empty_pcb (lock s)) [
  | none ↦ panic
  | some new ↦ created new (unlock (take_entry new (s.proc parent).time_elapsed (lock s)))
]

-- Lines 331 to 337 of `Fork_uthread`, and 461 to 469 of `Create_uthread`.
unfoldable pub enter_ring : ℕ → System → System
enter_ring new s = unlock (make_ready new (lock s))

-- Lines 394 to 403 of `Exit_uthread`.
unfoldable pub leave_ring : ℕ → System → System
leave_ring pid s =
    let c = (s.proc pid) in
    unlock (record (lock s) {
      proc = update s.proc pid (record c { status = sleeping; flag = true });
      ring = unlink s.ring pid;
    })

-- The loop of `init_proc` frees the entries from 1 on.
unfoldable pub init_proc : System → System
init_proc s =
    let first =
      init_message_pool
        (record (s.proc 0) { flag = false; pid = 0; status = waiting; time_elapsed = 0 }) in
    record s {
      ring = link_self s.ring 0;
      proc = λ i.
          if i == 0
          then first
          else if ltb i max_proc
          then record (s.proc i) { flag = true }
          else s.proc i;
      current = 0;
    }
