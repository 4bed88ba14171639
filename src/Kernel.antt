-- ===== src/Kernel.antt =====
-- The state that the kernel's parts share: the process table with each process's mailbox and
-- semaphore (kernel/include/process.h, message.h, semaphore.h), and the processor's lock state
-- (kernel/lock.c).
pub mod Lock
pub mod Semaphore
pub mod Schedule
pub mod Yield
pub mod RoundRobin
use yinyang_os.Base.{ℕ, ◌+◌, ◌-◌, ◌^◌, Bool, Option, update}
use yinyang_os.Ring.{Links}

-- `pid_t` is an `int`, kept as its bit pattern: `ANY` is -1 and `MSG_HARD_INTR` is -128.
abbrev pub any : ℕ
any = 2 ^ 32 - 1

abbrev pub msg_hard_intr : ℕ
msg_hard_intr = 2 ^ 32 - 128

abbrev pub max_message_pool : ℕ
max_message_pool = 128

abbrev pub max_sem_queue : ℕ
max_sem_queue = 50

abbrev pub max_proc : ℕ
max_proc = 32

-- `struct Message`. The members of its union are four words laid over one another: `int_msg.p1`,
-- `dev_io.pid` and `fm_msg.file_name` are `w0`, `pm_msg.p1` is `w2`, and so on.
pub record Message : Type 0 where
  pub src : ℕ
  pub dest : ℕ
  pub kind : ℕ
  pub w0 : ℕ
  pub w1 : ℕ
  pub w2 : ℕ
  pub w3 : ℕ

-- `Msg_rec_Pool`, `Msg_rec` and `Msg_ign` of a process: the fields of `struct Message_Pool_type`
-- by the index of the slot, and the heads of the two rings through it. `flag` says "unused".
pub record Mailbox : Type 0 where
  pub msg : ℕ → Message
  pub links : Links
  pub flag : ℕ → Bool
  pub msg_rec : Option ℕ
  pub msg_ign : Option ℕ

-- `struct Sem_type`
pub record Sem : Type 0 where
  pub token : ℕ
  pub queue_tail : ℕ
  pub queue : ℕ → ℕ

pub data Status : Type 0 where
  waiting sleeping running : Status

-- `struct PCB`, less its stack and page directory; `next` and `prev` are in `System.ring`.
pub record Pcb : Type 0 where
  pub flag : Bool
  pub status : Status
  pub pid : ℕ
  pub msg_lock : Sem
  pub mailbox : Mailbox
  pub time_elapsed : ℕ

-- `global_lock_counter`, `enter_interrupt`, and the processor's interrupt flag.
pub record Cpu : Type 0 where
  pub lock_counter : ℕ
  pub enter_interrupt : ℕ
  pub interrupts : Bool

-- `Proc`, the links of its entries, `current_pcb`, `need_sched` and the processor. A pointer to a
-- PCB is its index in `Proc`.
pub record System : Type 0 where
  pub proc : ℕ → Pcb
  pub ring : Links
  pub current : ℕ
  pub need_sched : Bool
  pub cpu : Cpu

abbrev pub set_proc : System → ℕ → Pcb → System
set_proc s p c = record s { proc = update s.proc p c }

abbrev pub set_mailbox : System → ℕ → Mailbox → System
set_mailbox s p mb = set_proc s p (record (s.proc p) { mailbox = mb })

abbrev pub set_sem : System → ℕ → Sem → System
set_sem s p sem = set_proc s p (record (s.proc p) { msg_lock = sem })

abbrev pub set_status : System → ℕ → Status → System
set_status s p st = set_proc s p (record (s.proc p) { status = st })
