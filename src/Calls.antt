-- ===== src/Calls.antt =====
-- System calls: `int_handle` of kernel/irq/irq_handle.c, and the functions of lib/oslib.c and
-- lib/syscall.S that lead to it. What a thread does is told by the messages that it exchanges.
pub mod Library
pub mod Serving
pub mod Reach
pub mod Waits
use yinyang_os.Base.{Bool, Option, if◌then◌else◌, none, some, ℕ, ◌==◌, ◌^◌, ◌-◌, List, [], ◌∷◌}
use yinyang_os.Kernel.{Message, System}

-- Functions of kernel/pm.c that a talk calls as a whole.
pub data Task : Type 0 where
  fork_uthread create_uthread : ℕ → Task
  exec_uthread : (pid file_name argv : ℕ) → Task

-- What code does up to an `A`. `asks` is a `send`, and a `receive` from the same process.
pub data Talk (A : Type 0) : Type 0 where
  result : A → Talk A
  sends : (dest : ℕ) → Message → Talk A → Talk A
  asks : (server : ℕ) → Message → (Message → Talk A) → Talk A
  runs : Task → (ℕ → Talk A) → Talk A
  changes : (System → System) → Talk A → Talk A  -- the state that all processes share
  overrun : Talk A  -- a write behind the end of an array

-- The registers in `struct TrapFrame` that system calls use.
pub record TrapFrame : Type 0 where
  pub eax : ℕ
  pub ebx : ℕ
  pub ecx : ℕ

-- `TTY`, `TIMER`, `PM`
pub record Servers : Type 0 where
  pub tty : ℕ
  pub timer : ℕ
  pub pm : ℕ

-- How a system call ends: with a value in `eax`, or with `need_sched` set.
pub data Ending : Type 0 where
  eax : ℕ → Ending
  need_sched : Ending
  panic : Ending

-- `int_handle`, for the pid of the caller and what `m` holds from the call before
unfoldable pub int_handle : Servers → (pid : ℕ) → (m : Message) → TrapFrame → Talk Ending
int_handle v pid m tf =
    if tf.eax == 0
    then result need_sched
    else if tf.eax == 1
    then asks v.tty (record m { kind = 0x30; w0 = pid; w1 = tf.ebx; w3 = tf.ecx })
        (λ r. result (eax r.w0))
    else if tf.eax == 2
    then asks v.tty (record m { kind = 0x31; w0 = pid; w1 = tf.ebx; w3 = tf.ecx })
        (λ r. result (eax r.w0))
    else if tf.eax == 3
    then asks v.timer (record m { kind = 0x20; w0 = pid; w1 = tf.ebx }) (λ r. result (eax 0))
    else if tf.eax == 4
    then asks v.pm (record m { kind = 0xC1; w1 = pid; w2 = tf.ebx }) (λ r. result panic)
    else if tf.eax == 5
    then result (eax pid)
    else if tf.eax == 6
    then asks v.pm (record m { kind = 0xC2; w1 = pid; w2 = tf.ebx }) (λ r. result (eax r.w2))
    else if tf.eax == 7
    then asks v.pm (record m { kind = 0xC3; w1 = pid }) (λ r. result (eax r.w2))
    else if tf.eax == 8
    then asks v.pm (record m { kind = 0xC4; w0 = tf.ebx; w1 = pid; w2 = tf.ecx })
        (λ r. result panic)
    else result panic

-- The registers at `int $0x80`: `syscall_0`, `syscall_1` and `syscall_2` load their arguments and
-- leave the others.
unfoldable pub syscall_0 : (id : ℕ) → TrapFrame → TrapFrame
syscall_0 id r = record r { eax = id }

unfoldable pub syscall_1 : (id p1 : ℕ) → TrapFrame → TrapFrame
syscall_1 id p1 r = record r { eax = id; ebx = p1 }

unfoldable pub syscall_2 : (id p1 p2 : ℕ) → TrapFrame → TrapFrame
syscall_2 id p1 p2 r = record { eax = id; ebx = p1; ecx = p2 }

unfoldable pub read : (buf length : ℕ) → TrapFrame → TrapFrame
read buf length r = syscall_2 1 buf length r

unfoldable pub write : (buf length : ℕ) → TrapFrame → TrapFrame
write buf length r = syscall_2 2 buf length r

unfoldable pub fork : TrapFrame → TrapFrame
fork r = syscall_0 7 r

unfoldable pub waitpid : (pid : ℕ) → TrapFrame → TrapFrame
waitpid pid r = syscall_1 6 pid r

unfoldable pub getpid : TrapFrame → TrapFrame
getpid r = syscall_0 5 r

unfoldable pub exit : (exit_code : ℕ) → TrapFrame → TrapFrame
exit exit_code r = syscall_1 4 exit_code r

unfoldable pub sleep : (time : ℕ) → TrapFrame → TrapFrame
sleep time r = syscall_1 3 time r

-- Line 63 of oslib.c: `execv` with its arguments packed at `argv_buf`.
unfoldable pub exec_call : (file_name argv_buf : ℕ) → TrapFrame → TrapFrame
exec_call file_name argv_buf r = syscall_2 8 file_name argv_buf r
