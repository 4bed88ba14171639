-- ===== src/Kernel/Semaphore.antt =====
-- kernel/semaphore.c: the counting semaphore of a process's mailbox.
use yinyang_os.Base.{ℕ, ◌+◌, ◌-◌, true, ◌==◌, leb, if◌then◌else◌, update, add32, slt32}
use yinyang_os.Kernel.{System, Sem, waiting, sleeping, max_sem_queue, set_sem, set_status}
use yinyang_os.Kernel.Lock.{lock, unlock}

unfoldable pub sem_init : Sem → ℕ → Sem
sem_init sem init_token = record sem { token = init_token; queue_tail = 0 }

-- What `Sem_P` comes to: the token taken, the process asleep at the `int $0x80` by which it gives
-- up the processor, or a write past `queue`.
pub data Waited : Type 0 where
  got : System → Waited
  slept : System → Waited
  queue_full : Waited

-- `Sem_P(&(Proc + owner)->Msg_lock)`. `int $0x80` with 0 in `%eax` sets `need_sched`.
unfoldable pub sem_p : ℕ → System → Waited
sem_p owner s =
    let sem = (s.proc owner).msg_lock in
    if slt32 0 sem.token
    then got (unlock (set_sem (lock s) owner (record sem { token = sem.token - 1 })))
    else if leb max_sem_queue sem.queue_tail
    then queue_full
    else (let queued = set_sem (lock s) owner (record sem {
      queue = update sem.queue sem.queue_tail (s.proc s.current).pid;
      queue_tail = sem.queue_tail + 1;
    }) in
        let off = unlock (set_status queued s.current sleeping) in
        slept (record off { need_sched = true }))

-- `Sem_V(&(Proc + owner)->Msg_lock)`
unfoldable pub sem_v : ℕ → System → System
sem_v owner s =
    let sem = (s.proc owner).msg_lock in
    if sem.queue_tail == 0
    then unlock (set_sem (lock s) owner (record sem { token = add32 sem.token 1 }))
    else (let popped = set_sem (lock s) owner (record sem { queue_tail = sem.queue_tail - 1 }) in
        unlock (set_status popped (sem.queue (sem.queue_tail - 1)) waiting))
