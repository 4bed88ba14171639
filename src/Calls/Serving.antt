-- ===== src/Calls/Serving.antt =====
-- The loops of the servers, one round for the message `m`: `ProcessManagement` of kernel/pm.c,
-- `MemoryManagement` of kernel/mm.c, `FileManagement` of kernel/fm.c and `timer_driver_thread` of
-- kernel/drivers/timer.c.
use yinyang_os.Base.{if◌then◌else◌, none, some, ℕ, ◌==◌, ◌^◌, ◌-◌, List, [], ◌∷◌, update}
use yinyang_os.Kernel.{Message}
use yinyang_os.Process.{leave_ring}
use yinyang_os.Waiters.{Waiter, Waiters, sleep, wake_up}
use yinyang_os.Files.{Request, do_read, do_read_file, do_write}
use yinyang_os.Timer.{Armed, Timer, armed, new_alarm}
use yinyang_os.Memory.{Run, Store, allocate_page, finished, panicked, unfinished}
use yinyang_os.Memory.Space.{copy_page, exec_page, exit_page, free_page}
use yinyang_os.Calls.{
  Talk, asks, create_uthread, exec_uthread, fork_uthread, result, runs, sends, changes, overrun,
}

-- -1 as the type of a message: an answer.
abbrev pub answer : ℕ
answer = 2 ^ 32 - 1

-- The wait queue, and the messages of `Wake_Up` and `Exit_uthread`, which keep
-- what they hold from call to call.
pub record Manager : Type 0 where
  pub waiters : Waiters
  pub wake_message : Message
  pub exit_message : Message

-- `Exit_uthread`, with the pid of the memory manager; the PCB is the pid. The process leaves the ring
-- first, and while the memory manager works others run.
unfoldable pub exit_uthread : (mm pid : ℕ) → Manager → Talk Manager
exit_uthread mm pid s =
    let m = record s.exit_message { kind = 0xB2; w0 = pid } in
    changes (λ y. leave_ring pid y) (asks mm m (λ r. result (record s { exit_message = r })))

unfoldable pub send_all : {A : Type 0} → List Waiter → Message → Talk A → Talk A
send_all [] m t = t
send_all (e ∷ es) m t = sends e.pid m (send_all es m t)

-- `Wake_Up`. The queue is finite, so that `wake_up` has a result.
unfoldable pub wake_up_talk : (pid exitcode : ℕ) → Manager → Talk Manager
wake_up_talk pid exitcode s =
    let m = record s.wake_message { kind = answer; w2 = exitcode } in
    elim (wake_up pid s.waiters) [
      | none ↦ result s
      | some (woken, w) ↦ send_all woken m (result (record s { waiters = w; wake_message = m }))
    ]

unfoldable pub and_then : {A B : Type 0} → Talk A → (A → Talk B) → Talk B
and_then (result a) f = f a
and_then (sends d m t) f = sends d m (and_then t f)
and_then (asks d m k) f = asks d m (λ r. and_then (k r) f)
and_then (runs k g) f = runs k (λ r. and_then (g r) f)
and_then (changes g t) f = changes g (and_then t f)
and_then overrun f = overrun

unfoldable pub process_management : (mm : ℕ) → Message → Manager → Talk Manager
process_management mm m s =
    let sleeps : Talk Manager = elim (sleep m.w1 m.w2 s.waiters) [
      | none ↦ overrun
      | some w ↦ result (record s { waiters = w })
    ] in
    if m.kind == 0xC3
    then runs (fork_uthread m.w1) (λ r. sends m.src (record m { w2 = r; kind = answer }) (result s))
    else if m.kind == 0xC0
    then runs (create_uthread m.w0) (λ r. sends m.src (record m { kind = answer }) (result s))
    else if m.kind == 0xC1
    then and_then (exit_uthread mm m.w1 s) (λ s'. wake_up_talk m.w1 m.w2 s')
    else if m.kind == 0xC2
    then sleeps
    else if m.kind == 0xC4
    then runs (exec_uthread m.w1 m.w0 m.w2) (λ r. result s)
    else result s

-- `do_read_file`, `do_read` and `do_write` with the process for the disk: what they return is `p1` of
-- the answer. `old` is what their message holds from the call before.
unfoldable pub disk_message : Request → (old : Message) → Message
disk_message q old = record old {
  kind = if q.writes then 0x31 else 0x30;
  w0 = q.pid;
  w1 = q.buf;
  w2 = q.offset;
  w3 = q.length;
}

unfoldable pub ask_disk : (ide : ℕ) → Request → (old m : Message) → Talk Message
ask_disk ide q old m =
    asks ide (disk_message q old)
      (λ r. sends m.src (record m { w0 = r.w0; kind = answer }) (result r))

-- `FileManagement`, with the pids of the file manager and of the disk.
unfoldable pub file_management : (fm ide : ℕ) → (old m : Message) → Talk Message
file_management fm ide old m =
    if m.kind == 0xA0
    then ask_disk ide (do_read_file fm m.w0 m.w1 m.w2 m.w3) old m
    else if m.kind == 0xA1
    then ask_disk ide (do_read fm m.w1 m.w2 m.w3) old m
    else if m.kind == 0xA2
    then ask_disk ide (do_write fm m.w1 m.w2 m.w3) old m
    else result old

-- The memory manager's store, and the base in the CR3 of every process.
pub record Spaces : Type 0 where
  pub store : Store
  pub base : ℕ → ℕ

-- The answer behind an operation on the store.
unfoldable pub answered : Message → Spaces → Run Store → Run (Talk Spaces)
answered m s panicked = panicked
answered m s unfinished = unfinished
answered m s (finished store) =
    finished (sends m.src (record m { kind = answer }) (result (record s { store = store })))

unfoldable pub answered_base : (pcb : ℕ) → Message → Spaces → Run (ℕ × Store) → Run (Talk Spaces)
answered_base pcb m s panicked = panicked
answered_base pcb m s unfinished = unfinished
answered_base pcb m s (finished (b, store)) = finished (
    sends m.src (record m { kind = answer })
      (result (record { store = store; base = update s.base pcb b })))

-- `MemoryManagement`, where `pagedir` gives the page directory of a PCB.
unfoldable pub memory_management : (pagedir : ℕ → ℕ) → Message → Spaces → Run (Talk Spaces)
memory_management pagedir m s =
    if m.kind == 0xB0
    then answered m s (allocate_page (pagedir m.w0) m.w2 m.w3 s.store)
    else if m.kind == 0xB1
    then answered m s (free_page (pagedir m.w0) m.w2 m.w3 s.store)
    else if m.kind == 0xB2
    then answered m s (finished (exit_page (pagedir m.w0) s.store))
    else if m.kind == 0xB3
    then answered_base m.w0 m s (copy_page (pagedir m.w1) (pagedir m.w0) s.store)
    else if m.kind == 0xB4
    then answered m s (exec_page (pagedir m.w0) s.store)
    else finished (result s)

-- `timer_driver_thread`, less the lock.
unfoldable pub timer_driver_thread : Message → Timer → Talk Armed
timer_driver_thread m t =
    if m.kind == 0x20
    then result (new_alarm m.w0 m.w1 t)
    else if m.kind == 0x21
    then sends m.w0 (record m { kind = answer }) (result (armed t))
    else result (armed t)
