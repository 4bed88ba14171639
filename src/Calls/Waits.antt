-- ===== src/Calls/Waits.antt =====
-- `waitpid` and `exit`, from the library over the system calls to the process manager and back.
use yinyang_os.Base.{
  ==_ne, ◌≢◌, if◌then◌else◌, Bool, Bool-cases, ==_iff, ==_refl, ℕ, ◌&&◌, ◌==◌, List, [], ◌∷◌, ◌≡◌,
  ◌<◌, ◌⊎◌, arith, inl, inr, ltb, refl, true, false, suc, zero,
}
use yinyang_os.Kernel.{Message, System, sleeping}
use yinyang_os.Ring.{Links, unlink}
use yinyang_os.Memory.{finished}
use yinyang_os.Memory.Space.{exit_page}
use yinyang_os.Process.{leave_ring}
use yinyang_os.Waiters.{Waiter, add_waiter, sleep}
use yinyang_os.Waiters.Wake.{count, add_waiter_lem, tally, wake_up_lem}
use yinyang_os.Calls.{
  Servers, Talk, TrapFrame, asks, eax, exit, int_handle, panic, result, runs, sends, changes,
  overrun, syscall_1, waitpid,
}
use yinyang_os.Calls.Serving.{
  Manager, Spaces, answered, memory_management, and_then, answer, exit_uthread, process_management,
  send_all, wake_up_talk,
}

-- Among the messages that are sent before another answer is needed, one goes to `pid` and answers
-- it with `value`.
unfoldable pub Answers : {A : Type 0} → (pid value : ℕ) → Talk A → Type 0
Answers pid value (result a) = ⊥
Answers pid value (sends d m t) =
    ((d ≡ pid) × (m.kind ≡ answer) × (m.w2 ≡ value)) ⊎ Answers pid value t
Answers pid value (asks d m k) = ⊥
Answers pid value (runs k f) = ⊥
Answers pid value (changes f t) = ⊥
Answers pid value overrun = ⊥

tally-none :
    (test : Waiter → Bool) (n : ℕ) (q : ℕ → Waiter)
    → ((j : ℕ) → j < n → test (q j) ≡ false)
    → tally test n q ≡ 0
unfolding tally
tally-none test zero q out = refl
tally-none test (suc n) q out =
    let e = out n (omega arith) in
    let r = tally-none test n q (λ j l. out j (omega arith)) in rw (e, r)

-- The waiter `pid` for `wait_for`.
abbrev is_waiter : (pid wait_for : ℕ) → Waiter → Bool
is_waiter pid wait_for e = (e.pid == pid) && (e.wait_for == wait_for)

send_all-Answers :
    {A : Type 0} (pid wait_for value : ℕ) (es : List Waiter) (m : Message) (t : Talk A)
    → m.kind ≡ answer
    → m.w2 ≡ value
    → 0 < count (is_waiter pid wait_for) es
    → Answers pid value (send_all es m t)
unfolding send_all count Answers
send_all-Answers pid wait_for value [] m t k w some_one = absurd (omega arith)
send_all-Answers pid wait_for value (e ∷ es) m t k w some_one = elim (Bool-cases (e.pid == pid)) [
  | inl h ↦ inl ((==_iff e.pid pid).0 h, k, w)
  | inr h ↦ inr (send_all-Answers pid wait_for value es m t k w (ground arith))
]

-- Everybody who waits for `pid` is answered.
wake_up_talk-Answers :
    (waiter pid code : ℕ) (s : Manager)
    → 0 < tally (is_waiter waiter pid) s.waiters.wq_ptr s.waiters.queue
    → Answers waiter code (wake_up_talk pid code s)
unfolding wake_up_talk
wake_up_talk-Answers waiter pid code s waits =
    let x = wake_up_lem pid s.waiters in
    let nobody =
      tally-none (is_waiter waiter pid) x.after.wq_ptr x.after.queue
        (λ j l. let n = x.nobody j l in ground arith) in
    let total = x.total (is_waiter waiter pid) in
    let m = record s.wake_message { kind = answer; w2 = code } in
    rw (wake_up_talk, x.result)
      (send_all-Answers waiter pid code x.woken m
        (result (record s { waiters = x.after; wake_message = m })) refl refl (omega arith))

-- On the message `m`, whoever it comes from, the memory manager runs `exit_page` for `pid` and
-- answers.
abbrev pub Frees : (pid : ℕ) → Message → Type 0
Frees pid m =
    (pagedir : ℕ → ℕ) (sp : Spaces) (src dest : ℕ)
    → memory_management pagedir (record m { src = src; dest = dest }) sp
      ≡ finished (
          sends src (record m { src = src; dest = dest; kind = answer })
            (result (record sp { store = exit_page (pagedir pid) sp.store })))

-- The entry of `pid` is free and asleep, its neighbours in the ring are linked to one another, and
-- nothing else in the table or the ring changes.
abbrev pub Gone : (pid : ℕ) → (System → System) → Type 0
Gone pid change =
    (y : System)
    → (((change y).proc pid).flag ≡ true)
      × (((change y).proc pid).status ≡ sleeping)
      × ((q : ℕ) → q ≢ pid → (change y).proc q ≡ y.proc q)
      × ((q : ℕ)
          → (change y).ring.next q
            ≡ (if q == y.ring.prev pid then y.ring.next pid else y.ring.next q))
      × ((q : ℕ)
          → (change y).ring.prev q
            ≡ (if q == y.ring.next pid then y.ring.prev pid else y.ring.prev q))

unlink-next :
    (l : Links) (p q : ℕ) → (unlink l p).next q ≡ (if q == l.prev p then l.next p else l.next q)
unfolding unlink
unlink-next l p q = elim (Bool-cases (p == l.next p)) [ inl h ↦ rw h | inr h ↦ rw h ]

leave_ring-Gone : (pid : ℕ) → Gone pid (λ y. leave_ring pid y)
unfolding leave_ring unlink
leave_ring-Gone pid y = (
  rw (==_refl pid),
  rw (==_refl pid),
  λ q ne. (let e = ==_ne q pid ne in rw e),
  λ q. unlink-next y.ring pid q,
  λ q. refl,
)

-- What the waiter's message and the exiting process's message lead to.
pub record Waited (v : Servers) (mm waiter pid code : ℕ) (m m' : Message) (r r' : TrapFrame)
    (s : Manager) : Type 0 where
  pub wait_message : Message
  pub exit_message : Message
  pub waiting : Manager
  pub change : System → System
  pub asked : Message
  pub then_wake : Message → Talk Manager
  pub calls_wait :
      int_handle v waiter m (waitpid pid r) ≡ asks v.pm wait_message (λ a. result (eax a.w2))
  pub sleeps : process_management mm wait_message s ≡ result waiting
  pub calls_exit : int_handle v pid m' (exit code r') ≡ asks v.pm exit_message (λ a. result panic)
  pub leaves : process_management mm exit_message waiting ≡ changes change (asks mm asked then_wake)
  pub gone : Gone pid change
  pub frees : Frees pid asked
  pub answers : (a : Message) → Answers waiter code (then_wake a)

-- With fewer than 32 processes that wait, `waitpid(pid)` of the process `waiter` asks the process
-- manager, which lets it wait. When `pid` calls `exit(code)` after that, the manager first takes it out
-- of the ring and frees its entry, then sends the memory manager a message on which that
-- runs `exit_page` on the directory of `pid`, and after any answer sends `waiter` one in which `waitpid` finds `code`.
pub waitpid-exit :
    (v : Servers) (mm waiter pid code : ℕ) (m m' : Message) (r r' : TrapFrame) (s : Manager)
    → s.waiters.wq_ptr < 32
    → Waited v mm waiter pid code m m' r r' s
unfolding int_handle waitpid exit syscall_1 process_management exit_uthread and_then sleep
    leave_ring memory_management answered
waitpid-exit v mm waiter pid code m m' r r' s room =
    let s1 = record s { waiters = add_waiter waiter pid s.waiters } in
    let fits : ltb s.waiters.wq_ptr 32 ≡ true = ground arith in
    record {
      wait_message = record m { kind = 0xC2; w1 = waiter; w2 = pid };
      exit_message = record m' { kind = 0xC1; w1 = pid; w2 = code };
      waiting = s1;
      asked = record s.exit_message { kind = 0xB2; w0 = pid };
      then_wake = λ a. wake_up_talk pid code (record s1 { exit_message = a });
      change = λ y. leave_ring pid y;
      gone = leave_ring-Gone pid;
      frees = λ pagedir sp src dest. refl;
      calls_wait = refl;
      sleeps = rw fits;
      calls_exit = refl;
      leaves = refl;
      answers = λ a.
          let one : (is_waiter waiter pid (record { pid = waiter; wait_for = pid })) ≡ true =
            let p = ==_refl waiter in let q = ==_refl pid in ground arith in
          let t = add_waiter_lem waiter pid s.waiters (is_waiter waiter pid) in
          wake_up_talk-Answers waiter pid code (record s1 { exit_message = a })
            (ground (arith, t, one));
    }
