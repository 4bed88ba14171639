-- ===== src/Message/Loop.antt =====
-- The loop of `receive`: the semaphore, and a round for each message that has arrived.
use mathlib.Core.Path.{subst}
use yinyang_os.Base.{
  ℕ, zero, suc, ◌+◌, ◌<◌, ◌≡◌, refl, sym, ap, ◌∙◌, true, false, List, [], ◌∷◌, ◌++◌, arith, slt32,
  leb, update, ◌-◌, ==_refl, ==_ne, length, length-append, map, append-nil,
}
use yinyang_os.Kernel.{Sem, System, sleeping, max_message_pool, max_sem_queue, set_sem, set_status}
use yinyang_os.Kernel.Lock.{lock, unlock}
use yinyang_os.Kernel.Semaphore.{sem_p, got, slept}
use yinyang_os.Message.{asleep, after_wait, receive_loop, take_arrived, ignore}
use yinyang_os.Message.Inbox.{receive_arrived}
use yinyang_os.Message.Slots.{IsMailbox, head_eq, take_arrived-IsMailbox, ignore-IsMailbox}
use yinyang_os.Message.Deposit.{slots-le}
use yinyang_os.Message.Near.{
  Holds-inbox_of, Meets, Meets-trans, Near, inbox_of, lock_of, mbox, set_mailbox-Near,
}
use yinyang_os.Message.Rounds.{after_wait_lem, next_round}
use yinyang_os.Split.{split_first}

abbrev pub took : System → System
took s = unlock (set_sem (lock s) s.current (record (lock_of s) { token = (lock_of s).token - 1 }))

abbrev pub napping : System → System
napping s =
    let sem = lock_of s in
    let queued = set_sem (lock s) s.current (record sem {
      queue = update sem.queue sem.queue_tail (s.proc s.current).pid;
      queue_tail = sem.queue_tail + 1;
    }) in
    record (unlock (set_status queued s.current sleeping)) { need_sched = true }

pub sem_p-got :
    (s : System) (k : ℕ)
    → (lock_of s).token ≡ suc k
    → k < max_message_pool
    → sem_p s.current s ≡ got (took s)
unfolding sem_p
sem_p-got s k e small = let test : slt32 0 (lock_of s).token ≡ true = ground arith in rw test

pub sem_p-slept :
    (s : System)
    → (lock_of s).token ≡ 0
    → (lock_of s).queue_tail < max_sem_queue
    → sem_p s.current s ≡ slept (napping s)
unfolding sem_p
sem_p-slept s e room =
    let test : slt32 0 (lock_of s).token ≡ false = ground arith in
    let free : leb max_sem_queue (lock_of s).queue_tail ≡ false = ground arith in rw (test, free)

pub took-Near : (s : System) → Near s (took s)
took-Near s = record {
  same = record { current = refl; others = λ q ne. rw (==_ne q s.current ne) };
  pid = rw (==_refl s.current);
  tail = rw (lock_of, ==_refl s.current);
}

pub receive_loop-got :
    (f pid : ℕ) (s t : System)
    → sem_p s.current s ≡ got t
    → receive_loop (suc f) pid s ≡ after_wait (receive_loop f pid) pid t
unfolding receive_loop
receive_loop-got f pid s t e = rw (e, receive_loop)

pub receive_loop-slept :
    (f pid : ℕ) (s t : System) → sem_p s.current s ≡ slept t → receive_loop (suc f) pid s ≡ asleep t
unfolding receive_loop
receive_loop-slept f pid s t e = rw (e, receive_loop)

pub next_round-msg : (s : System) (p : ℕ) → (mbox (next_round s p)).msg ≡ (mbox s).msg
unfolding take_arrived ignore
next_round-msg s p = rw (mbox, ==_refl s.current)

pub next_round-valid :
    (s : System) (p : ℕ) (recs igns : List ℕ)
    → IsMailbox (mbox s) [] (p ∷ recs) igns
    → IsMailbox (mbox (next_round s p)) [] recs (igns ++ p ∷ [])
next_round-valid s p recs igns v =
    let head = head_eq (mbox s).links (mbox s).msg_rec p recs v.rec_queue in
    let left = take_arrived-IsMailbox (mbox s) p recs igns v head in
    rw (mbox, ==_refl s.current) (ignore-IsMailbox (take_arrived (mbox s) p) p recs igns left)

-- One round behind `Sem_P`, and what the loop does after it.
pub after_wait_round :
    (f pid p : ℕ) (s : System) (recs igns : List ℕ)
    → IsMailbox (mbox s) [] (p ∷ recs) igns
    → (lock_of s).token ≡ length recs
    → Meets
        (next_round s p)
        (receive_loop f pid (next_round s p))
        (receive_arrived pid (inbox_of (mbox (next_round s p)) recs (igns ++ p ∷ [])))
    → Meets s
        (after_wait (receive_loop f pid) pid s)
        (receive_arrived pid (inbox_of (mbox s) (p ∷ recs) igns))
after_wait_round f pid p s recs igns v tokens ih =
    after_wait_lem (receive_loop f pid) pid p s recs igns v tokens λ miss.
      subst
        (λ m.
          Meets s (receive_loop f pid (next_round s p)) (
            receive_arrived pid
              (record { arrived = map m recs; ignored = map m (igns ++ p ∷ []) })))
        (next_round-msg s p) (Meets-trans s (next_round s p) _ _ (set_mailbox-Near s _) ih)

pub napping_lem :
    (pid : ℕ) (igns : List ℕ) (s : System)
    → IsMailbox (mbox s) [] [] igns
    → (lock_of s).token ≡ 0
    → Meets s (asleep (napping s)) (receive_arrived pid (inbox_of (mbox s) [] igns))
unfolding receive_arrived split_first
napping_lem pid igns s v tokens = (
  record {
    status = rw (==_refl s.current);
    tail = rw (==_refl s.current);
    entry = rw (==_refl s.current) (rw (==_refl (lock_of s).queue_tail));
    yields = refl;
  },
  record {
    holds =
        rw (==_refl s.current, append-nil (map (mbox s).msg igns))
          (Holds-inbox_of (mbox s) [] igns v);
    tokens = rw (==_refl s.current) tokens;
  },
  record { current = refl; others = λ q ne. rw (==_ne q s.current ne) },
)

pub next_round-lock_of : (s : System) (p : ℕ) → lock_of (next_round s p) ≡ lock_of s
next_round-lock_of s p = rw (lock_of, ==_refl s.current)

pub took-lock_of :
    (s : System) → lock_of (took s) ≡ record (lock_of s) { token = (lock_of s).token - 1 }
took-lock_of s = rw (lock_of, ==_refl s.current)

-- The loop of `receive`, with a round for each message that has arrived and one to fall asleep.
pub receive_loop_lem :
    (f pid : ℕ) (recs igns : List ℕ) (s : System)
    → IsMailbox (mbox s) [] recs igns
    → (lock_of s).token ≡ length recs
    → (lock_of s).queue_tail < max_sem_queue
    → length recs < f
    → Meets s (receive_loop f pid s) (receive_arrived pid (inbox_of (mbox s) recs igns))
receive_loop_lem zero pid recs igns s v tokens room fuel = absurd (omega arith)
receive_loop_lem (suc f) pid [] igns s v tokens room fuel =
    rw (receive_loop-slept f pid s _ (sem_p-slept s tokens room)) (napping_lem pid igns s v tokens)
receive_loop_lem (suc f) pid (p ∷ recs) igns s v tokens room fuel =
    let few : length recs < max_message_pool =
      omega (arith, slots-le (mbox s) (p ∷ recs) igns v, length-append recs igns) in
    let t = took s in
    let same : mbox t ≡ mbox s = rw (mbox, ==_refl s.current) in
    let vt : IsMailbox (mbox t) [] (p ∷ recs) igns = rw same v in
    let sem : lock_of (next_round t p) ≡ record (lock_of s) { token = (lock_of s).token - 1 } =
      next_round-lock_of t p ∙ took-lock_of s in
    let left : (lock_of s).token - 1 ≡ length recs = omega arith in
    let round =
      after_wait_round f pid p t recs igns vt (ap (λ (m : Sem). m.token) (took-lock_of s) ∙ left) (
        receive_loop_lem f pid recs (igns ++ p ∷ []) (next_round t p)
          (next_round-valid t p recs igns vt) (ap (λ (m : Sem). m.token) sem ∙ left)
          (subst (λ (m : Sem). m.queue_tail < max_sem_queue) (sym sem) room) (omega arith)) in
    rw (receive_loop-got f pid s t (sem_p-got s (length recs) tokens few)) (
      subst
        (λ mb.
          Meets s (after_wait (receive_loop f pid) pid t)
            (receive_arrived pid (inbox_of mb (p ∷ recs) igns)))
        same (Meets-trans s t _ _ (took-Near s) round))
