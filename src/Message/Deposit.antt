-- ===== src/Message/Deposit.antt =====
-- `Find_Empty_Message` and `send`.
use yinyang_os.Base.{
  ℕ, zero, suc, ◌+◌, ◌≤◌, ◌<◌, ◌≡◌, ◌≢◌, refl, add32, Option-cases, ap, ◌∙◌, Bool, true, false,
  List, [], ◌∷◌, ◌++◌, none, some, arith, ◌==◌, ==_refl, ==_ne, Bool-cases, inl, inr, if◌then◌else◌,
  has, length, map, map-update, has-append, length-append, length-le_of_below, le-length_of_all,
  sym,
}
use mathlib.Core.List.{map-append}
use mathlib.Core.Path.{ap₂}
use yinyang_os.Kernel.{
  Mailbox, Message, System, Sem, waiting, set_mailbox, max_message_pool, msg_hard_intr,
}
use yinyang_os.Kernel.Lock.{lock, unlock}
use yinyang_os.Kernel.Semaphore.{sem_v}
use yinyang_os.Message.{
  find_empty_from, find_empty_message, put_message, stamp, send, Sent, ok, panic,
}
use yinyang_os.Message.Inbox.{Inbox}
use yinyang_os.Message.Slots.{IsMailbox, put_message-IsMailbox}

-- A slot that the loop finds is in range and unused.
find_empty_from-some :
    (k i : ℕ) (flag : ℕ → Bool) (n : ℕ)
    → find_empty_from k i flag ≡ some n
    → (n < i + k) × (flag n ≡ true)
unfolding find_empty_from
find_empty_from-some zero i flag n e = cc
find_empty_from-some (suc k) i flag n e = ground (arith, find_empty_from-some k (i + 1) flag n)

-- If it finds none, all are in use.
find_empty_from-none :
    (k i : ℕ) (flag : ℕ → Bool)
    → find_empty_from k i flag ≡ none
    → (j : ℕ) → i ≤ j
    → j < i + k
    → flag j ≡ false
unfolding find_empty_from
find_empty_from-none zero i flag e j h l = absurd (omega arith)
find_empty_from-none (suc k) i flag e j h l = elim (Bool-cases (flag i)) [
  | inl unused ↦ absurd (ground arith)
  | inr busy ↦ ground (arith, find_empty_from-none k (i + 1) flag (rw busy at e) j)
]

-- A mailbox holds an inbox: the slots of its two rings, and the messages in them.
pub record Holds (mb : Mailbox) (b : Inbox) : Type 0 where
  pub recs : List ℕ
  pub igns : List ℕ
  pub valid : IsMailbox mb [] recs igns
  pub arrived : map mb.msg recs ≡ b.arrived
  pub ignored : map mb.msg igns ≡ b.ignored

pub length-map {ℓ κ} :
    {A : Type ℓ} {B : Type κ} (f : A → B) (xs : List A) → length (map f xs) ≡ length xs
length-map f [] = refl
length-map f (x ∷ xs) = ap suc (length-map f xs)

module _ (mb : Mailbox) (recs igns : List ℕ) (v : IsMailbox mb [] recs igns) where
  -- The pool has room for 128 messages.
  pub slots-le : length (recs ++ igns) ≤ max_message_pool
  slots-le = length-le_of_below max_message_pool (recs ++ igns) v.distinct v.in_pool

  found_fresh :
      (n : ℕ)
      → find_empty_message mb ≡ some n
      → (n < max_message_pool) × (has n (recs ++ igns) ≡ false)
  unfolding find_empty_message
  found_fresh n e =
      let (small, unused) = find_empty_from-some max_message_pool 0 mb.flag n e in
      ground (arith, v.used n)

  found_none : find_empty_message mb ≡ none → length (recs ++ igns) ≡ max_message_pool
  unfolding find_empty_message
  found_none e =
      let all =
        le-length_of_all max_message_pool (recs ++ igns)
          λ j h. ground (arith, v.used j, find_empty_from-none max_message_pool 0 mb.flag e j) in
      omega (arith, all, slots-le)

sem_v-mailbox : (o q : ℕ) (s : System) → ((sem_v o s).proc q).mailbox ≡ (s.proc q).mailbox
unfolding sem_v
sem_v-mailbox o q s = ground arith

fresh_in :
    (xs ys : List ℕ) (n : ℕ) → has n (xs ++ ys) ≡ false → (has n xs ≡ false) × (has n ys ≡ false)
fresh_in xs ys n h = ground (arith, has-append n xs ys)

put_message-Holds :
    (mb : Mailbox) (n : ℕ) (m : Message) (b : Inbox) (h : Holds mb b)
    → find_empty_message mb ≡ some n
    → Holds (put_message mb n m) (record b { arrived = b.arrived ++ m ∷ [] })
unfolding put_message
put_message-Holds mb n m b h e =
    let (small, fresh) = found_fresh mb h.recs h.igns h.valid n e in
    let (out, apart) = fresh_in h.recs h.igns n fresh in
    record {
      recs = h.recs ++ n ∷ [];
      igns = h.igns;
      valid = put_message-IsMailbox mb n m h.recs h.igns h.valid small fresh;
      arrived =
          map-append _ h.recs (n ∷ [])
          ∙ ap₂ ◌++◌ (map-update mb.msg n m h.recs out ∙ h.arrived)
              (ap (λ x. x ∷ []) (ground arith));
      ignored = map-update mb.msg n m h.igns apart ∙ h.ignored;
    }

abbrev pub Wakes : Sem → Sem → System → Type 0
Wakes before after s =
    if before.queue_tail == 0
    then (after.token ≡ add32 before.token 1) × (after.queue_tail ≡ 0)
    else ((after.token ≡ before.token)
        × (after.queue_tail + 1 ≡ before.queue_tail)
        × ((s.proc (before.queue after.queue_tail)).status ≡ waiting))

sem_v-Wakes :
    (o : ℕ) (s : System) → Wakes (s.proc o).msg_lock ((sem_v o s).proc o).msg_lock (sem_v o s)
unfolding sem_v
sem_v-Wakes o s = elim (Bool-cases ((s.proc o).msg_lock.queue_tail == 0)) [
  | inl idle ↦ rw idle (ground arith)
  | inr somebody ↦ rw somebody (ground arith)
]

abbrev stored : System → ℕ → ℕ → Message → System
stored s pid n m = unlock (set_mailbox (lock s) pid (put_message (s.proc pid).mailbox n m))

-- The message as it is to arrive: it comes from the process that runs, or from the hardware while an
-- interrupt is handled, and it goes to `pid`; the rest is as it was given.
abbrev pub addressed : System → ℕ → Message → Message
addressed s pid m = record {
  src = if s.cpu.enter_interrupt == 1 then msg_hard_intr else (s.proc s.current).pid;
  dest = pid;
  kind = m.kind;
  w0 = m.w0;
  w1 = m.w1;
  w2 = m.w2;
  w3 = m.w3;
}

stamp_lem : (s : System) (pid : ℕ) (m : Message) → stamp s pid m ≡ addressed s pid m
unfolding stamp
stamp_lem s pid m = refl

-- What `send` may come to: the message stands behind those that had arrived, the mailboxes of the
-- other processes are as they were, and a process that slept on the semaphore is woken or a token
-- is added; or the pool is full.
abbrev pub Sends : ℕ → Message → System → Inbox → Sent → Type 0
Sends pid m s b (ok s') =
    Holds (s'.proc pid).mailbox (record b { arrived = b.arrived ++ addressed s pid m ∷ [] })
    × ((q : ℕ) → q ≢ pid → (s'.proc q).mailbox ≡ (s.proc q).mailbox)
    × Wakes (s.proc pid).msg_lock (s'.proc pid).msg_lock s'
Sends pid m s b panic = length b.arrived + length b.ignored ≡ max_message_pool

-- For a mailbox that holds the inbox `b`, `send(pid, m)` puts the message, with the pid of the
-- running process as its source (-128, in an interrupt), `pid` as its destination and the rest as
-- given, behind those that had arrived, leaves the mailboxes of the other processes as they were, and
-- wakes the last process that sleeps on the semaphore or adds a token if there is none; or it panics,
-- and then the pool holds 128 messages.
pub send_lem :
    (pid : ℕ) (m : Message) (s : System) (b : Inbox)
    → Holds (s.proc pid).mailbox b
    → Sends pid m s b (send pid m s)
unfolding send
send_lem pid m s b h = elim (Option-cases (find_empty_message (s.proc pid).mailbox)) [
  | inl e ↦
      rw (e, Sends)
        (omega (
          arith,
          found_none (s.proc pid).mailbox h.recs h.igns h.valid e,
          length-append h.recs h.igns,
          ap length h.arrived,
          ap length h.ignored,
          length-map (s.proc pid).mailbox.msg h.recs,
          length-map (s.proc pid).mailbox.msg h.igns,
        ))
  | inr (n, e) ↦
      let s1 = stored s pid n (stamp s pid m) in
      rw (e, Sends)
        (
          rw (sem_v-mailbox pid pid s1, ==_refl pid, sym (stamp_lem s pid m))
              (put_message-Holds (s.proc pid).mailbox n (stamp s pid m) b h e),
          λ q ne. rw (sem_v-mailbox pid q s1, ==_ne q pid ne),
          rw (==_refl pid) at (sem_v-Wakes pid s1),
        )
]
