-- ===== src/Message/Near.antt =====
-- What a call of `receive` may come to, against the inbox that the mailbox holds.
use mathlib.Core.Path.{subst, subst₂}
use yinyang_os.Base.{ℕ, ◌+◌, ◌≡◌, ◌≢◌, refl, ◌∙◌, true, List, [], ==_refl, ==_ne, length, map}
use yinyang_os.Kernel.{Mailbox, Sem, System, sleeping, set_mailbox}
use yinyang_os.Kernel.Lock.{lock, unlock}
use yinyang_os.Message.{Received, done, asleep}
use yinyang_os.Message.Inbox.{Inbox, Answer, delivered, blocked}
use yinyang_os.Message.Slots.{IsMailbox}
use yinyang_os.Message.Deposit.{Holds}

abbrev pub mbox : System → Mailbox
mbox s = (s.proc s.current).mailbox

abbrev pub lock_of : System → Sem
lock_of s = (s.proc s.current).msg_lock

-- The same process runs, and the other processes are as they were.
pub record Same (s t : System) : Type 0 where
  pub current : t.current ≡ s.current
  pub others : (q : ℕ) → q ≢ s.current → t.proc q ≡ s.proc q

-- The receiver is put into the queue of its semaphore, behind what `s` has there.
pub record FallsAsleep (s t : System) : Type 0 where
  pub status : (t.proc s.current).status ≡ sleeping
  pub tail : (t.proc s.current).msg_lock.queue_tail ≡ (lock_of s).queue_tail + 1
  pub entry : (t.proc s.current).msg_lock.queue (lock_of s).queue_tail ≡ (s.proc s.current).pid
  pub yields : t.need_sched ≡ true

-- The mailbox holds the inbox, with a token in the semaphore for each message that has arrived.
pub record Ready (s : System) (p : ℕ) (b : Inbox) : Type 0 where
  pub holds : Holds (s.proc p).mailbox b
  pub tokens : (s.proc p).msg_lock.token ≡ length b.arrived

abbrev pub Meets : System → Received → Answer → Type 0
Meets s (done m t) (delivered n b) = (m ≡ n) × Ready t s.current b × Same s t
Meets s (asleep t) (blocked b) = FallsAsleep s t × Ready t s.current b × Same s t
Meets s _ _ = ⊥

abbrev pub inbox_of : Mailbox → List ℕ → List ℕ → Inbox
inbox_of mb recs igns = record { arrived = map mb.msg recs; ignored = map mb.msg igns }

pub Holds-inbox_of :
    (mb : Mailbox) (recs igns : List ℕ)
    → IsMailbox mb [] recs igns
    → Holds mb (inbox_of mb recs igns)
Holds-inbox_of mb recs igns v = record {
  recs = recs;
  igns = igns;
  valid = v;
  arrived = refl;
  ignored = refl;
}

pub Same-refl : (s : System) → Same s s
Same-refl s = record { current = refl; others = λ q ne. refl }

pub Same-trans : (s t u : System) → Same s t → Same t u → Same s u
Same-trans s t u a b = record {
  current = b.current ∙ a.current;
  others = λ q ne. b.others q (λ e. ne (e ∙ a.current)) ∙ a.others q ne;
}

-- Little happens from `s` to `t`: only the mailbox and the tokens of the running process change.
pub record Near (s t : System) : Type 0 where
  pub same : Same s t
  pub pid : (t.proc t.current).pid ≡ (s.proc s.current).pid
  pub tail : (lock_of t).queue_tail ≡ (lock_of s).queue_tail

pub set_mailbox-Near :
    (s : System) (mb : Mailbox) → Near s (unlock (set_mailbox (lock s) s.current mb))
set_mailbox-Near s mb = record {
  same = record { current = refl; others = λ q ne. rw (==_ne q s.current ne) };
  pid = rw (==_refl s.current);
  tail = rw (lock_of, ==_refl s.current);
}

pub FallsAsleep-trans : (s t u : System) → Near s t → FallsAsleep t u → FallsAsleep s u
FallsAsleep-trans s t u near nap = record {
  status = subst (λ c. (u.proc c).status ≡ sleeping) near.same.current nap.status;
  tail =
      subst₂ (λ c k. (u.proc c).msg_lock.queue_tail ≡ k + 1) near.same.current near.tail nap.tail;
  entry =
      subst₂ (λ c k. (u.proc c).msg_lock.queue k ≡ (s.proc s.current).pid) near.same.current
        near.tail (nap.entry ∙ near.pid);
  yields = nap.yields;
}

-- What holds of a call from `t` holds from `s`, if little has happened between the two.
pub Meets-trans : (s t : System) (r : Received) (a : Answer) → Near s t → Meets t r a → Meets s r a
Meets-trans s t (done m u) (delivered n b) near (e, ready, later) =
    (e, subst (λ c. Ready u c b) near.same.current ready, Same-trans s t u near.same later)
Meets-trans s t (asleep u) (blocked b) near (nap, ready, later) = (
  FallsAsleep-trans s t u near nap,
  subst (λ c. Ready u c b) near.same.current ready,
  Same-trans s t u near.same later,
)
Meets-trans s t _ _ near h = absurd h
