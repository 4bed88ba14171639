-- ===== src/Message/Rounds.antt =====
-- One round of the loop of `receive`: a slot is delivered, or joins the ignored ones.
use mathlib.Core.List.{map-append}
use mathlib.Core.Path.{subst}
use yinyang_os.Base.{
  ℕ, ◌≡◌, if◌then◌else◌, refl, sym, ap, ◌∙◌, true, false, List, [], ◌∷◌, ◌++◌, Option, none, some,
  ==_refl, ==_ne, Bool-cases, inl, inr, length, append-nil, append_assoc,
}
use yinyang_os.Kernel.{Mailbox, Message, System, set_mailbox}
use yinyang_os.Kernel.Lock.{lock, unlock}
use yinyang_os.Message.{wants, Received, deliver, after_wait, take_arrived, ignore, release}
use yinyang_os.Message.Inbox.{answer, delivered, blocked, receive_arrived}
use yinyang_os.Message.Slots.{IsMailbox, head_eq, take_arrived-IsMailbox, release-IsMailbox}
use yinyang_os.Message.Deposit.{length-map}
use yinyang_os.Message.Near.{
  Holds-inbox_of, Meets, Meets-trans, Near, inbox_of, lock_of, mbox, set_mailbox-Near,
}
use yinyang_os.Split.{Split, pass_over, split_first}

-- Delivering a slot that has left its ring.
pub deliver_lem :
    (p : ℕ) (s : System) (recs igns : List ℕ)
    → IsMailbox (mbox s) (p ∷ []) recs igns
    → (lock_of s).token ≡ length recs
    → Meets s (deliver p s) (delivered ((mbox s).msg p) (inbox_of (mbox s) recs igns))
unfolding deliver release
deliver_lem p s recs igns v tokens = (
  refl,
  record {
    holds =
        rw (==_refl s.current) (
          Holds-inbox_of (release (mbox s) p) recs igns (release-IsMailbox (mbox s) p recs igns v));
    tokens = rw (==_refl s.current) (tokens ∙ sym (length-map (mbox s).msg recs));
  },
  record { current = refl; others = λ q ne. rw (==_ne q s.current ne) },
)

abbrev pub next_round : System → ℕ → System
next_round s p = unlock (set_mailbox (lock s) s.current (ignore (take_arrived (mbox s) p) p))

abbrev pub taken : System → ℕ → System
taken s p = unlock (set_mailbox (lock s) s.current (take_arrived (mbox s) p))

-- `deliver_lem` for a system near by, whose mailbox is known.
pub deliver-Near :
    (p : ℕ) (s t : System) (mb : Mailbox) (recs igns : List ℕ)
    → Near s t
    → mbox t ≡ mb
    → IsMailbox mb (p ∷ []) recs igns
    → (lock_of t).token ≡ length recs
    → Meets s (deliver p t) (delivered (mb.msg p) (inbox_of mb recs igns))
deliver-Near p s t mb recs igns near e v tokens =
    subst (λ m. Meets s (deliver p t) (delivered (m.msg p) (inbox_of m recs igns))) e
      (Meets-trans s t _ _ near (deliver_lem p t recs igns (rw e v) tokens))

pub answer_step :
    (m : Message) (ms ig : List Message) (o : Option (Split Message))
    → answer (record { arrived = m ∷ ms; ignored = ig }) (pass_over m o)
      ≡ answer (record { arrived = ms; ignored = ig ++ m ∷ [] }) o
answer_step m ms ig none =
    ap (λ l. blocked (record { arrived = []; ignored = l })) (sym (append_assoc ig (m ∷ []) ms))
answer_step m ms ig (some k) =
    ap (λ l. delivered k.hit (record { arrived = k.after; ignored = l }))
      (sym (append_assoc ig (m ∷ []) k.before))

pub receive_arrived_miss :
    (pid : ℕ) (m : Message) (ms ig : List Message)
    → wants pid m ≡ false
    → receive_arrived pid (record { arrived = m ∷ ms; ignored = ig })
      ≡ receive_arrived pid (record { arrived = ms; ignored = ig ++ m ∷ [] })
unfolding receive_arrived split_first
receive_arrived_miss pid m ms ig miss =
    rw (miss, answer) (answer_step m ms ig (split_first (wants pid) ms))

pub receive_arrived_hit :
    (pid : ℕ) (m : Message) (ms ig : List Message)
    → wants pid m ≡ true
    → receive_arrived pid (record { arrived = m ∷ ms; ignored = ig })
      ≡ delivered m (record { arrived = ms; ignored = ig })
unfolding receive_arrived split_first
receive_arrived_hit pid m ms ig hit =
    rw (hit, answer) (ap (λ l. delivered m (record { arrived = ms; ignored = l })) (append-nil ig))

pub after_wait-eq :
    (again : System → Received) (pid p : ℕ) (s : System)
    → (mbox s).msg_rec ≡ some p
    → after_wait again pid s
      ≡ (if wants pid ((mbox s).msg p) then deliver p (taken s p) else again (next_round s p))
unfolding after_wait
after_wait-eq again pid p s e = rw (e, after_wait)

pub after_wait_lem :
    (again : System → Received) (pid p : ℕ) (s : System) (recs igns : List ℕ)
    → IsMailbox (mbox s) [] (p ∷ recs) igns
    → (lock_of s).token ≡ length recs
    → (wants pid ((mbox s).msg p) ≡ false
        → Meets s
            (again (next_round s p))
            (receive_arrived pid (inbox_of (mbox s) recs (igns ++ p ∷ []))))
    → Meets s (after_wait again pid s) (receive_arrived pid (inbox_of (mbox s) (p ∷ recs) igns))
unfolding take_arrived
after_wait_lem again pid p s recs igns v tokens ih =
    let head = head_eq (mbox s).links (mbox s).msg_rec p recs v.rec_queue in
    let left = take_arrived-IsMailbox (mbox s) p recs igns v head in
    elim (Bool-cases (wants pid ((mbox s).msg p))) [
      | inl hit ↦
          rw (after_wait-eq again pid p s head, hit, receive_arrived_hit pid _ _ _ hit)
            (deliver-Near p s (taken s p) (take_arrived (mbox s) p) recs igns
              (set_mailbox-Near s (take_arrived (mbox s) p)) (rw (mbox, ==_refl s.current)) left
              (rw (lock_of, ==_refl s.current) tokens))
      | inr miss ↦
          rw (after_wait-eq again pid p s head, miss, receive_arrived_miss pid _ _ _ miss)
            (rw map-append at (ih miss))
    ]
