-- ===== src/Message/Search.antt =====
-- The first part of `receive`: the walk round the ring of ignored messages finds the oldest one
-- that is wanted.
use yinyang_os.Base.{
  ℕ, zero, suc, ◌≤◌, ◌<◌, ◌≡◌, refl, false, List, [], ◌∷◌, Option, none, some, arith, ==_ne,
  Bool-cases, Distinct, Distinct-append_iff, inl, inr, has, length, length-append,
}
use yinyang_os.Ring.Linked.{Linked}
use yinyang_os.Ring.Queue.{IsQueue}
use yinyang_os.Kernel.{Mailbox, max_message_pool}
use yinyang_os.Message.{Found, slot, missing, wants, search_from, search_ignored}
use yinyang_os.Message.Slots.{IsMailbox}
use yinyang_os.Message.Deposit.{slots-le}
use yinyang_os.Split.{Split, pass_over, split_first}

abbrev pub found_of : Option (Split ℕ) → Found
found_of none = missing
found_of (some s) = slot s.hit

found_of-pass_over : (z : ℕ) (o : Option (Split ℕ)) → found_of (pass_over z o) ≡ found_of o
found_of-pass_over z none = refl
found_of-pass_over z (some s) = refl

-- The loop, entered behind `a`, with enough fuel for the nodes `zs` before the head.
search_from_lem :
    (f pid : ℕ) (mb : Mailbox) (h a : ℕ) (zs : List ℕ)
    → Linked mb.links a zs h
    → has h zs ≡ false
    → length zs < f
    → search_from f pid mb h (mb.links.next a)
      ≡ found_of (split_first (λ i. wants pid (mb.msg i)) zs)
unfolding search_from split_first
search_from_lem zero pid mb h a zs l out fuel = absurd (omega arith)
search_from_lem (suc f) pid mb h a [] l out fuel = ground arith
search_from_lem (suc f) pid mb h a (z ∷ zs) l out fuel = elim (Bool-cases (wants pid (mb.msg z))) [
  | inl hit ↦ rw (l.0, hit) (ground arith)
  | inr miss ↦
      rw (l.0, ==_ne z h (ground arith), miss, found_of-pass_over)
        (search_from_lem f pid mb h z zs l.2 (ground arith) (omega arith))
]

search_queue :
    (pid : ℕ) (mb : Mailbox) (o : Option ℕ) (igns : List ℕ)
    → mb.msg_ign ≡ o
    → IsQueue mb.links o igns
    → Distinct igns
    → length igns ≤ max_message_pool
    → search_ignored pid mb ≡ found_of (split_first (λ i. wants pid (mb.msg i)) igns)
unfolding search_ignored split_first
search_queue pid mb none [] e q d few = rw e
search_queue pid mb none (x ∷ xs) e q d few = elim q [ ]
search_queue pid mb (some h) [] e q d few = elim q [ ]
search_queue pid mb (some h) (x ∷ xs) e q d few = elim (Bool-cases (wants pid (mb.msg x))) [
  | inl hit ↦ rw (e, q.0, hit)
  | inr miss ↦
      rw (e, q.0, miss, found_of-pass_over)
        (search_from_lem max_message_pool pid mb x x xs q.1 d.0 (omega arith))
]

-- The ignored messages are searched from the oldest on, and the search ends.
pub search_ignored_lem :
    (pid : ℕ) (mb : Mailbox) (recs igns : List ℕ)
    → IsMailbox mb [] recs igns
    → search_ignored pid mb ≡ found_of (split_first (λ i. wants pid (mb.msg i)) igns)
search_ignored_lem pid mb recs igns v =
    search_queue pid mb mb.msg_ign igns refl v.ign_queue
      (Distinct-append_iff recs igns v.distinct).1
      (omega (arith, slots-le mb recs igns v, length-append recs igns))
