-- ===== src/Message/Slots.antt =====
-- The invariant of a mailbox: which slots of its pool stand in the two rings of kernel/message.c,
-- kept by every move of a message between them.
use yinyang_os.Base.{
  ℕ, ◌<◌, ◌≡◌, sym, ap, ◌∙◌, ==_refl, true, false, not, List, [], ◌∷◌, ◌++◌, Option, none, some,
  arith, ◌==◌, has, Distinct, Apart, has-append, has-middle, has-snoc, snoc-Distinct, append_assoc,
  Distinct-append_iff, Distinct-middle, middle-Distinct,
}
use yinyang_os.Ring.{Links}
use yinyang_os.Ring.Queue.{
  IsQueue, SameOutside, IsQueue-frame, enqueue-IsQueue, enqueue-SameOutside, dequeue-IsQueue,
  dequeue-SameOutside, unlink-IsQueue, unlink-SameOutside,
}
use yinyang_os.Kernel.{Mailbox, Message, max_message_pool}
use yinyang_os.Message.{put_message, take_ignored, take_arrived, ignore, release}

-- The slots `recs` and `igns` stand in the two rings, oldest first; those of `held` are between
-- a ring and the receiver. All other slots of the pool are marked unused, and only they.
pub record IsMailbox (mb : Mailbox) (held recs igns : List ℕ) : Type 0 where
  pub rec_queue : IsQueue mb.links mb.msg_rec recs
  pub ign_queue : IsQueue mb.links mb.msg_ign igns
  pub distinct : Distinct (held ++ recs ++ igns)
  pub in_pool : (i : ℕ) → has i (held ++ recs ++ igns) ≡ true → i < max_message_pool
  pub used : (i : ℕ) → i < max_message_pool → mb.flag i ≡ not (has i (held ++ recs ++ igns))

-- A queue that shares no node with what changed stays as it is.
other-IsQueue :
    (l m : Links) (o : Option ℕ) (xs ys : List ℕ)
    → SameOutside ys l m
    → Apart xs ys
    → IsQueue l o xs
    → IsQueue m o xs
other-IsQueue l m o xs ys same apart q = IsQueue-frame l m o xs (λ b i. same b (apart b i)) q

-- The pointer of a queue that is not empty is its oldest node.
pub head_eq : (l : Links) (o : Option ℕ) (x : ℕ) (xs : List ℕ) → IsQueue l o (x ∷ xs) → o ≡ some x
head_eq l none x xs q = elim q [ ]
head_eq l (some h) x xs q = ap some q.0

-- The oldest arrived message leaves its ring.
pub take_arrived-IsMailbox :
    (mb : Mailbox) (p : ℕ) (recs igns : List ℕ)
    → IsMailbox mb [] (p ∷ recs) igns
    → mb.msg_rec ≡ some p
    → IsMailbox (take_arrived mb p) (p ∷ []) recs igns
unfolding take_arrived
take_arrived-IsMailbox mb p recs igns v e =
    let (front, back, apart) = Distinct-append_iff (p ∷ recs) igns v.distinct in
    let q : IsQueue mb.links (some p) (p ∷ recs) = rw e at v.rec_queue in
    record {
      rec_queue = dequeue-IsQueue mb.links p recs q front;
      ign_queue =
          other-IsQueue mb.links _ mb.msg_ign igns (p ∷ recs)
            (dequeue-SameOutside mb.links p recs q) (λ b i. ground (arith, apart b)) v.ign_queue;
      distinct = v.distinct;
      in_pool = v.in_pool;
      used = v.used;
    }

-- A message that is not wanted joins the ignored ones.
pub ignore-IsMailbox :
    (mb : Mailbox) (p : ℕ) (recs igns : List ℕ)
    → IsMailbox mb (p ∷ []) recs igns
    → IsMailbox (ignore mb p) [] recs (igns ++ p ∷ [])
unfolding ignore
ignore-IsMailbox mb p recs igns v =
    let (front, back, apart) = Distinct-append_iff recs igns v.distinct.1 in
    let fresh : has p igns ≡ false = ground (arith, v.distinct.0, has-append p recs igns) in
    let e : recs ++ (igns ++ p ∷ []) ≡ (recs ++ igns) ++ p ∷ [] =
      sym (append_assoc recs igns (p ∷ [])) in
    record {
      rec_queue =
          other-IsQueue mb.links _ mb.msg_rec recs (p ∷ igns)
            (enqueue-SameOutside mb.links mb.msg_ign igns p v.ign_queue)
            (λ b i. ground (arith, apart b, has-append p recs igns)) v.rec_queue;
      ign_queue = enqueue-IsQueue mb.links mb.msg_ign igns p v.ign_queue back fresh;
      distinct = rw e (snoc-Distinct p (recs ++ igns) v.distinct.0 v.distinct.1);
      in_pool = λ i. rw (e, has-snoc i p (recs ++ igns)) (v.in_pool i);
      used = λ i. rw (e, has-snoc i p (recs ++ igns)) (v.used i);
    }

-- The slot of a delivered message is marked unused.
pub release-IsMailbox :
    (mb : Mailbox) (p : ℕ) (recs igns : List ℕ)
    → IsMailbox mb (p ∷ []) recs igns
    → IsMailbox (release mb p) [] recs igns
unfolding release
release-IsMailbox mb p recs igns v = record {
  rec_queue = v.rec_queue;
  ign_queue = v.ign_queue;
  distinct = v.distinct.1;
  in_pool = λ i h. v.in_pool i (ground arith);
  used = λ i h. ground (arith, v.used i, v.distinct.0);
}

-- A new message joins the arrived ones.
pub put_message-IsMailbox :
    (mb : Mailbox) (n : ℕ) (m : Message) (recs igns : List ℕ)
    → IsMailbox mb [] recs igns
    → n < max_message_pool
    → has n (recs ++ igns) ≡ false
    → IsMailbox (put_message mb n m) [] (recs ++ n ∷ []) igns
unfolding put_message
put_message-IsMailbox mb n m recs igns v small fresh =
    let (front, back, apart) = Distinct-append_iff recs igns v.distinct in
    let out : has n recs ≡ false = ground (arith, has-append n recs igns) in
    let e : (recs ++ n ∷ []) ++ igns ≡ recs ++ n ∷ igns = append_assoc recs (n ∷ []) igns in
    record {
      rec_queue = enqueue-IsQueue mb.links mb.msg_rec recs n v.rec_queue front out;
      ign_queue =
          other-IsQueue mb.links _ mb.msg_ign igns (n ∷ recs)
            (enqueue-SameOutside mb.links mb.msg_rec recs n v.rec_queue)
            (λ b i. ground (arith, apart b, has-append n recs igns)) v.ign_queue;
      distinct = rw e (middle-Distinct n recs igns (fresh, v.distinct));
      in_pool = λ i. rw e (λ h. ground (arith, v.in_pool i, has-middle i n recs igns));
      used = λ i h. rw (e, has-middle i n recs igns) (ground (arith, v.used i));
    }

-- An ignored message that is wanted leaves its ring: the head of the ring,
take_first-IsMailbox :
    (mb : Mailbox) (p : ℕ) (recs ys : List ℕ)
    → IsMailbox mb [] recs (p ∷ ys)
    → mb.msg_ign ≡ some p
    → IsMailbox (take_ignored mb p) (p ∷ []) recs ys
unfolding take_ignored
take_first-IsMailbox mb p recs ys v e =
    let (front, back, apart) = Distinct-append_iff recs (p ∷ ys) v.distinct in
    let q : IsQueue mb.links (some p) (p ∷ ys) = rw e at v.ign_queue in
    rw (e, ==_refl p)
      record {
        rec_queue =
            other-IsQueue mb.links _ mb.msg_rec recs (p ∷ ys) (dequeue-SameOutside mb.links p ys q)
              apart v.rec_queue;
        ign_queue = dequeue-IsQueue mb.links p ys q back;
        distinct = Distinct-middle p recs ys v.distinct;
        in_pool = λ i h. v.in_pool i (has-middle i p recs ys ∙ h);
        used = λ i h. v.used i h ∙ ap not (has-middle i p recs ys);
      }

-- or a later one.
take_later-IsMailbox :
    (mb : Mailbox) (h p : ℕ) (recs xs ys : List ℕ)
    → IsMailbox mb [] recs (h ∷ xs ++ p ∷ ys)
    → mb.msg_ign ≡ some h
    → IsMailbox (take_ignored mb p) (p ∷ []) recs (h ∷ xs ++ ys)
unfolding take_ignored
take_later-IsMailbox mb h p recs xs ys v e =
    let (front, back, apart) = Distinct-append_iff recs (h ∷ xs ++ p ∷ ys) v.distinct in
    let q : IsQueue mb.links (some h) (h ∷ xs ++ p ∷ ys) = rw e at v.ign_queue in
    let ne : (p == h) ≡ false = ground (arith, has-middle h p xs ys) in
    let move : (recs ++ h ∷ xs) ++ p ∷ ys ≡ recs ++ (h ∷ xs ++ p ∷ ys) =
      append_assoc recs (h ∷ xs) (p ∷ ys) in
    let back' : (recs ++ h ∷ xs) ++ ys ≡ recs ++ (h ∷ xs ++ ys) = append_assoc recs (h ∷ xs) ys in
    let same = λ (i : ℕ). rw (move, back') at (has-middle i p (recs ++ h ∷ xs) ys) in
    rw (e, ne)
      record {
        rec_queue =
            other-IsQueue mb.links _ mb.msg_rec recs (h ∷ xs ++ p ∷ ys)
              (unlink-SameOutside mb.links h p xs ys q) apart v.rec_queue;
        ign_queue = unlink-IsQueue mb.links h p xs ys q back;
        distinct = rw back' at (Distinct-middle p (recs ++ h ∷ xs) ys (rw move v.distinct));
        in_pool = λ i j. v.in_pool i (same i ∙ j);
        used = λ i j. v.used i j ∙ ap not (same i);
      }

pub take_ignored-IsMailbox :
    (mb : Mailbox) (p : ℕ) (recs xs ys : List ℕ)
    → IsMailbox mb [] recs (xs ++ p ∷ ys)
    → IsMailbox (take_ignored mb p) (p ∷ []) recs (xs ++ ys)
take_ignored-IsMailbox mb p recs [] ys v =
    take_first-IsMailbox mb p recs ys v (head_eq mb.links mb.msg_ign p ys v.ign_queue)
take_ignored-IsMailbox mb p recs (h ∷ xs) ys v =
    take_later-IsMailbox mb h p recs xs ys v
      (head_eq mb.links mb.msg_ign h (xs ++ p ∷ ys) v.ign_queue)
