-- ===== src/Timer/Behind.antt =====
-- The alarm goes to its place behind the head of the queue.
use yinyang_os.Base.{
  Bool-cases, List, [], arith, false, inl, inr, leb, not, slt32, some, suc, true, zero, ℕ, ◌∙◌, ◌∷◌,
  ◌≡◌, ap, refl, ◌+◌,
}
use yinyang_os.Timer.{Alarm}
use yinyang_os.Timer.Alarms.{Entry}
use yinyang_os.Timer.Insert.{place}
use yinyang_os.Timer.Walk.{
  Inserts, Walking, find_place-end, find_place-next, find_place-stop, less, less-Runs, lessen_ptr,
  lessen_same, slt32-small, stop,
}

next_of :
    (p : ℕ → Alarm) (c e x : Entry) (base : ℕ) (f : ℕ) (xs : List Entry)
    → Walking p c e base f (x ∷ xs)
    → ((less p c e base c.node).next ≡ some x.node)
      × (slt32 (less p c e base e.node).remain_time (less p c e base x.node).remain_time
          ≡ not (leb x.due e.due))
next_of p c e x base f xs w =
    let runs = less-Runs p c e base f (x ∷ xs) w in
    let (a, b) = lessen_ptr p c e base w.time w.runs.2 w.later w.small in
    let tail = runs.4 in (tail.0, slt32-small _ _ c.due e.due x.due b tail.2 w.small tail.3)

pub place-nil : (e : Entry) → place e [] ≡ e ∷ []
unfolding place
place-nil e = refl

pub place-stop :
    (e x : Entry) (xs : List Entry) → leb x.due e.due ≡ false → place e (x ∷ xs) ≡ e ∷ x ∷ xs
unfolding place
place-stop e x xs t = rw (place, t)

pub place-next :
    (e x : Entry) (xs : List Entry) → leb x.due e.due ≡ true → place e (x ∷ xs) ≡ x ∷ place e xs
unfolding place
place-next e x xs t = rw (place, t)

-- One alarm further on, the same holds.
walk_on :
    (p : ℕ → Alarm) (c e x : Entry) (base f : ℕ) (xs : List Entry)
    → Walking p c e base (suc f) (x ∷ xs)
    → leb x.due e.due ≡ true
    → Walking (less p c e base) x e c.due f xs
walk_on p c e x base f xs w t =
    let runs = less-Runs p c e base (suc f) (x ∷ xs) w in
    let (a, b) = lessen_ptr p c e base w.time w.runs.2 w.later w.small in
    record {
      pid = a ∙ w.pid;
      time = b;
      small = w.small;
      later = ground arith;
      fresh = ground (arith, w.fresh);
      distinct = w.distinct.1;
      runs = rw runs.4.0 at runs.4;
      enough = omega (arith, w.enough);
    }

passed :
    (p q : ℕ → Alarm) (c e x : Entry) (base f : ℕ) (xs : List Entry)
    → Walking p c e base (suc f) (x ∷ xs)
    → leb x.due e.due ≡ true
    → Inserts f (less p c e base) x e c.due xs q
    → Inserts (suc f) p c e base (x ∷ xs) q
passed p q c e x base f xs w t ins =
    let (link, test) = next_of p c e x base (suc f) xs w in
    let kept : q c.node ≡ p c.node =
      ins.elsewhere c.node (ground (arith, w.fresh, w.distinct))
      ∙ lessen_same e.node c.node p c.node (ground (arith, w.fresh)) in
    record {
      result = find_place-next f e.node c.node x.node p link (rw t at test) ∙ ins.result;
      runs = rw (place-next e x xs t) (
        refl,
        ap (λ (z : Alarm). z.pid) kept ∙ w.runs.1,
        ap (λ (z : Alarm). base + z.remain_time) kept ∙ w.runs.2,
        w.runs.3,
        (
          ap (λ (z : Alarm). z.next) kept ∙ w.runs.4.0,
          ins.runs.1,
          ins.runs.2,
          ins.runs.3,
          ins.runs.4,
        ),
      );
      elsewhere =
          λ i out. ins.elsewhere i (ground arith) ∙ lessen_same e.node c.node p i (ground arith);
    }

pub insert_behind_lem :
    (f : ℕ) (p : ℕ → Alarm) (c e : Entry) (base : ℕ) (xs : List Entry)
    → Walking p c e base f xs
    → (q : ℕ → Alarm) × Inserts f p c e base xs q
insert_behind_lem zero p c e base xs w = absurd (omega (arith, w.enough))
insert_behind_lem (suc f) p c e base [] w =
    stop p c e base f [] w tt
      (find_place-end f e.node c.node p (less-Runs p c e base (suc f) [] w).4) (place-nil e)
insert_behind_lem (suc f) p c e base (x ∷ xs) w =
    let (link, test) = next_of p c e x base (suc f) xs w in
    elim (Bool-cases (leb x.due e.due)) [
      | inl t ↦
          let (q, ins) =
            insert_behind_lem f (less p c e base) x e c.due xs (walk_on p c e x base f xs w t) in
          (q, passed p q c e x base f xs w t ins)
      | inr t ↦
          stop p c e base f (x ∷ xs) w (ground arith)
            (find_place-stop f e.node c.node x.node p link (rw t at test)) (place-stop e x xs t)
    ]
