-- ===== src/Ring/Linked.antt =====
-- Paths through the links, and what linking and unlinking do to them.
use yinyang_os.Base.{
  ℕ, ◌≡◌, ◌≢◌, true, false, ◌||◌, List, [], ◌∷◌, ◌++◌, arith, ◌==◌, has, Distinct,
}
use yinyang_os.Ring.{Links, link_before, unlink}

-- From `a` the links lead through `xs` to `z`, and back.
abbrev pub Linked : Links → ℕ → List ℕ → ℕ → Type 0
Linked l a [] z = (l.next a ≡ z) × (l.prev z ≡ a)
Linked l a (x ∷ xs) z = (l.next a ≡ x) × (l.prev x ≡ a) × Linked l x xs z

pub prev-mem :
    (l : Links) (a : ℕ) (xs : List ℕ) (z : ℕ) → Linked l a xs z → has (l.prev z) (a ∷ xs) ≡ true
prev-mem l a [] z h = ground arith
prev-mem l a (x ∷ xs) z h = ground (arith, prev-mem l x xs z h.2)

-- A path survives a change elsewhere.
pub frame :
    (l m : Links) (a : ℕ) (xs : List ℕ) (z : ℕ)
    → ((b : ℕ) → has b (a ∷ xs) ≡ true → m.next b ≡ l.next b)
    → ((b : ℕ) → (b == z) || has b xs ≡ true → m.prev b ≡ l.prev b)
    → Linked l a xs z
    → Linked m a xs z
frame l m a [] z n p h = ground (arith, n a, p z)
frame l m a (x ∷ xs) z n p h = (
  ground (arith, n a),
  ground (arith, p x),
  frame l m x xs z (λ b i. ground (arith, n b)) (λ b i. ground (arith, p b)) h.2,
)

pub link_before-Linked :
    (l : Links) (h n a : ℕ) (xs : List ℕ)
    → Linked l a xs h
    → Distinct (a ∷ xs)
    → has h xs ≡ false
    → has n (a ∷ xs) ≡ false
    → n ≢ h
    → Linked (link_before l h n) a (xs ++ n ∷ []) h
unfolding link_before
link_before-Linked l h n a [] k d out fresh ne = ground arith
link_before-Linked l h n a (x ∷ xs) k d out fresh ne = (
  ground (arith, prev-mem l x xs h k.2),
  ground arith,
  link_before-Linked l h n x xs k.2 d.1 (ground arith) (ground arith) ne,
)

pub unlink-Linked :
    (l : Links) (p a z : ℕ) (xs ys : List ℕ)
    → Linked l a xs p
    → Linked l p ys z
    → Distinct (a ∷ xs)
    → Distinct ys
    → has p (a ∷ xs) ≡ false
    → p ≢ z
    → has z ys ≡ false
    → has (l.next p) xs ≡ false
    → ((b : ℕ) → has b (a ∷ xs) ≡ true → has b ys ≡ false)
    → Linked (unlink l p) a (xs ++ ys) z
unfolding unlink
unlink-Linked l p a z [] [] h k d e out ne zy nx apart = ground arith
unlink-Linked l p a z [] (y ∷ ys) h k d e out ne zy nx apart = (
  ground arith,
  ground arith,
  frame l (unlink l p) y ys z (λ b i. ground (arith, apart a)) (λ b i. ground arith) k.2,
)
unlink-Linked l p a z (x ∷ xs) ys h k d e out ne zy nx apart = (
  ground (arith, prev-mem l x xs p h.2),
  ground arith,
  unlink-Linked l p x z xs ys h.2 k d.1 e (ground arith) ne zy (ground arith)
      (λ b i. apart b (ground arith)),
)

pub Linked-append :
    (l : Links) (a p z : ℕ) (xs ys : List ℕ)
    → Linked l a (xs ++ p ∷ ys) z
    → Linked l a xs p × Linked l p ys z
Linked-append l a p z [] ys h = ((h.0, h.1), h.2)
Linked-append l a p z (x ∷ xs) ys h =
    let (front, back) = Linked-append l x p z xs ys h.2 in ((h.0, h.1, front), back)

-- The node behind `p` is the first of `ys`, or the end.
pub next-mem :
    (l : Links) (p z : ℕ) (ys : List ℕ)
    → Linked l p ys z
    → (l.next p == z) || has (l.next p) ys ≡ true
next-mem l p z [] h = ground arith
next-mem l p z (y ∷ ys) h = ground arith
