-- ===== src/Base/Lists.antt =====
-- Lists measured and indexed by native numbers, membership as a test, and lists without repeats.
use Prim.Native.Nat.{ℕ, zero, suc, ◌+◌, ◌≤◌, ◌<◌}
use mathlib.Core.Path.{◌≡◌, refl}
use mathlib.Core.Logic.{◌≢◌}
use mathlib.Core.Bool.{Bool, true, false, ◌||◌}
use mathlib.Core.List.{List, [], ◌∷◌, ◌++◌, map}
use mathlib.Core.Option.{Option, none, some}
use native.Mathlib.Omega.{arith}
use yinyang_os.Base.Tests.{◌==◌, if◌then◌else◌, update}

module _ {ℓ} {A : Type ℓ} where
  abbrev pub length : List A → ℕ
  length [] = 0
  length (x ∷ xs) = suc (length xs)

  abbrev pub get_elem? : List A → ℕ → Option A
  get_elem? [] i = none
  get_elem? (x ∷ xs) zero = some x
  get_elem? (x ∷ xs) (suc i) = get_elem? xs i

  abbrev pub All {κ} : (A → Type κ) → List A → Type κ
  All P [] = Unit
  All P (x ∷ xs) = P x × All P xs

  pub length-append : (xs ys : List A) → length (xs ++ ys) ≡ length xs + length ys
  length-append [] ys = omega arith
  length-append (x ∷ xs) ys = omega (arith, length-append xs ys)

abbrev pub has : ℕ → List ℕ → Bool
has a [] = false
has a (x ∷ xs) = (a == x) || has a xs

abbrev pub Distinct : List ℕ → Type 0
Distinct [] = Unit
Distinct (x ∷ xs) = (has x xs ≡ false) × Distinct xs

pub has-append : (a : ℕ) (xs ys : List ℕ) → has a (xs ++ ys) ≡ (has a xs || has a ys)
has-append a [] ys = refl
has-append a (x ∷ xs) ys = ground (arith, has-append a xs ys)

-- No element of one list stands in the other.
abbrev pub Apart : List ℕ → List ℕ → Type 0
Apart xs ys = (b : ℕ) → has b xs ≡ true → has b ys ≡ false

pub Distinct-append_iff :
    (xs ys : List ℕ) → Distinct (xs ++ ys) → Distinct xs × Distinct ys × Apart xs ys
Distinct-append_iff [] ys d = (tt, d, λ b i. cc)
Distinct-append_iff (x ∷ xs) ys d =
    let (front, back, apart) = Distinct-append_iff xs ys d.1 in
    (
      (ground (arith, has-append x xs ys), front),
      back,
      λ b i. ground (arith, apart b, has-append x xs ys),
    )

pub append-Distinct :
    (xs ys : List ℕ) → Distinct xs → Distinct ys → Apart xs ys → Distinct (xs ++ ys)
append-Distinct [] ys dx dy apart = dy
append-Distinct (x ∷ xs) ys dx dy apart = (
  ground (arith, has-append x xs ys, apart x),
  append-Distinct xs ys dx.1 dy (λ b i. apart b (ground arith)),
)

-- A middle element moved to the front.
pub has-middle : (a p : ℕ) (xs ys : List ℕ) → has a (xs ++ p ∷ ys) ≡ ((a == p) || has a (xs ++ ys))
has-middle a p xs ys = ground (arith, has-append a xs (p ∷ ys), has-append a xs ys)

pub Distinct-middle : (p : ℕ) (xs ys : List ℕ) → Distinct (xs ++ p ∷ ys) → Distinct (p ∷ xs ++ ys)
Distinct-middle p xs ys d =
    let (front, back, apart) = Distinct-append_iff xs (p ∷ ys) d in
    (
      ground (arith, has-append p xs ys, apart p),
      append-Distinct xs ys front back.1 (λ b i. ground (arith, apart b)),
    )

pub middle-Distinct : (p : ℕ) (xs ys : List ℕ) → Distinct (p ∷ xs ++ ys) → Distinct (xs ++ p ∷ ys)
middle-Distinct p xs ys d =
    let (front, back, apart) = Distinct-append_iff xs ys d.1 in
    append-Distinct xs (p ∷ ys) front (ground (arith, has-append p xs ys), back)
      (λ b i. ground (arith, apart b, has-append p xs ys))

pub erase : ℕ → List ℕ → List ℕ
erase a [] = []
erase a (x ∷ xs) = if a == x then xs else x ∷ erase a xs

length-erase : (a : ℕ) (xs : List ℕ) → length xs ≤ suc (length (erase a xs))
unfolding erase
length-erase a [] = omega arith
length-erase a (x ∷ xs) = ground (arith, length-erase a xs)

length-erase_mem : (a : ℕ) (xs : List ℕ) → has a xs ≡ true → suc (length (erase a xs)) ≡ length xs
unfolding erase
length-erase_mem a [] h = cc
length-erase_mem a (x ∷ xs) h = ground (arith, length-erase_mem a xs)

has-erase_ne : (a b : ℕ) (xs : List ℕ) → a ≢ b → has b (erase a xs) ≡ has b xs
unfolding erase
has-erase_ne a b [] ne = refl
has-erase_ne a b (x ∷ xs) ne = ground (arith, has-erase_ne a b xs ne)

has-erase : (a b : ℕ) (xs : List ℕ) → has b (erase a xs) ≡ true → has b xs ≡ true
unfolding erase
has-erase a b [] h = cc
has-erase a b (x ∷ xs) h = ground (arith, has-erase a b xs)

Distinct-erase :
    (a : ℕ) (xs : List ℕ) → Distinct xs → Distinct (erase a xs) × (has a (erase a xs) ≡ false)
unfolding erase
Distinct-erase a [] d = (tt, refl)
Distinct-erase a (x ∷ xs) d = ground (arith, Distinct-erase a xs d.1, has-erase a x xs)

-- The pigeonhole principle: `n` holes take no more than `n` different numbers,
pub length-le_of_below :
    (n : ℕ) (xs : List ℕ) → Distinct xs → ((b : ℕ) → has b xs ≡ true → b < n) → length xs ≤ n
length-le_of_below zero [] d h = omega arith
length-le_of_below zero (x ∷ xs) d h = absurd (ground (arith, h x))
length-le_of_below (suc n) xs d h =
    let (rest, gone) = Distinct-erase n xs d in
    let small =
      length-le_of_below n (erase n xs) rest λ b i. ground (arith, h b, has-erase n b xs) in
    omega (arith, length-erase n xs, small)

-- and a list with all of them has `n` elements at least.
pub le-length_of_all : (n : ℕ) (xs : List ℕ) → ((b : ℕ) → b < n → has b xs ≡ true) → n ≤ length xs
le-length_of_all zero xs h = omega arith
le-length_of_all (suc n) xs h =
    let below = le-length_of_all n (erase n xs) λ b i. ground (arith, h b, has-erase_ne n b xs) in
    omega (arith, length-erase_mem n xs (h n (omega arith)), below)

pub map-update {ℓ} :
    {A : Type ℓ} (f : ℕ → A) (n : ℕ) (v : A) (xs : List ℕ)
    → has n xs ≡ false
    → map (update f n v) xs ≡ map f xs
map-update f n v [] h = refl
map-update f n v (x ∷ xs) h = ground (arith, map-update f n v xs)

pub has-snoc : (a p : ℕ) (xs : List ℕ) → has a (xs ++ p ∷ []) ≡ ((a == p) || has a xs)
has-snoc a p xs = ground (arith, has-append a xs (p ∷ []))

pub snoc-Distinct : (p : ℕ) (xs : List ℕ) → has p xs ≡ false → Distinct xs → Distinct (xs ++ p ∷ [])
snoc-Distinct p xs h d = append-Distinct xs (p ∷ []) d (refl, tt) (λ b i. ground arith)
