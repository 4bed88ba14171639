-- ===== src/Split.antt =====
-- The first element of a list that passes a test, with what stands before and behind it: the
-- specification of the searches that walk round a ring.
-- What stands before the first element that passes a test, that element, and what stands behind.
use yinyang_os.Base.{
  Bool, Bool-cases, List, Option, Option-cases, [], arith, if◌then◌else◌, inl, inr, map, none, refl,
  some, true, ◌++◌, ◌∷◌, ◌≡◌, ◌≢◌,
}

pub record Split (A : Type 0) : Type 0 where
  pub before : List A
  pub hit : A
  pub after : List A

abbrev pub pass_over : {A : Type 0} → A → Option (Split A) → Option (Split A)
pass_over x none = none
pass_over x (some s) = some (record s { before = x ∷ s.before })

unfoldable pub split_first : {A : Type 0} → (A → Bool) → List A → Option (Split A)
split_first test [] = none
split_first test (x ∷ xs) =
    let later = pass_over x (split_first test xs) in
    if test x then some (record { before = []; hit = x; after = xs }) else later

pub split_first-some :
    {A : Type 0} (test : A → Bool) (xs : List A) (s : Split A)
    → split_first test xs ≡ some s
    → (xs ≡ s.before ++ s.hit ∷ s.after) × (test s.hit ≡ true)
unfolding split_first
split_first-some test [] s e = cc
split_first-some test (x ∷ xs) s e = elim (Bool-cases (test x)) [
  | inl hit ↦ let e' = rw hit at e in ground (arith, e')
  | inr miss ↦ elim (Option-cases (split_first test xs)) [
    | inl n ↦ let e' = rw (miss, n) at e in cc
    | inr (r, er) ↦ let e' = rw (miss, er) at e in ground (arith, e', split_first-some test xs r er)
  ]
]

abbrev pub map_split : {A B : Type 0} → (A → B) → Option (Split A) → Option (Split B)
map_split f none = none
map_split f (some s) =
    some (record { before = map f s.before; hit = f s.hit; after = map f s.after })

map_split-pass_over :
    {A B : Type 0} (f : A → B) (x : A) (o : Option (Split A))
    → pass_over (f x) (map_split f o) ≡ map_split f (pass_over x o)
map_split-pass_over f x none = refl
map_split-pass_over f x (some s) = refl

pub split_first-map :
    {A B : Type 0} (f : A → B) (test : B → Bool) (xs : List A)
    → split_first test (map f xs) ≡ map_split f (split_first (λ a. test (f a)) xs)
unfolding split_first
split_first-map f test [] = refl
split_first-map f test (x ∷ xs) = elim (Bool-cases (test (f x))) [
  | inl hit ↦ rw hit
  | inr miss ↦ rw (miss, split_first-map f test xs) (map_split-pass_over f x _)
]

none_of-pass_over : {A : Type 0} (x : A) (o : Option (Split A)) → pass_over x o ≡ none → o ≡ none
none_of-pass_over x none e = refl
none_of-pass_over x (some k) e = cc

pub split_first-last :
    {A : Type 0} (test : A → Bool) (z : A) (xs : List A)
    → test z ≡ true
    → split_first test (xs ++ z ∷ []) ≢ none
unfolding split_first
split_first-last test z [] h e = let e' = rw h at e in cc
split_first-last test z (x ∷ xs) h e = elim (Bool-cases (test x)) [
  | inl hit ↦ let e' = rw hit at e in cc
  | inr miss ↦ split_first-last test z xs h (none_of-pass_over x _ (rw miss at e))
]
