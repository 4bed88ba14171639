-- ===== src/Print.antt =====
-- kernel/vfprintf.c: formatted output. The characters that `printer` gets are a list.
pub mod Digits
pub mod Numerals
pub mod Format
use yinyang_os.Base.{
  List, Option, [], if◌then◌else◌, ltb, map, none, some, suc, zero, ℕ, ◌%◌, ◌++◌, ◌+◌, ◌-◌, ◌/◌,
  ◌==◌, ◌^◌, ◌||◌, ◌∷◌,
}

abbrev pub max_len : ℕ
max_len = 12

-- The loop for %d: the digits in `temp`, the last one first. `none` is a write behind `temp`.
unfoldable pub dec_digits : (room : ℕ) → ℕ → Option (List ℕ)
dec_digits zero dec = if dec == 0 then some [] else none
dec_digits (suc k) dec =
    let rest : Option (List ℕ) = elim (dec_digits k (dec / 10)) [
      | none ↦ none
      | some ds ↦ some (dec % 10 ∷ ds)
    ] in
    if dec == 0 then some [] else rest

-- The loop for %x.
unfoldable pub hex_digits : (room : ℕ) → ℕ → Option (List ℕ)
hex_digits zero hex = if hex == 0 then some [] else none
hex_digits (suc k) hex =
    let rest : Option (List ℕ) = elim (hex_digits k (hex / 16)) [
      | none ↦ none
      | some ds ↦ some (hex % 16 ∷ ds)
    ] in
    if hex == 0 then some [] else rest

abbrev pub map_some {ℓ κ} : {A : Type ℓ} {B : Type κ} → (A → B) → Option A → Option B
map_some f none = none
map_some f (some a) = some (f a)

unfoldable pub dec_char : ℕ → ℕ
dec_char d = d + 48

unfoldable pub hex_char : ℕ → ℕ
hex_char d = if ltb d 10 then d + 48 else d - 10 + 65

-- `for (-- i; i >= 0; -- i)`: from the last entry of `temp` to the first
unfoldable pub print_back : (ℕ → ℕ) → List ℕ → List ℕ
print_back char [] = []
print_back char (d ∷ ds) = print_back char ds ++ char d ∷ []

-- The case 'd', for a bit pattern. The negation of -2^31 overflows: `none`.
unfoldable pub print_dec : ℕ → Option (List ℕ)
print_dec dec =
    let digits = λ (n : ℕ). map_some (print_back dec_char) (dec_digits max_len n) in
    let minus = map_some (λ cs. 45 ∷ cs) (digits (2 ^ 32 - dec)) in
    if dec == 0
    then some (48 ∷ [])
    else if ltb dec (2 ^ 31)
    then digits dec
    else if dec == 2 ^ 31
    then none
    else minus

-- The case 'x'.
unfoldable pub print_hex : ℕ → Option (List ℕ)
print_hex hex =
    let digits = map_some (print_back hex_char) (hex_digits max_len hex) in
    if hex == 0 then some (48 ∷ []) else digits

-- An argument: a number, or the characters of a string.
pub data Arg : Type 0 where
  word : ℕ → Arg
  text : List ℕ → Arg

-- One directive behind `%`, where 100, 120, 37, 99 and 115 are d, x, %, c and s: what it prints and
-- the arguments that are left. `none` is an argument that is missing or of the wrong kind.
unfoldable pub directive : ℕ → List Arg → Option (List ℕ × List Arg)
directive c [] =
    if c == 37
    then some (37 ∷ [], [])
    else if (c == 100) || (c == 120) || (c == 99) || (c == 115)
    then none
    else some ([], [])
directive c (text cs ∷ args) =
    if c == 37
    then some (37 ∷ [], text cs ∷ args)
    else if c == 115
    then some (cs, args)
    else if (c == 100) || (c == 120) || (c == 99)
    then none
    else some ([], text cs ∷ args)
directive c (word n ∷ args) =
    if c == 37
    then some (37 ∷ [], word n ∷ args)
    else if c == 100
    then map_some (λ cs. (cs, args)) (print_dec n)
    else if c == 120
    then map_some (λ cs. (cs, args)) (print_hex n)
    else if c == 99
    then some (n % 256 ∷ [], args)
    else if c == 115
    then none
    else some ([], word n ∷ args)

-- `vfprintf`, for a control string without its final 0. Behind a `%` at its end the loop would go on
-- past the 0: `none`.
unfoldable pub vfprintf : List ℕ → List Arg → Option (List ℕ)
vfprintf [] args = some []
vfprintf (c ∷ []) args = if c == 37 then none else some (c ∷ [])
vfprintf (c ∷ d ∷ ctl) args =
    let plain = map_some (λ cs. c ∷ cs) (vfprintf (d ∷ ctl) args) in
    let special : Option (List ℕ) = elim (directive d args) [
      | none ↦ none
      | some (out, args') ↦ map_some (λ cs. out ++ cs) (vfprintf ctl args')
    ] in
    if c == 37 then special else plain
