-- ===== src/Print/Numerals.antt =====
-- What %d and %x print is the number.
use yinyang_os.Base.{
  Bool-cases, List, [], arith, if◌then◌else◌, inl, inr, ltb, refl, some, suc, zero, ℕ, ◌%◌, ◌*◌,
  ◌++◌, ◌+◌, ◌-◌, ◌/◌, ◌<◌, ◌==◌, ◌∷◌, ◌≡◌, ==_iff, ==_ne, false, sym, ◌^◌, ◌∙◌, ◌≢◌, true,
}
use yinyang_os.Print.{
  dec_char, dec_digits, print_back, hex_char, hex_digits, max_len, print_dec, print_hex,
}
use yinyang_os.Print.Digits.{
  Prints, Prints-dec, Prints-hex, Prints-numeral, Prints-zero, is_dec, is_hex, numeral,
}

-- The number that a decimal numeral denotes.
unfoldable pub read_dec : ℕ → List ℕ → ℕ
read_dec acc [] = acc
read_dec acc (c ∷ cs) = read_dec (acc * 10 + (c - 48)) cs

-- The number that a hexadecimal numeral denotes.
unfoldable pub read_hex : ℕ → List ℕ → ℕ
read_hex acc [] = acc
read_hex acc (c ∷ cs) = read_hex (acc * 16 + (if ltb c 65 then c - 48 else c - 55)) cs

read_dec-append :
    (acc : ℕ) (xs ys : List ℕ) → read_dec acc (xs ++ ys) ≡ read_dec (read_dec acc xs) ys
unfolding read_dec
read_dec-append acc [] ys = refl
read_dec-append acc (x ∷ xs) ys = read_dec-append (acc * 10 + (x - 48)) xs ys

read_hex-append :
    (acc : ℕ) (xs ys : List ℕ) → read_hex acc (xs ++ ys) ≡ read_hex (read_hex acc xs) ys
unfolding read_hex
read_hex-append acc [] ys = refl
read_hex-append acc (x ∷ xs) ys =
    read_hex-append (acc * 16 + (if ltb x 65 then x - 48 else x - 55)) xs ys

-- The number of values that fit into `k` digits.
dec_bound : ℕ → ℕ
dec_bound zero = 1
dec_bound (suc k) = 10 * dec_bound k

hex_bound : ℕ → ℕ
hex_bound zero = 1
hex_bound (suc k) = 16 * hex_bound k

dec_digits-zero : (k : ℕ) → dec_digits k 0 ≡ some []
unfolding dec_digits
dec_digits-zero zero = refl
dec_digits-zero (suc k) = refl

dec_digits-suc :
    (k n : ℕ) (ds : List ℕ)
    → (n == 0) ≡ false
    → dec_digits k (n / 10) ≡ some ds
    → dec_digits (suc k) n ≡ some (n % 10 ∷ ds)
unfolding dec_digits
dec_digits-suc k n ds z e = rw (z, e)

hex_digits-zero : (k : ℕ) → hex_digits k 0 ≡ some []
unfolding hex_digits
hex_digits-zero zero = refl
hex_digits-zero (suc k) = refl

hex_digits-suc :
    (k n : ℕ) (ds : List ℕ)
    → (n == 0) ≡ false
    → hex_digits k (n / 16) ≡ some ds
    → hex_digits (suc k) n ≡ some (n % 16 ∷ ds)
unfolding hex_digits
hex_digits-suc k n ds z e = rw (z, e)

read_dec-print :
    (n : ℕ) (ds : List ℕ)
    → read_dec 0 (print_back dec_char ds) ≡ n / 10
    → read_dec 0 (print_back dec_char (n % 10 ∷ ds)) ≡ n
unfolding read_dec print_back dec_char
read_dec-print n ds e =
    read_dec-append 0 (print_back dec_char ds) (dec_char (n % 10) ∷ []) ∙ omega (arith, e)

read_hex-print :
    (n : ℕ) (ds : List ℕ)
    → read_hex 0 (print_back hex_char ds) ≡ n / 16
    → read_hex 0 (print_back hex_char (n % 16 ∷ ds)) ≡ n
unfolding read_hex print_back hex_char
read_hex-print n ds e =
    read_hex-append 0 (print_back hex_char ds) (hex_char (n % 16) ∷ []) ∙ ground (arith, e)

dec_digits_lem :
    (k n : ℕ)
    → n < dec_bound k
    → (ds : List ℕ) × (dec_digits k n ≡ some ds)
      × (read_dec 0 (print_back dec_char ds) ≡ n)
      × Prints dec_char is_dec n ds
unfolding dec_bound read_dec print_back
dec_digits_lem zero n h =
    let z : n ≡ 0 = omega arith in
    ([], rw z (dec_digits-zero 0), sym z, Prints-zero dec_char is_dec n z)
dec_digits_lem (suc k) n h = elim (Bool-cases (n == 0)) [
  | inl t ↦
      (let z = (==_iff n 0).0 t in
        ([], rw z (dec_digits-zero (suc k)), sym z, Prints-zero dec_char is_dec n z))
  | inr z ↦
      (let (ds, e, v, p) = dec_digits_lem k (n / 10) (omega arith) in
        (n % 10 ∷ ds, dec_digits-suc k n ds z e, read_dec-print n ds v, Prints-dec n ds z p))
]

hex_digits_lem :
    (k n : ℕ)
    → n < hex_bound k
    → (ds : List ℕ) × (hex_digits k n ≡ some ds)
      × (read_hex 0 (print_back hex_char ds) ≡ n)
      × Prints hex_char is_hex n ds
unfolding hex_bound read_hex print_back
hex_digits_lem zero n h =
    let z : n ≡ 0 = omega arith in
    ([], rw z (hex_digits-zero 0), sym z, Prints-zero hex_char is_hex n z)
hex_digits_lem (suc k) n h = elim (Bool-cases (n == 0)) [
  | inl t ↦
      (let z = (==_iff n 0).0 t in
        ([], rw z (hex_digits-zero (suc k)), sym z, Prints-zero hex_char is_hex n z))
  | inr z ↦
      (let (ds, e, v, p) = hex_digits_lem k (n / 16) (omega arith) in
        (n % 16 ∷ ds, hex_digits-suc k n ds z e, read_hex-print n ds v, Prints-hex n ds z p))
]

-- %x prints the hexadecimal numeral of every 32-bit word, in digits and capital letters and without
-- leading zeros.
pub print_hex_lem :
    (n : ℕ)
    → n < 2 ^ 32
    → (cs : List ℕ) × (print_hex n ≡ some cs) × (read_hex 0 cs ≡ n) × (numeral is_hex cs ≡ true)
unfolding print_hex read_hex hex_bound numeral is_hex is_dec
print_hex_lem n h = elim (Bool-cases (n == 0)) [
  | inl t ↦ (48 ∷ [], rw t, sym ((==_iff n 0).0 t), refl)
  | inr t ↦
      (let (ds, e, v, p) = hex_digits_lem max_len n (omega arith) in
        (print_back hex_char ds, rw (t, e), v, Prints-numeral hex_char is_hex n ds t p))
]

-- %d prints the decimal numeral of every `int` but the least, in digits without leading zeros, with a
-- minus sign in front of a negative one.
pub print_dec_lem :
    (n : ℕ)
    → n < 2 ^ 32
    → n ≢ 2 ^ 31
    → (cs : List ℕ) × (print_dec n ≡ some (if ltb n (2 ^ 31) then cs else 45 ∷ cs))
      × (read_dec 0 cs ≡ (if ltb n (2 ^ 31) then n else 2 ^ 32 - n))
      × (numeral is_dec cs ≡ true)
unfolding print_dec read_dec dec_bound numeral is_dec
print_dec_lem n h ne = elim (Bool-cases (n == 0)) [
  | inl t ↦ (48 ∷ [], rw ((==_iff n 0).0 t), rw ((==_iff n 0).0 t), refl)
  | inr t ↦ elim (Bool-cases (ltb n (2 ^ 31))) [
    | inl small ↦
        (let (ds, e, v, p) = dec_digits_lem max_len n (omega arith) in
          (
            print_back dec_char ds,
            rw (t, small, e),
            rw small v,
            Prints-numeral dec_char is_dec n ds t p,
          ))
    | inr big ↦
        (let (ds, e, v, p) = dec_digits_lem max_len (2 ^ 32 - n) (omega arith) in
          (
            print_back dec_char ds,
            rw (t, big, ==_ne n (2 ^ 31) ne, e),
            rw big v,
            Prints-numeral dec_char is_dec (2 ^ 32 - n) ds (ground arith) p,
          ))
  ]
]
