-- ===== src/Print/Digits.antt =====
-- What a numeral of kernel/vfprintf.c looks like, and that the digits in `temp` print one.
use yinyang_os.Base.{
  Bool-cases, List, [], arith, inl, inr, refl, ℕ, ◌%◌, ◌++◌, ◌/◌, ◌==◌, ◌∷◌, ◌≡◌, ==_iff, false,
  Bool, leb, not, true, ◌&&◌, ◌||◌,
}
use yinyang_os.Print.{dec_char, print_back, hex_char}

-- The characters from '0' to '9'.
unfoldable pub is_dec : ℕ → Bool
is_dec c = leb 48 c && leb c 57

-- The characters from '0' to '9' and from 'A' to 'F'.
unfoldable pub is_hex : ℕ → Bool
is_hex c = is_dec c || (leb 65 c && leb c 70)

unfoldable pub all_digits : (ℕ → Bool) → List ℕ → Bool
all_digits digit [] = true
all_digits digit (c ∷ cs) = digit c && all_digits digit cs

-- There is a first character, and it is not '0'.
unfoldable leads : List ℕ → Bool
leads [] = false
leads (c ∷ cs) = not (c == 48)

-- There is a character, and a '0' in front only if it is the only one.
unfoldable pub trimmed : List ℕ → Bool
trimmed [] = false
trimmed (c ∷ []) = true
trimmed (c ∷ d ∷ cs) = not (c == 48)

-- A numeral: digits without leading zeros.
unfoldable pub numeral : (ℕ → Bool) → List ℕ → Bool
unfolding all_digits trimmed
numeral digit cs = all_digits digit cs && trimmed cs

all_digits-append :
    (digit : ℕ → Bool) (xs ys : List ℕ)
    → all_digits digit xs ≡ true
    → all_digits digit ys ≡ true
    → all_digits digit (xs ++ ys) ≡ true
unfolding all_digits
all_digits-append digit [] ys a b = b
all_digits-append digit (x ∷ xs) ys a b =
    let h : (digit x ≡ true) × (all_digits digit xs ≡ true) = ground arith in
    let r = all_digits-append digit xs ys h.1 b in let d = h.0 in rw (d, r)

leads-append : (xs ys : List ℕ) → leads xs ≡ true → leads (xs ++ ys) ≡ true
unfolding leads
leads-append [] ys h = absurd (ground arith)
leads-append (x ∷ xs) ys h = h

leads-trimmed : (cs : List ℕ) → leads cs ≡ true → trimmed cs ≡ true
unfolding leads trimmed
leads-trimmed [] h = h
leads-trimmed (c ∷ []) h = refl
leads-trimmed (c ∷ d ∷ cs) h = h

-- What the digits in `temp` print for `n`: nothing for 0.
pub record Prints (char : ℕ → ℕ) (digit : ℕ → Bool) (n : ℕ) (ds : List ℕ) : Type 0 where
  digits : all_digits digit (print_back char ds) ≡ true
  first : (n == 0) ≡ false → leads (print_back char ds) ≡ true
  none_for_zero : n ≡ 0 → ds ≡ []

pub Prints-zero : (char : ℕ → ℕ) (digit : ℕ → Bool) (n : ℕ) → n ≡ 0 → Prints char digit n []
unfolding print_back all_digits
Prints-zero char digit n z = record {
  digits = refl;
  first = λ h. absurd (ground arith);
  none_for_zero = λ h. refl;
}

pub Prints-numeral :
    (char : ℕ → ℕ) (digit : ℕ → Bool) (n : ℕ) (ds : List ℕ)
    → (n == 0) ≡ false
    → Prints char digit n ds
    → numeral digit (print_back char ds) ≡ true
unfolding numeral
Prints-numeral char digit n ds h p =
    let a = p.digits in let b = leads-trimmed (print_back char ds) (p.first h) in rw (a, b)

-- One digit more, for a base with `q` of `n` in front of the digit `d`.
Prints-digit :
    (char : ℕ → ℕ) (digit : ℕ → Bool) (n q d : ℕ) (ds : List ℕ)
    → Prints char digit q ds
    → (n == 0) ≡ false
    → digit (char d) ≡ true
    → (q ≡ 0 → (char d == 48) ≡ false)
    → Prints char digit n (d ∷ ds)
unfolding print_back all_digits leads
Prints-digit char digit n q d ds p h is_digit front = record {
  digits = all_digits-append digit (print_back char ds) (char d ∷ []) p.digits (rw is_digit);
  first = λ h'. elim (Bool-cases (q == 0)) [
    | inl z ↦
        let e = (==_iff q 0).0 z in
        let none_left = p.none_for_zero e in let f = front e in rw (none_left, f)
    | inr z ↦ leads-append (print_back char ds) (char d ∷ []) (p.first z)
  ];
  none_for_zero = λ z. absurd (ground arith);
}

pub Prints-dec :
    (n : ℕ) (ds : List ℕ)
    → (n == 0) ≡ false
    → Prints dec_char is_dec (n / 10) ds
    → Prints dec_char is_dec n (n % 10 ∷ ds)
unfolding dec_char is_dec
Prints-dec n ds h p =
    Prints-digit dec_char is_dec n (n / 10) (n % 10) ds p h (ground arith) (λ z. ground arith)

pub Prints-hex :
    (n : ℕ) (ds : List ℕ)
    → (n == 0) ≡ false
    → Prints hex_char is_hex (n / 16) ds
    → Prints hex_char is_hex n (n % 16 ∷ ds)
unfolding hex_char is_hex is_dec
Prints-hex n ds h p =
    Prints-digit hex_char is_hex n (n / 16) (n % 16) ds p h (ground arith) (λ z. ground arith)
