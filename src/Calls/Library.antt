-- ===== src/Calls/Library.antt =====
-- `printf` of lib/oslib.c, which formats into a buffer of 200 characters and writes that.
pub mod Printf
pub mod Whole
use yinyang_os.Base.{
  Bool, Bool-cases, Option, Option-cases, if◌then◌else◌, leb, ltb, none, some, ℕ, ◌==◌, ◌^◌, ◌-◌,
  ◌+◌, ◌%◌, ◌||◌, List, [], ◌∷◌, ◌++◌, ◌≡◌, ◌<◌, ◌≤◌, ◌≢◌, ◌∙◌, arith, inl, inr, refl, sym, ap,
  length, update, get_elem?, suc, zero, ==_ne, ==_refl,
}
use yinyang_os.Print.{
  Arg, dec_char, dec_digits, directive, hex_char, hex_digits, map_some, max_len, print_back,
  print_dec, print_hex, text, vfprintf, word,
}

abbrev pub buffer_size : ℕ
buffer_size = 200

-- `buf` and `buf_ptr`
pub record Buffer : Type 0 where
  pub chars : ℕ → ℕ
  pub buf_ptr : ℕ

abbrev pub then_some : {A B : Type 0} → Option A → (A → Option B) → Option B
then_some none f = none
then_some (some a) f = f a

-- `buf[buf_ptr ++] = c`. A write behind the buffer: `none`.
unfoldable pub put : ℕ → Buffer → Option Buffer
put c b =
    if ltb b.buf_ptr buffer_size
    then some (record { chars = update b.chars b.buf_ptr c; buf_ptr = b.buf_ptr + 1 })
    else none

-- Lines 159 and 160.
unfoldable pub put_text : List ℕ → Buffer → Option Buffer
put_text [] b = some b
put_text (c ∷ cs) b = then_some (put c b) (λ b'. put_text cs b')

-- Lines 133 and 134, and 145 to 149: from the last entry of `temp` to the first.
unfoldable pub put_back : (ℕ → ℕ) → List ℕ → Buffer → Option Buffer
put_back char [] b = some b
put_back char (d ∷ ds) b = then_some (put_back char ds b) (λ b'. put (char d) b')

unfoldable pub put_char_of : ℕ → ℕ
put_char_of d = if ltb d 10 then d + 48 else d + 55

-- The case 'd'.
unfoldable pub put_dec : ℕ → Buffer → Option Buffer
put_dec dec b =
    let digits =
      λ (n : ℕ) (b' : Buffer). then_some (dec_digits max_len n) (λ ds. put_back dec_char ds b') in
    let minus = then_some (put 45 b) (λ b'. digits (2 ^ 32 - dec) b') in
    if dec == 0
    then put 48 b
    else if ltb dec (2 ^ 31)
    then digits dec b
    else if dec == 2 ^ 31
    then none
    else minus

-- The case 'x'.
unfoldable pub put_hex : ℕ → Buffer → Option Buffer
put_hex hex b =
    let digits = then_some (hex_digits max_len hex) (λ ds. put_back put_char_of ds b) in
    if hex == 0 then put 48 b else digits

unfoldable pub put_directive : ℕ → List Arg → Buffer → Option (Buffer × List Arg)
put_directive c [] b =
    if c == 37
    then map_some (λ b'. (b', [])) (put 37 b)
    else if (c == 100) || (c == 120) || (c == 99) || (c == 115)
    then none
    else some (b, [])
put_directive c (text cs ∷ args) b =
    if c == 37
    then map_some (λ b'. (b', text cs ∷ args)) (put 37 b)
    else if c == 115
    then map_some (λ b'. (b', args)) (put_text cs b)
    else if (c == 100) || (c == 120) || (c == 99)
    then none
    else some (b, text cs ∷ args)
put_directive c (word n ∷ args) b =
    if c == 37
    then map_some (λ b'. (b', word n ∷ args)) (put 37 b)
    else if c == 100
    then map_some (λ b'. (b', args)) (put_dec n b)
    else if c == 120
    then map_some (λ b'. (b', args)) (put_hex n b)
    else if c == 99
    then map_some (λ b'. (b', args)) (put (n % 256) b)
    else if c == 115
    then none
    else some (b, word n ∷ args)

-- The loop over the control string, which is given without its final 0.
unfoldable pub format : List ℕ → List Arg → Buffer → Option Buffer
format [] args b = some b
format (c ∷ []) args b = if c == 37 then none else put c b
format (c ∷ d ∷ ctl) args b =
    let plain = then_some (put c b) (λ b'. format (d ∷ ctl) args b') in
    let special : Option Buffer = elim (put_directive d args b) [
      | none ↦ none
      | some (b', args') ↦ format ctl args' b'
    ] in
    if c == 37 then special else plain

-- `printf` up to line 165, for what the buffer holds from before: `write` gets the buffer that comes
-- back, and as many characters as its `buf_ptr` says.
unfoldable pub printf : List ℕ → List Arg → (old : ℕ → ℕ) → Option Buffer
printf ctl args old = format ctl args (record { chars = old; buf_ptr = 0 })
