-- ===== src/Tests/Print.antt =====
-- kernel/vfprintf.c: numbers, and a control string.
use yinyang_os.Base.{List, arith, if◌then◌else◌, ltb, some, ℕ, ◌-◌, ◌^◌, ◌∷◌, ◌≡◌, true}
use yinyang_os.Print.{print_dec, print_hex}
use yinyang_os.Print.Numerals.{print_dec_lem, print_hex_lem, read_dec, read_hex}
use yinyang_os.Print.Digits.{is_dec, is_hex, numeral}

print_hex_lem_example :
    (cs : List ℕ) × (print_hex 0xBEEF ≡ some cs)
    × (read_hex 0 cs ≡ 0xBEEF)
    × (numeral is_hex cs ≡ true)
print_hex_lem_example = print_hex_lem 0xBEEF (omega arith)

print_dec_lem_example :
    (cs : List ℕ) × (print_dec (2 ^ 32 - 42)
      ≡ some (if ltb (2 ^ 32 - 42) (2 ^ 31) then cs else 45 ∷ cs))
    × (read_dec 0 cs ≡ (if ltb (2 ^ 32 - 42) (2 ^ 31) then 2 ^ 32 - 42 else 2 ^ 32 - (2 ^ 32 - 42)))
    × (numeral is_dec cs ≡ true)
print_dec_lem_example = print_dec_lem (2 ^ 32 - 42) (omega arith) (omega arith)
