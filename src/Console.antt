-- ===== src/Console.antt =====
-- kernel/console.c: the screen of 25 rows with 80 characters each, and its cursor.
pub mod Loops
pub mod Paper
pub mod Print
use yinyang_os.Base.{
  Bool, List, Option, [], if◌then◌else◌, leb, ltb, none, some, suc, update, zero, ℕ, ◌*◌, ◌+◌, ◌-◌,
  ◌==◌, ◌∷◌,
}
use yinyang_os.Print.{Arg, vfprintf}

abbrev pub crt_column : ℕ
crt_column = 80

abbrev pub crt_row : ℕ
crt_row = 25

-- `BLACK`, `GREEN`, `WHITE` and `RED`
abbrev pub black : ℕ
black = 0

abbrev pub green : ℕ
green = 2

abbrev pub white : ℕ
white = 7

abbrev pub red : ℕ
red = 12

-- `vmem`, and the row `x` and the column `y` of the cursor
pub record Screen : Type 0 where
  pub vmem : ℕ → ℕ
  pub x : ℕ
  pub y : ℕ

-- `(backcolor << 12) | (forecolor << 8) | ch`, where a `char` from 128 on is negative: the bits of
-- its sign cover the colours.
unfoldable pub cell : (forecolor backcolor ch : ℕ) → ℕ
cell forecolor backcolor ch =
    if ltb ch 128 then backcolor * 4096 + forecolor * 256 + ch else 0xFF00 + ch

-- Lines 37 and 38, from `i` on.
unfoldable pub blank_from : (left i : ℕ) → (ℕ → ℕ) → ℕ → ℕ
blank_from zero i v = v
blank_from (suc n) i v = blank_from n (i + 1) (update v i (cell white black 32))

unfoldable pub init_screen : Screen → Screen
init_screen s = record { vmem = blank_from (crt_column * crt_row) 0 s.vmem; x = 0; y = 0 }

-- `cursor_left`. `none` is a cursor above the screen.
unfoldable pub cursor_left : (count : ℕ) → Screen → Option Screen
cursor_left zero s = some s
cursor_left (suc n) s =
    let same_row = cursor_left n (record s { y = s.y - 1 }) in
    let row_before = cursor_left n (record s { y = crt_column - 1; x = s.x - 1 }) in
    if ltb 0 s.y then same_row else if ltb 0 s.x then row_before else none

unfoldable pub cursor_right : (count : ℕ) → Screen → Screen
cursor_right zero s = s
cursor_right (suc n) s =
    let next_row = cursor_right n (record s { y = 0; x = s.x + 1 }) in
    let same_row = cursor_right n (record s { y = s.y + 1 }) in
    if leb crt_column (s.y + 1) then next_row else same_row

-- Lines 68 and 69, from `i` on.
unfoldable pub rows_up : (left i : ℕ) → (ℕ → ℕ) → ℕ → ℕ
rows_up zero i v = v
rows_up (suc n) i v = rows_up n (i + 1) (update v (i - crt_column) (v i))

-- Lines 70 and 71, from `i` on.
unfoldable pub clear_row : (left i : ℕ) → (ℕ → ℕ) → ℕ → ℕ
clear_row zero i v = v
clear_row (suc n) i v =
    clear_row n (i + 1) (update v (crt_row * crt_column - i - 1) (cell white black 32))

unfoldable pub wrap_screen : (ℕ → ℕ) → ℕ → ℕ
wrap_screen v = clear_row crt_column 0 (rows_up (crt_row * crt_column - crt_column) crt_column v)

-- Lines 76 to 88.
unfoldable pub put_char : (forecolor backcolor ch : ℕ) → Screen → Screen
put_char forecolor backcolor ch s =
    let v = update s.vmem (s.x * crt_column + s.y) (cell forecolor backcolor ch) in
    if ch == 10
    then record s { x = s.x + 1; y = 0 }
    else if leb crt_column (s.y + 1)
    then record { vmem = v; x = s.x + 1; y = 0 }
    else record { vmem = v; x = s.x; y = s.y + 1 }

-- Lines 89 to 92.
unfoldable pub touch_bottom : Screen → Screen
touch_bottom s =
    if leb crt_row s.x then record s { x = crt_row - 1; vmem = wrap_screen s.vmem } else s

unfoldable pub color_console_printc : (forecolor backcolor ch : ℕ) → Screen → Screen
color_console_printc forecolor backcolor ch s = touch_bottom (put_char forecolor backcolor ch s)

unfoldable pub console_printc : ℕ → Screen → Screen
console_printc ch s = color_console_printc white black ch s

unfoldable pub red_console_printc : ℕ → Screen → Screen
red_console_printc ch s = color_console_printc red black ch s

unfoldable pub green_console_printc : ℕ → Screen → Screen
green_console_printc ch s = color_console_printc green black ch s

-- The characters that `vfprintf` gives to `printer`, one behind the other.
unfoldable pub print_all : (printer : ℕ → Screen → Screen) → List ℕ → Screen → Screen
print_all printer [] s = s
print_all printer (c ∷ cs) s = print_all printer cs (printer c s)

unfoldable pub print_with :
    (printer : ℕ → Screen → Screen) → List ℕ → List Arg → Screen → Option Screen
print_with printer ctl args s = elim (vfprintf ctl args) [
  | none ↦ none
  | some cs ↦ some (print_all printer cs s)
]

unfoldable pub printk : List ℕ → List Arg → Screen → Option Screen
printk ctl args s = print_with console_printc ctl args s

unfoldable pub red_printk : List ℕ → List Arg → Screen → Option Screen
red_printk ctl args s = print_with red_console_printc ctl args s

unfoldable pub green_printk : List ℕ → List Arg → Screen → Option Screen
green_printk ctl args s = print_with green_console_printc ctl args s
