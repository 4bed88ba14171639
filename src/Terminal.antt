-- ===== src/Terminal.antt =====
-- The keyboard half of kernel/drivers/tty.c: keys, the line that is being edited, and the pool of
-- lines for the readers. What goes to the screen is a list of calls of kernel/console.c.
pub mod Shift
pub mod Edit
pub mod Key
pub mod Moves
pub mod Getch
pub mod Readers
pub mod Writes
pub mod Lines
pub mod Delivery
use yinyang_os.Base.{
  Bool, List, Option, [], add32, false, get_elem?, if◌then◌else◌, leb, ltb, none, not, slt32, some,
  sub32, suc, true, update, zero, ℕ, ◌%◌, ◌+◌, ◌-◌, ◌==◌, ◌++◌, ◌∷◌, ◌||◌, ◌&&◌,
}

abbrev pub nr_input_buf : ℕ
nr_input_buf = 256

abbrev pub nr_input_pool : ℕ
nr_input_pool = 1024

-- A call of `console_printc`, `cursor_left` or `cursor_right`.
pub data Output : Type 0 where
  printc left right : ℕ → Output

-- `shift_level`, an `int`, and `caps_on`
pub record Keys : Type 0 where
  pub shift_level : ℕ
  pub caps_on : Bool

-- The rows of `key_maps`, which go on with zeros.
abbrev pub plain_keys : List ℕ
plain_keys =
    0 ∷ 0 ∷ 49 ∷ 50 ∷ 51 ∷ 52 ∷ 53 ∷ 54 ∷ 55 ∷ 56 ∷ 57 ∷ 48 ∷ 45 ∷ 61 ∷ 0 ∷ 9 ∷ 113 ∷ 119 ∷ 101
    ∷ 114 ∷ 116 ∷ 121 ∷ 117 ∷ 105 ∷ 111 ∷ 112 ∷ 91 ∷ 93 ∷ 0 ∷ 0 ∷ 97 ∷ 115 ∷ 100 ∷ 102 ∷ 103 ∷ 104
    ∷ 106 ∷ 107 ∷ 108 ∷ 59 ∷ 39 ∷ 96 ∷ 0 ∷ 92 ∷ 122 ∷ 120 ∷ 99 ∷ 118 ∷ 98 ∷ 110 ∷ 109 ∷ 44 ∷ 46 ∷ 47
    ∷ 0 ∷ 0 ∷ 0 ∷ 32 ∷ []

abbrev pub shifted_keys : List ℕ
shifted_keys =
    0 ∷ 0 ∷ 33 ∷ 64 ∷ 35 ∷ 36 ∷ 37 ∷ 94 ∷ 38 ∷ 42 ∷ 40 ∷ 41 ∷ 95 ∷ 43 ∷ 0 ∷ 0 ∷ 81 ∷ 87 ∷ 69 ∷ 82
    ∷ 84 ∷ 89 ∷ 85 ∷ 73 ∷ 79 ∷ 80 ∷ 123 ∷ 125 ∷ 0 ∷ 0 ∷ 65 ∷ 83 ∷ 68 ∷ 70 ∷ 71 ∷ 72 ∷ 74 ∷ 75 ∷ 76
    ∷ 58 ∷ 34 ∷ 126 ∷ 0 ∷ 124 ∷ 90 ∷ 88 ∷ 67 ∷ 86 ∷ 66 ∷ 78 ∷ 77 ∷ 60 ∷ 62 ∷ 63 ∷ 0 ∷ 0 ∷ 0 ∷ 32
    ∷ []

unfoldable pub key_map : List ℕ → ℕ → ℕ
key_map row code = elim (get_elem? row code) [ none ↦ 0 | some c ↦ c ]

-- `get_ascii`: the character, 0 for none, and the keys that are held.
unfoldable pub get_ascii : (code : ℕ) → Keys → ℕ × Keys
get_ascii code k =
    let plain = key_map plain_keys code in
    let shifted = slt32 0 k.shift_level in
    let index =
      if leb 97 plain && leb plain 122
      then (if shifted then not k.caps_on else k.caps_on)
      else shifted in
    if (code == 42) || (code == 54)
    then (0, record k { shift_level = add32 k.shift_level 1 })
    else if (code == 170) || (code == 182)
    then (0, record k { shift_level = sub32 k.shift_level 1 })
    else if code == 58
    then (0, record k { caps_on = true })
    else if code == 186
    then (0, record k { caps_on = false })
    else (key_map (if index then shifted_keys else plain_keys) code, k)

-- `input_buffer`, `input_length` and `cursor_pos`
pub record Line : Type 0 where
  pub input_buffer : ℕ → ℕ
  pub input_length : ℕ
  pub cursor_pos : ℕ

-- Lines 142 to 144: `left` rounds, the last one with `i = pos + 1`.
unfoldable pub shift_up : (left pos : ℕ) → (ℕ → ℕ) → ℕ → ℕ
shift_up zero pos buf = buf
shift_up (suc n) pos buf = shift_up n pos (update buf (pos + suc n) (buf (pos + n)))

-- Lines 155 to 157, from `i` on.
unfoldable pub shift_down : (left i : ℕ) → (ℕ → ℕ) → ℕ → ℕ
shift_down zero i buf = buf
shift_down (suc n) i buf = shift_down n (i + 1) (update buf i (buf (i + 1)))

-- Lines 142 to 146. A line of 255 characters is full, and the code writes behind the buffer: `none`.
unfoldable pub insert_char : ℕ → Line → Option Line
insert_char ch l =
    let shifted = shift_up (l.input_length - l.cursor_pos) l.cursor_pos l.input_buffer in
    if ltb (l.input_length + 1) nr_input_buf
    then some (record {
      input_buffer = update (update shifted (l.input_length + 1) 0) l.cursor_pos ch;
      input_length = l.input_length + 1;
      cursor_pos = l.cursor_pos + 1;
    })
    else none

-- Lines 155 to 159, where `cursor_pos` is positive.
unfoldable pub delete_char : Line → Line
delete_char l = record {
  input_buffer = shift_down (l.input_length - (l.cursor_pos - 1)) (l.cursor_pos - 1) l.input_buffer;
  input_length = l.input_length - 1;
  cursor_pos = l.cursor_pos - 1;
}

-- `console_printc` of the `left` characters from `i` on.
unfoldable pub print_from : (left i : ℕ) → (ℕ → ℕ) → List Output
print_from zero i buf = []
print_from (suc n) i buf = printc (buf i) ∷ print_from n (i + 1) buf

-- `input_pool`, with `f` and `r`
pub record Pool : Type 0 where
  pub input_pool : ℕ → ℕ
  pub f : ℕ
  pub r : ℕ

-- Lines 183 to 186: the `left` characters from `i` on go into the pool.
unfoldable pub pool_from : (left i : ℕ) → (ℕ → ℕ) → Pool → Pool
pool_from zero i buf p = p
pool_from (suc n) i buf p =
    pool_from n (i + 1) buf
      (record p { input_pool = update p.input_pool p.r (buf i); r = (p.r + 1) % nr_input_pool })

-- The state of the driver, less its readers.
pub record Tty : Type 0 where
  pub keys : Keys
  pub line : Line
  pub pool : Pool
  pub dirty : Bool

-- `update_input`
unfoldable pub update_input : Tty → List Output × Tty
update_input t =
    let l = t.line in
    if t.dirty
    then (
      printc 10 ∷ print_from l.cursor_pos 0 l.input_buffer
          ++ (print_from (l.input_length - l.cursor_pos) l.cursor_pos l.input_buffer
              ++ left (l.input_length - l.cursor_pos) ∷ []),
      record t { dirty = false },
    )
    else ([], t)

-- Lines 141 to 150.
unfoldable pub type_char : ℕ → Tty → Option (List Output × Tty)
type_char ch t = elim (insert_char ch t.line) [
  | none ↦ none
  | some l ↦ some (
    printc ch ∷ print_from (l.input_length - l.cursor_pos) l.cursor_pos l.input_buffer
        ++ left (l.input_length - l.cursor_pos) ∷ [],
    record t { line = l },
  )
]

-- Lines 154 to 166.
unfoldable pub back_key : Tty → List Output × Tty
back_key t =
    let l = delete_char t.line in
    if ltb 0 t.line.cursor_pos
    then (
      left 1 ∷ print_from (l.input_length - l.cursor_pos) l.cursor_pos l.input_buffer
          ++ printc 32 ∷ left (l.input_length - l.cursor_pos + 1) ∷ [],
      record t { line = l },
    )
    else ([], t)

-- Lines 169 to 172.
unfoldable pub left_key : Tty → List Output × Tty
left_key t =
    let l = record (t.line) { cursor_pos = t.line.cursor_pos - 1 } in
    if ltb 0 t.line.cursor_pos then (left 1 ∷ [], record t { line = l }) else ([], t)

-- Lines 175 to 178.
unfoldable pub right_key : Tty → List Output × Tty
right_key t =
    let l = record (t.line) { cursor_pos = t.line.cursor_pos + 1 } in
    if ltb t.line.cursor_pos t.line.input_length
    then (right 1 ∷ [], record t { line = l })
    else ([], t)

-- Lines 181 to 190, less the call of `canonic_wakeup_read` on line 187.
unfoldable pub enter_key : Tty → Option (List Output × Tty)
enter_key t =
    let l = t.line in
    let buf = update (update l.input_buffer l.input_length 10) (l.input_length + 1) 0 in
    if ltb (l.input_length + 1) nr_input_buf
    then some (
      printc 10 ∷ [],
      record t {
        line = record { input_buffer = update buf 0 0; input_length = 0; cursor_pos = 0 };
        pool = pool_from (l.input_length + 2) 0 buf t.pool;
      },
    )
    else none

-- What was printed before, and then what a key prints.
abbrev pub then_show :
    List Output → Bool → Option (List Output × Tty) → Option (List Output × Tty × Bool)
then_show shown w none = none
then_show shown w (some (out, t)) = some (shown ++ out, t, w)

-- `canonic_mode_getch`: what it prints, the state, and whether it calls `canonic_wakeup_read`.
-- `none` is a write behind `input_buffer`.
unfoldable pub canonic_mode_getch : (code : ℕ) → Tty → Option (List Output × Tty × Bool)
canonic_mode_getch code t0 =
    let (ch, keys) = get_ascii code t0.keys in
    let (shown, t) = update_input (record t0 { keys = keys }) in
    let wakes = λ (o : Option (List Output × Tty)) (w : Bool). then_show shown w o in
    if not (ch == 0)
    then wakes (type_char ch t) false
    else if code == 14
    then wakes (some (back_key t)) false
    else if code == 75
    then wakes (some (left_key t)) false
    else if code == 77
    then wakes (some (right_key t)) false
    else if code == 28
    then wakes (enter_key t) true
    else some (shown, t, false)
