-- ===== src/Console/Paper.antt =====
-- The screen of kernel/console.c as a window on an endless roll of paper.
use yinyang_os.Base.{
  Bool-cases, ltb, refl, List, [], arith, if◌then◌else◌, inl, inr, sym, update, ℕ, ◌&&◌, ◌*◌, ◌+◌,
  ◌<◌, ◌≤◌, ◌==◌, ◌∷◌, ◌≡◌, ◌≢◌, ◌∙◌, ==_ne, ==_refl, ==_iff,
}
use yinyang_os.Console.{Screen, black, cell, white, wrap_screen}
use yinyang_os.Console.Loops.{wrap_screen-last, wrap_screen-row}

-- What a character looks like in a cell: the lowest 8 bits are the character, the next 4 the colour
-- of the character, the upper 4 that behind it. The characters from 128 on have all colour bits.
abbrev pub glyph : (forecolor backcolor ch : ℕ) → ℕ
glyph forecolor backcolor ch =
    if ltb ch 128 then (16 * backcolor + forecolor) * 256 + ch else 255 * 256 + ch

-- A space, in white on black.
abbrev pub blank : ℕ
blank = 0x0720

pub cell-glyph :
    (forecolor backcolor ch : ℕ) → cell forecolor backcolor ch ≡ glyph forecolor backcolor ch
unfolding cell
cell-glyph forecolor backcolor ch = ground arith

pub cell-blank : cell white black 32 ≡ blank
unfolding cell
cell-blank = refl

-- The cells of all rows, and where the next character goes.
pub record Paper : Type 0 where
  pub cells : ℕ → ℕ → ℕ
  pub row : ℕ
  pub col : ℕ

abbrev pub write_cell : (row col c : ℕ) → (ℕ → ℕ → ℕ) → ℕ → ℕ → ℕ
write_cell row col c cells r j = if (r == row) && (j == col) then c else cells r j

-- One character on the paper.
unfoldable pub type_on : (forecolor backcolor ch : ℕ) → Paper → Paper
type_on forecolor backcolor ch p =
    let cells = write_cell p.row p.col (glyph forecolor backcolor ch) p.cells in
    if ch == 10
    then record p { row = p.row + 1; col = 0 }
    else if p.col == 79
    then record { cells = cells; row = p.row + 1; col = 0 }
    else record { cells = cells; row = p.row; col = p.col + 1 }

unfoldable pub type_all : (forecolor backcolor : ℕ) → List ℕ → Paper → Paper
type_all forecolor backcolor [] p = p
type_all forecolor backcolor (c ∷ cs) p =
    type_all forecolor backcolor cs (type_on forecolor backcolor c p)

-- The 25 rows of `v` are those of the paper from `top` on.
abbrev pub Seen : (ℕ → ℕ) → (ℕ → ℕ → ℕ) → (top : ℕ) → Type 0
Seen v cells top = (i : ℕ) → i < 25 → (j : ℕ) → j < 80 → v (i * 80 + j) ≡ cells (top + i) j

abbrev pub BlankBelow : (ℕ → ℕ → ℕ) → (row : ℕ) → Type 0
BlankBelow cells row = (r : ℕ) → row < r → (j : ℕ) → j < 80 → cells r j ≡ blank

-- The screen shows the paper from row `top` on, with its cursor on the paper's; below that the paper
-- is blank.
pub record Shows (s : Screen) (p : Paper) (top : ℕ) : Type 0 where
  pub at_row : top + s.x ≡ p.row
  pub at_col : s.y ≡ p.col
  pub in_row : s.x < 25
  pub in_col : s.y < 80
  pub seen : Seen s.vmem p.cells top
  pub below : BlankBelow p.cells p.row

pub Seen-write :
    (v : ℕ → ℕ) (cells : ℕ → ℕ → ℕ) (top x y c : ℕ)
    → y < 80
    → Seen v cells top
    → Seen (update v (x * 80 + y) c) (write_cell (top + x) y c cells) top
Seen-write v cells top x y c l h i q j m =
    let k = h i q j m in
    elim (Bool-cases (i == x)) [
      | inl e ↦
          let e' = (==_iff i x).0 e in
          elim (Bool-cases (j == y)) [
            | inl d ↦
                let d' = (==_iff j y).0 d in
                let r = ==_refl (x * 80 + y) in
                let r' = ==_refl (top + x) in let r'' = ==_refl y in rw (e', d', r, r', r'')
            | inr d ↦
                let n : j ≢ y = ground arith in
                let a = ==_ne (i * 80 + j) (x * 80 + y) (omega arith) in rw (a, d) (ground arith)
          ]
      | inr e ↦
          let n : i ≢ x = ground arith in
          let a = ==_ne (i * 80 + j) (x * 80 + y) (omega arith) in
          let b = ==_ne (top + i) (top + x) (omega arith) in rw (a, b) k
    ]

pub Seen-wrap :
    (v : ℕ → ℕ) (cells : ℕ → ℕ → ℕ) (top : ℕ)
    → BlankBelow cells (top + 24)
    → Seen v cells top
    → Seen (wrap_screen v) cells (top + 1)
Seen-wrap v cells top below h i q j m = elim (Bool-cases (i == 24)) [
  | inl e ↦
      let e' = (==_iff i 24).0 e in
      let b = below (top + 1 + 24) (omega arith) j m in
      rw e' (wrap_screen-last v j m ∙ cell-blank ∙ sym b)
  | inr e ↦
      let n : i ≢ 24 = ground arith in
      let a : top + (i + 1) ≡ top + 1 + i = omega arith in
      wrap_screen-row v i j (omega arith) m ∙ (rw a at (h (i + 1) (omega arith) j m))
]

pub BlankBelow-write :
    (cells : ℕ → ℕ → ℕ) (row col c row' : ℕ)
    → row ≤ row'
    → BlankBelow cells row
    → BlankBelow (write_cell row col c cells) row'
BlankBelow-write cells row col c row' l h r q j m =
    let n = ==_ne r row (omega arith) in rw n (h r (omega arith) j m)
