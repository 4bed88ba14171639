-- ===== src/Console/Print.antt =====
-- What kernel/console.c prints appears on the paper, and the window follows it.
use yinyang_os.Base.{
  Bool-cases, List, [], arith, false, inl, inr, leb, refl, some, suc, sym, true, update, zero, ℕ,
  ◌*◌, ◌+◌, ◌<◌, ◌≤◌, ◌==◌, ◌∷◌, ◌≡◌, ◌≢◌, ◌∙◌, ==_ne, ==_iff,
}
use yinyang_os.Print.{Arg, vfprintf}
use yinyang_os.Console.{
  blank_from, init_screen, Screen, black, cell, color_console_printc, console_printc, print_all,
  print_with, printk, put_char, touch_bottom, white,
}
use yinyang_os.Console.Paper.{
  BlankBelow, BlankBelow-write, Paper, Seen, Seen-wrap, Seen-write, Shows, type_all, type_on,
  write_cell, glyph, blank, cell-glyph, cell-blank,
}

-- The window shows the paper, from row `top` or from the row below that on.
abbrev pub ShowsFrom : Screen → Paper → ℕ → Type 0
ShowsFrom s p top = (top' : ℕ) × Shows s p top' × (top ≤ top')

-- The cursor at the start of the next row.
new_row :
    (v : ℕ → ℕ) (cells : ℕ → ℕ → ℕ) (top x : ℕ)
    → x < 25
    → Seen v cells top
    → BlankBelow cells (top + x)
    → ShowsFrom
        (touch_bottom (record { vmem = v; x = x + 1; y = 0 }))
        (record { cells = cells; row = top + x + 1; col = 0 })
        top
unfolding touch_bottom
new_row v cells top x l seen below = elim (Bool-cases (leb 25 (x + 1))) [
  | inl h ↦
      let e : x ≡ 24 = ground arith in
      (
        top + 1,
        rw h (record {
          at_row = omega arith;
          at_col = refl;
          in_row = omega arith;
          in_col = omega arith;
          seen = Seen-wrap v cells top (rw e at below) seen;
          below = λ r q. below r (omega arith);
        }),
        omega arith,
      )
  | inr h ↦
      let n : x + 1 < 25 = ground arith in
      (
        top,
        rw h (record {
          at_row = omega arith;
          at_col = refl;
          in_row = n;
          in_col = omega arith;
          seen = seen;
          below = λ r q. below r (omega arith);
        }),
        omega arith,
      )
]

-- The cursor in its row.
same_row :
    (v : ℕ → ℕ) (cells : ℕ → ℕ → ℕ) (top x y : ℕ)
    → x < 25
    → y < 80
    → Seen v cells top
    → BlankBelow cells (top + x)
    → ShowsFrom
        (touch_bottom (record { vmem = v; x = x; y = y }))
        (record { cells = cells; row = top + x; col = y })
        top
unfolding touch_bottom
same_row v cells top x y l m seen below =
    let h : leb 25 x ≡ false = ground arith in
    (
      top,
      rw h (record {
        at_row = refl;
        at_col = refl;
        in_row = l;
        in_col = m;
        seen = seen;
        below = below;
      }),
      omega arith,
    )

-- A character appears on the paper, and the window follows it down.
pub color_console_printc_lem :
    (forecolor backcolor ch : ℕ) (s : Screen) (p : Paper) (top : ℕ)
    → Shows s p top
    → ShowsFrom
        (color_console_printc forecolor backcolor ch s)
        (type_on forecolor backcolor ch p)
        top
unfolding color_console_printc put_char type_on
color_console_printc_lem forecolor backcolor ch s p top h =
    let c = glyph forecolor backcolor ch in
    let same = cell-glyph forecolor backcolor ch in
    let v = update s.vmem (s.x * 80 + s.y) c in
    let at_row = h.at_row in
    let at_col = h.at_col in
    let row = sym at_row in
    let col = sym at_col in
    elim (Bool-cases (ch == 10)) [
      | inl e ↦ rw (e, row) (new_row s.vmem p.cells top s.x h.in_row h.seen (rw row at h.below))
      | inr e ↦
          let seen = Seen-write s.vmem p.cells top s.x s.y c h.in_col h.seen in
          let below =
            BlankBelow-write p.cells (top + s.x) s.y c (top + s.x) (omega arith)
              (rw row at h.below) in
          elim (Bool-cases (s.y == 79)) [
            | inl d ↦
                let q : leb 80 (s.y + 1) ≡ true = ground arith in
                rw (e, q, same, row, col, d)
                  (new_row v (write_cell (top + s.x) s.y c p.cells) top s.x h.in_row seen below)
            | inr d ↦
                let q : leb 80 (s.y + 1) ≡ false = ground arith in
                rw (e, q, same, row, col, d)
                  (same_row v (write_cell (top + s.x) s.y c p.cells) top s.x (s.y + 1) h.in_row
                    (let m = h.in_col in ground arith) seen below)
          ]
    ]

print_all_lem :
    (cs : List ℕ) (s : Screen) (p : Paper) (top : ℕ)
    → Shows s p top
    → ShowsFrom (print_all console_printc cs s) (type_all white black cs p) top
unfolding print_all type_all console_printc
print_all_lem [] s p top h = (top, h, omega arith)
print_all_lem (c ∷ cs) s p top h =
    let (t1, h1, l1) = color_console_printc_lem white black c s p top h in
    let (t2, h2, l2) = print_all_lem cs (console_printc c s) (type_on white black c p) t1 h1 in
    (t2, h2, omega arith)

-- On a screen that shows an endless roll of paper, `printk` types on the paper what `vfprintf`
-- prints, in white on black, with a new row behind 80 characters, and the window moves down with the cursor, which
-- stays on the screen; rows below the cursor stay blank.
pub printk_lem :
    (ctl : List ℕ) (args : List Arg) (cs : List ℕ) (s : Screen) (p : Paper) (top : ℕ)
    → vfprintf ctl args ≡ some cs
    → Shows s p top
    → (s' : Screen) × (printk ctl args s ≡ some s') × ShowsFrom s' (type_all white black cs p) top
unfolding printk print_with
printk_lem ctl args cs s p top e h =
    (print_all console_printc cs s, rw (print_with, e), print_all_lem cs s p top h)

blank_from-other : (n i : ℕ) (v : ℕ → ℕ) (k : ℕ) → k < i → blank_from n i v k ≡ v k
unfolding blank_from
blank_from-other zero i v k l = refl
blank_from-other (suc n) i v k l =
    let e = ==_ne k i (omega arith) in
    let u : update v i (cell white black 32) k ≡ v k = rw e in
    blank_from-other n (i + 1) (update v i (cell white black 32)) k (omega arith) ∙ u

blank_from_lem :
    (n i : ℕ) (v : ℕ → ℕ) (k : ℕ) → i ≤ k → k < i + n → blank_from n i v k ≡ cell white black 32
unfolding blank_from
blank_from_lem zero i v k l m = absurd (omega arith)
blank_from_lem (suc n) i v k l m =
    let v' = update v i (cell white black 32) in
    elim (Bool-cases (k == i)) [
      | inl h ↦
          let u : v' k ≡ cell white black 32 = rw h in
          let e = (==_iff k i).0 h in blank_from-other n (i + 1) v' k (omega arith) ∙ u
      | inr h ↦
          let d : k ≢ i = ground arith in blank_from_lem n (i + 1) v' k (omega arith) (omega arith)
    ]

-- `init_screen` shows paper without a character.
pub init_screen-Shows :
    (s : Screen) → Shows (init_screen s) (record { cells = λ r j. blank; row = 0; col = 0 }) 0
unfolding init_screen
init_screen-Shows s = record {
  at_row = omega arith;
  at_col = refl;
  in_row = omega arith;
  in_col = omega arith;
  seen =
      λ i q j m. blank_from_lem 2000 0 s.vmem (i * 80 + j) (omega arith) (omega arith) ∙ cell-blank;
  below = λ r q j m. refl;
}
