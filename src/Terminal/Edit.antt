-- ===== src/Terminal/Edit.antt =====
-- The line editor of kernel/drivers/tty.c, as the characters on either side of the cursor.
use yinyang_os.Base.{
  List, [], ap, arith, inl, length, lt→ltb, some, suc, sym, update, ℕ, ◌+◌, ◌-◌, ◌<◌, ◌∷◌, ◌≡◌, ◌≢◌,
  ◌∙◌, ==_ne, ==_refl,
}
use yinyang_os.Exec.Bytes.{At}
use yinyang_os.Terminal.{Line, delete_char, insert_char, shift_down, shift_up}
use yinyang_os.Terminal.Shift.{
  At-move, shift_down-other, shift_down_lem, shift_up-other, shift_up_lem,
}

-- The characters before the cursor, the last one first.
abbrev pub Before : (ℕ → ℕ) → List ℕ → Type 0
Before buf [] = Unit
Before buf (c ∷ ls) = (buf (length ls) ≡ c) × Before buf ls

-- The line has the characters `ls` before the cursor, the last one first, and `rs` behind it.
pub record IsLine (l : Line) (ls rs : List ℕ) : Type 0 where
  pub cursor : l.cursor_pos ≡ length ls
  pub size : l.input_length ≡ length ls + length rs
  pub before : Before l.input_buffer ls
  pub behind : At l.input_buffer (length ls) rs

Before-same :
    (p q : ℕ → ℕ) (ls : List ℕ) → ((i : ℕ) → i < length ls → q i ≡ p i) → Before p ls → Before q ls
Before-same p q [] same h = tt
Before-same p q (c ∷ ls) same (h, r) =
    (same (length ls) (omega arith) ∙ h, Before-same p q ls (λ i l. same i (omega arith)) r)

pub insert_char-IsLine :
    (ch : ℕ) (l : Line) (ls rs : List ℕ)
    → IsLine l ls rs
    → length ls + length rs < 255
    → (l' : Line) × (insert_char ch l ≡ some l') × IsLine l' (ch ∷ ls) rs
unfolding insert_char
insert_char-IsLine ch l ls rs h room =
    let n = l.input_length - l.cursor_pos in
    let up = shift_up n l.cursor_pos l.input_buffer in
    let c = h.cursor in
    let s = h.size in
    let fits = lt→ltb (l.input_length + 1) 256 (omega arith) in
    let buf = update (update up (l.input_length + 1) 0) l.cursor_pos ch in
    let r = ==_refl l.cursor_pos in
    let at_cursor : buf l.cursor_pos ≡ ch = rw r in
    let other : (i : ℕ) → i ≢ l.cursor_pos → i ≢ l.input_length + 1 → buf i ≡ up i = λ i n m.
      let e = ==_ne i l.cursor_pos n in let e' = ==_ne i (l.input_length + 1) m in rw (e, e') in
    (
      record {
        input_buffer = buf;
        input_length = l.input_length + 1;
        cursor_pos = l.cursor_pos + 1;
      },
      rw fits,
      record {
        cursor = omega arith;
        size = omega arith;
        before = (
          ap buf (sym c) ∙ at_cursor,
          Before-same l.input_buffer buf ls
              (λ i q.
                other i (omega arith) (omega arith)
                ∙ shift_up-other n l.cursor_pos l.input_buffer i (inl (omega arith)))
              h.before,
        );
        behind =
            At-move l.input_buffer buf (length ls) (suc (length ls)) rs
              (λ i q.
                let e : suc (length ls) + i ≡ (length ls + i) + 1 = omega arith in
                other (suc (length ls) + i) (omega arith) (omega arith)
                ∙ (rw e (
                    shift_up_lem n l.cursor_pos l.input_buffer (length ls + i) (omega arith)
                      (omega arith))))
              h.behind;
      },
    )

pub delete_char-IsLine :
    (c : ℕ) (l : Line) (ls rs : List ℕ) → IsLine l (c ∷ ls) rs → IsLine (delete_char l) ls rs
unfolding delete_char
delete_char-IsLine c l ls rs h =
    let k = h.cursor in
    let s = h.size in
    let n = l.input_length - (l.cursor_pos - 1) in
    let i0 = l.cursor_pos - 1 in
    record {
      cursor = omega arith;
      size = omega arith;
      before =
          Before-same l.input_buffer (shift_down n i0 l.input_buffer) ls
            (λ i q. shift_down-other n i0 l.input_buffer i (omega arith)) h.before.1;
      behind =
          At-move l.input_buffer (shift_down n i0 l.input_buffer) (suc (length ls)) (length ls) rs
            (λ i q.
              let e : suc (length ls) + i ≡ length ls + i + 1 = omega arith in
              rw e (shift_down_lem n i0 l.input_buffer (length ls + i) (omega arith) (omega arith)))
            h.behind;
    }
