-- ===== src/Terminal/Moves.antt =====
-- The keys that move the cursor or rub out, and those that add to the line or end it.
use yinyang_os.Base.{
  length-append, List, [], arith, false, length, ltb, lt→ltb, refl, some, suc, true, update, ℕ, ◌+◌,
  ◌-◌, ◌<◌, ◌++◌, ◌∷◌, ◌≡◌, ==_ne, ==_refl,
}
use yinyang_os.Exec.Bytes.{At, At-append, At-frame}
use yinyang_os.Terminal.{
  left, print_from, printc, Output, Tty, back_key, enter_key, left_key, pool_from, right_key,
  type_char,
}
use yinyang_os.Terminal.Edit.{Before, IsLine, delete_char-IsLine, insert_char-IsLine}
use yinyang_os.Terminal.Key.{
  Before-text, length-text, pool_all, pool_from_lem, rub_out, text, to_left, to_right,
}

pub back_key_lem :
    (t : Tty) (ls rs : List ℕ)
    → IsLine t.line ls rs
    → IsLine (back_key t).1.line (rub_out ls rs).0 (rub_out ls rs).1
      × ((back_key t).1.pool ≡ t.pool)
unfolding back_key
back_key_lem t [] rs h =
    let c = h.cursor in let e : ltb 0 t.line.cursor_pos ≡ false = ground arith in (rw e h, rw e)
back_key_lem t (x ∷ ls) rs h =
    let c = h.cursor in
    let e : ltb 0 t.line.cursor_pos ≡ true = lt→ltb 0 t.line.cursor_pos (omega arith) in
    (rw e (delete_char-IsLine x t.line ls rs h), rw e)

pub left_key_lem :
    (t : Tty) (ls rs : List ℕ)
    → IsLine t.line ls rs
    → IsLine (left_key t).1.line (to_left ls rs).0 (to_left ls rs).1
      × ((left_key t).1.pool ≡ t.pool)
unfolding left_key
left_key_lem t [] rs h =
    let c = h.cursor in let e : ltb 0 t.line.cursor_pos ≡ false = ground arith in (rw e h, rw e)
left_key_lem t (x ∷ ls) rs h =
    let c = h.cursor in
    let s = h.size in
    let e : ltb 0 t.line.cursor_pos ≡ true = lt→ltb 0 t.line.cursor_pos (omega arith) in
    let q : suc (length ls) ≡ length ls + 1 = omega arith in
    (
      rw e (record {
        cursor = omega arith;
        size = omega arith;
        before = h.before.1;
        behind = (h.before.0, rw q at h.behind);
      }),
      rw e,
    )

pub right_key_lem :
    (t : Tty) (ls rs : List ℕ)
    → IsLine t.line ls rs
    → IsLine (right_key t).1.line (to_right ls rs).0 (to_right ls rs).1
      × ((right_key t).1.pool ≡ t.pool)
unfolding right_key
right_key_lem t ls [] h =
    let c = h.cursor in
    let s = h.size in
    let e : ltb t.line.cursor_pos t.line.input_length ≡ false = ground arith in (rw e h, rw e)
right_key_lem t ls (x ∷ rs) h =
    let c = h.cursor in
    let s = h.size in
    let e : ltb t.line.cursor_pos t.line.input_length ≡ true =
      lt→ltb t.line.cursor_pos t.line.input_length (omega arith) in
    let q : suc (length ls) ≡ length ls + 1 = omega arith in
    (
      rw e (record {
        cursor = omega arith;
        size = omega arith;
        before = (h.behind.0, h.before);
        behind = rw q h.behind.1;
      }),
      rw e,
    )

pub type_char_lem :
    (ch : ℕ) (t : Tty) (ls rs : List ℕ)
    → IsLine t.line ls rs
    → length ls + length rs < 255
    → (out : List Output) × (t' : Tty) × (type_char ch t ≡ some (out, t'))
      × IsLine t'.line (ch ∷ ls) rs
      × (t'.pool ≡ t.pool)
unfolding type_char
type_char_lem ch t ls rs h room =
    let (l, run, h') = insert_char-IsLine ch t.line ls rs h room in
    (
      printc ch ∷ print_from (l.input_length - l.cursor_pos) l.cursor_pos l.input_buffer
          ++ left (l.input_length - l.cursor_pos) ∷ [],
      record t { line = l },
      rw (type_char, run),
      h',
      refl,
    )

ended-At :
    (buf : ℕ → ℕ) (ls rs : List ℕ) (n : ℕ)
    → n ≡ length ls + length rs
    → Before buf ls
    → At buf (length ls) rs
    → At (update (update buf n 10) (n + 1) 0) 0 (text ls rs ++ 10 ∷ 0 ∷ [])
ended-At buf ls rs n e b a =
    let new = update (update buf n 10) (n + 1) 0 in
    let size = length-text ls rs in
    let r = ==_refl n in
    let r' = ==_refl (n + 1) in
    let d = ==_ne n (n + 1) (omega arith) in
    let nl : new n ≡ 10 = rw (d, r) in
    let end : new (n + 1) ≡ 0 = rw r' in
    let k : 0 + length (text ls rs) ≡ n = omega arith in
    At-append new 0 (text ls rs) (10 ∷ 0 ∷ [])
      (At-frame buf new 0 (text ls rs)
        (λ i l m.
          let p = ==_ne i n (omega arith) in let q = ==_ne i (n + 1) (omega arith) in rw (q, p))
        (Before-text buf ls rs b a))
      (rw k (nl, (end, tt)))

pub enter_key_lem :
    (t : Tty) (ls rs : List ℕ)
    → IsLine t.line ls rs
    → length ls + length rs < 255
    → (out : List Output) × (t' : Tty) × (enter_key t ≡ some (out, t'))
      × IsLine t'.line [] []
      × (t'.pool ≡ pool_all (text ls rs ++ 10 ∷ 0 ∷ []) t.pool)
unfolding enter_key
enter_key_lem t ls rs h room =
    let s = h.size in
    let n = t.line.input_length in
    let buf = update (update t.line.input_buffer n 10) (n + 1) 0 in
    let fits = lt→ltb (n + 1) 256 (omega arith) in
    let size = length-text ls rs in
    let whole = length-append (text ls rs) (10 ∷ 0 ∷ []) in
    let count : length (text ls rs ++ 10 ∷ 0 ∷ []) ≡ n + 2 = omega arith in
    let pooled =
      pool_from_lem (text ls rs ++ 10 ∷ 0 ∷ []) 0 buf t.pool
        (ended-At t.line.input_buffer ls rs n s h.before h.behind) in
    (
      printc 10 ∷ [],
      record t {
        line = record { input_buffer = update buf 0 0; input_length = 0; cursor_pos = 0 };
        pool = pool_from (n + 2) 0 buf t.pool;
      },
      rw fits,
      record { cursor = refl; size = omega arith; before = tt; behind = tt },
      rw count at pooled,
    )
