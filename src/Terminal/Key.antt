-- ===== src/Terminal/Key.antt =====
-- A key in canonic mode: `canonic_mode_getch` of kernel/drivers/tty.c.
use yinyang_os.Base.{
  Bool, Bool-cases, List, Option, [], arith, if◌then◌else◌, inl, inr, length, not, refl, some, suc,
  update, ℕ, ◌%◌, ◌+◌, ◌==◌, ◌++◌, ◌∷◌, ◌≡◌, ◌&&◌,
}
use yinyang_os.Exec.Bytes.{At}
use yinyang_os.Terminal.{Line, Output, Pool, Tty, pool_from, update_input}
use yinyang_os.Terminal.Edit.{Before, IsLine}

-- The text of a line, from the characters before the cursor and those behind it.
unfoldable pub text : (ls rs : List ℕ) → List ℕ
text [] rs = rs
text (c ∷ ls) rs = text ls (c ∷ rs)

-- Characters into the pool, one behind the other.
unfoldable pub pool_all : List ℕ → Pool → Pool
pool_all [] p = p
pool_all (c ∷ cs) p =
    pool_all cs (record p { input_pool = update p.input_pool p.r c; r = (p.r + 1) % 1024 })

-- One character from one side of the cursor to the other, or away.
abbrev pub to_left : (ls rs : List ℕ) → List ℕ × List ℕ
to_left [] rs = ([], rs)
to_left (c ∷ ls) rs = (ls, c ∷ rs)

abbrev pub to_right : (ls rs : List ℕ) → List ℕ × List ℕ
to_right ls [] = (ls, [])
to_right ls (c ∷ rs) = (c ∷ ls, rs)

abbrev pub rub_out : (ls rs : List ℕ) → List ℕ × List ℕ
rub_out [] rs = ([], rs)
rub_out (c ∷ ls) rs = (ls, rs)

-- What a key makes of a line: `ch` is its character, 0 if it has none.
unfoldable pub edited : (ch code : ℕ) → (ls rs : List ℕ) → List ℕ × List ℕ
edited ch code ls rs =
    if not (ch == 0)
    then (ch ∷ ls, rs)
    else if code == 14
    then rub_out ls rs
    else if code == 75
    then to_left ls rs
    else if code == 77
    then to_right ls rs
    else if code == 28
    then ([], [])
    else (ls, rs)

-- The key ends the line.
unfoldable pub ends : (ch code : ℕ) → Bool
ends ch code = (ch == 0) && (code == 28)

pub Before-text :
    (buf : ℕ → ℕ) (ls rs : List ℕ) → Before buf ls → At buf (length ls) rs → At buf 0 (text ls rs)
unfolding text
Before-text buf [] rs b a = a
Before-text buf (c ∷ ls) rs (e, b) a =
    let s : suc (length ls) ≡ length ls + 1 = omega arith in
    Before-text buf ls (c ∷ rs) b (e, rw s at a)

pub length-text : (ls rs : List ℕ) → length (text ls rs) ≡ length ls + length rs
unfolding text
length-text [] rs = omega arith
length-text (c ∷ ls) rs = let h = length-text ls (c ∷ rs) in omega arith

pub pool_from_lem :
    (xs : List ℕ) (i : ℕ) (buf : ℕ → ℕ) (p : Pool)
    → At buf i xs
    → pool_from (length xs) i buf p ≡ pool_all xs p
unfolding pool_from pool_all
pool_from_lem [] i buf p h = refl
pool_from_lem (x ∷ xs) i buf p (e, h) =
    rw (pool_from, e)
      (pool_from_lem xs (i + 1) buf
        (record p { input_pool = update p.input_pool p.r x; r = (p.r + 1) % 1024 }) h)

-- What a key does to the line, the pool and the readers.
pub record Edits (ch code : ℕ) (ls rs : List ℕ) (pool : Pool)
    (o : Option (List Output × Tty × Bool)) : Type 0 where
  pub shown : List Output
  pub after : Tty
  pub wakes : Bool
  pub result : o ≡ some (shown, after, wakes)
  pub line : IsLine after.line (edited ch code ls rs).0 (edited ch code ls rs).1
  pub into_pool :
      after.pool ≡ (if ends ch code then pool_all (text ls rs ++ 10 ∷ 0 ∷ []) pool else pool)
  pub wakes_at_end : wakes ≡ ends ch code

pub IsLine-same : (l l' : Line) (ls rs : List ℕ) → l' ≡ l → IsLine l ls rs → IsLine l' ls rs
IsLine-same l l' ls rs e h = rw e h

pub update_input-line : (t : Tty) → (update_input t).1.line ≡ t.line
unfolding update_input
update_input-line t = elim (Bool-cases t.dirty) [ inl h ↦ rw h | inr h ↦ rw h ]

pub update_input-pool : (t : Tty) → (update_input t).1.pool ≡ t.pool
unfolding update_input
update_input-pool t = elim (Bool-cases t.dirty) [ inl h ↦ rw h | inr h ↦ rw h ]
