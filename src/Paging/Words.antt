-- ===== src/Paging/Words.antt =====
-- What the page walk reads stays the same while the copies write elsewhere.
use yinyang_os.Base.{Bool, arith, false, true, ℕ, ◌*◌, ◌+◌, ◌/◌, ◌%◌, ◌<◌, ◌^◌, ◌≡◌}
use yinyang_os.Paging.{Ram, read32, table_at, translated}

-- The bytes that `table` marks are the same in both memories.
abbrev pub Keeps : (table : ℕ → Bool) → Ram → Ram → Type 0
Keeps table m m' = (a : ℕ) → table a ≡ true → m' a ≡ m a

-- `table` marks the entries of the directory and of the page tables that translate the `n` bytes
-- from `va` on, and none of the bytes that they translate to.
pub record Apart (table : ℕ → Bool) (m : Ram) (pdir va n : ℕ) : Type 0 where
  pub pde_in : (k : ℕ) → k < n → (j : ℕ) → j < 4 → table (pdir + 4 * ((va + k) / 2 ^ 22) + j) ≡ true
  pub pte_in :
      (k : ℕ)
      → k < n
      → (j : ℕ) → j < 4
      → table (table_at m pdir ((va + k) / 2 ^ 22) + 4 * ((va + k) / 2 ^ 12 % 1024) + j) ≡ true
  pub bytes_out : (k : ℕ) → k < n → table (translated m pdir (va + k)) ≡ false

pub read32-Keeps :
    (table : ℕ → Bool) (m m' : Ram) (a : ℕ)
    → Keeps table m m'
    → ((j : ℕ) → j < 4 → table (a + j) ≡ true)
    → read32 m' a ≡ read32 m a
unfolding read32
read32-Keeps table m m' a same marked =
    let e0 : m' (a + 0) ≡ m (a + 0) = same (a + 0) (marked 0 (omega arith)) in
    let e1 = same (a + 1) (marked 1 (omega arith)) in
    let e2 = same (a + 2) (marked 2 (omega arith)) in
    let e3 = same (a + 3) (marked 3 (omega arith)) in
    let z : a + 0 ≡ a = omega arith in let e0' : m' a ≡ m a = rw z at e0 in rw (e0', e1, e2, e3)
