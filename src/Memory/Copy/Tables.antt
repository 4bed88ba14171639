-- ===== src/Memory/Copy/Tables.antt =====
-- The loop over the entries of a page directory: `copy_tables`.
use yinyang_os.Base.{arith, inl, inr, refl, ℕ, ◌*◌, ◌+◌, ◌%◌, ◌<◌, ◌≤◌, ◌^◌, ◌≡◌, ◌⊎◌, suc, zero}
use yinyang_os.Paging.{frame_of, read32}
use yinyang_os.Memory.{Store, count_empty_page}
use yinyang_os.Memory.Frames.{Frame}
use yinyang_os.Memory.Copy.{IsSpace, table_byte}
use yinyang_os.Memory.Copy.Entries.{New-earlier}
use yinyang_os.Memory.Copy.Directory.{
  HasTable, HasTable-kept, table_cost, table_cost-kept, table_word-kept, word-kept,
}
use yinyang_os.Memory.Copy.OneTable.{HasNew}

-- The pages that the `k` entries from `p` on of a directory cost.
unfoldable pub tables_cost : (k p : ℕ) → Store → ℕ
tables_cost zero p s = 0
tables_cost (suc k) p s = table_cost p s + tables_cost k (p + 4) s

-- What the kernel's memory holds outside of the entries that change, the `k` entries from `p` on
-- of a directory.
abbrev pub Outside : (x y p k : ℕ) → Type 0
Outside x y p k = (p + 4 * k ≤ 2 ^ 24) × ((p + 4 * k ≤ x) ⊎ (y ≤ p))

module _ (x y : ℕ) (s s' : Store) (f : Frame x y s s') (low : y ≤ 2 ^ 24) where
  pub entry_word-kept :
      (p k : ℕ)
      → Outside x y p k
      → (i : ℕ) → i < k
      → read32 s'.ram (p + 4 * i) ≡ read32 s.ram (p + 4 * i)
  entry_word-kept p k (small, out) i l =
      word-kept x y s s' f low (p + 4 * i) (omega arith)
        (elim out [ inl q ↦ inl (omega arith) | inr q ↦ inr (omega arith) ])

  pub IsSpace-kept : (p k : ℕ) → Outside x y p k → IsSpace s p k → IsSpace s' p k
  IsSpace-kept p k out space i l odd =
      let w = entry_word-kept p k out i l in
      let odd' : read32 s.ram (p + 4 * i) % 2 ≡ 1 = rw w at odd in
      rw w (HasTable-kept x y s s' f low (read32 s.ram (p + 4 * i)) (space i l odd'))

pub IsSpace-rest : (s : Store) (p k : ℕ) → IsSpace s p (suc k) → IsSpace s (p + 4) k
IsSpace-rest s p k space i l =
    let a : p + 4 * suc i ≡ p + 4 + 4 * i = omega arith in rw a at (space (suc i) (omega arith))

pub tables_cost-kept :
    (x y : ℕ) (s s' : Store)
    → Frame x y s s'
    → y ≤ 2 ^ 24
    → (k p : ℕ) → Outside x y p k
    → IsSpace s p k
    → tables_cost k p s' ≡ tables_cost k p s
unfolding tables_cost
tables_cost-kept x y s s' f low zero p out space = refl
tables_cost-kept x y s s' f low (suc k) p (small, out) space =
    let z : p + 4 * 0 ≡ p = omega arith in
    let first =
      table_cost-kept x y s s' f low p (omega arith)
        (elim out [ inl q ↦ inl (omega arith) | inr q ↦ inr (omega arith) ])
        (rw z at (space 0 (omega arith))) in
    let next =
      tables_cost-kept x y s s' f low k (p + 4)
        (omega arith, elim out [ inl q ↦ inl (omega arith) | inr q ↦ inr (omega arith) ])
        (IsSpace-rest s p k space) in
    rw (first, next)

-- The `k` entries from `dest` on lead in `s'` to what those from `src` on lead to in `s`.
pub record CopiesTables (k src dest : ℕ) (s s' : Store) : Type 0 where
  pub frame : Frame dest (dest + 4 * k) s s'
  pub bytes :
      (i : ℕ)
      → i < k
      → (j : ℕ) → j < 1024
      → (o : ℕ) → o < 4096
      → table_byte s'.ram (read32 s'.ram (dest + 4 * i)) j o
        ≡ table_byte s.ram (read32 s.ram (src + 4 * i)) j o
  pub tables :
      (i : ℕ)
      → i < k
      → read32 s'.ram (dest + 4 * i) % 2 ≡ 1
      → HasNew s s' (read32 s'.ram (dest + 4 * i))
  pub count : count_empty_page s' + tables_cost k src s ≡ count_empty_page s

pub HasNew-HasTable : (s s' : Store) (e : ℕ) → HasNew s s' e → HasTable s' e
HasNew-HasTable s s' e ((i, b, at, (empty, n)), pages) =
    ((i, b, at, n), λ j l odd. let (i', b', at', (empty', n')) = pages j l odd in (i', b', at', n'))

-- A new table stays new while other entries are copied.
pub HasNew-kept :
    (x y : ℕ) (s s1 s2 : Store)
    → Frame x y s1 s2
    → y ≤ 2 ^ 24
    → (e : ℕ) → HasNew s s1 e
    → HasNew s s2 e
HasNew-kept x y s s1 s2 f low e h = (
  let (i, b, at, (empty, n)) = h.0 in (i, b, at, (empty, f.taken i b n)),
  λ j l odd.
      let w = table_word-kept x y s1 s2 f low e (HasNew-HasTable s s1 e h) j l in
      let odd' : read32 s1.ram (frame_of e + 4 * j) % 2 ≡ 1 = rw w at odd in
      let (i, b, at, (empty, n)) = h.1 j l odd' in (i, b, rw w at, (empty, f.taken i b n)),
)

-- Seen from an earlier state it is new too.
pub HasNew-earlier :
    (x y : ℕ) (s s1 s2 : Store) → Frame x y s s1 → (e : ℕ) → HasNew s1 s2 e → HasNew s s2 e
HasNew-earlier x y s s1 s2 f e h = (
  let (i, b, at, new) = h.0 in (i, b, at, New-earlier x y s s1 s2 i b f new),
  λ j l odd. let (i, b, at, new) = h.1 j l odd in (i, b, at, New-earlier x y s s1 s2 i b f new),
)
