-- ===== src/Memory/Copy/Table.antt =====
-- The entries of one page table: `copy_entries`.
use yinyang_os.Base.{
  ◌==◌, Bool-cases, arith, inl, inr, refl, ℕ, ◌*◌, ◌+◌, ◌%◌, ◌<◌, ◌≤◌, ◌≡◌, ◌≢◌, ◌⊎◌, suc, zero,
}
use yinyang_os.Paging.{frame_of, read32}
use yinyang_os.Memory.{Store, count_empty_page, is_fault}
use yinyang_os.Memory.Frames.{Frame, page_of, read32-kept}
use yinyang_os.Memory.Copy.{Leads, New, Taken, page_byte}
use yinyang_os.Memory.Copy.Entry.{InPage, entry_cost}

-- The pages that the `k` entries from `p` on cost.
unfoldable pub entries_cost : (k p : ℕ) → Store → ℕ
entries_cost zero p s = 0
entries_cost (suc k) p s = entry_cost p s + entries_cost k (p + 4) s

pub entry_cost-same :
    (p : ℕ) (s s' : Store) → read32 s'.ram p ≡ read32 s.ram p → entry_cost p s' ≡ entry_cost p s
unfolding entry_cost is_fault
entry_cost-same p s s' e = rw e

pub entries_cost-same :
    (k p : ℕ) (s s' : Store)
    → ((j : ℕ) → j < k → read32 s'.ram (p + 4 * j) ≡ read32 s.ram (p + 4 * j))
    → entries_cost k p s' ≡ entries_cost k p s
unfolding entries_cost
entries_cost-same zero p s s' same = refl
entries_cost-same (suc k) p s s' same =
    let z : p + 4 * 0 ≡ p = omega arith in
    let first : read32 s'.ram p ≡ read32 s.ram p = rw z at (same 0 (omega arith)) in
    let next = entries_cost-same k (p + 4) s s' (λ j l.
      let e : p + 4 * suc j ≡ p + 4 + 4 * j = omega arith in
      rw e at (same (suc j) (omega arith))) in
    rw (entry_cost-same p s s' first, next)

-- A page outside of what changes keeps its bytes.
pub page_byte-kept :
    (x y : ℕ) (s s' : Store) (e : ℕ)
    → Frame x y s s'
    → (e % 2 ≡ 1 → Leads (λ i. Taken s i × ((page_of i + 4096 ≤ x) ⊎ (y ≤ page_of i))) e)
    → (o : ℕ) → o < 4096
    → page_byte s'.ram e o ≡ page_byte s.ram e o
unfolding page_byte
page_byte-kept x y s s' e f leads o l = elim (Bool-cases (e % 2 == 0)) [
  | inl h ↦ rw h
  | inr h ↦
      let odd : e % 2 ≡ 1 = ground arith in
      let (i, b, at, (n, out)) = leads odd in
      let k : s'.ram (frame_of e + o) ≡ s.ram (frame_of e + o) =
        f.kept (frame_of e + o) (inr (i, b, n, omega arith, omega arith))
          (elim out [ inl q ↦ inl (omega arith) | inr q ↦ inr (omega arith) ]) in
      rw (h, k)
]

-- The `k` entries from `dest` on have in `s'` what those from `src` on have in `s`.
pub record CopiesEntries (k src dest : ℕ) (s s' : Store) : Type 0 where
  pub frame : Frame dest (dest + 4 * k) s s'
  pub bytes :
      (j : ℕ)
      → j < k
      → (o : ℕ) → o < 4096
      → page_byte s'.ram (read32 s'.ram (dest + 4 * j)) o
        ≡ page_byte s.ram (read32 s.ram (src + 4 * j)) o
  pub leads :
      (j : ℕ)
      → j < k
      → read32 s'.ram (dest + 4 * j) % 2 ≡ 1
      → Leads (New s s') (read32 s'.ram (dest + 4 * j))
  pub count : count_empty_page s' + entries_cost k src s ≡ count_empty_page s

-- The `k` words from `p` on lie in page `id`, which is taken.
pub record InTable (s : Store) (id p k : ℕ) : Type 0 where
  pub bound : id < 28672
  pub taken : s.flags id ≢ 0
  pub low : page_of id ≤ p
  pub high : p + 4 * k ≤ page_of id + 4096

pub InTable-first : (s : Store) (id p k : ℕ) → InTable s id p (suc k) → InPage s id p
InTable-first s id p k t = record {
  bound = t.bound;
  taken = t.taken;
  low = t.low;
  high = let h = t.high in omega arith;
}

pub InTable-rest :
    (x y : ℕ) (s s' : Store) (id p k : ℕ)
    → Frame x y s s'
    → InTable s id p (suc k)
    → InTable s' id (p + 4) k
InTable-rest x y s s' id p k f t = record {
  bound = t.bound;
  taken = f.taken id t.bound t.taken;
  low = let l = t.low in omega arith;
  high = let h = t.high in omega arith;
}

-- A word of a table is kept while another table is written.
pub InTable-kept :
    (x y : ℕ) (s s' : Store) (id p k : ℕ)
    → Frame x y s s'
    → InTable s id p k
    → (page_of id + 4096 ≤ x) ⊎ (y ≤ page_of id)
    → (j : ℕ) → j < k
    → read32 s'.ram (p + 4 * j) ≡ read32 s.ram (p + 4 * j)
InTable-kept x y s s' id p k f t out j l =
    let low = t.low in
    let high = t.high in
    read32-kept x y s s' f (p + 4 * j) (λ i q. inr (id, t.bound, t.taken, omega arith, omega arith))
      (elim out [ inl q ↦ inl (omega arith) | inr q ↦ inr (omega arith) ])
