-- ===== src/Memory/Copy/Directory.antt =====
-- Page tables behind the entries of a directory, which lies in the kernel's memory.
use yinyang_os.Base.{
  ◌==◌, if◌then◌else◌, Bool-cases, arith, inl, inr, ℕ, ◌*◌, ◌+◌, ◌%◌, ◌<◌, ◌≤◌, ◌^◌, ◌≡◌, ◌⊎◌,
}
use yinyang_os.Paging.{frame_of, read32}
use yinyang_os.Memory.{Store, entry_frame, is_fault}
use yinyang_os.Memory.Frames.{Frame, read32-kept}
use yinyang_os.Memory.Copy.{IsTable, Leads, Taken, table_byte}
use yinyang_os.Memory.Copy.Entry.{is_fault-present}
use yinyang_os.Memory.Copy.Table.{
  InTable, InTable-kept, entries_cost, entries_cost-same, page_byte-kept,
}

-- The table that `e` leads to is taken, and so are its pages.
abbrev pub HasTable : Store → ℕ → Type 0
HasTable s e = Leads (Taken s) e × IsTable s (frame_of e)

-- The pages that the entry at `p` of a directory costs: the table and its pages.
unfoldable pub table_cost : (p : ℕ) → Store → ℕ
table_cost p s = if is_fault p s then 0 else 1 + entries_cost 1024 (entry_frame p s) s

pub HasTable-InTable : (s : Store) (e : ℕ) (h : HasTable s e) → InTable s h.0.0 (frame_of e) 1024
HasTable-InTable s e ((i, b, at, n), pages) = record {
  bound = b;
  taken = n;
  low = omega arith;
  high = omega arith;
}

-- While only the kernel's memory below `y` and empty pages change, a table keeps its words, its
-- pages and what they hold.
module _ (x y : ℕ) (s s' : Store) (f : Frame x y s s') (low : y ≤ 2 ^ 24) where
  pub table_word-kept :
      (e : ℕ)
      → HasTable s e
      → (j : ℕ) → j < 1024
      → read32 s'.ram (frame_of e + 4 * j) ≡ read32 s.ram (frame_of e + 4 * j)
  table_word-kept e h =
      InTable-kept x y s s' h.0.0 (frame_of e) 1024 f (HasTable-InTable s e h) (inr (omega arith))

  pub HasTable-kept : (e : ℕ) → HasTable s e → HasTable s' e
  HasTable-kept e h = (
    (h.0.0, h.0.1, h.0.2, f.taken h.0.0 h.0.1 h.0.3),
    λ j l odd.
        let w = table_word-kept e h j l in
        let odd' : read32 s.ram (frame_of e + 4 * j) % 2 ≡ 1 = rw w at odd in
        let (i, b, at, n) = h.1 j l odd' in (i, b, rw w at, f.taken i b n),
  )

  pub table_byte-kept :
      (e : ℕ)
      → (e % 2 ≡ 1 → HasTable s e)
      → (j : ℕ) → j < 1024
      → (o : ℕ) → o < 4096
      → table_byte s'.ram e j o ≡ table_byte s.ram e j o
  unfolding table_byte
  table_byte-kept e has j l o q = elim (Bool-cases (e % 2 == 0)) [
    | inl h ↦ rw h
    | inr h ↦
        let odd : e % 2 ≡ 1 = ground arith in
        let page =
          page_byte-kept x y s s' (read32 s.ram (frame_of e + 4 * j)) f
            (λ odd'. let (i, b, at, n) = (has odd).1 j l odd' in (i, b, at, (n, inr (omega arith))))
            o q in
        rw (h, table_word-kept e (has odd) j l, page)
  ]

  pub word-kept :
      (p : ℕ) → p + 4 ≤ 2 ^ 24 → (p + 4 ≤ x) ⊎ (y ≤ p) → read32 s'.ram p ≡ read32 s.ram p
  word-kept p small out = read32-kept x y s s' f p (λ j l. inl (omega arith)) out

  pub table_cost-kept :
      (p : ℕ)
      → p + 4 ≤ 2 ^ 24
      → (p + 4 ≤ x) ⊎ (y ≤ p)
      → (read32 s.ram p % 2 ≡ 1 → HasTable s (read32 s.ram p))
      → table_cost p s' ≡ table_cost p s
  unfolding table_cost is_fault entry_frame
  table_cost-kept p small out has =
      let w = word-kept p small out in
      elim (Bool-cases (is_fault p s)) [
        | inl h ↦ rw (w, h)
        | inr h ↦
            let c =
              entries_cost-same 1024 (frame_of (read32 s.ram p)) s s'
                (table_word-kept (read32 s.ram p) (has (is_fault-present p s h))) in
            rw (w, h, c)
      ]
