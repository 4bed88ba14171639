-- ===== src/Memory/Copy/Fork.antt =====
-- `copy_page` of kernel/mm.c, the address space of a new process: the parent and the child read
-- the same, from different pages.
use yinyang_os.Base.{
  ◌==◌, none, Bool-cases, arith, inl, inr, sym, ℕ, ◌*◌, ◌+◌, ◌/◌, ◌%◌, ◌<◌, ◌≤◌, ◌^◌, ◌≡◌, ◌≢◌, ◌⊎◌,
  ◌∙◌,
}
use yinyang_os.Paging.{Ram, frame_of, page_at, read32, table_at, translated}
use yinyang_os.Memory.{Store, count_empty_page, finished}
use yinyang_os.Memory.Words.{read32-same}
use yinyang_os.Memory.Frames.{page_of}
use yinyang_os.Memory.Copy.{IsSpace, table_byte, user_byte}
use yinyang_os.Memory.Copy.Directory.{table_byte-kept}
use yinyang_os.Memory.Copy.Tables.{
  CopiesTables, HasNew-HasTable, IsSpace-kept, Outside, entry_word-kept, tables_cost,
}
use yinyang_os.Memory.Copy.Loop.{copy_tables_lem}
use yinyang_os.Memory.Copy.Share.{share_tables-other, user_byte-high, user_byte-table_byte}
use yinyang_os.Memory.Space.{copy_page, copy_tables, share_tables}

-- The directories at `src` and `dest` lie apart in the kernel's memory.
pub record Directories (src dest : ℕ) : Type 0 where
  pub src_low : src + 4096 ≤ 2 ^ 24
  pub dest_low : dest + 4096 ≤ 2 ^ 24
  pub apart : (src + 4096 ≤ dest) ⊎ (dest + 4096 ≤ src)

-- What `copy_page` promises of the user space, up to 3 GB.
pub record Forks (src dest : ℕ) (s s' : Store) : Type 0 where
  pub child : (va : ℕ) → va < 3 * 2 ^ 30 → user_byte s'.ram dest va ≡ user_byte s.ram src va
  pub parent : (va : ℕ) → va < 3 * 2 ^ 30 → user_byte s'.ram src va ≡ user_byte s.ram src va
  pub new :
      (va : ℕ)
      → va < 3 * 2 ^ 30
      → user_byte s'.ram dest va ≢ none
      → (id : ℕ) × (id < 28672)
        × (s.flags id ≡ 0)
        × (page_of id ≤ translated s'.ram dest va)
        × (translated s'.ram dest va < page_of id + 4096)

mapped_words :
    (m : Ram) (pdir va : ℕ)
    → user_byte m pdir va ≢ none
    → (read32 m (pdir + 4 * (va / 2 ^ 22)) % 2 ≡ 1)
      × (read32 m (table_at m pdir (va / 2 ^ 22) + 4 * (va / 2 ^ 12 % 1024)) % 2 ≡ 1)
unfolding user_byte
mapped_words m pdir va has = elim (Bool-cases (read32 m (pdir + 4 * (va / 2 ^ 22)) % 2 == 0)) [
  | inl h ↦ absurd (has (rw h))
  | inr h ↦
      elim (Bool-cases
        (read32 m (table_at m pdir (va / 2 ^ 22) + 4 * (va / 2 ^ 12 % 1024)) % 2 == 0)) [
          | inl h' ↦ absurd (has (rw (h, h')))
          | inr h' ↦ (ground arith, ground arith)
        ]
]

copy_page-run :
    (src dest : ℕ) (s s1 : Store)
    → copy_tables 768 src dest s ≡ finished s1
    → copy_page src dest s ≡ finished (dest / 4096, share_tables 256 (src + 3072) (dest + 3072) s1)
unfolding copy_page
copy_page-run src dest s s1 run = rw (copy_page, run)

module _ (src dest : ℕ) (s s1 : Store) (d : Directories src dest) (space : IsSpace s src 768)
    (c : CopiesTables 768 src dest s s1) where
  abbrev s2 : Store
  s2 = share_tables 256 (src + 3072) (dest + 3072) s1

  high_same : (a : ℕ) → 2 ^ 24 ≤ a → s2.ram a ≡ s1.ram a
  high_same a l =
      let b = d.dest_low in
      share_tables-other 256 (src + 3072) (dest + 3072) s1 a (inr (omega arith))

  abbrev pde : ℕ → ℕ
  pde va = va / 2 ^ 22

  out : Outside dest (dest + 4 * 768) src 768
  out =
      let l = d.src_low in
      (omega arith, elim d.apart [ inl q ↦ inl (omega arith) | inr q ↦ inr (omega arith) ])

  child_word :
      (va : ℕ)
      → va < 3 * 2 ^ 30
      → read32 s2.ram (dest + 4 * (va / 2 ^ 22)) ≡ read32 s1.ram (dest + 4 * (va / 2 ^ 22))
  child_word va l = read32-same s1.ram s2.ram (dest + 4 * (va / 2 ^ 22)) (λ j q.
      share_tables-other 256 (src + 3072) (dest + 3072) s1 (dest + 4 * (va / 2 ^ 22) + j)
        (inl (omega arith)))

  parent_word :
      (va : ℕ)
      → va < 3 * 2 ^ 30
      → read32 s2.ram (src + 4 * (va / 2 ^ 22)) ≡ read32 s1.ram (src + 4 * (va / 2 ^ 22))
  parent_word va l = read32-same s1.ram s2.ram (src + 4 * (va / 2 ^ 22)) (λ j q.
      share_tables-other 256 (src + 3072) (dest + 3072) s1 (src + 4 * (va / 2 ^ 22) + j)
        (elim d.apart [ inl p ↦ inl (omega arith) | inr p ↦ inr (omega arith) ]))

  child_byte : (va : ℕ) → va < 3 * 2 ^ 30 → user_byte s2.ram dest va ≡ user_byte s.ram src va
  child_byte va l =
      user_byte-high s1 s2.ram dest va high_same (child_word va l) (λ odd.
        HasNew-HasTable s s1 (read32 s1.ram (dest + 4 * (va / 2 ^ 22)))
          (c.tables (va / 2 ^ 22) (omega arith) odd))
      ∙ user_byte-table_byte s1.ram dest va
      ∙ c.bytes (va / 2 ^ 22) (omega arith) (va / 2 ^ 12 % 1024) (omega arith) (va % 4096)
          (omega arith)
      ∙ sym (user_byte-table_byte s.ram src va)

  parent_byte : (va : ℕ) → va < 3 * 2 ^ 30 → user_byte s2.ram src va ≡ user_byte s.ram src va
  parent_byte va l =
      let low = d.dest_low in
      let e = read32 s.ram (src + 4 * (va / 2 ^ 22)) in
      let w : read32 s1.ram (src + 4 * (va / 2 ^ 22)) ≡ e =
        entry_word-kept dest (dest + 4 * 768) s s1 c.frame (omega arith) src 768 out (va / 2 ^ 22)
          (omega arith) in
      let kept =
        table_byte-kept dest (dest + 4 * 768) s s1 c.frame (omega arith) e
          (space (va / 2 ^ 22) (omega arith)) (va / 2 ^ 12 % 1024) (omega arith) (va % 4096)
          (omega arith) in
      let first : user_byte s2.ram src va ≡ user_byte s1.ram src va =
        user_byte-high s1 s2.ram src va high_same (parent_word va l) (
          IsSpace-kept dest (dest + 4 * 768) s s1 c.frame (omega arith) src 768 out space
            (va / 2 ^ 22) (omega arith)) in
      let middle : table_byte s1.ram (read32 s1.ram (src + 4 * (va / 2 ^ 22))) (va / 2 ^ 12 % 1024)
            (va % 4096)
          ≡ table_byte s.ram e (va / 2 ^ 12 % 1024) (va % 4096) =
        rw w kept in
      first ∙ user_byte-table_byte s1.ram src va ∙ middle ∙ sym (user_byte-table_byte s.ram src va)

  -- A byte that the child has is in a page that was empty.
  new_page :
      (va : ℕ)
      → va < 3 * 2 ^ 30
      → user_byte s2.ram dest va ≢ none
      → (id : ℕ) × (id < 28672)
        × (s.flags id ≡ 0)
        × (page_of id ≤ translated s2.ram dest va)
        × (translated s2.ram dest va < page_of id + 4096)
  unfolding translated table_at page_at
  new_page va l has =
      let (odd, odd') = mapped_words s2.ram dest va has in
      let w = child_word va l in
      let e = read32 s1.ram (dest + 4 * (va / 2 ^ 22)) in
      let first : e % 2 ≡ 1 = rw w at odd in
      let ((i, b, at, n), pages) = c.tables (va / 2 ^ 22) (omega arith) first in
      let j = va / 2 ^ 12 % 1024 in
      let t : read32 s2.ram (frame_of e + 4 * j) ≡ read32 s1.ram (frame_of e + 4 * j) =
        read32-same s1.ram s2.ram (frame_of e + 4 * j)
          (λ k q. high_same (frame_of e + 4 * j + k) (omega arith)) in
      let second : read32 s1.ram (frame_of e + 4 * j) % 2 ≡ 1 = rw (w, t) at odd' in
      let (id, b', at', (empty, n')) = pages j (omega arith) second in
      (id, b', empty, rw (w, t) (omega arith), rw (w, t) (omega arith))

-- With directories apart in the kernel's memory, every table and page of the parent taken, and as
-- many empty pages as it has tables and pages, `copy_page` finishes. Below 3 GB the child then
-- reads what the parent read, the parent reads what it read before, and every page of the child
-- was empty. The base for CR3 is the child's directory.
pub copy_page_lem :
    (src dest : ℕ) (s : Store)
    → Directories src dest
    → IsSpace s src 768
    → tables_cost 768 src s ≤ count_empty_page s
    → (s' : Store) × (copy_page src dest s ≡ finished (dest / 4096, s')) × Forks src dest s s'
copy_page_lem src dest s d space room =
    let low = d.src_low in
    let low' = d.dest_low in
    let apart : (src + 4 * 768 ≤ dest) ⊎ (dest + 4 * 768 ≤ src) = elim d.apart [
      | inl q ↦ inl (omega arith)
      | inr q ↦ inr (omega arith)
    ] in
    let (s1, run, c) =
      copy_tables_lem 768 src dest s (omega arith) (omega arith) apart space room in
    (
      share_tables 256 (src + 3072) (dest + 3072) s1,
      copy_page-run src dest s s1 run,
      record {
        child = child_byte src dest s s1 d space c;
        parent = parent_byte src dest s s1 d space c;
        new = new_page src dest s s1 d space c;
      },
    )
