-- ===== src/Memory/Copy/OneTable.antt =====
-- One entry of a page directory: `copy_table`, lines 301 to 320 of kernel/mm.c.
use yinyang_os.Base.{
  Bool-cases, ==_refl, arith, false, true, inl, inr, refl, update, ℕ, ◌*◌, ◌+◌, ◌%◌, ◌<◌, ◌≤◌, ◌^◌,
  ◌≡◌, ◌≢◌, ◌∙◌, ap,
}
use yinyang_os.Paging.{frame_of, read32}
use yinyang_os.Memory.{
  Store, allocate_memory, count_empty_page, entry_frame, entry_word, finished, is_fault, make_entry,
  make_invalid, write32,
}
use yinyang_os.Memory.Words.{entry_word-frame_of, read32-write32}
use yinyang_os.Memory.Allocate.{Takes, allocate_memory_lem}
use yinyang_os.Memory.Frames.{
  Frame, Frame-fresh, Frame-trans, Frame-widen, Takes-Frame, page_of, read32-kept, write32-Frame,
}
use yinyang_os.Memory.Copy.{Leads, New, page_byte, table_byte}
use yinyang_os.Memory.Copy.Entry.{is_fault-present}
use yinyang_os.Memory.Copy.Table.{
  CopiesEntries, InTable, entries_cost, entries_cost-same, page_byte-kept,
}
use yinyang_os.Memory.Copy.Entries.{IsSource, New-earlier, copy_entries_lem}
use yinyang_os.Memory.Copy.Directory.{HasTable, HasTable-InTable, table_cost, table_word-kept}
use yinyang_os.Memory.Space.{copy_entries, copy_table}

-- The table that `e` leads to was empty in `s` and is taken in `s'`, and so are its pages.
abbrev pub HasNew : Store → Store → ℕ → Type 0
HasNew s s' e =
    Leads (New s s') e
    × ((j : ℕ)
        → j < 1024
        → read32 s'.ram (frame_of e + 4 * j) % 2 ≡ 1
        → Leads (New s s') (read32 s'.ram (frame_of e + 4 * j)))

-- The entry at `dest` of `s'` leads to the bytes that the entry at `src` leads to in `s`.
pub record CopiesTable (src dest : ℕ) (s s' : Store) : Type 0 where
  pub frame : Frame dest (dest + 4) s s'
  pub bytes :
      (j : ℕ)
      → j < 1024
      → (o : ℕ) → o < 4096
      → table_byte s'.ram (read32 s'.ram dest) j o ≡ table_byte s.ram (read32 s.ram src) j o
  pub tables : read32 s'.ram dest % 2 ≡ 1 → HasNew s s' (read32 s'.ram dest)
  pub count : count_empty_page s' + table_cost src s ≡ count_empty_page s

no_table_lem :
    (src dest : ℕ) (s : Store)
    → is_fault src s ≡ true
    → CopiesTable src dest s (make_invalid dest s)
unfolding is_fault table_byte table_cost make_invalid count_empty_page
no_table_lem src dest s h =
    let w : read32 (write32 s.ram dest 0) dest ≡ 0 = read32-write32 s.ram dest 0 (omega arith) in
    record {
      frame = write32-Frame dest 0 s;
      bytes = λ j l o q. rw (w, h);
      tables = λ l. absurd (let q : 0 % 2 ≡ 1 = rw w at l in omega arith);
      count = rw h (omega arith);
    }

-- The table is copied into the page at `addr`, which was taken for it.
module _ (src dest : ℕ) (s : Store) (addr : ℕ) (s' : Store) (t : Takes s addr s')
    (h : is_fault src s ≡ false) (small : dest + 4 ≤ 2 ^ 24)
    (has : HasTable s (read32 s.ram src)) where
  abbrev s1 : Store
  s1 = record s' { ram = write32 s'.ram dest (entry_word addr) }

  abbrev pent : ℕ
  pent = frame_of (read32 s.ram src)

  entered : Frame dest (dest + 4) s s1
  entered =
      Frame-trans dest (dest + 4) s s' s1 (Takes-Frame dest (dest + 4) s addr s' t)
        (write32-Frame dest (entry_word addr) s')

  marked : s'.flags t.id ≢ 0
  marked q =
      let r = ==_refl t.id in
      let one : update s.flags t.id 1 t.id ≡ 1 = rw r in
      let marks : s'.flags t.id ≡ 1 = ap (λ o. o.flags t.id) t.marks ∙ one in absurd (omega arith)

  words : (j : ℕ) → j < 1024 → read32 s1.ram (pent + 4 * j) ≡ read32 s.ram (pent + 4 * j)
  words = table_word-kept dest (dest + 4) s s1 entered small (read32 s.ram src) has

  target : InTable s1 t.id addr 1024
  target =
      let at = t.at in
      record { bound = t.bound; taken = marked; low = omega arith; high = omega arith }

  source : InTable s1 has.0.0 pent 1024
  source =
      let i = HasTable-InTable s (read32 s.ram src) has in
      record {
        bound = i.bound;
        taken = entered.taken has.0.0 i.bound i.taken;
        low = i.low;
        high = i.high;
      }

  fresh : (i : ℕ) → s.flags i ≢ 0 → i ≢ t.id
  fresh i n q = n (ap s.flags q ∙ t.empty)

  pages : IsSource s1 t.id pent 1024
  pages j l odd =
      let odd' : read32 s.ram (pent + 4 * j) % 2 ≡ 1 = rw (words j l) at odd in
      let (i, b, at, n) = has.1 j l odd' in
      (i, b, rw (words j l) at, (entered.taken i b n, fresh i n))

  cost : entries_cost 1024 pent s1 ≡ entries_cost 1024 pent s
  cost = entries_cost-same 1024 pent s s1 words

  empty_same : count_empty_page s1 ≡ count_empty_page s'
  unfolding count_empty_page
  empty_same = refl

  module _ (s2 : Store) (r : CopiesEntries 1024 pent addr s1 s2) where
    entry :
        (frame_of (entry_word addr) ≡ addr) × (entry_word addr % 2 ≡ 1) × (entry_word addr < 2 ^ 32)
    entry = let at = t.at in let b = t.bound in entry_word-frame_of addr (omega arith) (omega arith)

    copied-Frame : Frame dest (dest + 4) s s2
    copied-Frame =
        let at = t.at in
        Frame-fresh dest (dest + 4) s s1 s2 t.id t.empty entered (
          Frame-widen addr (addr + 4 * 1024) (page_of t.id) (page_of t.id + 4096) s1 s2
            (omega arith) (omega arith) r.frame)

    copied-word : read32 s2.ram dest ≡ entry_word addr
    copied-word =
        let at = t.at in
        read32-kept addr (addr + 4 * 1024) s1 s2 r.frame dest (λ j l. inl (omega arith))
          (inl (omega arith))
        ∙ read32-write32 s'.ram dest (entry_word addr) entry.2

    copied-bytes :
        (j : ℕ)
        → j < 1024
        → (o : ℕ) → o < 4096
        → table_byte s2.ram (read32 s2.ram dest) j o ≡ table_byte s.ram (read32 s.ram src) j o
    unfolding table_byte is_fault
    copied-bytes j l o q =
        let page =
          page_byte-kept dest (dest + 4) s s1 (read32 s.ram (pent + 4 * j)) entered
            (λ odd. let (i, b, at, n) = has.1 j l odd in (i, b, at, (n, inr (omega arith)))) o q in
        let same : page_byte s1.ram (read32 s1.ram (pent + 4 * j)) o
            ≡ page_byte s.ram (read32 s.ram (pent + 4 * j)) o =
          rw (words j l) page in
        rw (copied-word, entry.1, h, entry.0) (r.bytes j l o q ∙ same)

    copied-count : count_empty_page s2 + table_cost src s ≡ count_empty_page s
    unfolding table_cost entry_frame is_fault
    copied-count =
        let c = r.count in
        let e = empty_same in let d = t.count in let k = cost in rw h (omega arith)

    copied-CopiesTable : CopiesTable src dest s s2
    copied-CopiesTable = record {
      frame = copied-Frame;
      bytes = copied-bytes;
      tables = λ odd. (
        (
          t.id,
          t.bound,
          rw copied-word (entry.0 ∙ t.at),
          (t.empty, r.frame.taken t.id t.bound marked),
        ),
        rw (copied-word, entry.0)
            (λ j l odd'.
              let (i, b, at, new) = r.leads j l odd' in
              (i, b, at, New-earlier dest (dest + 4) s s1 s2 i b entered new)),
      );
      count = copied-count;
    }

copy_table-run :
    (src dest : ℕ) (s : Store) (addr : ℕ) (s' s2 : Store)
    → is_fault src s ≡ false
    → allocate_memory s ≡ finished (addr, s')
    → copy_entries 1024 (entry_frame src s) addr (make_entry dest addr s') ≡ finished s2
    → copy_table src dest s ≡ finished s2
unfolding copy_table
copy_table-run src dest s addr s' s2 h run run2 = rw (copy_table, h, run) run2

-- With the empty pages that it costs, an entry of a directory gets a copy of the table at `src`.
pub copy_table_lem :
    (src dest : ℕ) (s : Store)
    → dest + 4 ≤ 2 ^ 24
    → (read32 s.ram src % 2 ≡ 1 → HasTable s (read32 s.ram src))
    → table_cost src s ≤ count_empty_page s
    → (s' : Store) × (copy_table src dest s ≡ finished s') × CopiesTable src dest s s'
unfolding table_cost entry_frame make_entry copy_table
copy_table_lem src dest s small tables room = elim (Bool-cases (is_fault src s)) [
  | inl h ↦ (make_invalid dest s, rw (copy_table, h), no_table_lem src dest s h)
  | inr h ↦ elim (allocate_memory_lem s) [
    | inl (full, q) ↦ absurd (
        let r : 1 + entries_cost 1024 (frame_of (read32 s.ram src)) s ≤ count_empty_page s =
          rw h at room in
        omega arith)
    | inr (addr, s', run, t) ↦
        let has = tables (is_fault-present src s h) in
        let room' : 1 + entries_cost 1024 (frame_of (read32 s.ram src)) s ≤ count_empty_page s =
          rw h at room in
        let e = empty_same src dest s addr s' t h small has in
        let d = t.count in
        let k = cost src dest s addr s' t h small has in
        let (s2, run2, r) =
          copy_entries_lem 1024 (frame_of (read32 s.ram src)) addr
            (s1 src dest s addr s' t h small has) t.id has.0.0
            (target src dest s addr s' t h small has) (source src dest s addr s' t h small has)
            (fresh src dest s addr s' t h small has has.0.0 has.0.3)
            (pages src dest s addr s' t h small has) (omega arith) in
        (
          s2,
          copy_table-run src dest s addr s' s2 h run run2,
          copied-CopiesTable src dest s addr s' t h small has s2 r,
        )
  ]
]
