-- ===== src/Memory/Copy/Entry.antt =====
-- One entry of a page table: `copy_entry`.
use yinyang_os.Base.{
  if◌then◌else◌, Bool-cases, ==_refl, arith, false, true, inl, inr, sym, update, ℕ, ◌+◌, ◌%◌, ◌<◌,
  ◌≤◌, ◌≡◌, ◌≢◌, ◌⊎◌, ◌∙◌, ap,
}
use yinyang_os.Paging.{Ram, frame_of, read32}
use yinyang_os.Memory.{
  Store, allocate_memory, copy_bytes, copy_memory, count_empty_page, entry_frame, entry_word,
  finished, is_fault, make_entry, make_invalid, write32,
}
use yinyang_os.Memory.Words.{
  copy_bytes-other, copy_bytes_lem, entry_word-frame_of, read32-same, read32-write32, write32-other,
}
use yinyang_os.Memory.Allocate.{Takes, allocate_memory_lem}
use yinyang_os.Memory.Frames.{
  Frame, Frame-fresh, Frame-trans, Takes-Frame, Used, page_of, write32-Frame,
}
use yinyang_os.Memory.Copy.{Leads, New, Taken, page_byte}
use yinyang_os.Memory.Space.{copy_entry}

-- The pages that an entry costs.
unfoldable pub entry_cost : (p : ℕ) → Store → ℕ
entry_cost p s = if is_fault p s then 0 else 1

-- The entry at `dest` of `s'` has the bytes that the entry at `src` has in `s`, in a new page.
pub record CopiesEntry (src dest : ℕ) (s s' : Store) : Type 0 where
  pub frame : Frame dest (dest + 4) s s'
  pub bytes :
      (o : ℕ)
      → o < 4096
      → page_byte s'.ram (read32 s'.ram dest) o ≡ page_byte s.ram (read32 s.ram src) o
  pub leads : read32 s'.ram dest % 2 ≡ 1 → Leads (New s s') (read32 s'.ram dest)
  pub count : count_empty_page s' + entry_cost src s ≡ count_empty_page s

copy_fault_lem :
    (src dest : ℕ) (s : Store)
    → is_fault src s ≡ true
    → CopiesEntry src dest s (make_invalid dest s)
unfolding is_fault page_byte entry_cost make_invalid count_empty_page
copy_fault_lem src dest s h =
    let w : read32 (write32 s.ram dest 0) dest ≡ 0 = read32-write32 s.ram dest 0 (omega arith) in
    record {
      frame = write32-Frame dest 0 s;
      bytes = λ o l. rw (w, h);
      leads = λ l. absurd (let q : 0 % 2 ≡ 1 = rw w at l in omega arith);
      count = rw h (omega arith);
    }

-- A word of the table in page `id`, which is taken.
pub record InPage (s : Store) (id p : ℕ) : Type 0 where
  pub bound : id < 28672
  pub taken : s.flags id ≢ 0
  pub low : page_of id ≤ p
  pub high : p + 4 ≤ page_of id + 4096

pub InPage-Used : (s : Store) (id p : ℕ) → InPage s id p → (j : ℕ) → j < 4 → Used s (p + j)
InPage-Used s id p i j l =
    let low = i.low in let high = i.high in inr (id, i.bound, i.taken, omega arith, omega arith)

-- The memory in which the page at `addr` holds a copy of the page at `from`, and the entry at
-- `dest` leads to it.
unfoldable copied : (addr from dest : ℕ) → Ram → Ram
copied addr from dest m = copy_bytes 4096 0 from addr (write32 m dest (entry_word addr))

copy_entry-run :
    (src dest : ℕ) (s : Store) (addr : ℕ) (s' : Store)
    → is_fault src s ≡ false
    → allocate_memory s ≡ finished (addr, s')
    → Takes s addr s'
    → (src + 4 ≤ dest) ⊎ (dest + 4 ≤ src)
    → copy_entry src dest s
      ≡ finished (record s' { ram = copied addr (frame_of (read32 s.ram src)) dest s.ram })
unfolding copy_entry copied copy_memory make_entry entry_frame
copy_entry-run src dest s addr s' h run t apart =
    let same : s'.ram ≡ s.ram = ap (λ o. o.ram) t.marks in
    let word : read32 (write32 s.ram dest (entry_word addr)) src ≡ read32 s.ram src =
      read32-same s.ram (write32 s.ram dest (entry_word addr)) src (λ j l.
        write32-other s.ram dest (entry_word addr) (src + j)
          (elim apart [ inl q ↦ inl (omega arith) | inr q ↦ inr (omega arith) ])) in
    rw (h, run, same, word)

module _ (src dest : ℕ) (s : Store) (id : ℕ) (slot : InPage s id dest) (addr : ℕ) (s' : Store)
    (t : Takes s addr s') (h : is_fault src s ≡ false)
    (source : Leads (λ i. Taken s i × (i ≢ id)) (read32 s.ram src)) where
  abbrev from : ℕ
  from = frame_of (read32 s.ram src)

  abbrev s2 : Store
  s2 = record s' { ram = copied addr from dest s.ram }

  other : t.id ≢ id
  other e = slot.taken (ap s.flags (sym e) ∙ t.empty)

  abbrev m1 : Ram
  m1 = write32 s.ram dest (entry_word addr)

  copied-Frame : Frame dest (dest + 4) s s2
  unfolding copied
  copied-Frame =
      let s1 : Store = record s' { ram = m1 } in
      let same : s'.ram ≡ s.ram = ap (λ o. o.ram) t.marks in
      let write : Frame dest (dest + 4) s' s1 = record {
        taken = λ i b n. n;
        kept = λ a u o. write32-other s.ram dest (entry_word addr) a o ∙ ap (λ m. m a) (sym same);
      } in
      let before =
        Frame-trans dest (dest + 4) s s' s1 (Takes-Frame dest (dest + 4) s addr s' t) write in
      let at = t.at in
      Frame-fresh dest (dest + 4) s s1 s2 t.id t.empty before (record {
        taken = λ i b n. n;
        kept = λ a u o.
            copy_bytes-other 4096 0 from addr m1 a
              (elim o [ inl q ↦ inl (omega arith) | inr q ↦ inr (omega arith) ]);
      })

  copied-word : read32 s2.ram dest ≡ entry_word addr
  unfolding copied
  copied-word =
      let at = t.at in
      let small = t.bound in
      let low = slot.low in
      let high = slot.high in
      let d = other in
      let even = entry_word-frame_of addr (omega arith) (omega arith) in
      read32-same m1 s2.ram dest
        (λ j l. copy_bytes-other 4096 0 from addr m1 (dest + j) (ground arith))
      ∙ read32-write32 s.ram dest (entry_word addr) even.2

  copied-byte : (o : ℕ) → o < 4096 → s2.ram (addr + o) ≡ s.ram (from + o)
  unfolding copied
  copied-byte o l =
      let (i, b, e, (n, d)) = source in
      let at = t.at in
      let low = slot.low in
      let high = slot.high in
      let d2 : i ≢ t.id = λ q. n (ap s.flags q ∙ t.empty) in
      copy_bytes_lem 4096 0 from addr m1 o (ground arith) (omega arith) (omega arith)
      ∙ write32-other s.ram dest (entry_word addr) (from + o) (ground arith)

  copied-CopiesEntry : CopiesEntry src dest s s2
  unfolding page_byte is_fault entry_cost count_empty_page
  copied-CopiesEntry =
      let at = t.at in
      let small = t.bound in
      let (f, odd, fits) = entry_word-frame_of addr (omega arith) (omega arith) in
      let r = ==_refl t.id in
      let one : update s.flags t.id 1 t.id ≡ 1 = rw r in
      let marks : s2.flags t.id ≡ 1 = ap (λ o. o.flags t.id) t.marks ∙ one in
      record {
        frame = copied-Frame;
        bytes = λ o l. rw (copied-word, odd, h, f, copied-byte o l);
        leads = λ l. (t.id, small, rw copied-word (f ∙ at), (t.empty, λ q. absurd (omega arith)));
        count = rw h t.count;
      }

pub is_fault-present : (p : ℕ) (s : Store) → is_fault p s ≡ false → read32 s.ram p % 2 ≡ 1
unfolding is_fault
is_fault-present p s h = ground arith

-- An entry of a table that is not its own source: with a page to spare for what it needs, it gets
-- what the entry at `src` has.
pub copy_entry_lem :
    (src dest : ℕ) (s : Store) (id : ℕ)
    → InPage s id dest
    → (src + 4 ≤ dest) ⊎ (dest + 4 ≤ src)
    → (read32 s.ram src % 2 ≡ 1 → Leads (λ i. Taken s i × (i ≢ id)) (read32 s.ram src))
    → entry_cost src s ≤ count_empty_page s
    → (s' : Store) × (copy_entry src dest s ≡ finished s') × CopiesEntry src dest s s'
unfolding copy_entry entry_cost
copy_entry_lem src dest s id slot apart source room = elim (Bool-cases (is_fault src s)) [
  | inl h ↦ (make_invalid dest s, rw (copy_entry, h), copy_fault_lem src dest s h)
  | inr h ↦ elim (allocate_memory_lem s) [
    | inl (full, q) ↦ absurd (let r : 1 ≤ count_empty_page s = rw h at room in omega arith)
    | inr (addr, s', run, t) ↦ (
      record s' { ram = copied addr (frame_of (read32 s.ram src)) dest s.ram },
      copy_entry-run src dest s addr s' h run t apart,
      copied-CopiesEntry src dest s id slot addr s' t h (source (is_fault-present src s h)),
    )
  ]
]
