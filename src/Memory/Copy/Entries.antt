-- ===== src/Memory/Copy/Entries.antt =====
-- The loop over the entries of a page table, lines 308 to 317 of kernel/mm.c.
use yinyang_os.Base.{
  below_cases, ◌==◌, Bool-cases, ==_iff, arith, inl, inr, refl, sym, ℕ, ◌*◌, ◌+◌, ◌%◌, ◌<◌, ◌≤◌,
  ◌≡◌, ◌≢◌, ◌∙◌, ap, suc, zero,
}
use yinyang_os.Paging.{read32}
use yinyang_os.Memory.{Store, count_empty_page, finished}
use yinyang_os.Memory.Frames.{Frame, Frame-refl, Frame-trans, Frame-widen, read32-kept}
use yinyang_os.Memory.Copy.{Leads, New, Taken, page_byte}
use yinyang_os.Memory.Copy.Entry.{CopiesEntry, InPage-Used, copy_entry_lem}
use yinyang_os.Memory.Copy.Table.{
  CopiesEntries, InTable, InTable-first, InTable-kept, InTable-rest, entries_cost,
  entries_cost-same, page_byte-kept,
}
use yinyang_os.Memory.Space.{copy_entries}

-- The pages of a source, none of them page `id`.
abbrev pub IsSource : Store → (id p k : ℕ) → Type 0
IsSource s id p k =
    (j : ℕ)
    → j < k
    → read32 s.ram (p + 4 * j) % 2 ≡ 1
    → Leads (λ i. Taken s i × (i ≢ id)) (read32 s.ram (p + 4 * j))

pub New-earlier :
    (x y : ℕ) (s s1 s2 : Store) (i : ℕ) → i < 28672 → Frame x y s s1 → New s1 s2 i → New s s2 i
New-earlier x y s s1 s2 i b f (empty, n) = (
  elim (Bool-cases (s.flags i == 0)) [
    | inl h ↦ (==_iff (s.flags i) 0).0 h
    | inr h ↦ let t : s.flags i ≢ 0 = ground arith in absurd (f.taken i b t empty)
  ],
  n,
)

-- The first entry is copied, from `s` to `s1`; the others from `s1` to `s2`.
module _ (k src dest : ℕ) (s s1 s2 : Store) (id idS : ℕ) (target : InTable s id dest (suc k))
    (source : InTable s idS src (suc k)) (other : idS ≢ id) (pages : IsSource s id src (suc k))
    (e : CopiesEntry src dest s s1) where
  rest_source : (j : ℕ) → j < k → read32 s1.ram (src + 4 + 4 * j) ≡ read32 s.ram (src + 4 + 4 * j)
  rest_source j l =
      let a : src + 4 * suc j ≡ src + 4 + 4 * j = omega arith in
      let low = target.low in
      let high = target.high in
      rw a at (
        InTable-kept dest (dest + 4) s s1 idS src (suc k) e.frame source (ground arith) (suc j)
          (omega arith))

  rest_pages : IsSource s1 id (src + 4) k
  rest_pages j l odd =
      let a : src + 4 * suc j ≡ src + 4 + 4 * j = omega arith in
      let odd' : read32 s.ram (src + 4 + 4 * j) % 2 ≡ 1 = rw (rest_source j l) at odd in
      let (i, b, at, (n, d)) = (rw a at (pages (suc j) (omega arith))) odd' in
      (i, b, rw (rest_source j l) at, (e.frame.taken i b n, d))

  rest_cost : entries_cost k (src + 4) s1 ≡ entries_cost k (src + 4) s
  rest_cost = entries_cost-same k (src + 4) s s1 rest_source

  -- What the rest of the loop leaves of the first entry.
  module _ (r : CopiesEntries k (src + 4) (dest + 4) s1 s2) where
    first_word : read32 s2.ram dest ≡ read32 s1.ram dest
    first_word =
        read32-kept (dest + 4) (dest + 4 + 4 * k) s1 s2 r.frame dest
          (InPage-Used s1 id dest (
            let p = InTable-first s id dest k target in
            record {
              bound = p.bound;
              taken = e.frame.taken id p.bound p.taken;
              low = p.low;
              high = p.high;
            }))
          (inl (omega arith))

    first_bytes :
        (o : ℕ)
        → o < 4096
        → page_byte s2.ram (read32 s2.ram dest) o ≡ page_byte s.ram (read32 s.ram src) o
    first_bytes o l =
        let low = target.low in
        let high = target.high in
        rw first_word (
          page_byte-kept (dest + 4) (dest + 4 + 4 * k) s1 s2 (read32 s1.ram dest) r.frame
            (λ odd.
              let (i, b, at, (empty, n)) = e.leads odd in
              let d : i ≢ id = λ q. target.taken (ap s.flags (sym q) ∙ empty) in
              (i, b, at, (n, ground arith)))
            o l
          ∙ e.bytes o l)

    rest_bytes :
        (j : ℕ)
        → j < k
        → (o : ℕ) → o < 4096
        → page_byte s2.ram (read32 s2.ram (dest + 4 + 4 * j)) o
          ≡ page_byte s.ram (read32 s.ram (src + 4 + 4 * j)) o
    rest_bytes j l o q =
        let low = target.low in
        let high = target.high in
        let a : src + 4 * suc j ≡ src + 4 + 4 * j = omega arith in
        let before =
          page_byte-kept dest (dest + 4) s s1 (read32 s.ram (src + 4 + 4 * j)) e.frame
            (λ odd.
              let (i, b, at, (n, d)) = (rw a at (pages (suc j) (omega arith))) odd in
              (i, b, at, (n, ground arith)))
            o q in
        r.bytes j l o q ∙ (rw (rest_source j l) before)

    all : CopiesEntries (suc k) src dest s s2
    unfolding entries_cost
    all =
        let z : dest + 4 * 0 ≡ dest = omega arith in
        let z' : src + 4 * 0 ≡ src = omega arith in
        record {
          frame =
              Frame-trans dest (dest + 4 * suc k) s s1 s2
                (Frame-widen dest (dest + 4) dest (dest + 4 * suc k) s s1 (omega arith)
                  (omega arith) e.frame)
                (Frame-widen (dest + 4) (dest + 4 + 4 * k) dest (dest + 4 * suc k) s1 s2
                  (omega arith) (omega arith) r.frame);
          bytes =
              below_cases
                (λ j.
                  (o : ℕ)
                  → o < 4096
                  → page_byte s2.ram (read32 s2.ram (dest + 4 * j)) o
                    ≡ page_byte s.ram (read32 s.ram (src + 4 * j)) o)
                k (rw (z, z') first_bytes)
                (λ j l.
                  let a : src + 4 * suc j ≡ src + 4 + 4 * j = omega arith in
                  let b : dest + 4 * suc j ≡ dest + 4 + 4 * j = omega arith in
                  rw (a, b) (rest_bytes j l));
          leads =
              below_cases
                (λ j.
                  read32 s2.ram (dest + 4 * j) % 2 ≡ 1
                  → Leads (New s s2) (read32 s2.ram (dest + 4 * j)))
                k
                (rw z (
                  rw first_word (λ odd.
                    let (i, b, at, (empty, n)) = e.leads odd in
                    (i, b, at, (empty, r.frame.taken i b n)))))
                (λ j l.
                  let b : dest + 4 * suc j ≡ dest + 4 + 4 * j = omega arith in
                  rw b (λ odd.
                    let (i, c, at, new) = r.leads j l odd in
                    (i, c, at, New-earlier dest (dest + 4) s s1 s2 i c e.frame new)));
          count = let c = r.count in let c' = e.count in let d = rest_cost in omega arith;
        }

-- Into a table that is taken, the pages of another are copied, given as many empty ones.
pub copy_entries_lem :
    (k src dest : ℕ) (s : Store) (id idS : ℕ)
    → InTable s id dest k
    → InTable s idS src k
    → idS ≢ id
    → IsSource s id src k
    → entries_cost k src s ≤ count_empty_page s
    → (s' : Store) × (copy_entries k src dest s ≡ finished s') × CopiesEntries k src dest s s'
unfolding copy_entries entries_cost
copy_entries_lem zero src dest s id idS target source other pages room = (
  s,
  refl,
  record {
    frame = Frame-refl dest (dest + 4 * 0) s;
    bytes = λ j l. absurd (omega arith);
    leads = λ j l. absurd (omega arith);
    count = omega arith;
  },
)
copy_entries_lem (suc k) src dest s id idS target source other pages room =
    let z : src + 4 * 0 ≡ src = omega arith in
    let low = target.low in
    let high = target.high in
    let low' = source.low in
    let high' = source.high in
    let (s1, run1, e) =
      copy_entry_lem src dest s id (InTable-first s id dest k target) (ground arith)
        (rw z at (pages 0 (omega arith))) (omega arith) in
    let c = e.count in
    let d = rest_cost k src dest s s1 s1 id idS target source other pages e in
    let (s2, run2, r) =
      copy_entries_lem k (src + 4) (dest + 4) s1 id idS
        (InTable-rest dest (dest + 4) s s1 id dest k e.frame target)
        (InTable-rest dest (dest + 4) s s1 idS src k e.frame source) other
        (rest_pages k src dest s s1 s1 id idS target source other pages e) (omega arith) in
    (s2, rw (copy_entries, run1, run2), all k src dest s s1 s2 id idS target source other pages e r)
