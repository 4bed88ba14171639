-- ===== src/Memory/Allocate.antt =====
-- `allocate_memory` of kernel/mm.c: it takes the first empty page.
use yinyang_os.Base.{
  ◌==◌, sub32, none, some, Bool-cases, ==_iff, ==_ne, ==_refl, arith, inl, inr, refl, sym, update,
  ℕ, ◌*◌, ◌+◌, ◌/◌, ◌<◌, ◌≤◌, ◌^◌, ◌≡◌, ◌≢◌, ◌⊎◌, ap, suc, zero,
}
use yinyang_os.Memory.{
  Store, allocate_memory, free_memory, count_empty_page, count_from, find_page, finished, id_to_pa,
  nr_ppage_entry, panicked, pa_to_id,
}

count_from-other :
    (left i j : ℕ) (flags : ℕ → ℕ)
    → j < i
    → count_from left i (update flags j 1) ≡ count_from left i flags
unfolding count_from
count_from-other zero i j flags l = refl
count_from-other (suc left) i j flags l =
    let n = ==_ne i j (omega arith) in rw (n, count_from-other left (i + 1) j flags (omega arith))

-- The outcome of a search among the `left` flags from `i` on.
record Finds (left i : ℕ) (flags : ℕ → ℕ) (j : ℕ) : Type 0 where
  found : find_page left i flags ≡ some j
  low : i ≤ j
  high : j < i + left
  empty : flags j ≡ 0
  first : (k : ℕ) → i ≤ k → k < j → flags k ≢ 0
  count : count_from left i (update flags j 1) + 1 ≡ count_from left i flags

find_page_lem :
    (left i : ℕ) (flags : ℕ → ℕ)
    → ((find_page left i flags ≡ none) × (count_from left i flags ≡ 0))
      ⊎ ((j : ℕ) × Finds left i flags j)
unfolding find_page count_from
find_page_lem zero i flags = inl (refl, refl)
find_page_lem (suc left) i flags = elim (Bool-cases (flags i == 0)) [
  | inl h ↦
      let e = (==_iff (flags i) 0).0 h in
      let r = ==_refl i in
      inr (
        i,
        record {
          found = rw h;
          low = omega arith;
          high = omega arith;
          empty = e;
          first = λ k l m. absurd (omega arith);
          count = rw (h, r, count_from-other left (i + 1) i flags (omega arith)) (omega arith);
        },
      )
  | inr h ↦
      let n : flags i ≢ 0 = ground arith in
      elim (find_page_lem left (i + 1) flags) [
        | inl (e, c) ↦ inl (rw (h, e), rw (h, c))
        | inr (j, f) ↦
            let o = ==_ne i j (λ q. absurd (let l = f.low in omega (arith, q))) in
            inr (
              j,
              record {
                found = rw (h, f.found);
                low = let l = f.low in omega arith;
                high = let l = f.high in omega arith;
                empty = f.empty;
                first = λ k l m. elim (Bool-cases (k == i)) [
                  | inl q ↦ let e = (==_iff k i).0 q in rw e n
                  | inr q ↦ let d : k ≢ i = ground arith in f.first k (omega arith) m
                ];
                count = rw (o, h) f.count;
              },
            )
      ]
]

-- The page `id` of the user memory, empty before, taken after.
pub record Takes (s : Store) (addr : ℕ) (s' : Store) : Type 0 where
  pub id : ℕ
  pub bound : id < 28672
  pub at : addr ≡ 2 ^ 24 + id * 4096
  pub empty : s.flags id ≡ 0
  pub first : (k : ℕ) → k < id → s.flags k ≢ 0
  pub marks : s' ≡ record s { flags = update s.flags id 1 }
  pub count : count_empty_page s' + 1 ≡ count_empty_page s

-- With no empty page `allocate_memory` panics. Otherwise it takes the first one, and one less is
-- empty.
pub allocate_memory_lem :
    (s : Store)
    → ((count_empty_page s ≡ 0) × (allocate_memory s ≡ panicked))
      ⊎ ((addr : ℕ) × (s' : Store) × (allocate_memory s ≡ finished (addr, s')) × Takes s addr s')
unfolding allocate_memory count_empty_page id_to_pa
allocate_memory_lem s = elim (find_page_lem nr_ppage_entry 0 s.flags) [
  | inl (e, c) ↦ inl (c, rw (allocate_memory, e))
  | inr (j, f) ↦ inr (
    id_to_pa j,
    record s { flags = update s.flags j 1 },
    rw (allocate_memory, f.found),
    record {
      id = j;
      bound = let h = f.high in omega arith;
      at = omega arith;
      empty = f.empty;
      first = λ k l. f.first k (omega arith) l;
      marks = refl;
      count = f.count;
    },
  )
]

-- With an empty page, `allocate_memory` takes one, and one less is empty; freeing it puts every flag
-- back.
pub free_memory-allocate_memory :
    (s : Store)
    → 0 < count_empty_page s
    → (addr : ℕ) × (s' : Store) × (allocate_memory s ≡ finished (addr, s'))
      × (count_empty_page s' + 1 ≡ count_empty_page s)
      × ((i : ℕ) → (free_memory addr s').flags i ≡ s.flags i)
unfolding free_memory pa_to_id
free_memory-allocate_memory s room = elim (allocate_memory_lem s) [
  | inl (full, q) ↦ absurd (omega arith)
  | inr (addr, s', run, t) ↦ (
    addr,
    s',
    run,
    t.count,
    λ i.
        let at = t.at in
        let small = t.bound in
        let id : sub32 addr (16 * 1024 * 1024) / 4096 ≡ t.id = omega arith in
        let r = ==_refl t.id in
        let m : s'.flags ≡ update s.flags t.id 1 = ap (λ o. o.flags) t.marks in
        elim (Bool-cases (i == t.id)) [
          | inl h ↦ let e = (==_iff i t.id).0 h in let z = t.empty in rw (id, m, e, r) (sym z)
          | inr h ↦ rw (id, m, h)
        ],
  )
]
