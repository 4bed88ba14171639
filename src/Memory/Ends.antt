-- ===== src/Memory/Ends.antt =====
-- The loops of `allocate_page` and `free_page` end.
use yinyang_os.Base.{
  Bool-cases, arith, false, if◌then◌else◌, inl, inr, refl, suc, true, zero, ℕ, ◌&&◌, ◌*◌, ◌+◌, ◌-◌,
  ◌/◌, ◌%◌, ◌<◌, ◌≤◌, ◌==◌, ◌≡◌, ◌⊎◌, ◌^◌,
}
use yinyang_os.Paging.{nr_pte_entry}
use yinyang_os.Memory.{
  Run, Store, allocate_loop, allocate_page, clear_entries, entry_frame, finished, free_memory,
  is_fault, make_entry, make_invalid, map_page, map_pages, panicked, table_for,
}
use yinyang_os.Memory.Allocate.{allocate_memory_lem}
use yinyang_os.Memory.Space.{all_fault, free_loop, free_page, unmap_pages, unmap_table}

-- A computation that panics, or ends with a result that has `P`.
abbrev Ends : {A : Type 0} → (A → Type 0) → Run A → Type 0
Ends P r = (r ≡ panicked) ⊎ ((a : _) × (r ≡ finished a) × P a)

table_for-Ends : (p : ℕ) (s : Store) → Ends (λ a. Unit) (table_for p s)
unfolding table_for
table_for-Ends p s = elim (Bool-cases (is_fault p s)) [
  | inl h ↦ elim (allocate_memory_lem s) [
    | inl (full, e) ↦ inl (rw (h, e))
    | inr (addr, s', e, t) ↦
        inr ((addr, clear_entries nr_pte_entry addr (make_entry p addr s')), rw (h, e), tt)
  ]
  | inr h ↦ inr ((entry_frame p s, s), rw h, tt)
]

map_page-Ends : (p : ℕ) (s : Store) → Ends (λ a. Unit) (map_page p s)
unfolding map_page
map_page-Ends p s = elim (Bool-cases (is_fault p s)) [
  | inl h ↦ elim (allocate_memory_lem s) [
    | inl (full, e) ↦ inl (rw (h, e))
    | inr (addr, s', e, t) ↦ inr (make_entry p addr s', rw (h, e), tt)
  ]
  | inr h ↦ inl (rw h)
]

map_pages-zero : (p n : ℕ) (s : Store) → map_pages 0 p n s ≡ finished (n, s)
unfolding map_pages
map_pages-zero p n s = refl

map_pages-step :
    (k p n : ℕ) (s s' : Store)
    → map_page p s ≡ finished s'
    → map_pages (suc k) p n s
      ≡ (if n == 1 then finished (0, s') else map_pages k (p + 4) (n - 1) s')
unfolding map_pages
map_pages-step k p n s s' e = rw (map_pages, e)

map_pages-panics :
    (k p n : ℕ) (s : Store) → map_page p s ≡ panicked → map_pages (suc k) p n s ≡ panicked
unfolding map_pages
map_pages-panics k p n s e = rw (map_pages, e)

-- The length that is left never grows.
map_pages-Ends : (k p n : ℕ) (s : Store) → Ends (λ a. a.0 ≤ n) (map_pages k p n s)
map_pages-Ends zero p n s = inr ((n, s), map_pages-zero p n s, omega arith)
map_pages-Ends (suc k) p n s = elim (map_page-Ends p s) [
  | inl e ↦ inl (map_pages-panics k p n s e)
  | inr (s', e, u) ↦ rw (map_pages-step k p n s s' e) (elim (Bool-cases (n == 1)) [
    | inl h ↦ inr ((0, s'), rw h, omega arith)
    | inr h ↦ elim (map_pages-Ends k (p + 4) (n - 1) s') [
      | inl q ↦ inl (rw h q)
      | inr (a, q, l) ↦ inr (a, rw h q, omega arith)
    ]
  ])
]

-- A round maps a page at least.
map_pages-less : (k p n : ℕ) (s : Store) → Ends (λ a. a.0 ≤ n) (map_pages (suc k) p (suc n) s)
map_pages-less k p n s = elim (map_page-Ends p s) [
  | inl e ↦ inl (map_pages-panics k p (suc n) s e)
  | inr (s', e, u) ↦ rw (map_pages-step k p (suc n) s s' e) (elim (Bool-cases (suc n == 1)) [
    | inl h ↦ inr ((0, s'), rw h, omega arith)
    | inr h ↦ elim (map_pages-Ends k (p + 4) (suc n - 1) s') [
      | inl q ↦ inl (rw h q)
      | inr (a, q, l) ↦ inr (a, rw h q, omega arith)
    ]
  ])
]

allocate_loop-Ends :
    (f pdir pde pte n : ℕ) (s : Store)
    → n < f
    → pte < 1024
    → Ends (λ a. Unit) (allocate_loop f pdir pde pte n s)
unfolding allocate_loop
allocate_loop-Ends zero pdir pde pte n s enough low = absurd (omega arith)
allocate_loop-Ends (suc f) pdir pde pte zero s enough low = inr (s, refl, tt)
allocate_loop-Ends (suc f) pdir pde pte (suc n) s enough low =
    let k : nr_pte_entry - pte ≡ suc (1023 - pte) = omega arith in
    elim (table_for-Ends (pdir + 4 * pde) s) [
      | inl e ↦ inl (rw (allocate_loop, e))
      | inr ((pent, s1), e, u) ↦ elim (map_pages-less (1023 - pte) (pent + 4 * pte) n s1) [
        | inl q ↦ inl (rw (allocate_loop, e, k, q))
        | inr ((l, s2), q, less) ↦
            rw (allocate_loop, e, k, q)
              (allocate_loop-Ends f pdir (pde + 1) 0 l s2 (omega arith) (omega arith))
      ]
    ]

unmap_pages-step :
    (k p n : ℕ) (s : Store)
    → is_fault p s ≡ false
    → unmap_pages (suc k) p n s ≡ (
        if n == 1
        then finished (0, suc k, make_invalid p (free_memory (entry_frame p s) s))
        else unmap_pages k (p + 4) (n - 1) (make_invalid p (free_memory (entry_frame p s) s)))
unfolding unmap_pages
unmap_pages-step k p n s e = rw (unmap_pages, e)

unmap_pages-panics :
    (k p n : ℕ) (s : Store) → is_fault p s ≡ true → unmap_pages (suc k) p n s ≡ panicked
unfolding unmap_pages
unmap_pages-panics k p n s e = rw (unmap_pages, e)

unmap_pages-zero : (p n : ℕ) (s : Store) → unmap_pages 0 p n s ≡ finished (n, 0, s)
unfolding unmap_pages
unmap_pages-zero p n s = refl

unmap_pages-Ends : (k p n : ℕ) (s : Store) → Ends (λ a. a.0 ≤ n) (unmap_pages k p n s)
unmap_pages-Ends zero p n s = inr ((n, 0, s), unmap_pages-zero p n s, omega arith)
unmap_pages-Ends (suc k) p n s =
    let s' = make_invalid p (free_memory (entry_frame p s) s) in
    elim (Bool-cases (is_fault p s)) [
      | inl e ↦ inl (unmap_pages-panics k p n s e)
      | inr e ↦ rw (unmap_pages-step k p n s e) (elim (Bool-cases (n == 1)) [
        | inl h ↦ inr ((0, suc k, s'), rw h, omega arith)
        | inr h ↦ elim (unmap_pages-Ends k (p + 4) (n - 1) s') [
          | inl q ↦ inl (rw h q)
          | inr (a, q, l) ↦ inr (a, rw h q, omega arith)
        ]
      ])
    ]

unmap_pages-less : (k p n : ℕ) (s : Store) → Ends (λ a. a.0 ≤ n) (unmap_pages (suc k) p (suc n) s)
unmap_pages-less k p n s =
    let s' = make_invalid p (free_memory (entry_frame p s) s) in
    elim (Bool-cases (is_fault p s)) [
      | inl e ↦ inl (unmap_pages-panics k p (suc n) s e)
      | inr e ↦ rw (unmap_pages-step k p (suc n) s e) (elim (Bool-cases (suc n == 1)) [
        | inl h ↦ inr ((0, suc k, s'), rw h, omega arith)
        | inr h ↦ elim (unmap_pages-Ends k (p + 4) (suc n - 1) s') [
          | inl q ↦ inl (rw h q)
          | inr (a, q, l) ↦ inr (a, rw h q, omega arith)
        ]
      ])
    ]

unmap_table-Ends :
    (p pte n : ℕ) (s : Store) → pte < 1024 → Ends (λ a. a.0 ≤ n) (unmap_table p pte (suc n) s)
unfolding unmap_table
unmap_table-Ends p pte n s low =
    let k : nr_pte_entry - pte ≡ suc (1023 - pte) = omega arith in
    elim (Bool-cases (is_fault p s)) [
      | inl h ↦ inl (rw h)
      | inr h ↦ elim (unmap_pages-less (1023 - pte) (entry_frame p s + 4 * pte) n s) [
        | inl q ↦ inl (rw (h, k, q))
        | inr ((l, left, s'), q, less) ↦
            let gone =
              all_fault pte (entry_frame p s) s
              && all_fault left (entry_frame p s + 4 * (nr_pte_entry - left)) s' in
            inr (
              (l, if gone then make_invalid p (free_memory (entry_frame p s') s') else s'),
              rw (h, k, q),
              less,
            )
      ]
    ]

free_loop-Ends :
    (f pdir pde pte n : ℕ) (s : Store)
    → n < f
    → pte < 1024
    → Ends (λ a. Unit) (free_loop f pdir pde pte n s)
unfolding free_loop
free_loop-Ends zero pdir pde pte n s enough low = absurd (omega arith)
free_loop-Ends (suc f) pdir pde pte zero s enough low = inr (s, refl, tt)
free_loop-Ends (suc f) pdir pde pte (suc n) s enough low =
    elim (unmap_table-Ends (pdir + 4 * pde) pte n s low) [
      | inl e ↦ inl (rw (free_loop, e))
      | inr ((l, s'), e, less) ↦
          rw (free_loop, e) (free_loop-Ends f pdir (pde + 1) 0 l s' (omega arith) (omega arith))
    ]

-- `allocate_page` and `free_page` end: they finish or panic.
pub allocate_page-free_page-ends :
    (pdir start length : ℕ) (s : Store)
    → ((allocate_page pdir start length s ≡ panicked)
        ⊎ ((s' : Store) × (allocate_page pdir start length s ≡ finished s')))
      × ((free_page pdir start length s ≡ panicked)
          ⊎ ((s' : Store) × (free_page pdir start length s ≡ finished s')))
unfolding allocate_page free_page
allocate_page-free_page-ends pdir start length s = (
  elim (allocate_loop-Ends (length + 1) pdir (start / 2 ^ 22) (start / 2 ^ 12 % 1024) length s
      (omega arith) (omega arith)) [ inl e ↦ inl e | inr (s', e, u) ↦ inr (s', e) ],
  elim (free_loop-Ends (length + 1) pdir (start / 2 ^ 22) (start / 2 ^ 12 % 1024) length s
      (omega arith) (omega arith)) [ inl e ↦ inl e | inr (s', e, u) ↦ inr (s', e) ],
)
