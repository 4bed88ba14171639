-- ===== src/Memory/Identity.antt =====
-- The kernel's own page table: `init_page` of kernel/memory/kvm.c.
pub mod Maps
use yinyang_os.Base.{
  Bool-cases, inl, inr, arith, refl, suc, zero, ℕ, ◌*◌, ◌+◌, ◌-◌, ◌/◌, ◌%◌, ◌<◌, ◌≤◌, ◌==◌, ◌^◌,
  ◌≡◌, ◌≢◌, ◌⊎◌, ◌∙◌, ==_iff,
}
use yinyang_os.Paging.{frame_of, page_at, read32, table_at, v_to_p, nr_pte_entry, page_size}
use yinyang_os.Memory.{Store, clear_entries, entry_word, make_entry, write32}
use yinyang_os.Memory.Space.{fill_table, nr_user_pde}
use yinyang_os.Memory.Words.{entry_word-frame_of, read32-same, read32-write32, write32-other}

-- Lines 21 to 28, for the `left` tables from `i` on.
unfoldable pub identity_tables : (left i pdir ptab : ℕ) → Store → Store
identity_tables zero i pdir ptab s = s
identity_tables (suc left) i pdir ptab s =
    let pent = ptab + page_size * i in
    let s1 = make_entry (pdir + 4 * (i + nr_user_pde)) pent (make_entry (pdir + 4 * i) pent s) in
    identity_tables left (i + 1) pdir ptab (fill_table nr_pte_entry pent (i * nr_pte_entry) s1)

-- `init_page`, for `kpagedir` and `kpagetable`: the base that it saves in CR3, and the store. There
-- are tables for 128 MB.
unfoldable pub init_page : (pdir ptab : ℕ) → Store → ℕ × Store
init_page pdir ptab s =
    (pdir / page_size, identity_tables 32 0 pdir ptab (clear_entries 1024 pdir s))

pub fill_table-other :
    (n p page : ℕ) (s : Store) (a : ℕ)
    → (a < p) ⊎ (p + 4 * n ≤ a)
    → (fill_table n p page s).ram a ≡ s.ram a
unfolding fill_table make_entry
fill_table-other zero p page s a out = refl
fill_table-other (suc n) p page s a out =
    fill_table-other n (p + 4) (page + 1) (make_entry p (page * 2 ^ 12) s) a
      (elim out [ inl l ↦ inl (omega arith) | inr l ↦ inr (omega arith) ])
    ∙ write32-other s.ram p (entry_word (page * 2 ^ 12)) a
        (elim out [ inl l ↦ inl (omega arith) | inr l ↦ inr (omega arith) ])

pub entry_word-small : (a : ℕ) → entry_word a < 2 ^ 32
unfolding entry_word
entry_word-small a = omega arith

pub fill_table_lem :
    (n p page : ℕ) (s : Store) (j : ℕ)
    → j < n
    → read32 (fill_table n p page s).ram (p + 4 * j) ≡ entry_word ((page + j) * 2 ^ 12)
unfolding fill_table make_entry
fill_table_lem zero p page s j l = absurd (omega arith)
fill_table_lem (suc n) p page s zero l =
    let z : p + 4 * 0 ≡ p = omega arith in
    let z' : page + 0 ≡ page = omega arith in
    let s' = make_entry p (page * 2 ^ 12) s in
    let kept =
      read32-same s'.ram (fill_table n (p + 4) (page + 1) s').ram p
        (λ i q. fill_table-other n (p + 4) (page + 1) s' (p + i) (inl (omega arith))) in
    rw (z, z')
      (kept
        ∙ read32-write32 s.ram p (entry_word (page * 2 ^ 12)) (entry_word-small (page * 2 ^ 12)))
fill_table_lem (suc n) p page s (suc j) l =
    let e : p + 4 * suc j ≡ p + 4 + 4 * j = omega arith in
    let e' : page + suc j ≡ page + 1 + j = omega arith in
    rw (e, e')
      (fill_table_lem n (p + 4) (page + 1) (make_entry p (page * 2 ^ 12) s) j (omega arith))

-- A byte that the tables from `i` on, and their entries, do not have.
pub record Beside (n i pdir ptab a : ℕ) : Type 0 where
  pub low : (a < pdir + 4 * i) ⊎ (pdir + 4 * (i + n) ≤ a)
  pub high : (a < pdir + 4 * (i + 768)) ⊎ (pdir + 4 * (i + 768 + n) ≤ a)
  pub table : (a < ptab + 4096 * i) ⊎ (ptab + 4096 * (i + n) ≤ a)

Beside-first : (n i pdir ptab a : ℕ) → Beside (suc n) i pdir ptab a → Beside 1 i pdir ptab a
Beside-first n i pdir ptab a b = record {
  low = elim b.low [ inl l ↦ inl l | inr l ↦ inr (omega arith) ];
  high = elim b.high [ inl l ↦ inl l | inr l ↦ inr (omega arith) ];
  table = elim b.table [ inl l ↦ inl l | inr l ↦ inr (omega arith) ];
}

Beside-rest : (n i pdir ptab a : ℕ) → Beside (suc n) i pdir ptab a → Beside n (i + 1) pdir ptab a
Beside-rest n i pdir ptab a b = record {
  low = elim b.low [ inl l ↦ inl (omega arith) | inr l ↦ inr (omega arith) ];
  high = elim b.high [ inl l ↦ inl (omega arith) | inr l ↦ inr (omega arith) ];
  table = elim b.table [ inl l ↦ inl (omega arith) | inr l ↦ inr (omega arith) ];
}

abbrev pub round : (i pdir ptab : ℕ) → Store → Store
round i pdir ptab s =
    let pent = ptab + 4096 * i in
    fill_table 1024 pent (i * 1024)
      (make_entry (pdir + 4 * (i + 768)) pent (make_entry (pdir + 4 * i) pent s))

round-other :
    (i pdir ptab : ℕ) (s : Store) (a : ℕ)
    → Beside 1 i pdir ptab a
    → (round i pdir ptab s).ram a ≡ s.ram a
unfolding make_entry
round-other i pdir ptab s a b =
    let pent = ptab + 4096 * i in
    let s1 = make_entry (pdir + 4 * i) pent s in
    let s2 = make_entry (pdir + 4 * (i + 768)) pent s1 in
    fill_table-other 1024 pent (i * 1024) s2 a
      (elim b.table [ inl l ↦ inl l | inr l ↦ inr (omega arith) ])
    ∙ write32-other s1.ram (pdir + 4 * (i + 768)) (entry_word pent) a
        (elim b.high [ inl l ↦ inl l | inr l ↦ inr (omega arith) ])
    ∙ write32-other s.ram (pdir + 4 * i) (entry_word pent) a
        (elim b.low [ inl l ↦ inl l | inr l ↦ inr (omega arith) ])

pub identity_tables-other :
    (n i pdir ptab : ℕ) (s : Store) (a : ℕ)
    → Beside n i pdir ptab a
    → (identity_tables n i pdir ptab s).ram a ≡ s.ram a
unfolding identity_tables
identity_tables-other zero i pdir ptab s a b = refl
identity_tables-other (suc n) i pdir ptab s a b =
    identity_tables-other n (i + 1) pdir ptab (round i pdir ptab s) a
      (Beside-rest n i pdir ptab a b)
    ∙ round-other i pdir ptab s a (Beside-first n i pdir ptab a b)
