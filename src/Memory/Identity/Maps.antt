-- ===== src/Memory/Identity/Maps.antt =====
-- `init_page` of kernel/memory/kvm.c maps the first 128 MB to themselves, twice.
use yinyang_os.Base.{
  Bool-cases, inl, inr, arith, suc, zero, ℕ, ◌*◌, ◌+◌, ◌/◌, ◌%◌, ◌<◌, ◌≤◌, ◌==◌, ◌^◌, ◌≡◌, ◌≢◌, ◌⊎◌,
  ◌∙◌, ==_iff,
}
use yinyang_os.Paging.{Ram, page_at, read32, table_at, translated, v_to_p}
use yinyang_os.Memory.{Store, clear_entries, entry_word, make_entry, write32}
use yinyang_os.Memory.Words.{entry_word-frame_of, read32-same, read32-write32, write32-other}
use yinyang_os.Memory.Identity.{
  entry_word-small, fill_table-other, fill_table_lem, identity_tables, identity_tables-other,
  init_page, round,
}

-- Table `k` and the two entries that lead to it.
record Maps (pdir ptab k : ℕ) (s : Store) : Type 0 where
  low : read32 s.ram (pdir + 4 * k) ≡ entry_word (ptab + 4096 * k)
  high : read32 s.ram (pdir + 4 * (k + 768)) ≡ entry_word (ptab + 4096 * k)
  page :
      (j : ℕ)
      → j < 1024
      → read32 s.ram (ptab + 4096 * k + 4 * j) ≡ entry_word ((k * 1024 + j) * 2 ^ 12)

module _ (pdir ptab : ℕ) (apart : (pdir + 4096 ≤ ptab) ⊎ (ptab + 131072 ≤ pdir)) where
  round-Maps : (i : ℕ) → i < 32 → (s : Store) → Maps pdir ptab i (round i pdir ptab s)
  unfolding make_entry
  round-Maps i l s =
      let pent = ptab + 4096 * i in
      let w = entry_word pent in
      let m1 = write32 s.ram (pdir + 4 * i) w in
      let s1 = make_entry (pdir + 4 * i) pent s in
      let s2 = make_entry (pdir + 4 * (i + 768)) pent s1 in
      record {
        low =
            read32-same s2.ram (round i pdir ptab s).ram (pdir + 4 * i) (λ j q.
              fill_table-other 1024 pent (i * 1024) s2 (pdir + 4 * i + j)
                (elim apart [ inl a ↦ inl (omega arith) | inr a ↦ inr (omega arith) ]))
            ∙ read32-same m1 s2.ram (pdir + 4 * i) (λ j q.
              write32-other m1 (pdir + 4 * (i + 768)) w (pdir + 4 * i + j) (inl (omega arith)))
            ∙ read32-write32 s.ram (pdir + 4 * i) w (entry_word-small pent);
        high =
            read32-same s2.ram (round i pdir ptab s).ram (pdir + 4 * (i + 768)) (λ j q.
              fill_table-other 1024 pent (i * 1024) s2 (pdir + 4 * (i + 768) + j)
                (elim apart [ inl a ↦ inl (omega arith) | inr a ↦ inr (omega arith) ]))
            ∙ read32-write32 m1 (pdir + 4 * (i + 768)) w (entry_word-small pent);
        page = λ j q. fill_table_lem 1024 pent (i * 1024) s2 j q;
      }

  -- The later rounds leave table `k` alone.
  Maps-kept :
      (n i k : ℕ) (s : Store)
      → k < i
      → i + n ≤ 32
      → Maps pdir ptab k s
      → Maps pdir ptab k (identity_tables n i pdir ptab s)
  Maps-kept n i k s l fits h =
      let s' = identity_tables n i pdir ptab s in
      record {
        low =
            read32-same s.ram s'.ram (pdir + 4 * k) (λ j q.
              identity_tables-other n i pdir ptab s (pdir + 4 * k + j) (record {
                low = inl (omega arith);
                high = inl (omega arith);
                table = elim apart [ inl a ↦ inl (omega arith) | inr a ↦ inr (omega arith) ];
              }))
            ∙ h.low;
        high =
            read32-same s.ram s'.ram (pdir + 4 * (k + 768)) (λ j q.
              identity_tables-other n i pdir ptab s (pdir + 4 * (k + 768) + j) (record {
                low = inr (omega arith);
                high = inl (omega arith);
                table = elim apart [ inl a ↦ inl (omega arith) | inr a ↦ inr (omega arith) ];
              }))
            ∙ h.high;
        page = λ j m.
            read32-same s.ram s'.ram (ptab + 4096 * k + 4 * j) (λ b q.
              identity_tables-other n i pdir ptab s (ptab + 4096 * k + 4 * j + b) (record {
                low = elim apart [ inl a ↦ inr (omega arith) | inr a ↦ inl (omega arith) ];
                high = elim apart [ inl a ↦ inr (omega arith) | inr a ↦ inl (omega arith) ];
                table = inl (omega arith);
              }))
            ∙ h.page j m;
      }

  identity_tables-Maps :
      (n i k : ℕ) (s : Store)
      → i ≤ k
      → k < i + n
      → i + n ≤ 32
      → Maps pdir ptab k (identity_tables n i pdir ptab s)
  unfolding identity_tables
  identity_tables-Maps zero i k s l m fits = absurd (omega arith)
  identity_tables-Maps (suc n) i k s l m fits = elim (Bool-cases (k == i)) [
    | inl h ↦
        let e = (==_iff k i).0 h in
        Maps-kept n (i + 1) k (round i pdir ptab s) (omega arith) (omega arith)
          (rw e (round-Maps i (omega arith) s))
    | inr h ↦
        let d : k ≢ i = ground arith in
        identity_tables-Maps n (i + 1) k (round i pdir ptab s) (omega arith) (omega arith)
          (omega arith)
  ]

-- The directory at `pdir` maps `va` to `pa`: the entries of the directory and of the page table have
-- their bits `present`, `read_write` and `user_supervisor` set, and `V_to_P` gives `pa`.
abbrev pub MapsTo : Ram → (pdir va pa : ℕ) → Type 0
MapsTo m pdir va pa =
    (read32 m (pdir + 4 * (va / 2 ^ 22)) % 8 ≡ 7)
    × (read32 m (table_at m pdir (va / 2 ^ 22) + 4 * (va / 2 ^ 12 % 1024)) % 8 ≡ 7)
    × (v_to_p m pdir va ≡ pa)

entry_word-bits : (addr : ℕ) → entry_word addr % 8 ≡ 7
unfolding entry_word
entry_word-bits addr = omega arith

-- With the directory and the tables on pages of their own, apart from one another, `init_page` maps
-- every address below 128 MB to itself, and the one 3 GB higher to the same place, all present and
-- writable.
pub init_page-v_to_p :
    (pdir ptab va : ℕ) (s : Store)
    → (pdir + 4096 ≤ ptab) ⊎ (ptab + 131072 ≤ pdir)
    → ptab % 4096 ≡ 0
    → ptab + 131072 ≤ 2 ^ 32
    → va < 2 ^ 27
    → MapsTo (init_page pdir ptab s).1.ram pdir va va
      × MapsTo (init_page pdir ptab s).1.ram pdir (va + 3 * 2 ^ 30) va
unfolding init_page v_to_p translated table_at page_at
init_page-v_to_p pdir ptab va s apart even small l =
    let k = va / 2 ^ 22 in
    let j = va / 2 ^ 12 % 1024 in
    let h =
      identity_tables-Maps pdir ptab apart 32 0 k (clear_entries 1024 pdir s) (omega arith)
        (omega arith) (omega arith) in
    let t = (entry_word-frame_of (ptab + 4096 * k) (omega arith) (omega arith)).0 in
    let p = (entry_word-frame_of ((k * 1024 + j) * 2 ^ 12) (omega arith) (omega arith)).0 in
    let a : (va + 3 * 2 ^ 30) / 2 ^ 22 ≡ k + 768 = omega arith in
    let b : (va + 3 * 2 ^ 30) / 2 ^ 12 % 1024 ≡ j = omega arith in
    let c : (va + 3 * 2 ^ 30) % 4096 ≡ va % 4096 = omega arith in
    let u : va % 2 ^ 32 ≡ va = omega arith in
    let u' : (va + 3 * 2 ^ 30) % 2 ^ 32 ≡ va + 3 * 2 ^ 30 = omega arith in
    let w = entry_word-bits (ptab + 4096 * k) in
    let w' = entry_word-bits ((k * 1024 + j) * 2 ^ 12) in
    let e : (k * 1024 + j) * 2 ^ 12 + va % 4096 ≡ va = omega arith in
    (
      (
        rw (h.low, w),
        rw (h.low, t, h.page j (omega arith), w'),
        rw (u, h.low, t, h.page j (omega arith), p) e,
      ),
      (
        rw (a, h.high, w),
        rw (a, b, h.high, t, h.page j (omega arith), w'),
        rw (u', a, b, c, h.high, t, h.page j (omega arith), p) e,
      ),
    )
