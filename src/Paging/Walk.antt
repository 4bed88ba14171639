-- ===== src/Paging/Walk.antt =====
-- The translation of an address, entry by entry.
use yinyang_os.Base.{
  Bool, Bool-cases, inl, inr, ==_iff, ◌==◌, ◌≢◌, arith, ℕ, ◌*◌, ◌+◌, ◌/◌, ◌%◌, ◌<◌, ◌^◌, ◌≡◌,
}
use yinyang_os.Paging.{Ram, page_at, table_at, translated, v_to_p, start_walk, next_page}
use yinyang_os.Paging.Words.{Apart, Keeps, read32-Keeps}

module _ (table : ℕ → Bool) (m : Ram) (pdir va n : ℕ) (apart : Apart table m pdir va n) (m' : Ram)
    (same : Keeps table m m') where
  pub table_at-Keeps :
      (k : ℕ) → k < n → table_at m' pdir ((va + k) / 2 ^ 22) ≡ table_at m pdir ((va + k) / 2 ^ 22)
  unfolding table_at
  table_at-Keeps k l =
      rw (read32-Keeps table m m' (pdir + 4 * ((va + k) / 2 ^ 22)) same (apart.pde_in k l))

  pub page_at-Keeps :
      (k : ℕ)
      → k < n
      → page_at m' (table_at m pdir ((va + k) / 2 ^ 22)) ((va + k) / 2 ^ 12 % 1024)
        ≡ page_at m (table_at m pdir ((va + k) / 2 ^ 22)) ((va + k) / 2 ^ 12 % 1024)
  unfolding page_at
  page_at-Keeps k l = rw (
      read32-Keeps table m m' (table_at m pdir ((va + k) / 2 ^ 22) + 4 * ((va + k) / 2 ^ 12 % 1024))
        same (apart.pte_in k l))

-- On the rest of a page the translation adds to the offset.
pub translated-add :
    (m : Ram) (pdir va i : ℕ)
    → va % 4096 + i < 4096
    → translated m pdir (va + i)
      ≡ page_at m (table_at m pdir (va / 2 ^ 22)) (va / 2 ^ 12 % 1024) + (va % 4096 + i)
unfolding translated
translated-add m pdir va i l =
    let a : (va + i) / 2 ^ 22 ≡ va / 2 ^ 22 = omega arith in
    let b : (va + i) / 2 ^ 12 ≡ va / 2 ^ 12 = omega arith in
    let c : (va + i) % 4096 ≡ va % 4096 + i = omega arith in rw (a, b, c)

-- Below 4 GB, `V_to_P` is the translation.
pub v_to_p-translated :
    (m : Ram) (pdir va : ℕ) → va < 2 ^ 32 → v_to_p m pdir va ≡ translated m pdir va
unfolding v_to_p
v_to_p-translated m pdir va l = let e : va % 2 ^ 32 ≡ va = omega arith in rw e

-- At the end of a page the walk moves on to the address behind it.
pub next_page-start :
    (m m' : Ram) (pdir va i : ℕ)
    → va % 4096 + i ≡ 4096
    → table_at m' pdir ((va + i) / 2 ^ 22) ≡ table_at m pdir ((va + i) / 2 ^ 22)
    → next_page m' pdir (start_walk m pdir va) ≡ start_walk m pdir (va + i)
unfolding next_page start_walk
next_page-start m m' pdir va i e s =
    let a : (va + i) / 2 ^ 12 ≡ va / 2 ^ 12 + 1 = omega arith in
    let z : (va + i) % 4096 ≡ 0 = omega arith in
    elim (Bool-cases (va / 2 ^ 12 % 1024 + 1 == 1024)) [
      | inl t ↦
          let q = (==_iff (va / 2 ^ 12 % 1024 + 1) 1024).0 t in
          let b : (va + i) / 2 ^ 22 ≡ va / 2 ^ 22 + 1 = omega arith in
          let c : (va / 2 ^ 12 + 1) % 1024 ≡ 0 = omega arith in
          let s' : table_at m' pdir (va / 2 ^ 22 + 1) ≡ table_at m pdir (va / 2 ^ 22 + 1) =
            rw b at s in
          rw (t, a, z, b, c, s')
      | inr t ↦
          let q : va / 2 ^ 12 % 1024 + 1 ≢ 1024 = ground arith in
          let b : (va + i) / 2 ^ 22 ≡ va / 2 ^ 22 = omega arith in
          let c : (va / 2 ^ 12 + 1) % 1024 ≡ va / 2 ^ 12 % 1024 + 1 = omega arith in
          rw (t, a, z, b, c)
    ]
