-- ===== src/Paging/Copy.antt =====
-- `copy_from_kernel` of kernel/process/util.c, against a store to every translated address.
use yinyang_os.Base.{
  Bool, length-append, Bool-cases, inl, inr, ==_iff, ◌==◌, arith, true, false, update, ℕ, ◌+◌, ◌/◌,
  ◌%◌, ◌<◌, ◌≤◌, ◌^◌, ◌≡◌, List, [], ◌∷◌, ◌++◌, ltb, ◌⊎◌, refl, sym, length, some, suc, zero, ap,
  ◌∙◌,
}
use yinyang_os.Paging.{
  Ram, fill_page, table_at, page_at, translated, Cursor, start_walk, next_page, copy_out,
  copy_from_kernel, v_to_p,
}
use yinyang_os.Paging.Words.{Apart, Keeps}
use yinyang_os.Paging.Walk.{
  v_to_p-translated, table_at-Keeps, page_at-Keeps, translated-add, next_page-start,
}

-- The bytes from the virtual address `va` on, stored one by one where `t` translates them to.
unfoldable pub put_bytes : (t : ℕ → ℕ) (va : ℕ) → List ℕ → Ram → Ram
put_bytes t va [] m = m
put_bytes t va (b ∷ bs) m = put_bytes t (va + 1) bs (update m (t va) b)

put_bytes-append :
    (t : ℕ → ℕ) (va : ℕ) (xs ys : List ℕ) (m : Ram)
    → put_bytes t va (xs ++ ys) m ≡ put_bytes t (va + length xs) ys (put_bytes t va xs m)
unfolding put_bytes
put_bytes-append t va [] ys m = ap (λ k. put_bytes t k ys m) (omega arith)
put_bytes-append t va (x ∷ xs) ys m =
    let e : va + suc (length xs) ≡ va + 1 + length xs = omega arith in
    rw (put_bytes-append t (va + 1) xs ys (update m (t va) x), e)

pub put_bytes-Keeps :
    (table : ℕ → Bool) (t : ℕ → ℕ) (m : Ram) (va : ℕ) (bs : List ℕ) (m' : Ram)
    → ((k : ℕ) → k < length bs → table (t (va + k)) ≡ false)
    → Keeps table m m'
    → Keeps table m (put_bytes t va bs m')
unfolding put_bytes
put_bytes-Keeps table t m va [] m' out same = same
put_bytes-Keeps table t m va (b ∷ bs) m' out same =
    let z : va + 0 ≡ va = omega arith in
    let o : table (t va) ≡ false = rw z at (out 0 (omega arith)) in
    put_bytes-Keeps table t m (va + 1) bs (update m' (t va) b)
      (λ k l. let e : va + suc k ≡ va + 1 + k = omega arith in rw e at (out (suc k) (omega arith)))
      (λ a marked.
        let s = same a marked in
        elim (Bool-cases (a == t va)) [
          | inl h ↦
              let q = (==_iff a (t va)).0 h in
              let x : table (t va) ≡ true = rw q at marked in absurd (ground arith)
          | inr h ↦ let n : update m' (t va) b a ≡ m' a = rw h in n ∙ s
        ])

-- The part of the bytes that the inner loop stores, up to the end of the page.
record Filled (t : ℕ → ℕ) (ptr pa va : ℕ) (bs : List ℕ) (m : Ram) : Type 0 where
  xs : List ℕ
  rest : List ℕ
  joined : bs ≡ xs ++ rest
  run : fill_page ptr pa bs m ≡ (put_bytes t va xs m, rest)
  ends : (rest ≡ []) ⊎ (pa + length xs ≡ 4096)

fill_page_lem :
    (t : ℕ → ℕ) (ptr pa va : ℕ) (bs : List ℕ) (m : Ram)
    → pa ≤ 4096
    → ((i : ℕ) → pa + i < 4096 → t (va + i) ≡ ptr + (pa + i))
    → Filled t ptr pa va bs m
unfolding fill_page put_bytes
fill_page_lem t ptr pa va [] m fits here = record {
  xs = [];
  rest = [];
  joined = refl;
  run = refl;
  ends = inl refl;
}
fill_page_lem t ptr pa va (b ∷ bs) m fits here = elim (Bool-cases (ltb pa 4096)) [
  | inl h ↦
      let l : pa < 4096 = ground arith in
      let z : va + 0 ≡ va = omega arith in
      let z' : pa + 0 ≡ pa = omega arith in
      let first : t va ≡ ptr + pa = rw (z, z') at (here 0 (omega arith)) in
      let f = fill_page_lem t ptr (pa + 1) (va + 1) bs (update m (ptr + pa) b) (omega arith) (λ i q.
        let e : va + suc i ≡ va + 1 + i = omega arith in
        let e' : pa + suc i ≡ pa + 1 + i = omega arith in
        rw (e, e') at (here (suc i) (omega arith))) in
      record {
        xs = b ∷ f.xs;
        rest = f.rest;
        joined = ap (λ l. b ∷ l) f.joined;
        run = rw (h, f.run, first);
        ends = elim f.ends [ inl none_left ↦ inl none_left | inr full ↦ inr (omega arith) ];
      }
  | inr h ↦
      let l : pa ≡ 4096 = ground arith in
      record { xs = []; rest = b ∷ bs; joined = refl; run = rw h; ends = inr (omega arith) }
]

module _ (table : ℕ → Bool) (m : Ram) (pdir : ℕ) where
  -- What is left to copy after a page, with the part of the page tables that it needs.
  Apart-drop : (va i n : ℕ) → Apart table m pdir va (i + n) → Apart table m pdir (va + i) n
  Apart-drop va i n apart = record {
    pde_in = λ k l j q.
        let e : va + i + k ≡ va + (i + k) = omega arith in
        rw e (apart.pde_in (i + k) (omega arith) j q);
    pte_in = λ k l j q.
        let e : va + i + k ≡ va + (i + k) = omega arith in
        rw e (apart.pte_in (i + k) (omega arith) j q);
    bytes_out = λ k l.
        let e : va + i + k ≡ va + (i + k) = omega arith in
        rw e (apart.bytes_out (i + k) (omega arith));
  }

  copy_out-run :
      (f va : ℕ) (bs : List ℕ) (m' : Ram) (c : Cursor)
      → length bs < f
      → Apart table m pdir va (length bs)
      → Keeps table m m'
      → (0 < length bs → c ≡ start_walk m pdir va)
      → copy_out f pdir c bs m' ≡ some (put_bytes (translated m pdir) va bs m')
  unfolding copy_out put_bytes start_walk
  copy_out-run zero va bs m' c enough apart same at = absurd (omega arith)
  copy_out-run (suc f) va [] m' c enough apart same at = refl
  copy_out-run (suc f) va (b ∷ bs) m' c enough apart same at =
      let z : va + 0 ≡ va = omega arith in
      let t = translated m pdir in
      let ptr = page_at m (table_at m pdir (va / 2 ^ 22)) (va / 2 ^ 12 % 1024) in
      let here : page_at m' (table_at m pdir (va / 2 ^ 22)) (va / 2 ^ 12 % 1024) ≡ ptr =
        rw z at (page_at-Keeps table m pdir va (suc (length bs)) apart m' same 0 (omega arith)) in
      let p =
        fill_page_lem t ptr (va % 4096) va (b ∷ bs) m' (omega arith) (translated-add m pdir va) in
      let size : length p.xs + length p.rest ≡ suc (length bs) =
        sym (length-append p.xs p.rest) ∙ sym (ap length p.joined) in
      let moved : 0 < length p.xs = elim p.ends [
        | inl e ↦ let q : length p.rest ≡ 0 = rw e in omega arith
        | inr e ↦ omega arith
      ] in
      let m1 = put_bytes t va p.xs m' in
      let all : suc (length bs) ≡ length p.xs + length p.rest = sym size in
      let same1 : Keeps table m m1 =
        put_bytes-Keeps table t m va p.xs m' (λ k l. apart.bytes_out k (omega arith)) same in
      let on : 0 < length p.rest → next_page m1 pdir c ≡ start_walk m pdir (va + length p.xs) = λ l.
        elim p.ends [
          | inl e ↦ let q : length p.rest ≡ 0 = rw e in absurd (omega arith)
          | inr e ↦ rw (at (omega arith)) (
              next_page-start m m1 pdir va (length p.xs) e (
                table_at-Keeps table m pdir va (suc (length bs)) apart m1 same1 (length p.xs)
                  (omega arith)))
        ] in
      let next =
        copy_out-run f (va + length p.xs) p.rest m1 (next_page m1 pdir c) (omega arith)
          (Apart-drop va (length p.xs) (length p.rest) (rw all at apart)) same1 on in
      let page : fill_page (page_at m' c.pent c.pte) c.pa (b ∷ bs) m' ≡ (m1, p.rest) =
        rw (at (omega arith), here, p.run) in
      let whole : put_bytes t va (b ∷ bs) m' ≡ put_bytes t (va + length p.xs) p.rest m1 =
        ap (λ l. put_bytes t va l m') p.joined ∙ put_bytes-append t va p.xs p.rest m' in
      rw (page, next, whole)

pub copy_from_kernel-translated :
    (table : ℕ → Bool) (m : Ram) (pdir dest : ℕ) (bytes : List ℕ)
    → Apart table m pdir dest (length bytes)
    → copy_from_kernel pdir dest bytes m ≡ some (put_bytes (translated m pdir) dest bytes m)
unfolding copy_from_kernel
copy_from_kernel-translated table m pdir dest bytes apart =
    copy_out-run table m pdir (length bytes + 1) dest bytes m (start_walk m pdir dest) (omega arith)
      apart (λ a marked. refl) (λ l. refl)

-- Two translations that agree on the addresses from `va` on store the bytes alike.
pub put_bytes-same :
    (t t' : ℕ → ℕ) (va : ℕ) (bs : List ℕ) (m : Ram)
    → ((k : ℕ) → k < length bs → t' (va + k) ≡ t (va + k))
    → put_bytes t' va bs m ≡ put_bytes t va bs m
unfolding put_bytes
put_bytes-same t t' va [] m same = refl
put_bytes-same t t' va (b ∷ bs) m same =
    let z : va + 0 ≡ va = omega arith in
    let first : t' va ≡ t va = rw z at (same 0 (omega arith)) in
    let next = put_bytes-same t t' (va + 1) bs (update m (t va) b) (λ k l.
      let e : va + suc k ≡ va + 1 + k = omega arith in rw e at (same (suc k) (omega arith))) in
    rw (first, next)

-- Where the destination ends below 4 GB and the page tables that translate it lie outside of it, the
-- copy to a process finishes and stores every byte where `V_to_P` translates its address to.
pub copy_from_kernel_lem :
    (table : ℕ → Bool) (m : Ram) (pdir dest : ℕ) (bytes : List ℕ)
    → dest + length bytes ≤ 2 ^ 32
    → Apart table m pdir dest (length bytes)
    → copy_from_kernel pdir dest bytes m ≡ some (put_bytes (v_to_p m pdir) dest bytes m)
copy_from_kernel_lem table m pdir dest bytes fits apart =
    copy_from_kernel-translated table m pdir dest bytes apart
    ∙ ap some (
        sym (
          put_bytes-same (translated m pdir) (v_to_p m pdir) dest bytes m
            (λ k l. v_to_p-translated m pdir (dest + k) (omega arith))))
