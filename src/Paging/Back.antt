-- ===== src/Paging/Back.antt =====
-- `copy_to_kernel` of kernel/process/util.c, and the way of a message from a process and back.
use yinyang_os.Base.{
  Bool, ==_refl, ==_ne, Bool-cases, inl, inr, ◌≢◌, arith, update, ℕ, ◌+◌, ◌/◌, ◌%◌, ◌<◌, ◌≤◌, ◌^◌,
  ◌≡◌, List, [], ◌∷◌, ◌++◌, ltb, ◌⊎◌, refl, sym, length, some, suc, zero, ap, ◌∙◌,
}
use yinyang_os.Paging.{
  Ram, read_page, copy_in, copy_to_kernel, table_at, page_at, translated, Cursor, start_walk,
  next_page, copy_from_kernel,
}
use yinyang_os.Paging.Words.{Apart, Keeps}
use yinyang_os.Paging.Walk.{table_at-Keeps, page_at-Keeps, translated-add, next_page-start}
use yinyang_os.Paging.Copy.{put_bytes, put_bytes-Keeps, copy_from_kernel-translated}

-- The `n` bytes from the virtual address `va` on, each read where `t` translates its address to.
unfoldable pub get_bytes : (t : ℕ → ℕ) (va n : ℕ) → Ram → List ℕ
get_bytes t va zero m = []
get_bytes t va (suc n) m = m (t va) ∷ get_bytes t (va + 1) n m

pub get_bytes-add :
    (t : ℕ → ℕ) (va n k : ℕ) (m : Ram)
    → get_bytes t va (n + k) m ≡ get_bytes t va n m ++ get_bytes t (va + n) k m
unfolding get_bytes
get_bytes-add t va zero k m =
    let a : va + 0 ≡ va = omega arith in let b : 0 + k ≡ k = omega arith in rw (b, a)
get_bytes-add t va (suc n) k m =
    let e : va + suc n ≡ va + 1 + n = omega arith in
    let s : suc n + k ≡ suc (n + k) = omega arith in rw (s, get_bytes-add t (va + 1) n k m, e)

-- The part of the bytes that the inner loop reads, up to the end of the page.
record Read (t : ℕ → ℕ) (ptr pa va len : ℕ) (m : Ram) : Type 0 where
  count : ℕ
  left : ℕ
  split : len ≡ count + left
  run : read_page ptr pa len m ≡ (get_bytes t va count m, left)
  ends : (left ≡ 0) ⊎ (pa + count ≡ 4096)

read_page_lem :
    (t : ℕ → ℕ) (ptr pa va len : ℕ) (m : Ram)
    → pa ≤ 4096
    → ((i : ℕ) → pa + i < 4096 → t (va + i) ≡ ptr + (pa + i))
    → Read t ptr pa va len m
unfolding read_page get_bytes
read_page_lem t ptr pa va zero m fits here = record {
  count = 0;
  left = 0;
  split = refl;
  run = refl;
  ends = inl refl;
}
read_page_lem t ptr pa va (suc n) m fits here = elim (Bool-cases (ltb pa 4096)) [
  | inl h ↦
      let l : pa < 4096 = ground arith in
      let z : va + 0 ≡ va = omega arith in
      let z' : pa + 0 ≡ pa = omega arith in
      let first : t va ≡ ptr + pa = rw (z, z') at (here 0 (omega arith)) in
      let f = read_page_lem t ptr (pa + 1) (va + 1) n m (omega arith) (λ i q.
        let e : va + suc i ≡ va + 1 + i = omega arith in
        let e' : pa + suc i ≡ pa + 1 + i = omega arith in
        rw (e, e') at (here (suc i) (omega arith))) in
      record {
        count = suc f.count;
        left = f.left;
        split = omega (arith, f.split);
        run = rw (h, f.run, first);
        ends = elim f.ends [ inl none_left ↦ inl none_left | inr full ↦ inr (omega arith) ];
      }
  | inr h ↦
      let l : pa ≡ 4096 = ground arith in
      record { count = 0; left = suc n; split = omega arith; run = rw h; ends = inr (omega arith) }
]

copy_in-run :
    (m : Ram) (pdir f va len : ℕ) (c : Cursor)
    → len < f
    → (0 < len → c ≡ start_walk m pdir va)
    → copy_in f pdir c len m ≡ some (get_bytes (translated m pdir) va len m)
unfolding copy_in get_bytes start_walk
copy_in-run m pdir zero va len c enough at = absurd (omega arith)
copy_in-run m pdir (suc f) va zero c enough at = refl
copy_in-run m pdir (suc f) va (suc n) c enough at =
    let t = translated m pdir in
    let ptr = page_at m (table_at m pdir (va / 2 ^ 22)) (va / 2 ^ 12 % 1024) in
    let p = read_page_lem t ptr (va % 4096) va (suc n) m (omega arith) (translated-add m pdir va) in
    let size = p.split in
    let moved : 0 < p.count = elim p.ends [ inl e ↦ omega arith | inr e ↦ omega arith ] in
    let on : 0 < p.left → next_page m pdir c ≡ start_walk m pdir (va + p.count) = λ l. elim p.ends [
      | inl e ↦ absurd (omega arith)
      | inr e ↦ rw (at (omega arith)) (next_page-start m m pdir va p.count e refl)
    ] in
    let next = copy_in-run m pdir f (va + p.count) p.left (next_page m pdir c) (omega arith) on in
    let page : read_page (page_at m c.pent c.pte) c.pa (suc n) m
        ≡ (get_bytes t va p.count m, p.left) =
      rw (at (omega arith), p.run) in
    let whole : get_bytes t va (suc n) m
        ≡ get_bytes t va p.count m ++ get_bytes t (va + p.count) p.left m =
      ap (λ l. get_bytes t va l m) size ∙ get_bytes-add t va p.count p.left m in
    rw (page, next, page, whole)

pub copy_to_kernel_lem :
    (m : Ram) (pdir src len : ℕ)
    → copy_to_kernel pdir src len m ≡ some (get_bytes (translated m pdir) src len m)
unfolding copy_to_kernel
copy_to_kernel_lem m pdir src len =
    copy_in-run m pdir (len + 1) src len (start_walk m pdir src) (omega arith) (λ l. refl)

-- What the bytes at `va` hold after they were stored, where the translation takes no two of them
-- to one place.
put_bytes-other :
    (t : ℕ → ℕ) (va a : ℕ) (bs : List ℕ) (m : Ram)
    → ((k : ℕ) → k < length bs → t (va + k) ≢ a)
    → put_bytes t va bs m a ≡ m a
unfolding put_bytes
put_bytes-other t va a [] m other = refl
put_bytes-other t va a (b ∷ bs) m other =
    let z : va + 0 ≡ va = omega arith in
    let o : t va ≢ a = rw z at (other 0 (omega arith)) in
    let n = ==_ne a (t va) (λ q. o (sym q)) in
    let e : update m (t va) b a ≡ m a = rw n in
    put_bytes-other t (va + 1) a bs (update m (t va) b) (λ k l.
      let e' : va + suc k ≡ va + 1 + k = omega arith in rw e' at (other (suc k) (omega arith)))
    ∙ e

get_bytes-put_bytes :
    (t : ℕ → ℕ) (va : ℕ) (bs : List ℕ) (m : Ram)
    → ((j k : ℕ) → j < k → k < length bs → t (va + j) ≢ t (va + k))
    → get_bytes t va (length bs) (put_bytes t va bs m) ≡ bs
unfolding get_bytes put_bytes
get_bytes-put_bytes t va [] m apart = refl
get_bytes-put_bytes t va (b ∷ bs) m apart =
    let m1 = update m (t va) b in
    let z : va + 0 ≡ va = omega arith in
    let first : put_bytes t (va + 1) bs m1 (t va) ≡ m1 (t va) =
      put_bytes-other t (va + 1) (t va) bs m1 (λ k l q.
        let e : va + suc k ≡ va + 1 + k = omega arith in
        let d : t va ≢ t (va + 1 + k) =
          rw (z, e) at (apart 0 (suc k) (omega arith) (omega arith)) in
        d (sym q)) in
    let s = ==_refl (t va) in
    let stored : m1 (t va) ≡ b = rw s in
    let next = get_bytes-put_bytes t (va + 1) bs m1 (λ j k l q.
      let e : va + suc k ≡ va + 1 + k = omega arith in
      let e' : va + suc j ≡ va + 1 + j = omega arith in
      rw (e, e') at (apart (suc j) (suc k) (omega arith) (omega arith))) in
    rw (first, stored, next)

get_bytes-same :
    (t t' : ℕ → ℕ) (va n : ℕ) (m : Ram)
    → ((k : ℕ) → k < n → t' (va + k) ≡ t (va + k))
    → get_bytes t' va n m ≡ get_bytes t va n m
unfolding get_bytes
get_bytes-same t t' va zero m same = refl
get_bytes-same t t' va (suc n) m same =
    let z : va + 0 ≡ va = omega arith in
    let first : t' va ≡ t va = rw z at (same 0 (omega arith)) in
    let next = get_bytes-same t t' (va + 1) n m (λ k l.
      let e : va + suc k ≡ va + 1 + k = omega arith in rw e at (same (suc k) (omega arith))) in
    rw (first, next)

pub translated-Keeps :
    (table : ℕ → Bool) (m : Ram) (pdir va n : ℕ)
    → Apart table m pdir va n
    → (m' : Ram) → Keeps table m m'
    → (k : ℕ) → k < n
    → translated m' pdir (va + k) ≡ translated m pdir (va + k)
unfolding translated
translated-Keeps table m pdir va n apart m' same k l = rw (
  table_at-Keeps table m pdir va n apart m' same k l,
  page_at-Keeps table m pdir va n apart m' same k l,
)

-- Where the page tables that translate the bytes at `va` lie outside of them, and no two of the
-- bytes are at one place, what the kernel copies to a process is what it reads back.
pub copy_to_kernel-copy_from_kernel :
    (table : ℕ → Bool) (m : Ram) (pdir va : ℕ) (bytes : List ℕ)
    → Apart table m pdir va (length bytes)
    → ((j k : ℕ)
        → j < k
        → k < length bytes
        → translated m pdir (va + j) ≢ translated m pdir (va + k))
    → (m' : Ram) × (copy_from_kernel pdir va bytes m ≡ some m')
      × (copy_to_kernel pdir va (length bytes) m' ≡ some bytes)
copy_to_kernel-copy_from_kernel table m pdir va bytes apart distinct =
    let t = translated m pdir in
    let m' = put_bytes t va bytes m in
    let same : Keeps table m m' =
      put_bytes-Keeps table t m va bytes m apart.bytes_out (λ a marked. refl) in
    let moved =
      get_bytes-same t (translated m' pdir) va (length bytes) m'
        (translated-Keeps table m pdir va (length bytes) apart m' same) in
    (
      m',
      copy_from_kernel-translated table m pdir va bytes apart,
      rw (
        copy_to_kernel_lem m' pdir va (length bytes),
        moved,
        get_bytes-put_bytes t va bytes m distinct,
      ),
    )
