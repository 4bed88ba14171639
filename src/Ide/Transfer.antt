-- ===== src/Ide/Transfer.antt =====
-- The transfers that the thread of kernel/drivers/ide.c makes for DEV_READ and DEV_WRITE.
use mathlib.Core.Path.{ap₂, fun_ext}
use yinyang_os.Base.{
  List, Option, [], add32, ap, arith, get_elem?, if◌then◌else◌, length, ltb, none, refl, some, suc,
  u32_mod, zero, ℕ, ◌+◌, ◌-◌, ◌==◌, ◌∙◌, ◌∷◌, ◌≡◌, ◌≤◌, sym, ◌<◌,
}
use yinyang_os.Ide.{Drive, Ide, read_byte, read_bytes, write_byte, write_bytes}
use yinyang_os.Ide.Bytes.{byte_at, read_byte_lem, write_byte_lem}
use yinyang_os.Ide.View.{IsCache}

-- The bytes at `n` offsets from `o` on.
unfoldable pub bytes_from : (n : ℕ) → ℕ → (ℕ → ℕ) → List ℕ
bytes_from zero o f = []
bytes_from (suc n) o f = f o ∷ bytes_from n (o + 1) f

-- The bytes after `bs` has been written at offset `o`.
unfoldable pub written : ℕ → List ℕ → (ℕ → ℕ) → ℕ → ℕ
written o bs f p =
    let there = get_elem? bs (p - o) in
    elim (if ltb p o then none else there) [ none ↦ f p | some b ↦ b ]

get_elem?-after :
    (o p b : ℕ) (bs : List ℕ) → o < p → get_elem? (b ∷ bs) (p - o) ≡ get_elem? bs (p - (o + 1))
get_elem?-after o p b bs h =
    let e : p - o ≡ suc (p - (o + 1)) = omega arith in ap (get_elem? (b ∷ bs)) e

get_elem?-at : (o p b : ℕ) (bs : List ℕ) → p ≡ o → get_elem? (b ∷ bs) (p - o) ≡ some b
get_elem?-at o p b bs h = let e : p - o ≡ 0 = omega arith in ap (get_elem? (b ∷ bs)) e

written-cons :
    (o b : ℕ) (bs : List ℕ) (f g : ℕ → ℕ) (p : ℕ)
    → (g p ≡ (if p == o then b else f p))
    → written (o + 1) bs g p ≡ written o (b ∷ bs) f p
unfolding written
written-cons o b bs f g p e = ground (arith, get_elem?-after o p b bs, get_elem?-at o p b bs, e)

written-nil : (o : ℕ) (f : ℕ → ℕ) (p : ℕ) → written o [] f p ≡ f p
unfolding written
written-nil o f p = ground arith

written-head : (o b : ℕ) (bs : List ℕ) (f : ℕ → ℕ) → written o (b ∷ bs) f o ≡ b
unfolding written
written-head o b bs f = ground (arith, get_elem?-at o o b bs refl)

bytes_from-agree :
    (n o : ℕ) (f g : ℕ → ℕ) → ((p : ℕ) → o ≤ p → f p ≡ g p) → bytes_from n o f ≡ bytes_from n o g
unfolding bytes_from
bytes_from-agree zero o f g h = refl
bytes_from-agree (suc n) o f g h =
    ap₂ ◌∷◌ (h o (omega arith)) (bytes_from-agree n (o + 1) f g (λ p l. h p (omega arith)))

bytes_from-written :
    (o : ℕ) (bs : List ℕ) (f : ℕ → ℕ) → bytes_from (length bs) o (written o bs f) ≡ bs
unfolding bytes_from
bytes_from-written o [] f = refl
bytes_from-written o (b ∷ bs) f =
    let g : ℕ → ℕ = λ p. if p == o then b else f p in
    ap₂ ◌∷◌ (written-head o b bs f) (
      bytes_from-agree (length bs) (o + 1) (written o (b ∷ bs) f) (written (o + 1) bs g)
        (λ p l. sym (written-cons o b bs f g p refl))
      ∙ bytes_from-written (o + 1) bs g)

module _ (drive : Drive) where
  open drive use {Disk, read, write, read-write}

  read_bytes-suc :
      (n o b : ℕ) (bs : List ℕ) (st st' st'' : Ide drive)
      → read_byte drive o st ≡ some (b, st')
      → read_bytes drive n (add32 o 1) st' ≡ some (bs, st'')
      → read_bytes drive (suc n) o st ≡ some (b ∷ bs, st'')
  unfolding read_bytes
  read_bytes-suc n o b bs st st' st'' d e = rw (read_bytes, d, e)

  write_bytes-cons :
      (o b : ℕ) (bs : List ℕ) (st st' : Ide drive) (r : Option (Ide drive))
      → write_byte drive o b st ≡ some st'
      → write_bytes drive (add32 o 1) bs st' ≡ r
      → write_bytes drive o (b ∷ bs) st ≡ r
  unfolding write_bytes
  write_bytes-cons o b bs st st' r d e = rw (write_bytes, d) e

  bytes_from-add32 :
      (n o : ℕ) (f : ℕ → ℕ)
      → o + suc n ≤ u32_mod
      → bytes_from n (add32 o 1) f ≡ bytes_from n (o + 1) f
  unfolding bytes_from
  bytes_from-add32 zero o f h = refl
  bytes_from-add32 (suc n) o f h = ap (λ x. bytes_from (suc n) x f) (ground (arith, add32))

  -- The loop for DEV_READ, with a cache in order and a request that ends within 2^32: the bytes are
  -- those that a client sees at the offsets, the cache stays in order, and no byte changes.
  pub read_bytes_lem :
      (n o : ℕ) (st : Ide drive)
      → IsCache drive st
      → o + n ≤ u32_mod
      → (st' : Ide drive) × (read_bytes drive n o st
          ≡ some (bytes_from n o (byte_at drive st), st'))
        × IsCache drive st'
        × ((p : ℕ) → byte_at drive st' p ≡ byte_at drive st p)
  unfolding read_bytes bytes_from
  read_bytes_lem zero o st v h = (st, refl, v, λ p. refl)
  read_bytes_lem (suc n) o st v h =
      let (st', one, v', same) = read_byte_lem drive st o v (omega arith) in
      let (st'', more, v'', same') = read_bytes_lem n (add32 o 1) st' v' (ground (arith, add32)) in
      (
        st'',
        read_bytes-suc n o (byte_at drive st o) (bytes_from n (o + 1) (byte_at drive st)) st st'
            st'' one
            (more
              ∙ ap (λ z. some (z, st''))
                  (bytes_from-add32 n o (byte_at drive st') h
                    ∙ ap (bytes_from n (o + 1)) (fun_ext same))),
        v'',
        λ p. same' p ∙ same p,
      )

  written-add32 :
      (o : ℕ) (bs : List ℕ) (f : ℕ → ℕ) (p : ℕ)
      → o + suc (length bs) ≤ u32_mod
      → written (add32 o 1) bs f p ≡ written (o + 1) bs f p
  written-add32 o [] f p h = written-nil (add32 o 1) f p ∙ sym (written-nil (o + 1) f p)
  written-add32 o (b ∷ bs) f p h = ap (λ x. written x (b ∷ bs) f p) (ground (arith, add32))

  -- The loop for DEV_WRITE, with a cache in order and a request that ends within 2^32: a client sees
  -- the bytes of the buffer at their offsets and what was there elsewhere, and the cache stays in
  -- order.
  pub write_bytes_lem :
      (o : ℕ) (bs : List ℕ) (st : Ide drive)
      → IsCache drive st
      → o + length bs ≤ u32_mod
      → (st' : Ide drive) × (write_bytes drive o bs st ≡ some st')
        × IsCache drive st'
        × ((p : ℕ) → byte_at drive st' p ≡ written o bs (byte_at drive st) p)
  unfolding write_bytes
  write_bytes_lem o [] st v h = (st, refl, v, λ p. sym (written-nil o (byte_at drive st) p))
  write_bytes_lem o (b ∷ bs) st v h =
      let (st', one, v', put) = write_byte_lem drive st o b v (omega arith) in
      let (st'', more, v'', puts) = write_bytes_lem (add32 o 1) bs st' v' (ground (arith, add32)) in
      (
        st'',
        write_bytes-cons o b bs st st' (some st'') one more,
        v'',
        λ p.
            puts p
            ∙ written-add32 o bs (byte_at drive st') p h
            ∙ written-cons o b bs (byte_at drive st) (byte_at drive st') p (put p),
      )

  -- With a cache in order, a DEV_READ after a DEV_WRITE at the same offset, within 2^32, returns the
  -- bytes that were written.
  pub read_bytes-write_bytes :
      (o : ℕ) (bs : List ℕ) (st : Ide drive)
      → IsCache drive st
      → o + length bs ≤ u32_mod
      → (st' st'' : Ide drive) × (write_bytes drive o bs st ≡ some st')
        × (read_bytes drive (length bs) o st' ≡ some (bs, st''))
  read_bytes-write_bytes o bs st v h =
      let (st', stores, v', puts) = write_bytes_lem o bs st v h in
      let (st'', result, _, _) = read_bytes_lem (length bs) o st' v' h in
      (
        st',
        st'',
        stores,
        result
            ∙ ap (λ z. some (z, st''))
                (ap (bytes_from (length bs) o) (fun_ext puts)
                  ∙ bytes_from-written o bs (byte_at drive st)),
      )
