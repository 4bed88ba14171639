-- ===== src/Ide/Flush.antt =====
-- The periodic write-back of kernel/drivers/ide.c, and the start of the cache.
use yinyang_os.Base.{
  Bool-cases, arith, false, inl, inr, refl, some, true, update, ℕ, ◌%◌, ◌/◌, ◌<◌, ◌≡◌, Option, suc,
  zero, ◌+◌, ◌∙◌, ◌≤◌, ==_iff, ◌==◌,
}
use yinyang_os.Ide.{Drive, Ide, flush, nr_sec_cache, cache_init, write_back, write_back_from}
use yinyang_os.Ide.Bytes.{byte_at, disk_at}
use yinyang_os.Ide.View.{IsCache, sectors, write_sector-some}

module _ (drive : Drive) where
  open drive use {Disk, read, write, read-write}

  -- What one round leaves: the cache in order, the view of a client, no slot made dirty, and the
  -- slot of the round clean.
  record Flushes (i : ℕ) (st st' : Ide drive) : Type 0 where
    result : flush drive i st ≡ some st'
    cache_ok : IsCache drive st'
    view : (p : ℕ) → byte_at drive st' p ≡ byte_at drive st p
    clean_now : (st'.cache i).dirty ≡ false
    clean_still : (j : ℕ) → (st.cache j).dirty ≡ false → (st'.cache j).dirty ≡ false

  flushed : ℕ → Ide drive → Ide drive
  flushed i st =
      let e = st.cache i in
      record {
        cache = update st.cache i (record e { dirty = false });
        disk = write st.disk e.sector e.content;
      }

  flush-dirty :
      (i : ℕ) (st : Ide drive)
      → (st.cache i).dirty ≡ true
      → (st.cache i).sector < sectors
      → flush drive i st ≡ some (flushed i st)
  unfolding flush flushed
  flush-dirty i st d h =
      rw (flush, d, write_sector-some drive st.disk (st.cache i).sector (st.cache i).content h)

  flush-clean : (i : ℕ) (st : Ide drive) → (st.cache i).dirty ≡ false → flush drive i st ≡ some st
  unfolding flush
  flush-clean i st d = rw (flush, d)

  flushed-IsCache :
      (i : ℕ) (st : Ide drive)
      → IsCache drive st
      → i < nr_sec_cache
      → (st.cache i).dirty ≡ true
      → IsCache drive (flushed i st)
  unfolding flushed
  flushed-IsCache i st v h d = record {
    home = λ j l. ground (arith, v.home j);
    small = λ j l. ground (arith, v.small j);
    marked = λ j l. ground (arith, v.marked j);
    clean = λ j k l w c m. ground (
      arith,
      v.clean j k,
      v.home j,
      v.home i,
      v.marked i,
      read-write st.disk (st.cache i).sector (st.cache j).sector (st.cache i).content k m,
    );
  }

  flushed_view :
      (i : ℕ) (st : Ide drive) (p : ℕ)
      → IsCache drive st
      → i < nr_sec_cache
      → (st.cache i).dirty ≡ true
      → byte_at drive (flushed i st) p ≡ byte_at drive st p
  unfolding flushed byte_at
  flushed_view i st p v h d = ground (
    arith,
    v.home i,
    v.marked i,
    read-write st.disk (st.cache i).sector (p / 512) (st.cache i).content (p % 512) (omega arith),
  )

  flushed-dirty :
      (i : ℕ) (st : Ide drive)
      → (((flushed i st).cache i).dirty ≡ false)
        × ((j : ℕ) → (st.cache j).dirty ≡ false → ((flushed i st).cache j).dirty ≡ false)
  unfolding flushed
  flushed-dirty i st = (ground arith, λ j c. ground arith)

  flush_lem :
      (i : ℕ) (st : Ide drive)
      → IsCache drive st
      → i < nr_sec_cache
      → (st' : Ide drive) × Flushes i st st'
  flush_lem i st v h = elim (Bool-cases (st.cache i).dirty) [
    | inl d ↦ (
      flushed i st,
      record {
        result = flush-dirty i st d (v.small i h (v.marked i h d));
        cache_ok = flushed-IsCache i st v h d;
        view = λ p. flushed_view i st p v h d;
        clean_now = (flushed-dirty i st).0;
        clean_still = (flushed-dirty i st).1;
      },
    )
    | inr d ↦ (
      st,
      record {
        result = flush-clean i st d;
        cache_ok = v;
        view = λ p. refl;
        clean_now = d;
        clean_still = λ j e. e;
      },
    )
  ]

  write_back_from-suc :
      (k i : ℕ) (st st' : Ide drive) (r : Option (Ide drive))
      → flush drive i st ≡ some st'
      → write_back_from drive k (i + 1) st' ≡ r
      → write_back_from drive (suc k) i st ≡ r
  unfolding write_back_from
  write_back_from-suc k i st st' r d e = rw (write_back_from, d) e

  upto :
      (i : ℕ) (st st' : Ide drive)
      → Flushes i st st'
      → ((j : ℕ) → j < i → (st.cache j).dirty ≡ false)
      → (j : ℕ) → j < i + 1
      → (st'.cache j).dirty ≡ false
  upto i st st' f c j l = elim (Bool-cases (j == i)) [
    | inl e ↦ rw ((==_iff j i).0 e) f.clean_now
    | inr n ↦ f.clean_still j (c j (ground arith))
  ]

  write_back_from_lem :
      (k i : ℕ) (st : Ide drive)
      → IsCache drive st
      → i + k ≤ nr_sec_cache
      → ((j : ℕ) → j < i → (st.cache j).dirty ≡ false)
      → (st' : Ide drive) × (write_back_from drive k i st ≡ some st')
        × IsCache drive st'
        × ((p : ℕ) → byte_at drive st' p ≡ byte_at drive st p)
        × ((j : ℕ) → j < i + k → (st'.cache j).dirty ≡ false)
  unfolding write_back_from
  write_back_from_lem zero i st v h c = (st, refl, v, λ p. refl, λ j l. c j (omega arith))
  write_back_from_lem (suc k) i st v h c =
      let (st', f) = flush_lem i st v (omega arith) in
      let (st'', more, v'', view'', clean'') =
        write_back_from_lem k (i + 1) st' f.cache_ok (omega arith) (λ j l. upto i st st' f c j l) in
      (
        st'',
        write_back_from-suc k i st st' (some st'') f.result more,
        v'',
        λ p. view'' p ∙ f.view p,
        λ j l. clean'' j (omega arith),
      )

  -- A slot that is not dirty holds what the disk holds, so without dirty slots the disk is the view.
  settled :
      (st : Ide drive) (p : ℕ)
      → IsCache drive st
      → ((j : ℕ) → j < nr_sec_cache → (st.cache j).dirty ≡ false)
      → disk_at drive st p ≡ byte_at drive st p
  unfolding disk_at byte_at
  settled st p v c =
      ground (
        arith,
        c (p / 512 % nr_sec_cache) (omega arith),
        v.clean (p / 512 % nr_sec_cache) (p % 512),
      )

  -- The write-back, with a cache in order: no byte changes for a client, the cache stays in order,
  -- and every byte of the disk is then the byte that a client sees.
  pub write_back_lem :
      (st : Ide drive)
      → IsCache drive st
      → (st' : Ide drive) × (write_back drive st ≡ some st')
        × IsCache drive st'
        × ((p : ℕ) → byte_at drive st' p ≡ byte_at drive st p)
        × ((p : ℕ) → disk_at drive st' p ≡ byte_at drive st p)
  unfolding write_back
  write_back_lem st v =
      let (st', result, v', view, clean) =
        write_back_from_lem nr_sec_cache 0 st v (omega arith) (λ j l. ground arith) in
      (st', result, v', view, λ p. settled st' p v' clean ∙ view p)

  -- `cache_init`, with no dirty slot, leaves a cache in order whose view is the disk.
  pub cache_init_lem :
      (st : Ide drive) (p : ℕ)
      → ((j : ℕ) → j < nr_sec_cache → (st.cache j).dirty ≡ false)
      → IsCache drive (cache_init drive st)
        × (byte_at drive (cache_init drive st) p ≡ disk_at drive st p)
  unfolding cache_init byte_at disk_at
  cache_init_lem st p c = (
    record {
      home = λ j l u. ground arith;
      small = λ j l u. ground arith;
      marked = λ j l d. ground (arith, c j);
      clean = λ j k l u d m. ground arith;
    },
    refl,
  )
