-- ===== src/Ide/Bytes.antt =====
-- The operations of kernel/drivers/ide.c on bytes: `read_byte`, `write_byte`, the loops of the
-- thread, the write-back, `cache_init`.
use yinyang_os.Base.{arith, some, u32_mod, ℕ, ◌%◌, ◌/◌, ◌<◌, ◌≡◌, if◌then◌else◌, true, update, ◌==◌}
use yinyang_os.Ide.{Drive, Ide, nr_sec_cache, read_byte, write_byte}
use yinyang_os.Ide.View.{Fetches, IsCache, cache_fetch_lem, sector_at}

module _ (drive : Drive) where
  open drive use {Disk, read, write, read-write}

  -- The byte at an offset, as a client sees it, and as the disk has it.
  unfoldable pub byte_at : Ide drive → ℕ → ℕ
  byte_at st o = sector_at drive st (o / 512) (o % 512)

  unfoldable pub disk_at : Ide drive → ℕ → ℕ
  disk_at st o = read st.disk (o / 512) (o % 512)

  fetch_slot :
      (st st' : Ide drive) (o : ℕ)
      → Fetches drive (o / 512) st st'
      → (st'.cache (o / 512 % nr_sec_cache)).content (o % 512) ≡ byte_at st o
  unfolding byte_at
  fetch_slot st st' o f = ground (arith, f.view (o / 512) (o % 512), f.in_use, f.holds)

  read_byte-some :
      (st st' : Ide drive) (o : ℕ)
      → Fetches drive (o / 512) st st'
      → read_byte drive o st ≡ some (byte_at st o, st')
  unfolding read_byte
  read_byte-some st st' o f = rw (f.result, read_byte, fetch_slot st st' o f)

  -- `read_byte`, at an offset of 32 bits, with a cache in order: the byte is what a client sees
  -- there, the cache stays in order, and no byte changes.
  pub read_byte_lem :
      (st : Ide drive) (o : ℕ)
      → IsCache drive st
      → o < u32_mod
      → (st' : Ide drive) × (read_byte drive o st ≡ some (byte_at st o, st'))
        × IsCache drive st'
        × ((p : ℕ) → byte_at st' p ≡ byte_at st p)
  unfolding byte_at
  read_byte_lem st o v h =
      let (st', f) = cache_fetch_lem drive (o / 512) st v (omega arith) in
      (st', read_byte-some st st' o f, f.cache_ok, λ p. f.view (p / 512) (p % 512) (omega arith))

  -- The state after a byte is stored in the slot of its sector.
  stored : ℕ → ℕ → Ide drive → Ide drive
  stored o b st =
      let slot = o / 512 % nr_sec_cache in
      let e = st.cache slot in
      record st {
        cache =
            update st.cache slot
              (record e { content = update e.content (o % 512) b; dirty = true });
      }

  stored-IsCache :
      (st : Ide drive) (o b : ℕ)
      → IsCache drive st
      → (st.cache (o / 512 % nr_sec_cache)).used ≡ true
      → IsCache drive (stored o b st)
  unfolding stored
  stored-IsCache st o b v u = record {
    home = λ i l. ground (arith, v.home i);
    small = λ i l. ground (arith, v.small i);
    marked = λ i l. ground (arith, v.marked i);
    clean = λ i k l w c m. ground (arith, v.clean i k);
  }

  stored_view :
      (st st' : Ide drive) (o b p : ℕ)
      → Fetches drive (o / 512) st st'
      → byte_at (stored o b st') p ≡ (if p == o then b else byte_at st p)
  unfolding stored byte_at
  stored_view st st' o b p f =
      ground (arith, f.view (p / 512) (p % 512) (omega arith), f.in_use, f.holds)

  write_byte-some :
      (st st' : Ide drive) (o b : ℕ)
      → Fetches drive (o / 512) st st'
      → write_byte drive o b st ≡ some (stored o b st')
  unfolding write_byte stored
  write_byte-some st st' o b f = rw (f.result, write_byte)

  -- `write_byte`, at an offset of 32 bits, with a cache in order: the byte at the offset changes,
  -- every other byte stays, and the cache stays in order.
  pub write_byte_lem :
      (st : Ide drive) (o b : ℕ)
      → IsCache drive st
      → o < u32_mod
      → (st' : Ide drive) × (write_byte drive o b st ≡ some st')
        × IsCache drive st'
        × ((p : ℕ) → byte_at st' p ≡ (if p == o then b else byte_at st p))
  write_byte_lem st o b v h =
      let (st', f) = cache_fetch_lem drive (o / 512) st v (omega arith) in
      (
        stored o b st',
        write_byte-some st st' o b f,
        stored-IsCache st' o b f.cache_ok f.in_use,
        λ p. stored_view st st' o b p f,
      )
