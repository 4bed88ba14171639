-- ===== src/Ide/View.antt =====
-- What the driver of kernel/drivers/ide.c presents: the bytes of the disk, with the writes that are
-- still in the cache.
use Prim.Native.Nat.{bit_or}
use yinyang_os.Base.{
  ℕ, ◌/◌, ◌%◌, ◌^◌, ◌<◌, ◌≡◌, refl, true, false, ◌&&◌, some, if◌then◌else◌, ◌==◌, update, arith,
  ==_iff, Bool-cases, ap, below_sound, inl, inr, below,
}
use yinyang_os.Ide.{
  Drive, Ide, SectorCache, lba, ide_prepare, write_sector, read_sector, evict, load_sector,
  cache_fetch, ide_address, nr_sec_cache, flush,
}

-- The sectors that 28 bits name. An offset in bytes has 32 bits, and its sector 23.
abbrev pub sectors : ℕ
sectors = 2 ^ 28

top_bits : (x : ℕ) → x < 16 → bit_or 0xE0 x % 16 ≡ x
unfolding below
top_bits x h = (==_iff _ x).0 (below_sound 16 (λ y. bit_or 0xE0 y % 16 == y) x refl h)

pub lba-ide_address : (sector : ℕ) → sector < sectors → lba (ide_address sector) ≡ sector
unfolding lba ide_address
lba-ide_address s h = omega (arith, top_bits (s / 2 ^ 24 % 256) (omega arith))

module _ (drive : Drive) where
  open drive use {Disk, status, read, write, ready, read-write}

  -- The byte `k` of a sector, as a client sees it.
  abbrev pub sector_at : Ide drive → ℕ → ℕ → ℕ
  sector_at st s k =
      let e = st.cache (s % nr_sec_cache) in
      if e.used && (e.sector == s) then e.content k else read st.disk s k

  pub record IsCache (st : Ide drive) : Type 0 where
    pub home :
        (i : ℕ)
        → i < nr_sec_cache
        → (st.cache i).used ≡ true
        → (st.cache i).sector % nr_sec_cache ≡ i
    pub small :
        (i : ℕ) → i < nr_sec_cache → (st.cache i).used ≡ true → (st.cache i).sector < sectors
    pub marked : (i : ℕ) → i < nr_sec_cache → (st.cache i).dirty ≡ true → (st.cache i).used ≡ true
    pub clean :
        (i k : ℕ)
        → i < nr_sec_cache
        → (st.cache i).used ≡ true
        → (st.cache i).dirty ≡ false
        → k < 512
        → (st.cache i).content k ≡ read st.disk (st.cache i).sector k

  ide_prepare-some : (d : Disk) (s : ℕ) → s < sectors → ide_prepare drive d s ≡ some s
  unfolding ide_prepare
  ide_prepare-some d s h = rw (ready d) (ap some (lba-ide_address s h))

  pub write_sector-some :
      (d : Disk) (s : ℕ) (c : ℕ → ℕ) → s < sectors → write_sector drive d s c ≡ some (write d s c)
  unfolding write_sector
  write_sector-some d s c h = rw (ide_prepare-some d s h, write_sector)

  read_sector-some : (d : Disk) (s : ℕ) → s < sectors → read_sector drive d s ≡ some (read d s)
  unfolding read_sector
  read_sector-some d s h = rw (ide_prepare-some d s h, read_sector)

  -- What the disk holds when slot `e` has been given up.
  evicted : Disk → SectorCache → Disk
  evicted d e = if e.used && e.dirty then write d e.sector e.content else d

  evict-some :
      (st : Ide drive) (e : SectorCache)
      → (e.used ≡ true → e.sector < sectors)
      → evict drive st e ≡ some (evicted st.disk e)
  unfolding evict evicted
  evict-some st e h = elim (Bool-cases (e.used && e.dirty)) [
    | inl flush ↦ rw (flush, write_sector-some st.disk e.sector e.content (h (ground arith)))
    | inr keep ↦ rw keep
  ]

  read-evicted :
      (d : Disk) (e : SectorCache) (t k : ℕ)
      → k < 512
      → read (evicted d e) t k
        ≡ (if e.used && e.dirty && (t == e.sector) then e.content k else read d t k)
  unfolding evicted
  read-evicted d e t k h = ground (arith, read-write d e.sector t e.content k h)

  -- The state after a miss.
  loaded : ℕ → Ide drive → Ide drive
  loaded s st =
      let slot = s % nr_sec_cache in
      let d = evicted st.disk (st.cache slot) in
      record {
        cache =
            update st.cache slot
              (record { sector = s; used = true; dirty = false; content = read d s });
        disk = d;
      }

  load_sector-some :
      (s : ℕ) (st : Ide drive)
      → s < sectors
      → ((st.cache (s % nr_sec_cache)).used ≡ true → (st.cache (s % nr_sec_cache)).sector < sectors)
      → load_sector drive s st ≡ some (loaded s st)
  unfolding load_sector loaded
  load_sector-some s st h k = rw (
    evict-some st (st.cache (s % nr_sec_cache)) k,
    read_sector-some (evicted st.disk (st.cache (s % nr_sec_cache))) s h,
    load_sector,
  )

  -- A miss leaves what a client sees as it was.
  loaded_view :
      (s : ℕ) (st : Ide drive) (t k : ℕ)
      → IsCache st
      → (st.cache (s % nr_sec_cache)).used && ((st.cache (s % nr_sec_cache)).sector == s) ≡ false
      → k < 512
      → sector_at (loaded s st) t k ≡ sector_at st t k
  unfolding loaded
  loaded_view s st t k v miss h = ground (
    arith,
    read-evicted st.disk (st.cache (s % nr_sec_cache)) t k h,
    read-evicted st.disk (st.cache (s % nr_sec_cache)) s k h,
    v.home (s % nr_sec_cache),
    v.marked (s % nr_sec_cache),
    v.clean (s % nr_sec_cache) k,
  )

  loaded-IsCache : (s : ℕ) (st : Ide drive) → IsCache st → s < sectors → IsCache (loaded s st)
  unfolding loaded
  loaded-IsCache s st v h = record {
    home = λ i l. ground (arith, v.home i);
    small = λ i l. ground (arith, v.small i);
    marked = λ i l. ground (arith, v.marked i);
    clean = λ i k l u c b. ground (
      arith,
      v.clean i k,
      v.home i,
      v.home (s % nr_sec_cache),
      read-evicted st.disk (st.cache (s % nr_sec_cache)) (st.cache i).sector k b,
    );
  }

  loaded-slot :
      (s : ℕ) (st : Ide drive)
      → (((loaded s st).cache (s % nr_sec_cache)).used ≡ true)
        × (((loaded s st).cache (s % nr_sec_cache)).sector ≡ s)
  unfolding loaded
  loaded-slot s st = (ground arith, ground arith)

  -- `cache_fetch` succeeds, its slot then holds the sector, and a client sees what it saw.
  pub record Fetches (s : ℕ) (st st' : Ide drive) : Type 0 where
    pub result : cache_fetch drive s st ≡ some st'
    pub cache_ok : IsCache st'
    pub in_use : (st'.cache (s % nr_sec_cache)).used ≡ true
    pub holds : (st'.cache (s % nr_sec_cache)).sector ≡ s
    pub view : (t k : ℕ) → k < 512 → sector_at st' t k ≡ sector_at st t k

  pub cache_fetch_lem :
      (s : ℕ) (st : Ide drive) → IsCache st → s < sectors → (st' : Ide drive) × Fetches s st st'
  unfolding cache_fetch
  cache_fetch_lem s st v h =
      elim (Bool-cases
        ((st.cache (s % nr_sec_cache)).used && ((st.cache (s % nr_sec_cache)).sector == s))) [
          | inl hit ↦ (
            st,
            record {
              result = rw (hit, cache_fetch);
              cache_ok = v;
              in_use = ground arith;
              holds = ground arith;
              view = λ t k _. refl;
            },
          )
          | inr miss ↦ (
            loaded s st,
            record {
              result =
                  rw (miss, load_sector-some s st h (v.small (s % nr_sec_cache) (omega arith)));
              cache_ok = loaded-IsCache s st v h;
              in_use = (loaded-slot s st).0;
              holds = (loaded-slot s st).1;
              view = λ t k. loaded_view s st t k v miss;
            },
          )
        ]
