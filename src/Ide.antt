-- ===== src/Ide.antt =====
-- kernel/drivers/ide.c: a cache of 127 sectors in front of the disk. The disk itself is hardware,
-- and a parameter.
pub mod View
pub mod Bytes
pub mod Transfer
pub mod Flush
use yinyang_os.Base.{
  ℕ, zero, suc, ◌+◌, ◌*◌, ◌/◌, ◌%◌, ◌^◌, ◌<◌, ◌≡◌, Bool, true, false, ◌&&◌, Option, none, some,
  List, [], ◌∷◌, if◌then◌else◌, ◌==◌, update, add32,
}
use Prim.Native.Nat.{bit_and, bit_or}

abbrev pub nr_sec_cache : ℕ
nr_sec_cache = 127

-- An ATA disk. `status` is what port 0x1F7 reads between commands; `read` and `write` are the data
-- of a READ SECTORS and a WRITE SECTORS command, by the byte, with the address in the registers.
pub record Drive : Type 1 where
  pub Disk : Type 0
  pub status : Disk → ℕ
  pub read : Disk → ℕ → ℕ → ℕ
  pub write : Disk → ℕ → (ℕ → ℕ) → Disk
  -- between commands the drive is ready and not busy
  pub ready : (d : Disk) → bit_and (status d) 0xC0 ≡ 0x40
  -- a sector that is written is read back, and the others stay
  pub read-write :
      (d : Disk) (s t : ℕ) (c : ℕ → ℕ) (i : ℕ)
      → i < 512
      → read (write d s c) t i ≡ (if t == s then c i else read d t i)

-- `struct SectorCache`
pub record SectorCache : Type 0 where
  pub sector : ℕ
  pub used : Bool
  pub dirty : Bool
  pub content : ℕ → ℕ

-- The address registers 3 to 6 that `ide_prepare` fills.
pub record Address : Type 0 where
  pub low : ℕ
  pub mid : ℕ
  pub high : ℕ
  pub top : ℕ

unfoldable pub ide_address : ℕ → Address
ide_address sector = record {
  low = sector % 256;
  mid = sector / 2 ^ 8 % 256;
  high = sector / 2 ^ 16 % 256;
  top = bit_or 0xE0 (sector / 2 ^ 24 % 256);
}

-- The 28-bit sector number that a drive takes from its registers in LBA mode.
unfoldable pub lba : Address → ℕ
lba a = a.low + a.mid * 2 ^ 8 + a.high * 2 ^ 16 + a.top % 16 * 2 ^ 24

module _ (drive : Drive) where
  open drive use {Disk, status, read, write}

  -- The driver's state: `cache` by the index of the slot, and the disk.
  pub record Ide : Type 0 where
    pub cache : ℕ → SectorCache
    pub disk : Disk

  -- `ide_prepare`: the address goes into the registers, unless the drive is not ready (`panic`).
  unfoldable pub ide_prepare : Disk → ℕ → Option ℕ
  ide_prepare d sector =
      if bit_and (status d) 0xC0 == 0x40 then some (lba (ide_address sector)) else none

  -- `ide_prepare(sector); do_write(content)`. `do_write` waits for the interrupt of the drive.
  unfoldable pub write_sector : Disk → ℕ → (ℕ → ℕ) → Option Disk
  write_sector d sector content = elim (ide_prepare d sector) [
    | none ↦ none
    | some a ↦ some (write d a content)
  ]

  -- `ide_prepare(sector); issue_read(); do_read(...)`
  unfoldable pub read_sector : Disk → ℕ → Option (ℕ → ℕ)
  read_sector d sector = elim (ide_prepare d sector) [ none ↦ none | some a ↦ some (read d a) ]

  -- A dirty slot goes back to the disk before it is used again.
  unfoldable pub evict : Ide → SectorCache → Option Disk
  evict st e = if e.used && e.dirty then write_sector st.disk e.sector e.content else some st.disk

  -- The branch of `cache_fetch` on a miss.
  unfoldable pub load_sector : ℕ → Ide → Option Ide
  load_sector sector st =
      let slot = sector % nr_sec_cache in
      elim (evict st (st.cache slot)) [
        | none ↦ none
        | some d ↦ elim (read_sector d sector) [
          | none ↦ none
          | some bytes ↦ some (record {
            cache =
                update st.cache slot
                  (record { sector = sector; used = true; dirty = false; content = bytes });
            disk = d;
          })
        ]
      ]

  -- `cache_fetch(sector)`; the slot is `sector % NR_SEC_CACHE`.
  unfoldable pub cache_fetch : ℕ → Ide → Option Ide
  cache_fetch sector st =
      let e = st.cache (sector % nr_sec_cache) in
      let miss = load_sector sector st in if e.used && (e.sector == sector) then some st else miss

  unfoldable pub read_byte : ℕ → Ide → Option (ℕ × Ide)
  read_byte offset st = elim (cache_fetch (offset / 512) st) [
    | none ↦ none
    | some st' ↦ some ((st'.cache (offset / 512 % nr_sec_cache)).content (offset % 512), st')
  ]

  unfoldable pub write_byte : ℕ → ℕ → Ide → Option Ide
  write_byte offset byte st = elim (cache_fetch (offset / 512) st) [
    | none ↦ none
    | some st' ↦
        (let slot = offset / 512 % nr_sec_cache in
          let e = st'.cache slot in
          some (record st' {
            cache =
                update st'.cache slot
                  (record e { content = update e.content (offset % 512) byte; dirty = true });
          }))
  ]

  -- The loop of the thread for `DEV_READ`: the bytes that it copies to the buffer of the client.
  unfoldable pub read_bytes : (length : ℕ) → ℕ → Ide → Option (List ℕ × Ide)
  read_bytes zero offset st = some ([], st)
  read_bytes (suc n) offset st = elim (read_byte offset st) [
    | none ↦ none
    | some (b, st') ↦ elim (read_bytes n (add32 offset 1) st') [
      | none ↦ none
      | some (bs, st'') ↦ some (b ∷ bs, st'')
    ]
  ]

  -- The loop for `DEV_WRITE`, over the bytes copied from the buffer of the client.
  unfoldable pub write_bytes : ℕ → List ℕ → Ide → Option Ide
  write_bytes offset [] st = some st
  write_bytes offset (b ∷ bs) st = elim (write_byte offset b st) [
    | none ↦ none
    | some st' ↦ write_bytes (add32 offset 1) bs st'
  ]

  -- The body of the loop for `IDE_WRITEBACK`.
  unfoldable pub flush : ℕ → Ide → Option Ide
  flush i st =
      let e = st.cache i in
      if e.dirty
      then elim (write_sector st.disk e.sector e.content) [
        | none ↦ none
        | some d ↦
            some (record { cache = update st.cache i (record e { dirty = false }); disk = d })
      ]
      else some st

  -- The loop, from slot `i` on, for the rounds that are left.
  unfoldable pub write_back_from : (rounds : ℕ) → ℕ → Ide → Option Ide
  write_back_from zero i st = some st
  write_back_from (suc k) i st = elim (flush i st) [
    | none ↦ none
    | some st' ↦ write_back_from k (i + 1) st'
  ]

  unfoldable pub write_back : Ide → Option Ide
  write_back st = write_back_from nr_sec_cache 0 st

  -- `cache_init`
  unfoldable pub cache_init : Ide → Ide
  cache_init st = record st { cache = λ i. record (st.cache i) { used = false } }
