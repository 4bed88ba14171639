-- ===== src/Memory.antt =====
-- The memory manager, kernel/mm.c and kernel/memory/util.c: which pages of the user memory are
-- taken, and the page directories and tables that it writes. The manager runs where an address
-- below 128 MB is the physical one; a page directory is given by its physical address.
pub mod Words
pub mod Frames
pub mod Allocate
pub mod Copy
pub mod Space
pub mod Ends
pub mod Identity
use yinyang_os.Base.{
  Bool, Option, if◌then◌else◌, leb, ltb, none, some, suc, update, zero, ℕ, ◌%◌, ◌*◌, ◌+◌, ◌-◌, ◌/◌,
  ◌==◌, ◌^◌, sub32, true, false,
}
use yinyang_os.Paging.{Ram, frame_of, nr_pte_entry, page_size, read32}

-- The memory, and `Ppage_flag`.
pub record Store : Type 0 where
  pub ram : Ram
  pub flags : ℕ → ℕ

-- A computation that may panic, or ask for more rounds of its loop than it has.
pub data Run {ℓ} (A : Type ℓ) : Type ℓ where
  panicked unfinished : Run A
  finished : A → Run A

abbrev pub user_mem_low : ℕ
user_mem_low = 16 * 1024 * 1024

abbrev pub nr_ppage_entry : ℕ
nr_ppage_entry = 28672

-- Lines 66 to 71.
unfoldable pub init_mm : Store → Store
init_mm s = record s { flags = λ i. if ltb i nr_ppage_entry then 0 else s.flags i }

unfoldable pub id_to_pa : ℕ → ℕ
id_to_pa id = user_mem_low + id * page_size

unfoldable pub pa_to_id : ℕ → ℕ
pa_to_id pa = sub32 pa user_mem_low / page_size

-- The loop of `count_empty_page`, for the `left` flags from `i` on.
unfoldable pub count_from : (left i : ℕ) → (ℕ → ℕ) → ℕ
count_from zero i flags = 0
count_from (suc left) i flags =
    let rest = count_from left (i + 1) flags in if flags i == 0 then rest + 1 else rest

unfoldable pub count_empty_page : Store → ℕ
count_empty_page s = count_from nr_ppage_entry 0 s.flags

-- The loop of `allocate_memory`, for the `left` flags from `i` on.
unfoldable pub find_page : (left i : ℕ) → (ℕ → ℕ) → Option ℕ
find_page zero i flags = none
find_page (suc left) i flags =
    let rest = find_page left (i + 1) flags in if flags i == 0 then some i else rest

unfoldable pub allocate_memory : Store → Run (ℕ × Store)
allocate_memory s = elim (find_page nr_ppage_entry 0 s.flags) [
  | none ↦ panicked
  | some i ↦ finished (id_to_pa i, record s { flags = update s.flags i 1 })
]

-- `-- Ppage_flag[...]` on a byte. Past the end of the array it is a byte behind it.
unfoldable pub free_memory : (addr : ℕ) → Store → Store
free_memory addr s =
    let i = pa_to_id addr in record s { flags = update s.flags i ((s.flags i + 255) % 256) }

unfoldable pub share_memory : (addr : ℕ) → Store → Store
share_memory addr s =
    let i = pa_to_id addr in record s { flags = update s.flags i ((s.flags i + 1) % 256) }

-- The loop of `copy_memory` from byte `i` on.
unfoldable pub copy_bytes : (left i src dest : ℕ) → Ram → Ram
copy_bytes zero i src dest m = m
copy_bytes (suc left) i src dest m =
    copy_bytes left (i + 1) src dest (update m (dest + i) (m (src + i)))

unfoldable pub copy_memory : (src dest : ℕ) → Store → Store
copy_memory src dest s = record s { ram = copy_bytes page_size 0 src dest s.ram }

-- A 32-bit word to memory, the lowest byte first.
unfoldable pub write32 : Ram → (a w : ℕ) → Ram
write32 m a w =
    update
      (update (update (update m a (w % 256)) (a + 1) (w / 2 ^ 8 % 256)) (a + 2) (w / 2 ^ 16 % 256))
      (a + 3) (w / 2 ^ 24 % 256)

-- `Page_Directory_Fault` and `Page_Table_Fault`: bit 0 of an entry is `present`.
unfoldable pub is_fault : (p : ℕ) → Store → Bool
is_fault p s = read32 s.ram p % 2 == 0

-- The frame in an entry, with the bits `present`, `read_write` and `user_supervisor`.
unfoldable pub entry_word : (addr : ℕ) → ℕ
entry_word addr = addr / page_size % 2 ^ 20 * page_size + 7

-- `make_pde` and `make_pte`.
unfoldable pub make_entry : (p addr : ℕ) → Store → Store
make_entry p addr s = record s { ram = write32 s.ram p (entry_word addr) }

-- `make_invalid_pde` and `make_invalid_pte`.
unfoldable pub make_invalid : (p : ℕ) → Store → Store
make_invalid p s = record s { ram = write32 s.ram p 0 }

-- The address of the frame in the entry at `p`.
unfoldable pub entry_frame : (p : ℕ) → Store → ℕ
entry_frame p s = frame_of (read32 s.ram p)

-- Lines 178 to 183: `left` entries from `p` on become invalid.
unfoldable pub clear_entries : (left p : ℕ) → Store → Store
clear_entries zero p s = s
clear_entries (suc left) p s = clear_entries left (p + 4) (make_invalid p s)

-- Lines 172 to 186: the page table for the directory's entry at `p`, a new one where there is none.
unfoldable pub table_for : (p : ℕ) → Store → Run (ℕ × Store)
table_for p s =
    let fresh : Run (ℕ × Store) = elim (allocate_memory s) [
      | panicked ↦ panicked
      | unfinished ↦ unfinished
      | finished (addr, s') ↦
          finished (addr, clear_entries nr_pte_entry addr (make_entry p addr s'))
    ] in
    if is_fault p s then fresh else finished (entry_frame p s, s)

-- Lines 192 to 195.
unfoldable pub map_page : (p : ℕ) → Store → Run Store
map_page p s =
    let mapped : Run Store = elim (allocate_memory s) [
      | panicked ↦ panicked
      | unfinished ↦ unfinished
      | finished (addr, s') ↦ finished (make_entry p addr s')
    ] in
    if is_fault p s then mapped else panicked

-- The inner loop, lines 190 to 199, for the `left` entries from `p` on: the length that is left.
unfoldable pub map_pages : (left p length : ℕ) → Store → Run (ℕ × Store)
map_pages zero p length s = finished (length, s)
map_pages (suc left) p length s = elim (map_page p s) [
  | panicked ↦ panicked
  | unfinished ↦ unfinished
  | finished s' ↦
      let rest = map_pages left (p + 4) (length - 1) s' in
      if length == 1 then finished (0, s') else rest
]

-- The outer loop, lines 170 to 202.
unfoldable pub allocate_loop : (fuel pdir pde pte length : ℕ) → Store → Run Store
allocate_loop zero pdir pde pte length s = unfinished
allocate_loop (suc fuel) pdir pde pte zero s = finished s
allocate_loop (suc fuel) pdir pde pte (suc n) s = elim (table_for (pdir + 4 * pde) s) [
  | panicked ↦ panicked
  | unfinished ↦ unfinished
  | finished (pent, s1) ↦ elim (map_pages (nr_pte_entry - pte) (pent + 4 * pte) (suc n) s1) [
    | panicked ↦ panicked
    | unfinished ↦ unfinished
    | finished (length, s2) ↦ allocate_loop fuel pdir (pde + 1) 0 length s2
  ]
]

-- Every round maps a page, so that one round for each and one to leave are enough.
unfoldable pub allocate_page : (pdir start length : ℕ) → Store → Run Store
allocate_page pdir start length s =
    allocate_loop (length + 1) pdir (start / 2 ^ 22) (start / 2 ^ 12 % nr_pte_entry) length s
