-- ===== src/Memory/Space.antt =====
-- Whole address spaces, kernel/mm.c: `exec_page`, `exit_page`, `copy_page`, `free_page` and
-- `init_user_page`.
use yinyang_os.Base.{
  Bool, if◌then◌else◌, suc, zero, ℕ, ◌%◌, ◌*◌, ◌+◌, ◌-◌, ◌/◌, ◌==◌, ◌^◌, true, ◌&&◌,
}
use yinyang_os.Paging.{nr_pte_entry, page_size}
use yinyang_os.Memory.{
  Run, Store, allocate_memory, allocate_page, clear_entries, copy_memory, entry_frame, finished,
  free_memory, is_fault, make_entry, make_invalid, panicked, share_memory, unfinished,
}

-- Lines 223 to 227: the pages of the `left` entries from `p` on are freed.
unfoldable pub free_pages : (left p : ℕ) → Store → Store
free_pages zero p s = s
free_pages (suc left) p s =
    free_pages left (p + 4) (if is_fault p s then s else free_memory (entry_frame p s) s)

-- Lines 219 to 231, and 252 to 264.
unfoldable pub drop_table : (p : ℕ) → Store → Store
drop_table p s =
    let s' = free_pages nr_pte_entry (entry_frame p s) s in
    if is_fault p s then s else make_invalid p (free_memory (entry_frame p s') s')

unfoldable pub drop_tables : (left p : ℕ) → Store → Store
drop_tables zero p s = s
drop_tables (suc left) p s = drop_tables left (p + 4) (drop_table p s)

-- The entries of a directory for the user space, up to 3 GB.
abbrev pub nr_user_pde : ℕ
nr_user_pde = 768

abbrev pub koffset : ℕ
koffset = 3 * 2 ^ 30

unfoldable pub exec_page : (pdir : ℕ) → Store → Run Store
exec_page pdir s = allocate_page pdir (koffset - 1) 1 (drop_tables nr_user_pde pdir s)

unfoldable pub exit_page : (pdir : ℕ) → Store → Store
exit_page pdir s = drop_tables 1024 pdir s

-- Lines 309 to 317: the entry at `src` of a table, for the entry at `dest` of another.
unfoldable pub copy_entry : (src dest : ℕ) → Store → Run Store
copy_entry src dest s =
    let copied : Run Store = elim (allocate_memory s) [
      | panicked ↦ panicked
      | unfinished ↦ unfinished
      | finished (addr, s') ↦
          let s'' = make_entry dest addr s' in finished (copy_memory (entry_frame src s'') addr s'')
    ] in
    if is_fault src s then finished (make_invalid dest s) else copied

unfoldable pub copy_entries : (left src dest : ℕ) → Store → Run Store
copy_entries zero src dest s = finished s
copy_entries (suc left) src dest s = elim (copy_entry src dest s) [
  | panicked ↦ panicked
  | unfinished ↦ unfinished
  | finished s' ↦ copy_entries left (src + 4) (dest + 4) s'
]

-- Lines 301 to 320: the entry at `src` of a directory, for the entry at `dest` of another.
unfoldable pub copy_table : (src dest : ℕ) → Store → Run Store
copy_table src dest s =
    let pent_source = entry_frame src s in
    let copied : Run Store = elim (allocate_memory s) [
      | panicked ↦ panicked
      | unfinished ↦ unfinished
      | finished (addr, s') ↦ copy_entries nr_pte_entry pent_source addr (make_entry dest addr s')
    ] in
    if is_fault src s then finished (make_invalid dest s) else copied

unfoldable pub copy_tables : (left src dest : ℕ) → Store → Run Store
copy_tables zero src dest s = finished s
copy_tables (suc left) src dest s = elim (copy_table src dest s) [
  | panicked ↦ panicked
  | unfinished ↦ unfinished
  | finished s' ↦ copy_tables left (src + 4) (dest + 4) s'
]

-- Lines 324 to 331.
unfoldable pub share_table : (src dest : ℕ) → Store → Store
share_table src dest s =
    let s' = make_entry dest (entry_frame src s) s in
    if is_fault src s then make_invalid dest s else share_memory (entry_frame src s') s'

unfoldable pub share_tables : (left src dest : ℕ) → Store → Store
share_tables zero src dest s = s
share_tables (suc left) src dest s = share_tables left (src + 4) (dest + 4) (share_table src dest s)

-- `copy_page` from the directory at `src` to the one at `dest`: the base that it saves in the
-- target's CR3, and the store.
unfoldable pub copy_page : (src dest : ℕ) → Store → Run (ℕ × Store)
copy_page src dest s = elim (copy_tables nr_user_pde src dest s) [
  | panicked ↦ panicked
  | unfinished ↦ unfinished
  | finished s' ↦ finished (
    dest / page_size,
    share_tables (1024 - nr_user_pde) (src + 4 * nr_user_pde) (dest + 4 * nr_user_pde) s',
  )
]

-- Lines 367 to 372, and 386 to 391: no entry of `left` from `p` on is present.
unfoldable pub all_fault : (left p : ℕ) → Store → Bool
all_fault zero p s = true
all_fault (suc left) p s = is_fault p s && all_fault left (p + 4) s

-- Lines 375 to 383: the length that is left, the entries that the loop leaves, and the store.
unfoldable pub unmap_pages : (left p length : ℕ) → Store → Run (ℕ × ℕ × Store)
unmap_pages zero p length s = finished (length, 0, s)
unmap_pages (suc left) p length s =
    let s' = make_invalid p (free_memory (entry_frame p s) s) in
    let rest = unmap_pages left (p + 4) (length - 1) s' in
    if is_fault p s then panicked else if length == 1 then finished (0, suc left, s') else rest

-- Lines 362 to 398 for the directory's entry at `p`.
unfoldable pub unmap_table : (p pte length : ℕ) → Store → Run (ℕ × Store)
unmap_table p pte length s =
    let pent = entry_frame p s in
    let before = all_fault pte pent s in
    let unmapped : Run (ℕ × Store) =
      elim (unmap_pages (nr_pte_entry - pte) (pent + 4 * pte) length s) [
        | panicked ↦ panicked
        | unfinished ↦ unfinished
        | finished (length', left, s') ↦
            let clean_pd = before && all_fault left (pent + 4 * (nr_pte_entry - left)) s' in
            finished
              (length', if clean_pd then make_invalid p (free_memory (entry_frame p s') s') else s')
      ] in
    if is_fault p s then panicked else unmapped

-- The outer loop of `free_page`.
unfoldable pub free_loop : (fuel pdir pde pte length : ℕ) → Store → Run Store
free_loop zero pdir pde pte length s = unfinished
free_loop (suc fuel) pdir pde pte zero s = finished s
free_loop (suc fuel) pdir pde pte (suc n) s = elim (unmap_table (pdir + 4 * pde) pte (suc n) s) [
  | panicked ↦ panicked
  | unfinished ↦ unfinished
  | finished (length, s') ↦ free_loop fuel pdir (pde + 1) 0 length s'
]

unfoldable pub free_page : (pdir start length : ℕ) → Store → Run Store
free_page pdir start length s =
    free_loop (length + 1) pdir (start / 2 ^ 22) (start / 2 ^ 12 % nr_pte_entry) length s

-- Lines 438 to 442: the entries from `p` on lead to the pages from `page` on.
unfoldable pub fill_table : (left p page : ℕ) → Store → Store
fill_table zero p page s = s
fill_table (suc left) p page s = fill_table left (p + 4) (page + 1) (make_entry p (page * 2 ^ 12) s)

-- Lines 433 to 443, for the `left` tables from `i` on.
unfoldable pub kernel_tables : (left i pdir : ℕ) → Store → Run Store
kernel_tables zero i pdir s = finished s
kernel_tables (suc left) i pdir s = elim (allocate_memory s) [
  | panicked ↦ panicked
  | unfinished ↦ unfinished
  | finished (addr, s') ↦ kernel_tables left (i + 1) pdir (
      fill_table nr_pte_entry addr (i * nr_pte_entry)
        (make_entry (pdir + 4 * (i + nr_user_pde)) addr s'))
]

-- `init_user_page`: the base that it saves in CR3, and the store. The kernel has four tables.
unfoldable pub init_user_page : (pdir : ℕ) → Store → Run (ℕ × Store)
init_user_page pdir s = elim (kernel_tables 4 0 pdir (clear_entries 1024 pdir s)) [
  | panicked ↦ panicked
  | unfinished ↦ unfinished
  | finished s1 ↦ elim (allocate_page pdir (koffset - 1) 1 s1) [
    | panicked ↦ panicked
    | unfinished ↦ unfinished
    | finished s2 ↦ finished (pdir / page_size, s2)
  ]
]
