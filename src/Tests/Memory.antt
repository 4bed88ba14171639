-- ===== src/Tests/Memory.antt =====
-- kernel/mm.c for a process with one page table and one page.
use yinyang_os.Base.{
  ◌^◌, ◌⊎◌, ◌==◌, not, ◌||◌, ltb, if◌then◌else◌, below, below_sound, arith, true, inl, refl, ℕ, ◌*◌,
  ◌+◌, ◌%◌, ◌<◌, ◌≡◌,
}
use yinyang_os.Memory.Identity.{init_page}
use yinyang_os.Memory.Identity.Maps.{MapsTo, init_page-v_to_p}
use yinyang_os.Paging.{Ram, frame_of, read32}
use yinyang_os.Memory.{
  Store, count_empty_page, count_from, entry_frame, finished, is_fault, allocate_memory,
  allocate_page, free_memory, panicked,
}
use yinyang_os.Memory.Ends.{allocate_page-free_page-ends}
use yinyang_os.Memory.Allocate.{free_memory-allocate_memory}
use yinyang_os.Memory.Copy.{IsSpace}
use yinyang_os.Memory.Copy.Entry.{entry_cost}
use yinyang_os.Memory.Copy.Table.{entries_cost}
use yinyang_os.Memory.Copy.Directory.{table_cost}
use yinyang_os.Memory.Copy.Tables.{tables_cost}
use yinyang_os.Memory.Copy.Fork.{Directories, Forks, copy_page_lem}
use yinyang_os.Memory.Space.{copy_page, free_page}

abbrev one_page : Ram
one_page a =
    if a == 4096
    then 7
    else if a == 4099
    then 1
    else if a == 16777216
    then 7
    else if a == 16777217
    then 16
    else if a == 16777219
    then 1
    else if a == 16781312
    then 42
    else 0

abbrev two_taken : Store
two_taken = record { ram = one_page; flags = λ id. if ltb id 2 then 1 else 0 }

two_cost : tables_cost 768 4096 two_taken ≡ 2
unfolding tables_cost table_cost entries_cost entry_cost is_fault entry_frame read32 frame_of
two_cost = refl

two_room : ltb 2 (count_empty_page two_taken) ≡ true
unfolding count_empty_page count_from
two_room = refl

only_first : (i : ℕ) → i < 768 → read32 one_page (4096 + 4 * i) % 2 ≡ 1 → i ≡ 0
unfolding read32 below
only_first i l odd =
    let h =
      below_sound 768 (λ i. (i == 0) || not (read32 one_page (4096 + 4 * i) % 2 == 1)) i refl l in
    ground (arith, h)

only_page : (j : ℕ) → j < 1024 → read32 one_page (16777216 + 4 * j) % 2 ≡ 1 → j ≡ 0
unfolding read32 below
only_page i l odd =
    let h =
      below_sound 1024 (λ i. (i == 0) || not (read32 one_page (16777216 + 4 * i) % 2 == 1)) i refl
        l in
    ground (arith, h)

two-IsSpace : IsSpace two_taken 4096 768
unfolding read32 frame_of
two-IsSpace i l odd =
    let z = only_first i l odd in
    let t : frame_of (read32 one_page (4096 + 4 * i)) ≡ 16777216 = rw z in
    (
      (0, omega arith, t, λ q. absurd (omega (arith, q))),
      λ j m odd'.
          let odd'' : read32 one_page (16777216 + 4 * j) % 2 ≡ 1 = rw t at odd' in
          let y = only_page j m odd'' in
          (1, omega arith, rw (t, y), λ q. absurd (omega (arith, q))),
    )

two_Directories : Directories 4096 8192
two_Directories = record {
  src_low = omega arith;
  dest_low = omega arith;
  apart = inl (omega arith);
}

copy_page_lem_example :
    (s' : Store) × (copy_page 4096 8192 two_taken ≡ finished (2, s')) × Forks 4096 8192 two_taken s'
copy_page_lem_example =
    copy_page_lem 4096 8192 two_taken two_Directories two-IsSpace
      (let h = two_room in let c = two_cost in ground arith)

free_memory-allocate_memory_example :
    (addr : ℕ) × (s' : Store) × (allocate_memory two_taken ≡ finished (addr, s'))
    × (count_empty_page s' + 1 ≡ count_empty_page two_taken)
    × ((i : ℕ) → (free_memory addr s').flags i ≡ two_taken.flags i)
free_memory-allocate_memory_example =
    free_memory-allocate_memory two_taken (let h = two_room in ground arith)

-- The page that `two_taken` has at address 0.
allocate_page-free_page-ends_example :
    ((allocate_page 4096 0 1 two_taken ≡ panicked)
      ⊎ ((s' : Store) × (allocate_page 4096 0 1 two_taken ≡ finished s')))
    × ((free_page 4096 0 1 two_taken ≡ panicked)
        ⊎ ((s' : Store) × (free_page 4096 0 1 two_taken ≡ finished s')))
allocate_page-free_page-ends_example = allocate_page-free_page-ends 4096 0 1 two_taken

-- The directory at 4096 and the tables at 8192.
init_page-v_to_p_example :
    MapsTo (init_page 4096 8192 two_taken).1.ram 4096 0x123456 0x123456
    × MapsTo (init_page 4096 8192 two_taken).1.ram 4096 (0x123456 + 3 * 2 ^ 30) 0x123456
init_page-v_to_p_example =
    init_page-v_to_p 4096 8192 0x123456 two_taken (inl (omega arith)) (omega arith) (omega arith)
      (omega arith)
