-- ===== src/Paging.antt =====
-- Page tables in physical memory: the walk of `V_to_P` in kernel/pm.c, and the copies between the
-- kernel and the memory of a process in kernel/process/util.c.
pub mod Words
pub mod Walk
pub mod Copy
pub mod Back
use yinyang_os.Base.{
  List, Option, [], if◌then◌else◌, length, ltb, none, some, suc, update, zero, ℕ, ◌%◌, ◌*◌, ◌++◌,
  ◌+◌, ◌/◌, ◌==◌, ◌^◌, ◌∷◌,
}
use yinyang_os.Timer.Tick.{left}

-- Physical memory by the byte.
abbrev pub Ram : Type 0
Ram = ℕ → ℕ

abbrev pub page_size : ℕ
page_size = 4096

abbrev pub nr_pte_entry : ℕ
nr_pte_entry = 1024

-- A 32-bit word in memory, the lowest byte first.
unfoldable pub read32 : Ram → ℕ → ℕ
read32 m a = m a + m (a + 1) * 2 ^ 8 + m (a + 2) * 2 ^ 16 + m (a + 3) * 2 ^ 24

-- `page_frame << 12` of an entry of a page directory or a page table, and `& ~0xFFF`.
unfoldable pub frame_of : ℕ → ℕ
frame_of entry = entry % 2 ^ 32 / page_size * page_size

-- The page table that entry `pde` of a directory points to: `((pdir + pde) -> page_frame) << 12`.
unfoldable pub table_at : Ram → (pdir pde : ℕ) → ℕ
table_at m pdir pde = frame_of (read32 m (pdir + 4 * pde))

-- The page that entry `pte` of a page table points to.
unfoldable pub page_at : Ram → (pent pte : ℕ) → ℕ
page_at m pent pte = frame_of (read32 m (pent + 4 * pte))

-- Where the directory at `pdir` and its page tables lead to for `va`.
unfoldable pub translated : Ram → (pdir va : ℕ) → ℕ
translated m pdir va =
    page_at m (table_at m pdir (va / 2 ^ 22)) (va / 2 ^ 12 % nr_pte_entry) + va % page_size

-- `V_to_P`, for the page directory at `pdir`; its argument is a 32-bit word. The two parts of the
-- result share no bit.
unfoldable pub v_to_p : Ram → (pdir va : ℕ) → ℕ
unfolding translated
v_to_p m pdir va = translated m pdir (va % 2 ^ 32)

-- The inner loop of `copy_from_kernel`: the bytes go into the page at `ptr` from `pa` on, until it
-- is full; the bytes that are left come back.
unfoldable pub fill_page : (ptr pa : ℕ) → List ℕ → Ram → Ram × List ℕ
fill_page ptr pa [] m = (m, [])
fill_page ptr pa (b ∷ bs) m =
    let rest = fill_page ptr (pa + 1) bs (update m (ptr + pa) b) in
    if ltb pa page_size then rest else (m, b ∷ bs)

-- The registers of the walk.
pub record Cursor : Type 0 where
  pub pde : ℕ
  pub pte : ℕ
  pub pa : ℕ
  pub pent : ℕ

-- Lines 63 to 69, and 103 to 108.
unfoldable pub start_walk : Ram → (pdir va : ℕ) → Cursor
start_walk m pdir va = record {
  pde = va / 2 ^ 22;
  pte = va / 2 ^ 12 % nr_pte_entry;
  pa = va % page_size;
  pent = table_at m pdir (va / 2 ^ 22);
}

-- Lines 81 to 88, and 120 to 127.
unfoldable pub next_page : Ram → (pdir : ℕ) → Cursor → Cursor
next_page m pdir c =
    if c.pte + 1 == nr_pte_entry
    then record { pde = c.pde + 1; pte = 0; pa = 0; pent = table_at m pdir (c.pde + 1) }
    else record c { pte = c.pte + 1; pa = 0 }

-- The outer loop of `copy_from_kernel`.
unfoldable pub copy_out : (fuel : ℕ) → (pdir : ℕ) → Cursor → List ℕ → Ram → Option Ram
copy_out zero pdir c bytes m = none
copy_out (suc f) pdir c [] m = some m
copy_out (suc f) pdir c (b ∷ bs) m =
    let (m', rest) = fill_page (page_at m c.pent c.pte) c.pa (b ∷ bs) m in
    copy_out f pdir (next_page m' pdir c) rest m'

-- `copy_from_kernel`, for the bytes at `src`. Every round of the loop copies at least one.
unfoldable pub copy_from_kernel : (pdir dest : ℕ) → List ℕ → Ram → Option Ram
copy_from_kernel pdir dest bytes m =
    copy_out (length bytes + 1) pdir (start_walk m pdir dest) bytes m

-- The inner loop of `copy_to_kernel`: the bytes that it copies, and the length that is left.
unfoldable pub read_page : (ptr pa len : ℕ) → Ram → List ℕ × ℕ
read_page ptr pa zero m = ([], 0)
read_page ptr pa (suc n) m =
    let (bs, left) = read_page ptr (pa + 1) n m in
    if ltb pa page_size then (m (ptr + pa) ∷ bs, left) else ([], suc n)

-- The outer loop of `copy_to_kernel`.
unfoldable pub copy_in : (fuel : ℕ) → (pdir : ℕ) → Cursor → (len : ℕ) → Ram → Option (List ℕ)
copy_in zero pdir c len m = none
copy_in (suc f) pdir c zero m = some []
copy_in (suc f) pdir c (suc n) m =
    let (bs, left) = read_page (page_at m c.pent c.pte) c.pa (suc n) m in
    elim (copy_in f pdir (next_page m pdir c) left m) [
      | none ↦ none
      | some more ↦ some (bs ++ more)
    ]

-- `copy_to_kernel`: the bytes that it writes at `dest`.
unfoldable pub copy_to_kernel : (pdir src len : ℕ) → Ram → Option (List ℕ)
copy_to_kernel pdir src len m = copy_in (len + 1) pdir (start_walk m pdir src) len m
