-- ===== src/Memory/Copy.antt =====
-- `copy_page` of kernel/mm.c, entry by entry.
pub mod Entry
pub mod Table
pub mod Entries
pub mod Directory
pub mod OneTable
pub mod Tables
pub mod Loop
pub mod Share
pub mod Fork
use yinyang_os.Base.{
  ◌/◌, ◌^◌, Bool, Option, none, some, if◌then◌else◌, ℕ, ◌*◌, ◌+◌, ◌%◌, ◌<◌, ◌==◌, ◌≡◌, ◌≢◌,
}
use yinyang_os.Paging.{Ram, frame_of, read32, table_at, translated}
use yinyang_os.Memory.{Store}
use yinyang_os.Memory.Frames.{page_of}

-- Byte `o` of the page that the entry `e` leads to.
unfoldable pub page_byte : Ram → (e o : ℕ) → Option ℕ
page_byte m e o = if e % 2 == 0 then none else some (m (frame_of e + o))

-- Byte `o` of page `j` of the table that the entry `e` leads to.
unfoldable pub table_byte : Ram → (e j o : ℕ) → Option ℕ
table_byte m e j o = if e % 2 == 0 then none else page_byte m (read32 m (frame_of e + 4 * j)) o

-- The frame of `e` is a page of the user memory with `P`.
abbrev pub Leads : (ℕ → Type 0) → ℕ → Type 0
Leads P e = (id : ℕ) × (id < 28672) × (frame_of e ≡ page_of id) × P id

-- A page that is taken.
abbrev pub Taken : Store → ℕ → Type 0
Taken s id = s.flags id ≢ 0

-- A page that is taken in `s'` and was empty in `s`.
abbrev pub New : Store → Store → ℕ → Type 0
New s s' id = (s.flags id ≡ 0) × (s'.flags id ≢ 0)

-- Every page that the table at `t` has is taken.
abbrev pub IsTable : Store → ℕ → Type 0
IsTable s t =
    (j : ℕ)
    → j < 1024
    → read32 s.ram (t + 4 * j) % 2 ≡ 1
    → Leads (Taken s) (read32 s.ram (t + 4 * j))

-- Every table of the `n` entries from `p` on is taken, and so are its pages.
abbrev pub IsSpace : Store → (p n : ℕ) → Type 0
IsSpace s p n =
    (i : ℕ)
    → i < n
    → read32 s.ram (p + 4 * i) % 2 ≡ 1
    → Leads (Taken s) (read32 s.ram (p + 4 * i)) × IsTable s (frame_of (read32 s.ram (p + 4 * i)))

-- The byte that a process with the directory at `pdir` reads at `va`, where that is mapped.
unfoldable pub user_byte : Ram → (pdir va : ℕ) → Option ℕ
user_byte m pdir va =
    if read32 m (pdir + 4 * (va / 2 ^ 22)) % 2 == 0
    then none
    else if read32 m (table_at m pdir (va / 2 ^ 22) + 4 * (va / 2 ^ 12 % 1024)) % 2 == 0
    then none
    else some (m (translated m pdir va))
