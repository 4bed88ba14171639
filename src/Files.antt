-- ===== src/Files.antt =====
-- kernel/fm.c, which turns a request for a file into one for the disk, and tools/makefs.c, which
-- writes the image of the disk.
pub mod Image
use yinyang_os.Base.{
  length, Bool, List, Option, [], add32, false, if◌then◌else◌, leb, none, some, sub32, suc, true,
  u32_mod, zero, ℕ, ◌%◌, ◌*◌, ◌++◌, ◌+◌, ◌-◌, ◌∷◌,
}

abbrev pub kernel_size : ℕ
kernel_size = 1024 * 1024

abbrev pub file_size : ℕ
file_size = 64 * 1024

-- The message to the disk driver, in `dev_io`.
pub record Request : Type 0 where
  pub writes : Bool
  pub pid : ℕ
  pub buf : ℕ
  pub offset : ℕ
  pub length : ℕ

-- `do_read_file`, with the pid of the file manager
unfoldable pub do_read_file : (pid file_name buffer offset length : ℕ) → Request
do_read_file pid file_name buffer offset length = record {
  writes = false;
  pid = pid;
  buf = buffer;
  offset = (offset + kernel_size + sub32 file_name 1 * file_size) % u32_mod;
  length = length;
}

-- `do_read`
unfoldable pub do_read : (pid buffer offset length : ℕ) → Request
do_read pid buffer offset length = record {
  writes = false;
  pid = pid;
  buf = buffer;
  offset = add32 offset kernel_size;
  length = length;
}

-- `do_write`
unfoldable pub do_write : (pid buffer offset length : ℕ) → Request
do_write pid buffer offset length = record {
  writes = true;
  pid = pid;
  buf = buffer;
  offset = add32 offset kernel_size;
  length = length;
}

unfoldable pub zeros : ℕ → List ℕ
zeros zero = []
zeros (suc n) = 0 ∷ zeros n

-- The loops of makefs for one file: its bytes, and zeros up to a size. For a file that is larger the
-- second loop does not stop: `none`.
unfoldable pub padded : (size : ℕ) → List ℕ → Option (List ℕ)
padded size bytes =
    if leb (length bytes) size then some (bytes ++ zeros (size - length bytes)) else none

-- The loop of makefs over the files behind the kernel.
unfoldable pub put_files : List (List ℕ) → Option (List ℕ)
put_files [] = some []
put_files (file ∷ files) = elim (padded file_size file) [
  | none ↦ none
  | some out ↦ elim (put_files files) [ none ↦ none | some rest ↦ some (out ++ rest) ]
]

-- `main` of makefs: the image for a kernel and the files.
unfoldable pub makefs : List ℕ → List (List ℕ) → Option (List ℕ)
makefs kernel files = elim (padded kernel_size kernel) [
  | none ↦ none
  | some out ↦ elim (put_files files) [ none ↦ none | some rest ↦ some (out ++ rest) ]
]
