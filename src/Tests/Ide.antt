-- ===== src/Tests/Ide.antt =====
-- kernel/drivers/ide.c on a disk that is a table of sectors.
use yinyang_os.Base.{List, [], arith, false, if◌then◌else◌, refl, some, ℕ, ◌%◌, ◌+◌, ◌==◌, ◌∷◌, ◌≡◌}
use yinyang_os.Ide.{Drive, Ide, cache_init, read_bytes, write_back, write_bytes}
use yinyang_os.Ide.Bytes.{byte_at, disk_at}
use yinyang_os.Ide.Flush.{cache_init_lem, write_back_lem}
use yinyang_os.Ide.Transfer.{read_bytes-write_bytes, write_bytes_lem, written}
use yinyang_os.Ide.View.{IsCache}

abbrev disk_drive : Drive
disk_drive = record {
  Disk = ℕ → ℕ → ℕ;
  status = λ d. 0x50;
  read = λ d s i. d s i;
  write = λ d s c t i. if t == s then c i else d t i;
  ready = λ d. refl;
  read-write = λ d s t c i h. refl;
}

abbrev cold : Ide disk_drive
cold = record {
  cache = λ i. record { sector = 0; used = false; dirty = false; content = λ k. 0 };
  disk = λ s i. (s + i) % 256;
}

abbrev warm : Ide disk_drive
warm = cache_init disk_drive cold

warm-IsCache : IsCache disk_drive warm
warm-IsCache = (cache_init_lem disk_drive cold 0 (λ j l. refl)).0

abbrev three_bytes : List ℕ
three_bytes = 1 ∷ 2 ∷ 3 ∷ []

write_bytes_lem_example :
    (st' : Ide disk_drive) × (write_bytes disk_drive 510 three_bytes warm ≡ some st')
    × IsCache disk_drive st'
    × ((p : ℕ) → byte_at disk_drive st' p ≡ written 510 three_bytes (byte_at disk_drive warm) p)
write_bytes_lem_example = write_bytes_lem disk_drive 510 three_bytes warm warm-IsCache (omega arith)

read_bytes-write_bytes_example :
    (st' st'' : Ide disk_drive) × (write_bytes disk_drive 510 three_bytes warm ≡ some st')
    × (read_bytes disk_drive 3 510 st' ≡ some (three_bytes, st''))
read_bytes-write_bytes_example =
    read_bytes-write_bytes disk_drive 510 three_bytes warm warm-IsCache (omega arith)

write_back_lem_example :
    (st' : Ide disk_drive) × (write_back disk_drive warm ≡ some st')
    × IsCache disk_drive st'
    × ((p : ℕ) → byte_at disk_drive st' p ≡ byte_at disk_drive warm p)
    × ((p : ℕ) → disk_at disk_drive st' p ≡ byte_at disk_drive warm p)
write_back_lem_example = write_back_lem disk_drive warm warm-IsCache
