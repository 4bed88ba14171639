-- ===== src/Tests/Files.antt =====
-- An image with two small files, of which the second is read.
use yinyang_os.Base.{List, [], arith, get_elem?, some, ℕ, ◌∷◌, ◌≡◌}
use yinyang_os.Files.{do_read_file, makefs}
use yinyang_os.Files.Image.{makefs_lem}

abbrev two_files : List (List ℕ)
two_files = (1 ∷ 2 ∷ []) ∷ (3 ∷ 4 ∷ 5 ∷ []) ∷ []

makefs_lem_example :
    (image : List ℕ) × (makefs (9 ∷ []) two_files ≡ some image)
    × (get_elem? image (do_read_file 3 2 0 2 1).offset ≡ some 5)
makefs_lem_example =
    makefs_lem (9 ∷ []) two_files 1 2 3 0 (omega arith) (omega arith, (omega arith, tt))
      (omega arith) (omega arith) (omega arith)
