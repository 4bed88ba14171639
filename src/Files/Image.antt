-- ===== src/Files/Image.antt =====
-- The file manager finds the files where makefs puts them.
use yinyang_os.Base.{
  All, List, Option, [], ap, arith, get_elem?, leb, length, length-append, none, refl, some, suc,
  true, zero, ℕ, ◌*◌, ◌++◌, ◌+◌, ◌-◌, ◌<◌, ◌∙◌, ◌∷◌, ◌≡◌, ◌≤◌, sub32, u32_mod, ◌%◌, ◌^◌,
}
use yinyang_os.Files.{file_size, padded, put_files, zeros, do_read_file, kernel_size, makefs}

length-zeros : (n : ℕ) → length (zeros n) ≡ n
unfolding zeros
length-zeros zero = refl
length-zeros (suc n) = ap suc (length-zeros n)

get_elem?-left : (xs ys : List ℕ) (i : ℕ) → i < length xs → get_elem? (xs ++ ys) i ≡ get_elem? xs i
get_elem?-left [] ys i h = absurd (omega arith)
get_elem?-left (x ∷ xs) ys zero h = refl
get_elem?-left (x ∷ xs) ys (suc i) h = get_elem?-left xs ys i (omega arith)

get_elem?-right : (xs ys : List ℕ) (i : ℕ) → get_elem? (xs ++ ys) (length xs + i) ≡ get_elem? ys i
get_elem?-right [] ys i = ap (get_elem? ys) (omega arith)
get_elem?-right (x ∷ xs) ys i =
    let e : suc (length xs) + i ≡ suc (length xs + i) = omega arith in
    ap (get_elem? (x ∷ xs ++ ys)) e ∙ get_elem?-right xs ys i

padded_lem :
    (size : ℕ) (bytes : List ℕ)
    → length bytes ≤ size
    → (out : List ℕ) × (padded size bytes ≡ some out)
      × (length out ≡ size)
      × ((i : ℕ) → i < length bytes → get_elem? out i ≡ get_elem? bytes i)
unfolding padded
padded_lem size bytes h =
    let t : leb (length bytes) size ≡ true = ground arith in
    (
      bytes ++ zeros (size - length bytes),
      rw t,
      length-append bytes (zeros (size - length bytes))
          ∙ omega (arith, length-zeros (size - length bytes)),
      get_elem?-left bytes (zeros (size - length bytes)),
    )

-- The byte at an offset of the file with a number, counted from 0.
abbrev pub file_byte : List (List ℕ) → ℕ → ℕ → Option ℕ
file_byte [] k o = none
file_byte (file ∷ files) zero o = get_elem? file o
file_byte (file ∷ files) (suc k) o = file_byte files k o

abbrev pub In : List (List ℕ) → ℕ → ℕ → Type 0
In [] k o = ⊥
In (file ∷ files) zero o = o < length file
In (file ∷ files) (suc k) o = In files k o

-- A file behind which the others stand.
module _ (file p rest : List ℕ) (files : List (List ℕ)) (size : length p ≡ file_size)
    (short : length file ≤ file_size)
    (same : (i : ℕ) → i < length file → get_elem? p i ≡ get_elem? file i)
    (at : (k o : ℕ) → In files k o → get_elem? rest (k * file_size + o) ≡ file_byte files k o) where
  file_place :
      (k o : ℕ)
      → In (file ∷ files) k o
      → get_elem? (p ++ rest) (k * file_size + o) ≡ file_byte (file ∷ files) k o
  file_place zero o i =
      let e : zero * file_size + o ≡ o = omega arith in
      ap (get_elem? (p ++ rest)) e ∙ get_elem?-left p rest o (omega arith) ∙ same o i
  file_place (suc k) o i =
      let e : suc k * file_size + o ≡ length p + (k * file_size + o) = omega arith in
      ap (get_elem? (p ++ rest)) e ∙ get_elem?-right p rest (k * file_size + o) ∙ at k o i

put_files_lem :
    (files : List (List ℕ))
    → All (λ file. length file ≤ file_size) files
    → (out : List ℕ) × (put_files files ≡ some out)
      × ((k o : ℕ) → In files k o → get_elem? out (k * file_size + o) ≡ file_byte files k o)
unfolding put_files
put_files_lem [] h = ([], refl, λ k o i. absurd i)
put_files_lem (file ∷ files) (h, hs) =
    let (p, e, size, same) = padded_lem file_size file h in
    let (rest, e', at) = put_files_lem files hs in
    (p ++ rest, rw (put_files, e, e'), file_place file p rest files size h same at)

-- For a kernel of at most 1 MB and files of at most 64 KB, fewer than 2^15, makefs makes an image, and
-- where `do_read_file` asks the disk for a byte of a file, the image has that byte.
pub makefs_lem :
    (kernel : List ℕ) (files : List (List ℕ)) (k o pid buffer : ℕ)
    → length kernel ≤ kernel_size
    → All (λ file. length file ≤ file_size) files
    → In files k o
    → k < 2 ^ 15
    → o < file_size
    → (image : List ℕ) × (makefs kernel files ≡ some image)
      × (get_elem? image (do_read_file pid (k + 1) buffer o 1).offset ≡ file_byte files k o)
unfolding makefs do_read_file
makefs_lem kernel files k o pid buffer small short i few low =
    let (out, e, size, _) = padded_lem kernel_size kernel small in
    let (rest, e', at) = put_files_lem files short in
    let there : (o + kernel_size + sub32 (k + 1) 1 * file_size) % u32_mod
        ≡ length out + (k * file_size + o) =
      omega (arith, size) in
    (
      out ++ rest,
      rw (makefs, e, e'),
      ap (get_elem? (out ++ rest)) there ∙ get_elem?-right out rest (k * file_size + o) ∙ at k o i,
    )
