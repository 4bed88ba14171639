-- ===== src/Memory/Copy/Loop.antt =====
-- The loop over the entries of a page directory, lines 300 to 320 of kernel/mm.c.
use yinyang_os.Base.{
  below_cases, arith, inl, inr, refl, ℕ, ◌*◌, ◌+◌, ◌%◌, ◌<◌, ◌≤◌, ◌^◌, ◌≡◌, ◌⊎◌, ◌∙◌, suc, zero,
}
use yinyang_os.Paging.{read32}
use yinyang_os.Memory.{Store, count_empty_page, finished}
use yinyang_os.Memory.Frames.{Frame-refl, Frame-trans, Frame-widen}
use yinyang_os.Memory.Copy.{IsSpace, table_byte}
use yinyang_os.Memory.Copy.Directory.{table_byte-kept, word-kept}
use yinyang_os.Memory.Copy.OneTable.{CopiesTable, HasNew, copy_table_lem}
use yinyang_os.Memory.Space.{copy_tables}
use yinyang_os.Memory.Copy.Tables.{
  CopiesTables, HasNew-HasTable, HasNew-earlier, HasNew-kept, IsSpace-kept, IsSpace-rest, Outside,
  entry_word-kept, tables_cost, tables_cost-kept,
}

-- The first entry is copied, from `s` to `s1`; the others from `s1` to `s2`.
module _ (k src dest : ℕ) (s s1 s2 : Store) (small : dest + 4 * suc k ≤ 2 ^ 24)
    (small' : src + 4 * suc k ≤ 2 ^ 24)
    (apart : (src + 4 * suc k ≤ dest) ⊎ (dest + 4 * suc k ≤ src)) (space : IsSpace s src (suc k))
    (e : CopiesTable src dest s s1) where
  rest_out : Outside dest (dest + 4) (src + 4) k
  rest_out = (omega arith, elim apart [ inl q ↦ inl (omega arith) | inr q ↦ inr (omega arith) ])

  rest-IsSpace : IsSpace s1 (src + 4) k
  rest-IsSpace =
      IsSpace-kept dest (dest + 4) s s1 e.frame (omega arith) (src + 4) k rest_out
        (IsSpace-rest s src k space)

  rest_cost : tables_cost k (src + 4) s1 ≡ tables_cost k (src + 4) s
  rest_cost =
      tables_cost-kept dest (dest + 4) s s1 e.frame (omega arith) k (src + 4) rest_out
        (IsSpace-rest s src k space)

  module _ (r : CopiesTables k (src + 4) (dest + 4) s1 s2) where
    first_word : read32 s2.ram dest ≡ read32 s1.ram dest
    first_word =
        word-kept (dest + 4) (dest + 4 + 4 * k) s1 s2 r.frame (omega arith) dest (omega arith)
          (inl (omega arith))

    first_bytes :
        (j : ℕ)
        → j < 1024
        → (o : ℕ) → o < 4096
        → table_byte s2.ram (read32 s2.ram dest) j o ≡ table_byte s.ram (read32 s.ram src) j o
    first_bytes j l o q = rw first_word (
        table_byte-kept (dest + 4) (dest + 4 + 4 * k) s1 s2 r.frame (omega arith)
          (read32 s1.ram dest) (λ odd. HasNew-HasTable s s1 (read32 s1.ram dest) (e.tables odd)) j l
          o q
        ∙ e.bytes j l o q)

    rest_bytes :
        (i : ℕ)
        → i < k
        → (j : ℕ) → j < 1024
        → (o : ℕ) → o < 4096
        → table_byte s2.ram (read32 s2.ram (dest + 4 + 4 * i)) j o
          ≡ table_byte s.ram (read32 s.ram (src + 4 + 4 * i)) j o
    rest_bytes i m j l o q =
        let w =
          entry_word-kept dest (dest + 4) s s1 e.frame (omega arith) (src + 4) k rest_out i m in
        let before =
          table_byte-kept dest (dest + 4) s s1 e.frame (omega arith)
            (read32 s.ram (src + 4 + 4 * i)) (IsSpace-rest s src k space i m) j l o q in
        r.bytes i m j l o q ∙ (rw w before)

    all : CopiesTables (suc k) src dest s s2
    unfolding tables_cost
    all =
        let z : dest + 4 * 0 ≡ dest = omega arith in
        let z' : src + 4 * 0 ≡ src = omega arith in
        record {
          frame =
              Frame-trans dest (dest + 4 * suc k) s s1 s2
                (Frame-widen dest (dest + 4) dest (dest + 4 * suc k) s s1 (omega arith)
                  (omega arith) e.frame)
                (Frame-widen (dest + 4) (dest + 4 + 4 * k) dest (dest + 4 * suc k) s1 s2
                  (omega arith) (omega arith) r.frame);
          bytes =
              below_cases
                (λ i.
                  (j : ℕ)
                  → j < 1024
                  → (o : ℕ) → o < 4096
                  → table_byte s2.ram (read32 s2.ram (dest + 4 * i)) j o
                    ≡ table_byte s.ram (read32 s.ram (src + 4 * i)) j o)
                k (rw (z, z') first_bytes)
                (λ i m.
                  let a : src + 4 * suc i ≡ src + 4 + 4 * i = omega arith in
                  let b : dest + 4 * suc i ≡ dest + 4 + 4 * i = omega arith in
                  rw (a, b) (rest_bytes i m));
          tables =
              below_cases
                (λ i.
                  read32 s2.ram (dest + 4 * i) % 2 ≡ 1 → HasNew s s2 (read32 s2.ram (dest + 4 * i)))
                k
                (rw z (
                  rw first_word (λ odd.
                    HasNew-kept (dest + 4) (dest + 4 + 4 * k) s s1 s2 r.frame (omega arith)
                      (read32 s1.ram dest) (e.tables odd))))
                (λ i m.
                  let b : dest + 4 * suc i ≡ dest + 4 + 4 * i = omega arith in
                  rw b (λ odd.
                    HasNew-earlier dest (dest + 4) s s1 s2 e.frame
                      (read32 s2.ram (dest + 4 + 4 * i)) (r.tables i m odd)));
          count = let c = r.count in let c' = e.count in let d = rest_cost in omega arith;
        }

-- With the empty pages that they cost, `k` entries of one directory get copies of the tables of
-- another.
pub copy_tables_lem :
    (k src dest : ℕ) (s : Store)
    → dest + 4 * k ≤ 2 ^ 24
    → src + 4 * k ≤ 2 ^ 24
    → (src + 4 * k ≤ dest) ⊎ (dest + 4 * k ≤ src)
    → IsSpace s src k
    → tables_cost k src s ≤ count_empty_page s
    → (s' : Store) × (copy_tables k src dest s ≡ finished s') × CopiesTables k src dest s s'
unfolding copy_tables tables_cost
copy_tables_lem zero src dest s small small' apart space room = (
  s,
  refl,
  record {
    frame = Frame-refl dest (dest + 4 * 0) s;
    bytes = λ i m. absurd (omega arith);
    tables = λ i m. absurd (omega arith);
    count = omega arith;
  },
)
copy_tables_lem (suc k) src dest s small small' apart space room =
    let z : src + 4 * 0 ≡ src = omega arith in
    let (s1, run1, e) =
      copy_table_lem src dest s (omega arith) (rw z at (space 0 (omega arith))) (omega arith) in
    let c = e.count in
    let d = rest_cost k src dest s s1 s1 small small' apart space e in
    let (s2, run2, r) =
      copy_tables_lem k (src + 4) (dest + 4) s1 (omega arith) (omega arith)
        (elim apart [ inl q ↦ inl (omega arith) | inr q ↦ inr (omega arith) ])
        (rest-IsSpace k src dest s s1 s1 small small' apart space e) (omega arith) in
    (s2, rw (copy_tables, run1) run2, all k src dest s s1 s2 small small' apart space e r)
