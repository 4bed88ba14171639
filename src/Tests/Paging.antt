-- ===== src/Tests/Paging.antt =====
-- Copies between the kernel and a process, over the end of a page: a directory at 4096 whose page
-- table at 8192 leads to the pages at 12288 and 20480.
use yinyang_os.Base.{
  Bool, arith, not, ◌&&◌, ltb, leb, ◌==◌, ◌%◌, if◌then◌else◌, ℕ, below, below_sound, ◌≡◌, refl, ◌/◌,
  ◌+◌, ◌*◌, ◌^◌, some, [], ◌∷◌, ◌<◌, ◌≢◌,
}
use yinyang_os.Paging.{
  Ram, translated, v_to_p, frame_of, page_at, read32, table_at, copy_from_kernel, copy_to_kernel,
}
use yinyang_os.Paging.Words.{Apart}
use yinyang_os.Paging.Copy.{copy_from_kernel_lem, put_bytes}
use yinyang_os.Paging.Back.{copy_to_kernel-copy_from_kernel}

abbrev pub small_ram : Ram
small_ram a = if a == 4097 then 32 else if a == 8193 then 48 else if a == 8197 then 80 else 0

abbrev pub small_tables : ℕ → Bool
small_tables a = leb 4096 a && ltb a 12288

pub small_Apart : Apart small_tables small_ram 4096 4095 2
unfolding translated table_at page_at frame_of read32 below
small_Apart = record {
  pde_in = λ k l j q.
      below_sound 4 (λ j. small_tables (4096 + 4 * ((4095 + k) / 2 ^ 22) + j)) j
        (below_sound 2 (λ k. below 4 (λ j. small_tables (4096 + 4 * ((4095 + k) / 2 ^ 22) + j))) k
          refl l)
        q;
  pte_in = λ k l j q.
      below_sound 4
        (λ j.
          small_tables
            (table_at small_ram 4096 ((4095 + k) / 2 ^ 22) + 4 * ((4095 + k) / 2 ^ 12 % 1024) + j))
        j
        (below_sound 2
          (λ k. below 4 (λ j.
            small_tables (
              table_at small_ram 4096 ((4095 + k) / 2 ^ 22)
              + 4 * ((4095 + k) / 2 ^ 12 % 1024)
              + j)))
          k refl l)
        q;
  bytes_out = λ k l.
      let h =
        below_sound 2 (λ k. not (small_tables (translated small_ram 4096 (4095 + k)))) k refl l in
      ground (arith, h);
}

small_distinct :
    (j k : ℕ)
    → j < k
    → k < 2
    → translated small_ram 4096 (4095 + j) ≢ translated small_ram 4096 (4095 + k)
unfolding translated table_at page_at frame_of read32
small_distinct j k l q e =
    let a : j ≡ 0 = omega arith in
    let b : k ≡ 1 = omega arith in
    let c : translated small_ram 4096 4095 ≡ translated small_ram 4096 4096 = rw (a, b) at e in
    omega (arith, c)

copy_from_kernel_lem_example :
    copy_from_kernel 4096 4095 (5 ∷ 6 ∷ []) small_ram
    ≡ some (put_bytes (v_to_p small_ram 4096) 4095 (5 ∷ 6 ∷ []) small_ram)
copy_from_kernel_lem_example =
    copy_from_kernel_lem small_tables small_ram 4096 4095 (5 ∷ 6 ∷ []) (omega arith) small_Apart

copy_to_kernel-copy_from_kernel_example :
    (m' : Ram) × (copy_from_kernel 4096 4095 (5 ∷ 6 ∷ []) small_ram ≡ some m')
    × (copy_to_kernel 4096 4095 2 m' ≡ some (5 ∷ 6 ∷ []))
copy_to_kernel-copy_from_kernel_example =
    copy_to_kernel-copy_from_kernel small_tables small_ram 4096 4095 (5 ∷ 6 ∷ []) small_Apart
      small_distinct
