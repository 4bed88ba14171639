-- ===== src/Memory/Copy/Share.antt =====
-- The kernel half of `copy_page`, and what the bytes that a process reads depend on.
use yinyang_os.Base.{
  ◌==◌, Bool-cases, arith, inl, inr, refl, ℕ, ◌*◌, ◌+◌, ◌/◌, ◌%◌, ◌<◌, ◌≤◌, ◌^◌, ◌≡◌, ◌⊎◌, ◌∙◌, suc,
  zero,
}
use yinyang_os.Paging.{Ram, frame_of, page_at, read32, table_at, translated}
use yinyang_os.Memory.{
  Store, entry_frame, entry_word, is_fault, make_entry, make_invalid, share_memory,
}
use yinyang_os.Memory.Words.{read32-same, write32-other}
use yinyang_os.Memory.Copy.{page_byte, table_byte, user_byte}
use yinyang_os.Memory.Copy.Directory.{HasTable}
use yinyang_os.Memory.Space.{share_table, share_tables}

share_table-other :
    (src dest : ℕ) (s : Store) (a : ℕ)
    → (a < dest) ⊎ (dest + 4 ≤ a)
    → (share_table src dest s).ram a ≡ s.ram a
unfolding share_table make_entry make_invalid share_memory
share_table-other src dest s a out = elim (Bool-cases (is_fault src s)) [
  | inl h ↦ rw h (write32-other s.ram dest 0 a out)
  | inr h ↦ rw h (write32-other s.ram dest (entry_word (entry_frame src s)) a out)
]

pub share_tables-other :
    (k src dest : ℕ) (s : Store) (a : ℕ)
    → (a < dest) ⊎ (dest + 4 * k ≤ a)
    → (share_tables k src dest s).ram a ≡ s.ram a
unfolding share_tables
share_tables-other zero src dest s a out = refl
share_tables-other (suc k) src dest s a out =
    share_tables-other k (src + 4) (dest + 4) (share_table src dest s) a
      (elim out [ inl q ↦ inl (omega arith) | inr q ↦ inr (omega arith) ])
    ∙ share_table-other src dest s a
        (elim out [ inl q ↦ inl (omega arith) | inr q ↦ inr (omega arith) ])

pub user_byte-table_byte :
    (m : Ram) (pdir va : ℕ)
    → user_byte m pdir va
      ≡ table_byte m (read32 m (pdir + 4 * (va / 2 ^ 22))) (va / 2 ^ 12 % 1024) (va % 4096)
unfolding user_byte table_byte page_byte translated table_at page_at
user_byte-table_byte m pdir va = refl

-- A byte of a table, and of what it leads to, in two memories that agree from 16 MB on.
table_byte-high :
    (s : Store) (m' : Ram) (e j o : ℕ)
    → ((a : ℕ) → 2 ^ 24 ≤ a → m' a ≡ s.ram a)
    → (e % 2 ≡ 1 → HasTable s e)
    → j < 1024
    → table_byte m' e j o ≡ table_byte s.ram e j o
unfolding table_byte page_byte
table_byte-high s m' e j o same has l = elim (Bool-cases (e % 2 == 0)) [
  | inl h ↦ rw h
  | inr h ↦
      let odd : e % 2 ≡ 1 = ground arith in
      let ((i, b, at, n), pages) = has odd in
      let w =
        read32-same s.ram m' (frame_of e + 4 * j)
          (λ k q. same (frame_of e + 4 * j + k) (omega arith)) in
      elim (Bool-cases (read32 s.ram (frame_of e + 4 * j) % 2 == 0)) [
        | inl h' ↦ rw (h, w, h')
        | inr h' ↦
            let odd' : read32 s.ram (frame_of e + 4 * j) % 2 ≡ 1 = ground arith in
            let (i', b', at', n') = pages j l odd' in
            rw (h, w, h', same (frame_of (read32 s.ram (frame_of e + 4 * j)) + o) (omega arith))
      ]
]

-- What a process with the `n` entries at `pdir` reads in `m'` is what it reads in `s`.
pub user_byte-high :
    (s : Store) (m' : Ram) (pdir va : ℕ)
    → ((a : ℕ) → 2 ^ 24 ≤ a → m' a ≡ s.ram a)
    → read32 m' (pdir + 4 * (va / 2 ^ 22)) ≡ read32 s.ram (pdir + 4 * (va / 2 ^ 22))
    → (read32 s.ram (pdir + 4 * (va / 2 ^ 22)) % 2 ≡ 1
        → HasTable s (read32 s.ram (pdir + 4 * (va / 2 ^ 22))))
    → user_byte m' pdir va ≡ user_byte s.ram pdir va
user_byte-high s m' pdir va same w has =
    let e = read32 s.ram (pdir + 4 * (va / 2 ^ 22)) in
    let r = table_byte-high s m' e (va / 2 ^ 12 % 1024) (va % 4096) same has (omega arith) in
    rw (user_byte-table_byte m' pdir va, user_byte-table_byte s.ram pdir va, w) r
