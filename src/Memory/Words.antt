-- ===== src/Memory/Words.antt =====
-- Words and pages in memory: what a store changes.
use yinyang_os.Base.{
  update-ne, ◌==◌, Bool-cases, ==_iff, ==_ne, ==_refl, arith, inl, inr, refl, update, ℕ, ◌+◌, ◌%◌,
  ◌<◌, ◌≤◌, ◌^◌, ◌≡◌, ◌≢◌, ◌⊎◌, ◌∙◌, suc, zero,
}
use yinyang_os.Paging.{Ram, frame_of, read32}
use yinyang_os.Memory.{copy_bytes, entry_word, write32}

pub write32-other : (m : Ram) (a w b : ℕ) → (b < a) ⊎ (a + 4 ≤ b) → write32 m a w b ≡ m b
unfolding write32
write32-other m a w b out =
    let n0 = ==_ne b a (elim out [ inl l ↦ omega arith | inr l ↦ omega arith ]) in
    let n1 = ==_ne b (a + 1) (elim out [ inl l ↦ omega arith | inr l ↦ omega arith ]) in
    let n2 = ==_ne b (a + 2) (elim out [ inl l ↦ omega arith | inr l ↦ omega arith ]) in
    let n3 = ==_ne b (a + 3) (elim out [ inl l ↦ omega arith | inr l ↦ omega arith ]) in
    rw (n3, n2, n1, n0)

pub read32-write32 : (m : Ram) (a w : ℕ) → w < 2 ^ 32 → read32 (write32 m a w) a ≡ w
unfolding read32 write32
read32-write32 m a w small =
    let r = ==_refl a in
    let r1 = ==_refl (a + 1) in
    let r2 = ==_refl (a + 2) in
    let r3 = ==_refl (a + 3) in
    let n1 = ==_ne a (a + 1) (omega arith) in
    let n2 = ==_ne a (a + 2) (omega arith) in
    let n3 = ==_ne a (a + 3) (omega arith) in
    let n12 = ==_ne (a + 1) (a + 2) (omega arith) in
    let n13 = ==_ne (a + 1) (a + 3) (omega arith) in
    let n23 = ==_ne (a + 2) (a + 3) (omega arith) in
    rw (n3, n2, n1, r, n13, n12, r1, n23, r2, r3) (omega arith)

pub read32-same :
    (m m' : Ram) (a : ℕ) → ((j : ℕ) → j < 4 → m' (a + j) ≡ m (a + j)) → read32 m' a ≡ read32 m a
unfolding read32
read32-same m m' a same =
    let z : a + 0 ≡ a = omega arith in
    let e0 : m' a ≡ m a = rw z at (same 0 (omega arith)) in
    rw (e0, same 1 (omega arith), same 2 (omega arith), same 3 (omega arith))

pub entry_word-frame_of :
    (addr : ℕ)
    → addr < 2 ^ 32
    → addr % 4096 ≡ 0
    → (frame_of (entry_word addr) ≡ addr) × (entry_word addr % 2 ≡ 1) × (entry_word addr < 2 ^ 32)
unfolding frame_of entry_word
entry_word-frame_of addr small even = (omega arith, omega arith, omega arith)

-- The loop of `copy_memory` writes the `left` bytes from `dest + i` on, and no others.
pub copy_bytes-other :
    (left i src dest : ℕ) (m : Ram) (b : ℕ)
    → (b < dest + i) ⊎ (dest + i + left ≤ b)
    → copy_bytes left i src dest m b ≡ m b
unfolding copy_bytes
copy_bytes-other zero i src dest m b out = refl
copy_bytes-other (suc left) i src dest m b out =
    copy_bytes-other left (i + 1) src dest (update m (dest + i) (m (src + i))) b
      (elim out [ inl l ↦ inl (omega arith) | inr l ↦ inr (omega arith) ])
    ∙ update-ne m (dest + i) (m (src + i)) b
        (elim out [ inl l ↦ omega arith | inr l ↦ omega arith ])

pub copy_bytes_lem :
    (left i src dest : ℕ) (m : Ram) (o : ℕ)
    → (src + i + left ≤ dest + i) ⊎ (dest + i + left ≤ src + i)
    → i ≤ o
    → o < i + left
    → copy_bytes left i src dest m (dest + o) ≡ m (src + o)
unfolding copy_bytes
copy_bytes_lem zero i src dest m o out low high = absurd (omega arith)
copy_bytes_lem (suc left) i src dest m o out low high =
    let m' = update m (dest + i) (m (src + i)) in
    elim (Bool-cases (o == i)) [
      | inl h ↦
          let e = (==_iff o i).0 h in
          let r = ==_refl (dest + i) in
          let stored : m' (dest + i) ≡ m (src + i) = rw r in
          let kept = copy_bytes-other left (i + 1) src dest m' (dest + i) (inl (omega arith)) in
          rw e (kept ∙ stored)
      | inr h ↦
          let n : o ≢ i = ground arith in
          let next =
            copy_bytes_lem left (i + 1) src dest m' o
              (elim out [ inl l ↦ inl (omega arith) | inr l ↦ inr (omega arith) ]) (omega arith)
              (omega arith) in
          next
          ∙ update-ne m (dest + i) (m (src + i)) (src + o)
              (elim out [ inl l ↦ omega arith | inr l ↦ omega arith ])
    ]
