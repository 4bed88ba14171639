-- ===== src/Terminal/Shift.antt =====
-- The two loops that move the rest of a line.
use yinyang_os.Base.{
  update-at, update-ne, Bool-cases, List, [], arith, inl, inr, refl, suc, update, zero, ℕ, ◌+◌, ◌<◌,
  ◌≤◌, ◌==◌, ◌∷◌, ◌≡◌, ◌≢◌, ◌⊎◌, ◌∙◌, ==_iff, length,
}
use yinyang_os.Exec.Bytes.{At}
use yinyang_os.Terminal.{shift_down, shift_up}

pub shift_up-other :
    (n pos : ℕ) (buf : ℕ → ℕ) (j : ℕ) → (j ≤ pos) ⊎ (pos + n < j) → shift_up n pos buf j ≡ buf j
unfolding shift_up
shift_up-other zero pos buf j out = refl
shift_up-other (suc n) pos buf j out =
    shift_up-other n pos (update buf (pos + suc n) (buf (pos + n))) j
      (elim out [ inl l ↦ inl l | inr l ↦ inr (omega arith) ])
    ∙ update-ne buf (pos + suc n) (buf (pos + n)) j
        (elim out [ inl l ↦ omega arith | inr l ↦ omega arith ])

pub shift_up_lem :
    (n pos : ℕ) (buf : ℕ → ℕ) (j : ℕ) → pos ≤ j → j < pos + n → shift_up n pos buf (j + 1) ≡ buf j
unfolding shift_up
shift_up_lem zero pos buf j low high = absurd (omega arith)
shift_up_lem (suc n) pos buf j low high =
    let buf' = update buf (pos + suc n) (buf (pos + n)) in
    elim (Bool-cases (j == pos + n)) [
      | inl h ↦
          let e = (==_iff j (pos + n)).0 h in
          let e' : pos + n + 1 ≡ pos + suc n = omega arith in
          rw (e, e')
            (shift_up-other n pos buf' (pos + suc n) (inr (omega arith))
              ∙ update-at buf (pos + suc n) (buf (pos + n)))
      | inr h ↦
          let d : j ≢ pos + n = ground arith in
          shift_up_lem n pos buf' j low (omega arith)
          ∙ update-ne buf (pos + suc n) (buf (pos + n)) j (omega arith)
    ]

pub shift_down-other : (n i : ℕ) (buf : ℕ → ℕ) (j : ℕ) → j < i → shift_down n i buf j ≡ buf j
unfolding shift_down
shift_down-other zero i buf j out = refl
shift_down-other (suc n) i buf j out =
    shift_down-other n (i + 1) (update buf i (buf (i + 1))) j (omega arith)
    ∙ update-ne buf i (buf (i + 1)) j (omega arith)

pub shift_down_lem :
    (n i : ℕ) (buf : ℕ → ℕ) (j : ℕ) → i ≤ j → j < i + n → shift_down n i buf j ≡ buf (j + 1)
unfolding shift_down
shift_down_lem zero i buf j low high = absurd (omega arith)
shift_down_lem (suc n) i buf j low high =
    let buf' = update buf i (buf (i + 1)) in
    elim (Bool-cases (j == i)) [
      | inl h ↦
          let e = (==_iff j i).0 h in
          rw e (shift_down-other n (i + 1) buf' i (omega arith) ∙ update-at buf i (buf (i + 1)))
      | inr h ↦
          let d : j ≢ i = ground arith in
          shift_down_lem n (i + 1) buf' j (omega arith) (omega arith)
          ∙ update-ne buf i (buf (i + 1)) (j + 1) (omega arith)
    ]

-- What `p` holds from `k` on, `q` holds from `k'` on.
pub At-move :
    (p q : ℕ → ℕ) (k k' : ℕ) (xs : List ℕ)
    → ((i : ℕ) → i < length xs → q (k' + i) ≡ p (k + i))
    → At p k xs
    → At q k' xs
At-move p q k k' [] same h = tt
At-move p q k k' (x ∷ xs) same (h, r) =
    let z : k + 0 ≡ k = omega arith in
    let z' : k' + 0 ≡ k' = omega arith in
    let first : q k' ≡ p k = rw (z, z') at (same 0 (omega arith)) in
    (
      first ∙ h,
      At-move p q (k + 1) (k' + 1) xs
          (λ i l.
            let e : k + suc i ≡ k + 1 + i = omega arith in
            let e' : k' + suc i ≡ k' + 1 + i = omega arith in
            rw (e, e') at (same (suc i) (omega arith)))
          r,
    )
