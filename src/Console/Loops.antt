-- ===== src/Console/Loops.antt =====
-- The loops that move the rows of the screen up and clear the last one.
use yinyang_os.Base.{
  update-at, update-ne, ap, sym, Bool-cases, arith, inl, inr, refl, suc, update, zero, ℕ, ◌*◌, ◌+◌,
  ◌-◌, ◌<◌, ◌≤◌, ◌==◌, ◌≡◌, ◌≢◌, ◌⊎◌, ◌∙◌, ==_iff,
}
use yinyang_os.Console.{black, cell, clear_row, rows_up, white, wrap_screen}

rows_up-other :
    (n i : ℕ) (v : ℕ → ℕ) (k : ℕ) → 80 ≤ i → (k + 80 < i) ⊎ (i + n ≤ k + 80) → rows_up n i v k ≡ v k
unfolding rows_up
rows_up-other zero i v k low out = refl
rows_up-other (suc n) i v k low out =
    rows_up-other n (i + 1) (update v (i - 80) (v i)) k (omega arith)
      (elim out [ inl l ↦ inl (omega arith) | inr l ↦ inr (omega arith) ])
    ∙ update-ne v (i - 80) (v i) k (elim out [ inl l ↦ omega arith | inr l ↦ omega arith ])

rows_up_lem :
    (n i : ℕ) (v : ℕ → ℕ) (k : ℕ)
    → 80 ≤ i
    → i ≤ k + 80
    → k + 80 < i + n
    → rows_up n i v k ≡ v (k + 80)
unfolding rows_up
rows_up_lem zero i v k low from to = absurd (omega arith)
rows_up_lem (suc n) i v k low from to =
    let v' = update v (i - 80) (v i) in
    elim (Bool-cases (k + 80 == i)) [
      | inl h ↦
          let e = (==_iff (k + 80) i).0 h in
          let k' : k ≡ i - 80 = omega arith in
          let s : v' (i - 80) ≡ v i = update-at v (i - 80) (v i) in
          rows_up-other n (i + 1) v' k (omega arith) (inl (omega arith))
          ∙ ap v' k'
          ∙ s
          ∙ ap v (sym e)
      | inr h ↦
          let d : k + 80 ≢ i = ground arith in
          rows_up_lem n (i + 1) v' k (omega arith) (omega arith) (omega arith)
          ∙ update-ne v (i - 80) (v i) (k + 80) (omega arith)
    ]

clear_row-other : (n i : ℕ) (v : ℕ → ℕ) (k : ℕ) → i + n ≤ 80 → k < 1920 → clear_row n i v k ≡ v k
unfolding clear_row
clear_row-other zero i v k few low = refl
clear_row-other (suc n) i v k few low =
    clear_row-other n (i + 1) (update v (2000 - i - 1) (cell white black 32)) k (omega arith)
      (omega arith)
    ∙ update-ne v (2000 - i - 1) (cell white black 32) k (omega arith)

clear_row-past :
    (n i : ℕ) (v : ℕ → ℕ) (k : ℕ) → i + n ≤ 80 → (2000 ≤ k + i) → k < 2000 → clear_row n i v k ≡ v k
unfolding clear_row
clear_row-past zero i v k few past end = refl
clear_row-past (suc n) i v k few past end =
    clear_row-past n (i + 1) (update v (2000 - i - 1) (cell white black 32)) k (omega arith)
      (omega arith) end
    ∙ update-ne v (2000 - i - 1) (cell white black 32) k (omega arith)

clear_row_lem :
    (n i : ℕ) (v : ℕ → ℕ) (k : ℕ)
    → i + n ≡ 80
    → 1920 ≤ k
    → k + i < 2000
    → clear_row n i v k ≡ cell white black 32
unfolding clear_row
clear_row_lem zero i v k few low high = absurd (omega arith)
clear_row_lem (suc n) i v k few low high =
    let v' = update v (2000 - i - 1) (cell white black 32) in
    elim (Bool-cases (k == 2000 - i - 1)) [
      | inl h ↦
          let e = (==_iff k (2000 - i - 1)).0 h in
          clear_row-past n (i + 1) v' k (omega arith) (omega arith) (omega arith) ∙ (rw h)
      | inr h ↦
          let d : k ≢ 2000 - i - 1 = ground arith in
          clear_row_lem n (i + 1) v' k (omega arith) low (omega arith)
    ]

-- A row is what the row below it was.
pub wrap_screen-row :
    (v : ℕ → ℕ) (i j : ℕ) → i < 24 → j < 80 → wrap_screen v (i * 80 + j) ≡ v ((i + 1) * 80 + j)
unfolding wrap_screen
wrap_screen-row v i j l m =
    let e : i * 80 + j + 80 ≡ (i + 1) * 80 + j = omega arith in
    clear_row-other 80 0 (rows_up 1920 80 v) (i * 80 + j) (omega arith) (omega arith)
    ∙ rows_up_lem 1920 80 v (i * 80 + j) (omega arith) (omega arith) (omega arith)
    ∙ ap v e

-- The last row is blank.
pub wrap_screen-last :
    (v : ℕ → ℕ) (j : ℕ) → j < 80 → wrap_screen v (24 * 80 + j) ≡ cell white black 32
unfolding wrap_screen
wrap_screen-last v j l =
    clear_row_lem 80 0 (rows_up 1920 80 v) (24 * 80 + j) (omega arith) (omega arith) (omega arith)
