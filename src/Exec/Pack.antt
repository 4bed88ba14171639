-- ===== src/Exec/Pack.antt =====
-- `execv` packs the arguments.
use yinyang_os.Base.{
  List, [], arith, below, length, refl, update, ℕ, ◌+◌, ◌<◌, ◌∙◌, ◌∷◌, ◌≡◌, sym, ◌≤◌,
}
use yinyang_os.Exec.{put_string, execv, put_strings}
use yinyang_os.Exec.Bytes.{At, At-append, At-frame, encode}
use yinyang_os.Timer.Tick.{later}

put_string_lem :
    (cs : List ℕ) (buf : ℕ → ℕ) (k : ℕ)
    → ((put_string cs buf k).1 ≡ k + length cs)
      × At (put_string cs buf k).0 k cs
      × ((i : ℕ) → i < k → (put_string cs buf k).0 i ≡ buf i)
unfolding put_string
put_string_lem [] buf k = (omega arith, tt, λ i h. refl)
put_string_lem (c ∷ cs) buf k =
    let (end, at, below) = put_string_lem cs (update buf k c) (k + 1) in
    (
      omega arith,
      (below k (omega arith) ∙ ground arith, at),
      λ i h. below i (omega arith) ∙ ground arith,
    )

-- The packed list, with the last 0, is `encode argv`.
put_strings_lem :
    (argv : List (List ℕ)) (buf : ℕ → ℕ) (k : ℕ)
    → At (update (put_strings argv buf k).0 (put_strings argv buf k).1 0) k (encode argv)
      × (k ≤ (put_strings argv buf k).1)
      × ((i : ℕ) → i < k → (put_strings argv buf k).0 i ≡ buf i)
unfolding put_strings encode
put_strings_lem [] buf k = ((ground arith, tt), omega arith, λ i h. refl)
put_strings_lem (str ∷ argv) buf k =
    let (end, at, below) = put_string_lem str buf k in
    let (copied, ptr) = put_string str buf k in
    let q : ℕ → ℕ = update copied ptr 0 in
    let (tail, later, same) = put_strings_lem argv q (ptr + 1) in
    let final : ℕ → ℕ =
      update (put_strings argv q (ptr + 1)).0 (put_strings argv q (ptr + 1)).1 0 in
    (
      At-append final k str (0 ∷ encode argv)
          (At-frame copied final k str (λ i l m. ground (arith, same i)) at)
          (rw (sym end) (ground (arith, same ptr), tail)),
      omega arith,
      λ i h. same i (omega arith) ∙ ground (arith, below i),
    )

-- `execv` leaves its arguments in the buffer, each followed by a 0 and the last by another.
pub execv_lem : (argv : List (List ℕ)) (buf : ℕ → ℕ) → At (execv argv buf) 0 (encode argv)
unfolding execv
execv_lem argv buf = (put_strings_lem argv buf 0).0
