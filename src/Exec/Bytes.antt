-- ===== src/Exec/Bytes.antt =====
-- The packed form of a list of arguments.
use yinyang_os.Base.{All, List, [], arith, length, ℕ, ◌++◌, ◌+◌, ◌<◌, ◌∙◌, ◌∷◌, ◌≡◌, ◌≤◌, suc}

-- From `k` on the memory holds the bytes `bs`.
abbrev pub At : (ℕ → ℕ) → ℕ → List ℕ → Type 0
At mem k [] = Unit
At mem k (b ∷ bs) = (mem k ≡ b) × At mem (k + 1) bs

-- Every argument ends in a 0, and the list in another.
unfoldable pub encode : List (List ℕ) → List ℕ
encode [] = 0 ∷ []
encode (a ∷ more) = a ++ 0 ∷ encode more

-- Where the arguments start, the first at `k`.
unfoldable pub starts : ℕ → List (List ℕ) → List ℕ
starts k [] = []
starts k (a ∷ more) = k ∷ starts (k + length a + 1) more

pub At-frame :
    (p q : ℕ → ℕ) (k : ℕ) (bs : List ℕ)
    → ((i : ℕ) → k ≤ i → i < k + length bs → q i ≡ p i)
    → At p k bs
    → At q k bs
At-frame p q k [] same h = tt
At-frame p q k (b ∷ bs) same (h, r) = (
  same k (omega arith) (omega arith) ∙ h,
  At-frame p q (k + 1) bs (λ i l m. same i (omega arith) (omega arith)) r,
)

pub At-append :
    (p : ℕ → ℕ) (k : ℕ) (xs ys : List ℕ) → At p k xs → At p (k + length xs) ys → At p k (xs ++ ys)
At-append p k [] ys h r = let e : k + 0 ≡ k = omega arith in rw e at r
At-append p k (x ∷ xs) ys (h, t) r =
    let e : k + suc (length xs) ≡ (k + 1) + length xs = omega arith in
    (h, At-append p (k + 1) xs ys t (rw e at r))

-- An argument has a byte, and no byte of it is 0.
abbrev pub IsArg : List ℕ → Type 0
IsArg [] = ⊥
IsArg (b ∷ bs) = All (λ c. 0 < c) (b ∷ bs)
