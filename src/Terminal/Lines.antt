-- ===== src/Terminal/Lines.antt =====
-- The lines that wait in `input_pool` of kernel/drivers/tty.c.
use yinyang_os.Base.{
  Bool-cases, false, true, inl, inr, List, [], arith, if◌then◌else◌, leb, length, refl, suc, zero,
  ℕ, ◌%◌, ◌+◌, ◌==◌, ◌∷◌, ◌≡◌, ◌≢◌, ==_ne,
}
use yinyang_os.Terminal.{Pool}
use yinyang_os.Terminal.Readers.{skip}

-- The pool has the characters `cs` from `f` on, none of them 0, and then a 0.
abbrev pub Waiting : (ℕ → ℕ) → (f : ℕ) → List ℕ → Type 0
Waiting pool f [] = pool f ≡ 0
Waiting pool f (c ∷ cs) = (pool f ≡ c) × (c ≢ 0) × Waiting pool ((f + 1) % 1024) cs

unfoldable pub take : ℕ → List ℕ → List ℕ
take zero cs = []
take (suc n) [] = []
take (suc n) (c ∷ cs) = c ∷ take n cs

-- `f` after `n` characters.
unfoldable pub after : (n f : ℕ) → ℕ
after zero f = f
after (suc n) f = after n ((f + 1) % 1024)

-- Whether the end of the line is reached.
Waiting-after :
    (pool : ℕ → ℕ) (f n : ℕ) (cs : List ℕ)
    → Waiting pool f cs
    → (pool (after (length (take n cs)) f) == 0) ≡ leb (length cs) n
unfolding after take
Waiting-after pool f zero [] h = rw h
Waiting-after pool f zero (c ∷ cs) (h, ne, r) =
    let z = ==_ne c 0 ne in let b : leb (suc (length cs)) 0 ≡ false = ground arith in rw (h, z, b)
Waiting-after pool f (suc n) [] h = let b : leb 0 (suc n) ≡ true = ground arith in rw (h, b)
Waiting-after pool f (suc n) (c ∷ cs) (h, ne, r) =
    let e = Waiting-after pool ((f + 1) % 1024) n cs r in ground (arith, e)

after-step : (n f : ℕ) → (after n f + 1) % 1024 ≡ after n ((f + 1) % 1024)
unfolding after
after-step zero f = refl
after-step (suc n) f = after-step n ((f + 1) % 1024)

pub length-take :
    (n : ℕ) (cs : List ℕ) → length (take n cs) ≡ (if leb (length cs) n then length cs else n)
unfolding take
length-take zero [] = refl
length-take zero (c ∷ cs) = let b : leb (suc (length cs)) 0 ≡ false = ground arith in rw b
length-take (suc n) [] = let b : leb 0 (suc n) ≡ true = ground arith in rw b
length-take (suc n) (c ∷ cs) = let e = length-take n cs in ground (arith, e)

-- How far a reader that asks for `n` characters moves in the pool: over the whole line with the 0
-- behind it, or over what it gets.
abbrev pub passed : (n : ℕ) → List ℕ → ℕ
passed n cs = if leb (length cs) n then suc (length cs) else n

pub Waiting-passed :
    (p : Pool) (n : ℕ) (cs : List ℕ)
    → Waiting p.input_pool p.f cs
    → let p' = record p { f = after (length (take n cs)) p.f } in
      (if p'.input_pool p'.f == 0 then skip p' else p') ≡ record p { f = after (passed n cs) p.f }
unfolding skip after
Waiting-passed p n cs h =
    let e = Waiting-after p.input_pool p.f n cs h in
    let l = length-take n cs in
    let s = after-step (length cs) p.f in
    elim (Bool-cases (leb (length cs) n)) [
      | inl b ↦ let l' = rw b at l in rw (e, b, l', s)
      | inr b ↦ let l' = rw b at l in rw (e, b, l')
    ]
