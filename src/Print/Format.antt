-- ===== src/Print/Format.antt =====
-- The control string of `vfprintf`.
use yinyang_os.Base.{==_ne, All, List, [], some, ℕ, ◌++◌, ◌∷◌, ◌≡◌, ◌≢◌}
use yinyang_os.Print.{Arg, directive, vfprintf}

vfprintf-char :
    (c d : ℕ) (ctl : List ℕ) (args : List Arg) (rest : List ℕ)
    → c ≢ 37
    → vfprintf (d ∷ ctl) args ≡ some rest
    → vfprintf (c ∷ d ∷ ctl) args ≡ some (c ∷ rest)
unfolding vfprintf
vfprintf-char c d ctl args rest ne e = rw (==_ne c 37 ne, vfprintf, e)

vfprintf-directive :
    (d : ℕ) (ctl : List ℕ) (args args' : List Arg) (out rest : List ℕ)
    → directive d args ≡ some (out, args')
    → vfprintf ctl args' ≡ some rest
    → vfprintf (37 ∷ d ∷ ctl) args ≡ some (out ++ rest)
unfolding vfprintf
vfprintf-directive d ctl args args' out rest e r = rw (vfprintf, e, r)

-- Characters other than `%` are printed as they are, and then what the next directive and the rest
-- of the control string print, with the arguments that the directive leaves.
pub vfprintf_lem :
    (pre : List ℕ) (d : ℕ) (ctl : List ℕ) (args args' : List Arg) (out rest : List ℕ)
    → All (λ c. c ≢ 37) pre
    → directive d args ≡ some (out, args')
    → vfprintf ctl args' ≡ some rest
    → vfprintf (pre ++ 37 ∷ d ∷ ctl) args ≡ some (pre ++ (out ++ rest))
vfprintf_lem [] d ctl args args' out rest plain e r =
    vfprintf-directive d ctl args args' out rest e r
vfprintf_lem (c ∷ []) d ctl args args' out rest plain e r =
    vfprintf-char c 37 (d ∷ ctl) args (out ++ rest) plain.0
      (vfprintf-directive d ctl args args' out rest e r)
vfprintf_lem (c ∷ c' ∷ pre) d ctl args args' out rest plain e r =
    vfprintf-char c c' (pre ++ 37 ∷ d ∷ ctl) args (c' ∷ pre ++ (out ++ rest)) plain.0
      (vfprintf_lem (c' ∷ pre) d ctl args args' out rest plain.1 e r)
