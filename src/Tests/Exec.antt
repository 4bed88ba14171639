-- ===== src/Tests/Exec.antt =====
-- The arguments of a program: two of them.
use yinyang_os.Base.{List, [], arith, ℕ, ◌∷◌, ◌≡◌}
use yinyang_os.Exec.{Argv, execv, parse, parsed}
use yinyang_os.Exec.Bytes.{encode}
use yinyang_os.Exec.Parse.{HasArgs, parse-execv}

abbrev two_args : List (List ℕ)
two_args = (97 ∷ 98 ∷ []) ∷ (99 ∷ []) ∷ []

abbrev blank : Argv
blank = record { bytes = λ i. 0; argv_ptr = λ i. 0; left = 0; right = 0; argc = 0 }

parse-execv_example :
    (st' : Argv) × (parse (execv two_args (λ i. 0)) blank ≡ parsed st') × HasArgs two_args st'
unfolding encode
parse-execv_example =
    parse-execv two_args (λ i. 0) blank (omega arith)
      ((omega arith, (omega arith, tt)), ((omega arith, tt), tt)) (omega arith) (omega arith)
