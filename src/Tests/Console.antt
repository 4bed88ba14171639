-- ===== src/Tests/Console.antt =====
-- kernel/console.c: "a" on an empty screen.
use yinyang_os.Base.{[], some, ◌∷◌, ◌≡◌, refl}
use yinyang_os.Print.{vfprintf}
use yinyang_os.Console.{Screen, black, init_screen, printk, white}
use yinyang_os.Console.Paper.{Paper, blank, type_all}
use yinyang_os.Console.Print.{ShowsFrom, init_screen-Shows, printk_lem}

abbrev dark : Screen
dark = record { vmem = λ i. 0; x = 9; y = 9 }

abbrev empty_paper : Paper
empty_paper = record { cells = λ r j. blank; row = 0; col = 0 }

printk_lem_example :
    (s' : Screen) × (printk (97 ∷ []) [] (init_screen dark) ≡ some s')
    × ShowsFrom s' (type_all white black (97 ∷ []) empty_paper) 0
unfolding vfprintf
printk_lem_example =
    printk_lem (97 ∷ []) [] (97 ∷ []) (init_screen dark) empty_paper 0 refl (init_screen-Shows dark)
