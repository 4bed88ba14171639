-- ===== src/Tests/Process.antt =====
-- kernel/process/util.c and kernel/pm.c from the start of the kernel on.
use yinyang_os.Base.{[], arith, refl, ◌∷◌, ◌≡◌}
use yinyang_os.Kernel.{System, sleeping, waiting}
use yinyang_os.Process.{create_kthread, enter_ring, fork_begin, init_proc, leave_ring, take_entry}
use yinyang_os.Process.Entries.{
  Creates, create_kthread_lem, enter_ring-IsTable, fork_begin_lem, leave_ring-IsTable,
}
use yinyang_os.Process.Moves.{take_entry-IsTable}
use yinyang_os.Process.Table.{IsTable, init_proc-IsTable}
use yinyang_os.Tests.Kernel.{three}

abbrev booted : System
booted = init_proc (three (λ i. sleeping))

init_proc-IsTable_example : IsTable booted [] []
init_proc-IsTable_example = init_proc-IsTable (three (λ i. sleeping))

booted-IsTable : IsTable booted [] []
booted-IsTable = init_proc-IsTable (three (λ i. sleeping))

create_kthread_lem_example :
    Creates booted [] [] (λ n t. IsTable t [] (n ∷ [])) (create_kthread booted)
create_kthread_lem_example = create_kthread_lem booted [] [] booted-IsTable

fork_begin_lem_example : Creates booted [] [] (λ n t. IsTable t (n ∷ []) []) (fork_begin 0 booted)
fork_begin_lem_example = fork_begin_lem 0 booted [] [] booted-IsTable

abbrev forked : System
forked = take_entry 1 0 booted

forked-IsTable : IsTable forked (1 ∷ []) []
forked-IsTable = take_entry-IsTable booted [] [] booted-IsTable 1 0 (omega arith) (omega arith) refl

enter_ring-IsTable_example :
    IsTable (enter_ring 1 forked) [] (1 ∷ []) × (((enter_ring 1 forked).proc 1).status ≡ waiting)
enter_ring-IsTable_example = enter_ring-IsTable 1 forked [] [] forked-IsTable

entered-IsTable : IsTable (enter_ring 1 forked) [] (1 ∷ [])
entered-IsTable = (enter_ring-IsTable 1 forked [] [] forked-IsTable).0

leave_ring-IsTable_example : IsTable (leave_ring 1 (enter_ring 1 forked)) [] []
leave_ring-IsTable_example = leave_ring-IsTable (enter_ring 1 forked) 1 [] [] [] entered-IsTable
