-- ===== src/Tests/Irq.antt =====
-- kernel/irq/irq_handle.c with two handlers of the clock.
use yinyang_os.Base.{
  Bool-cases, List, [], arith, if◌then◌else◌, inl, inr, none, refl, slt32, some, ℕ, ◌==◌, ◌∷◌, ◌≡◌,
}
use yinyang_os.Irq.{Irqs, add_irq_handle, called, irq_handle, unexpected, unhandled}
use yinyang_os.Irq.Handlers.{Adds, IsIrqs, Lists, add_irq_handle_lem, irq_handle_lem}

abbrev two_handlers : Irqs
two_handlers = record {
  routine = λ i. if i == 0 then 100 else 200;
  next = λ i. if i == 1 then some 0 else none;
  handles = λ irq. if irq == 0 then some 1 else none;
  handle_count = 2;
}

abbrev clock_lists : ℕ → List ℕ
clock_lists irq = if irq == 0 then 200 ∷ 100 ∷ [] else []

clock-Lists : (irq : ℕ) → Lists two_handlers (two_handlers.handles irq) 2 (clock_lists irq)
clock-Lists irq = elim (Bool-cases (irq == 0)) [
  | inl e ↦ rw e (1, refl, omega arith, refl, (0, refl, omega arith, refl, refl))
  | inr e ↦ rw e refl
]

two_handlers-IsIrqs : IsIrqs two_handlers clock_lists
two_handlers-IsIrqs = record { lists = clock-Lists; in_pool = omega arith }

add_irq_handle_lem_example :
    Adds 14 300 two_handlers clock_lists (add_irq_handle 14 300 two_handlers)
add_irq_handle_lem_example = add_irq_handle_lem 14 300 two_handlers clock_lists two_handlers-IsIrqs

irq_handle_lem_example : irq_handle 1000 two_handlers ≡ (
    if slt32 1000 0
    then unhandled
    else if slt32 1000 1000
    then unexpected 1000
    else called (clock_lists 0))
irq_handle_lem_example = irq_handle_lem 1000 two_handlers clock_lists two_handlers-IsIrqs
