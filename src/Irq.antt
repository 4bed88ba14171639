-- ===== src/Irq.antt =====
-- kernel/irq/irq_handle.c: the lists of handlers that drivers register for the interrupts. A handler
-- is the address of a function.
pub mod Handlers
use yinyang_os.Base.{
  List, Option, [], if◌then◌else◌, leb, ltb, none, slt32, some, suc, update, zero, ℕ, ◌+◌, ◌-◌, ◌∷◌,
}

abbrev pub nr_irq_handle : ℕ
nr_irq_handle = 32

-- `handle_pool` by its fields, `handles` and `handle_count`
pub record Irqs : Type 0 where
  pub routine : ℕ → ℕ
  pub next : ℕ → Option ℕ
  pub handles : ℕ → Option ℕ
  pub handle_count : ℕ

-- `past_end` is a write to `handle_pool[32]`.
pub data Added : Type 0 where
  added : Irqs → Added
  past_end : Added
  panic : Added  -- "Too many irq registrations!"

-- `add_irq_handle(irq, func)`
unfoldable pub add_irq_handle : ℕ → ℕ → Irqs → Added
add_irq_handle irq func s =
    let ptr = s.handle_count in
    let s' : Irqs = record {
      routine = update s.routine ptr func;
      next = update s.next ptr (s.handles irq);
      handles = update s.handles irq (some ptr);
      handle_count = ptr + 1;
    } in
    if ltb nr_irq_handle ptr then panic else if leb nr_irq_handle ptr then past_end else added s'

-- The `while` loop of `irq_handle`: the routines that it calls, in this order.
unfoldable pub call_from : (fuel : ℕ) → Irqs → Option ℕ → Option (List ℕ)
call_from zero s f = none
call_from (suc k) s none = some []
call_from (suc k) s (some f) = elim (call_from k s (s.next f)) [
  | none ↦ none
  | some rs ↦ some (s.routine f ∷ rs)
]

pub data Handled : Type 0 where
  called : List ℕ → Handled
  unhandled : Handled  -- "Unhandled exception!"
  unexpected : ℕ → Handled  -- "Unexpected exception #%d"
  out_of_fuel : Handled

-- `irq_handle`, where `irq` is `tf -> irq`, an `int`. A list has at most 32 handlers.
unfoldable pub irq_handle : ℕ → Irqs → Handled
irq_handle irq s =
    let run : Handled = elim (call_from (nr_irq_handle + 1) s (s.handles (irq - 1000))) [
      | none ↦ out_of_fuel
      | some rs ↦ called rs
    ] in
    if slt32 irq 0 then unhandled else if slt32 irq 1000 then unexpected irq else run
