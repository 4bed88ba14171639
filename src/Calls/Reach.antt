-- ===== src/Calls/Reach.antt =====
-- Which calls panic, and what the calls of the library ask.
use yinyang_os.Base.{Bool, ℕ, ◌≡◌, ◌<◌, ◌↔◌, arith, true, false}
use yinyang_os.Kernel.{Message}
use yinyang_os.Calls.{
  Ending, Servers, Talk, TrapFrame, asks, eax, int_handle, need_sched, panic, result, runs, sends,
  changes, overrun,
}

-- The call is over without a message, and it panics.
unfoldable pub panics_now : Talk Ending → Bool
panics_now (result panic) = true
panics_now (result need_sched) = false
panics_now (result (eax n)) = false
panics_now (sends d m t) = false
panics_now (asks d m k) = false
panics_now (runs k f) = false
panics_now (changes f t) = false
panics_now overrun = false

-- `int_handle` panics at once for the calls from 9 on, and for no others.
pub int_handle-panics_now_iff :
    (v : Servers) (pid : ℕ) (m : Message) (tf : TrapFrame)
    → (panics_now (int_handle v pid m tf) ≡ true) ↔ (8 < tf.eax)
unfolding int_handle panics_now
int_handle-panics_now_iff v pid m tf = ground arith
