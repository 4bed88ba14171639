-- ===== src/Waiters.antt =====
-- kernel/pm.c, lines 345 to 384: the processes that wait for another one to exit.
pub mod Wake
use yinyang_os.Base.{
  List, Option, [], if◌then◌else◌, ltb, none, some, suc, update, zero, ℕ, ◌+◌, ◌-◌, ◌==◌, ◌∷◌,
}
use yinyang_os.Kernel.{max_proc}

pub record Waiter : Type 0 where
  pub pid : ℕ
  pub wait_for : ℕ

-- `WaitQueue` and `WQ_ptr`
pub record Waiters : Type 0 where
  pub queue : ℕ → Waiter
  pub wq_ptr : ℕ

-- The entry for a new waiter.
unfoldable pub add_waiter : (pid wait_for : ℕ) → Waiters → Waiters
add_waiter pid wait_for w = record {
  queue = update w.queue w.wq_ptr (record { pid = pid; wait_for = wait_for });
  wq_ptr = w.wq_ptr + 1;
}

-- `Sleep`, less the lock. The queue has 32 entries, and a write behind it is `none`.
unfoldable pub sleep : (pid wait_for : ℕ) → Waiters → Option Waiters
unfolding add_waiter
sleep pid wait_for w = if ltb w.wq_ptr max_proc then some (add_waiter pid wait_for w) else none

-- Lines 363 to 368: the last waiter takes the place of waiter `i`.
unfoldable pub remove : ℕ → Waiters → Waiters
remove i w = record {
  queue = if ltb 1 w.wq_ptr then update w.queue i (w.queue (w.wq_ptr - 1)) else w.queue;
  wq_ptr = w.wq_ptr - 1;
}

-- The loop of `Wake_Up`: the waiters to which it sends a message, in this order.
unfoldable pub wake_from : (fuel : ℕ) → ℕ → ℕ → Waiters → Option (List Waiter × Waiters)
wake_from zero pid i w = none
wake_from (suc f) pid i w =
    let e = w.queue i in
    let hit = e.wait_for == pid in
    let rest = wake_from f pid (if hit then i else i + 1) (if hit then remove i w else w) in
    if ltb i w.wq_ptr
    then (elim rest [ none ↦ none | some (es, w') ↦ some (if hit then e ∷ es else es, w') ])
    else some ([], w)

-- `Wake_Up`, less the lock. Every round brings `i` and `WQ_ptr` closer by 1.
unfoldable pub wake_up : ℕ → Waiters → Option (List Waiter × Waiters)
wake_up pid w = wake_from (w.wq_ptr + 1) pid 0 w
