-- ===== src/Process/Entries.antt =====
-- Processes enter and leave the table: kernel/process/util.c and kernel/pm.c.
use yinyang_os.Base.{
  ℕ, ◌-◌, ◌≤◌, ◌<◌, ◌≡◌, refl, false, List, [], ◌∷◌, ◌++◌, some, arith, has, Distinct, length,
  append_assoc, inl, inr, sym, Distinct-middle, has-middle, ==_refl, Option-cases, ◌∙◌,
}
use yinyang_os.Kernel.{System, waiting, max_proc}
use yinyang_os.Process.{
  find_empty_pcb, init_message_pool, take_entry, make_ready, Created, created, panic,
  create_kthread, fork_begin, enter_ring, leave_ring,
}
use yinyang_os.Process.Table.{IsTable}
use yinyang_os.Ring.Queue.{unlink-IsQueue, IsQueue}
use yinyang_os.Message.Near.{Ready}
use mathlib.Core.Path.{subst}
use yinyang_os.Kernel.Lock.{lock, unlock}
use yinyang_os.Process.Moves.{
  found_fresh, found_none, init_message_pool-empty, live-Distinct, make_ready-IsTable, no_messages,
  take_entry-IsTable,
}

-- What a request for a new process comes to: it has an entry that was free, an empty mailbox, no
-- token and nobody waiting, and the table is as `Shape` says; or `init` and 31 more fill it.
abbrev pub Creates : System → (held live : List ℕ) → (ℕ → System → Type 0) → Created → Type 0
Creates s held live Shape (created n t) =
    (has n (held ++ live) ≡ false)
    × Shape n t
    × Ready t n no_messages
    × ((t.proc n).msg_lock.queue_tail ≡ 0)
Creates s held live Shape panic = length (held ++ live) ≡ max_proc - 1

take_entry-Ready :
    (n elapsed : ℕ) (s : System)
    → Ready (take_entry n elapsed s) n no_messages
      × (((take_entry n elapsed s).proc n).msg_lock.queue_tail ≡ 0)
unfolding take_entry
take_entry-Ready n elapsed s =
    let (holds, token, tail) = init_message_pool-empty _ in
    (record { holds = rw (==_refl n) holds; tokens = rw (==_refl n) token }, rw (==_refl n) tail)

-- The invariant reads the ring, the flags and the numbers of the processes.
IsTable-same :
    (s t : System) (held live : List ℕ)
    → t.ring ≡ s.ring
    → ((i : ℕ) → (t.proc i).flag ≡ (s.proc i).flag)
    → ((i : ℕ) → (t.proc i).pid ≡ (s.proc i).pid)
    → IsTable s held live
    → IsTable t held live
IsTable-same s t held live r f p v = record {
  ring = subst (λ l. IsQueue l (some 0) (0 ∷ live)) (sym r) v.ring;
  distinct = v.distinct;
  in_table = v.in_table;
  free = λ i l h. f i ∙ v.free i l h;
  pids = λ i h. p i ∙ v.pids i h;
}

create-IsTable :
    (n : ℕ) (s : System) (held live : List ℕ)
    → IsTable s held live
    → 1 ≤ n
    → n < max_proc
    → has n (held ++ live) ≡ false
    → IsTable (take_entry n 0 (make_ready n s)) held (live ++ n ∷ [])
unfolding take_entry make_ready init_message_pool
create-IsTable n s held live v low high fresh =
    IsTable-same (make_ready n (take_entry n 0 s)) _ held (live ++ n ∷ []) refl (λ i. ground arith)
      (λ i. ground arith)
      (make_ready-IsTable (take_entry n 0 s) n held live
        (take_entry-IsTable s held live v n 0 low high fresh))

-- In a table in order, lines 394 to 403 of `Exit_uthread` take a live process out of the ring and
-- free its entry: the table is in order with the processes that are left, in the same order.
pub leave_ring-IsTable :
    (s : System) (p : ℕ) (held xs ys : List ℕ)
    → IsTable s held (xs ++ p ∷ ys)
    → IsTable (leave_ring p s) held (xs ++ ys)
unfolding leave_ring
leave_ring-IsTable s p held xs ys v =
    let move : held ++ (xs ++ p ∷ ys) ≡ (held ++ xs) ++ p ∷ ys =
      sym (append_assoc held xs (p ∷ ys)) in
    let back : held ++ (xs ++ ys) ≡ (held ++ xs) ++ ys = sym (append_assoc held xs ys) in
    let same = λ (i : ℕ). rw (← move, ← back) at (has-middle i p (held ++ xs) ys) in
    let parts : Distinct (p ∷ (held ++ xs) ++ ys) =
      Distinct-middle p (held ++ xs) ys (rw move at v.distinct.1) in
    let gone : has p (held ++ (xs ++ ys)) ≡ false = rw back parts.0 in
    record {
      ring = unlink-IsQueue s.ring 0 p xs ys v.ring (live-Distinct s held (xs ++ p ∷ ys) v);
      distinct = (ground (arith, same 0, v.distinct.0), rw back parts.1);
      in_table = λ i h. ground (arith, v.in_table i, same i);
      free = λ i l h. ground (arith, v.free i, same i, gone);
      pids = λ i h. ground (arith, v.pids i, same i);
    }

-- In a table in order, `Create_kthread` makes a process of a free entry, with an empty mailbox and no
-- token, behind the live ones, and the table is in order; or it panics, and then `init` and 31 more
-- fill the table.
pub create_kthread_lem :
    (s : System) (held live : List ℕ)
    → IsTable s held live
    → Creates s held live (λ n t. IsTable t held (live ++ n ∷ [])) (create_kthread s)
unfolding create_kthread
create_kthread_lem s held live v = elim (Option-cases (find_empty_pcb s)) [
  | inl e ↦ rw (e, create_kthread, Creates) (found_none s held live v e)
  | inr (n, e) ↦
      let (low, high, fresh) = found_fresh s held live v n e in
      rw (e, create_kthread, Creates)
        (
          fresh,
          create-IsTable n s held live v low high fresh,
          (take_entry-Ready n 0 (make_ready n s)).0,
          (take_entry-Ready n 0 (make_ready n s)).1,
        )
]

-- In a table in order, the first part of `Fork_uthread` takes a free entry for the child, with an
-- empty mailbox and no token, outside of the ring, and the table is in order; or it panics, and then
-- `init` and 31 more fill the table.
pub fork_begin_lem :
    (parent : ℕ) (s : System) (held live : List ℕ)
    → IsTable s held live
    → Creates s held live (λ n t. IsTable t (n ∷ held) live) (fork_begin parent s)
unfolding fork_begin
fork_begin_lem parent s held live v =
    let vl = IsTable-same s (lock s) held live refl (λ i. refl) (λ i. refl) v in
    elim (Option-cases (find_empty_pcb (lock s))) [
      | inl e ↦ rw (e, Creates) (found_none (lock s) held live vl e)
      | inr (n, e) ↦
          let (low, high, fresh) = found_fresh (lock s) held live vl n e in
          let elapsed = (s.proc parent).time_elapsed in
          let t = take_entry n elapsed (lock s) in
          rw (e, Creates)
            (
              fresh,
              IsTable-same t (unlock t) (n ∷ held) live refl (λ i. refl) (λ i. refl)
                  (take_entry-IsTable (lock s) held live vl n elapsed low high fresh),
              record {
                holds = (take_entry-Ready n elapsed (lock s)).0.holds;
                tokens = (take_entry-Ready n elapsed (lock s)).0.tokens;
              },
              (take_entry-Ready n elapsed (lock s)).1,
            )
    ]

-- In a table in order, the last part of `Fork_uthread` puts a taken entry behind all live processes,
-- waiting for the processor, and the table is in order.
pub enter_ring-IsTable :
    (n : ℕ) (s : System) (held live : List ℕ)
    → IsTable s (n ∷ held) live
    → IsTable (enter_ring n s) held (live ++ n ∷ []) × (((enter_ring n s).proc n).status ≡ waiting)
unfolding enter_ring make_ready
enter_ring-IsTable n s held live v = (
  IsTable-same (make_ready n s) _ held (live ++ n ∷ []) refl (λ i. refl) (λ i. refl)
      (make_ready-IsTable s n held live v),
  rw (==_refl n),
)
