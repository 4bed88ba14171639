-- ===== src/Process/Moves.antt =====
-- The search for a free entry of the process table, and the moves of an entry in and out of the ring.
use yinyang_os.Base.{
  ℕ, zero, suc, ◌+◌, ◌-◌, ◌≤◌, ◌<◌, ◌≡◌, refl, true, false, List, [], ◌∷◌, ◌++◌, none, some, arith,
  has, Distinct, length, Bool-cases, Distinct-append_iff, append_assoc, has-snoc, inl, inr,
  le-length_of_all, length-le_of_below, sym, snoc-Distinct,
}
use yinyang_os.Kernel.{Pcb, System, max_proc}
use yinyang_os.Process.{find_empty_from, find_empty_pcb, init_message_pool, take_entry, make_ready}
use yinyang_os.Process.Table.{IsTable}
use yinyang_os.Message.Inbox.{Inbox}
use yinyang_os.Message.Deposit.{Holds}
use yinyang_os.Kernel.Semaphore.{sem_init}
use yinyang_os.Ring.Linked.{link_before-Linked}

pub find_empty_from-some :
    (k i : ℕ) (proc : ℕ → Pcb) (n : ℕ)
    → find_empty_from k i proc ≡ some n
    → (i ≤ n) × (n < i + k) × ((proc n).flag ≡ true)
unfolding find_empty_from
find_empty_from-some zero i proc n e = cc
find_empty_from-some (suc k) i proc n e = ground (arith, find_empty_from-some k (i + 1) proc n)

pub find_empty_from-none :
    (k i : ℕ) (proc : ℕ → Pcb)
    → find_empty_from k i proc ≡ none
    → (j : ℕ) → i ≤ j
    → j < i + k
    → (proc j).flag ≡ false
unfolding find_empty_from
find_empty_from-none zero i proc e j h l = absurd (omega arith)
find_empty_from-none (suc k) i proc e j h l = elim (Bool-cases (proc i).flag) [
  | inl free ↦ absurd (ground arith)
  | inr busy ↦ ground (arith, find_empty_from-none k (i + 1) proc (rw busy at e) j)
]

abbrev pub no_messages : Inbox
no_messages = record { arrived = []; ignored = [] }

-- A pool that has just been initialised is empty and has no token.
pub init_message_pool-empty :
    (c : Pcb)
    → Holds (init_message_pool c).mailbox no_messages
      × ((init_message_pool c).msg_lock.token ≡ 0)
      × ((init_message_pool c).msg_lock.queue_tail ≡ 0)
unfolding init_message_pool sem_init
init_message_pool-empty c = (
  record {
    recs = [];
    igns = [];
    valid = record {
      rec_queue = tt;
      ign_queue = tt;
      distinct = tt;
      in_pool = λ i h. cc;
      used = λ i h. ground arith;
    };
    arrived = refl;
    ignored = refl;
  },
  refl,
  refl,
)

module _ (s : System) (held live : List ℕ) (v : IsTable s held live) where
  pub found_fresh :
      (n : ℕ)
      → find_empty_pcb s ≡ some n
      → (1 ≤ n) × (n < max_proc) × (has n (held ++ live) ≡ false)
  unfolding find_empty_pcb
  found_fresh n e =
      let (low, high, free) = find_empty_from-some (max_proc - 1) 1 s.proc n e in
      ground (arith, v.free n)

  -- If no entry is free the 31 entries behind `init` are all taken.
  pub found_none : find_empty_pcb s ≡ none → length (held ++ live) ≡ max_proc - 1
  unfolding find_empty_pcb
  found_none e =
      let all =
        le-length_of_all max_proc (0 ∷ held ++ live)
          λ j h. ground (arith, v.free j, find_empty_from-none (max_proc - 1) 1 s.proc e j) in
      let few =
        length-le_of_below max_proc (0 ∷ held ++ live) v.distinct
          λ b i. ground (arith, v.in_table b) in
      omega (arith, all, few)

  -- A free entry is taken.
  pub take_entry-IsTable :
      (n elapsed : ℕ)
      → 1 ≤ n
      → n < max_proc
      → has n (held ++ live) ≡ false
      → IsTable (take_entry n elapsed s) (n ∷ held) live
  unfolding take_entry init_message_pool
  take_entry-IsTable n elapsed low high fresh = record {
    ring = v.ring;
    distinct = ground (arith, v.distinct);
    in_table = λ i h. ground (arith, v.in_table i);
    free = λ i l h. ground (arith, v.free i);
    pids = λ i h. ground (arith, v.pids i);
  }

pub live-Distinct : (s : System) (held live : List ℕ) → IsTable s held live → Distinct (0 ∷ live)
live-Distinct s held live v =
    let (front, back, apart) = Distinct-append_iff (0 ∷ held) live v.distinct in
    (ground (arith, apart 0), back)

-- An entry that is held enters the ring behind all others.
pub make_ready-IsTable :
    (s : System) (n : ℕ) (held live : List ℕ)
    → IsTable s (n ∷ held) live
    → IsTable (make_ready n s) held (live ++ n ∷ [])
unfolding make_ready
make_ready-IsTable s n held live v =
    let e : held ++ (live ++ n ∷ []) ≡ (held ++ live) ++ n ∷ [] =
      sym (append_assoc held live (n ∷ [])) in
    let (front, back, apart) = Distinct-append_iff (n ∷ held) live v.distinct.1 in
    record {
      ring = (
        refl,
        link_before-Linked s.ring 0 n 0 live v.ring.1 (live-Distinct s (n ∷ held) live v)
            (live-Distinct s (n ∷ held) live v).0 (ground (arith, apart n)) (ground arith),
      );
      distinct = (
        rw (e, has-snoc 0 n (held ++ live)) v.distinct.0,
        rw e (snoc-Distinct n (held ++ live) v.distinct.1.0 v.distinct.1.1),
      );
      in_table = λ i. rw (e, has-snoc i n (held ++ live)) (v.in_table i);
      free = λ i l h. rw (e, has-snoc i n (held ++ live)) (ground (arith, v.free i));
      pids = λ i. rw (e, has-snoc i n (held ++ live)) (λ h. ground (arith, v.pids i));
    }
