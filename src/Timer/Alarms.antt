-- ===== src/Timer/Alarms.antt =====
-- The alarms of kernel/drivers/timer.c by the absolute time that is left for each.
use yinyang_os.Base.{
  Distinct, List, Option, [], ap, arith, has, map, none, some, true, ℕ, ◌++◌, ◌+◌, ◌<◌, ◌^◌, ◌∙◌,
  ◌∷◌, ◌≡◌,
}
use yinyang_os.Timer.{Alarm, Timer, nr_process}

-- An alarm of the queue: its place in the pool, its process, and the ticks until it fires.
pub record Entry : Type 0 where
  pub node : ℕ
  pub pid : ℕ
  pub due : ℕ

abbrev pub node_of : Entry → ℕ
node_of e = e.node

-- From `o` the pool holds the alarms `xs`, where `base` ticks have passed in front of the first.
abbrev pub Runs : (ℕ → Alarm) → Option ℕ → ℕ → List Entry → Type 0
Runs pool o base [] = o ≡ none
Runs pool o base (e ∷ xs) =
    (o ≡ some e.node)
    × ((pool e.node).pid ≡ e.pid)
    × (base + (pool e.node).remain_time ≡ e.due)
    × (e.due < 2 ^ 31)
    × Runs pool (pool e.node).next e.due xs

-- From `o` the links lead through the alarms `ns` to the end.
abbrev pub Chain : (ℕ → Alarm) → Option ℕ → List ℕ → Type 0
Chain pool o [] = o ≡ none
Chain pool o (n ∷ ns) = (o ≡ some n) × Chain pool (pool n).next ns

abbrev pub nodes : List Entry → List ℕ
nodes xs = map node_of xs

-- The queue holds the alarms `xs` in the order in which they fire, the other list holds `ns`, and
-- together they are alarms of the pool.
pub record IsTimer (t : Timer) (xs : List Entry) (ns : List ℕ) : Type 0 where
  pub queued : Runs t.pool t.queue 0 xs
  pub unused : Chain t.pool t.free ns
  pub distinct : Distinct (nodes xs ++ ns)
  pub in_pool : (i : ℕ) → has i (nodes xs ++ ns) ≡ true → i < nr_process

pub Runs-frame :
    (p q : ℕ → Alarm) (o : Option ℕ) (base : ℕ) (xs : List Entry)
    → ((i : ℕ) → has i (nodes xs) ≡ true → q i ≡ p i)
    → Runs p o base xs
    → Runs q o base xs
Runs-frame p q o base [] same r = r
Runs-frame p q o base (e ∷ xs) same (a, b, c, d, r) =
    let here : q e.node ≡ p e.node = same e.node (ground arith) in
    (
      a,
      ap (λ (x : Alarm). x.pid) here ∙ b,
      rw here c,
      d,
      rw here (Runs-frame p q (p e.node).next e.due xs (λ i h. same i (ground arith)) r),
    )

pub Chain-frame :
    (p q : ℕ → Alarm) (o : Option ℕ) (ns : List ℕ)
    → ((i : ℕ) → has i ns ≡ true → q i ≡ p i)
    → Chain p o ns
    → Chain q o ns
Chain-frame p q o [] same r = r
Chain-frame p q o (n ∷ ns) same (a, r) =
    let here : q n ≡ p n = same n (ground arith) in
    (a, rw here (Chain-frame p q (p n).next ns (λ i h. same i (ground arith)) r))
