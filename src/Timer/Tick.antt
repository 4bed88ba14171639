-- ===== src/Timer/Tick.antt =====
-- What a tick of the clock does to the alarms.
use yinyang_os.Base.{
  List, Option, [], ap, arith, false, has, has-append, has-middle, if◌then◌else◌, leb,
  middle-Distinct, refl, update, ℕ, ◌-◌, ◌==◌, ◌∷◌, ◌≡◌, ◌≤◌,
}
use yinyang_os.Timer.{Alarm, Timer, pop_alarm}
use yinyang_os.Timer.Alarms.{Chain-frame, Entry, IsTimer, Runs, Runs-frame, nodes}

-- The specification of a tick: the processes whose alarms fire, and the alarms that are left.
unfoldable pub fired : List Entry → List ℕ
fired [] = []
fired (e ∷ xs) = let rest = fired xs in if leb e.due 1 then e.pid ∷ rest else rest

unfoldable pub left : List Entry → List Entry
left [] = []
left (e ∷ xs) =
    let rest = left xs in if leb e.due 1 then rest else record e { due = e.due - 1 } ∷ rest

-- The alarms a tick later, before any fires.
unfoldable pub ticked : List Entry → List Entry
ticked [] = []
ticked (e ∷ xs) = record e { due = e.due - 1 } ∷ ticked xs

unfoldable pub now : List Entry → List ℕ
now [] = []
now (e ∷ xs) = let rest = now xs in if e.due == 0 then e.pid ∷ rest else rest

unfoldable pub later : List Entry → List Entry
later [] = []
later (e ∷ xs) = let rest = later xs in if e.due == 0 then rest else e ∷ rest

pub fired-ticked : (xs : List Entry) → (now (ticked xs) ≡ fired xs) × (later (ticked xs) ≡ left xs)
unfolding now later ticked fired left
fired-ticked [] = (refl, refl)
fired-ticked (e ∷ xs) = let r = fired-ticked xs in (ground arith, ground arith)

pub nodes-ticked : (xs : List Entry) → nodes (ticked xs) ≡ nodes xs
unfolding ticked
nodes-ticked [] = refl
nodes-ticked (e ∷ xs) = ap (λ r. e.node ∷ r) (nodes-ticked xs)

-- If time passes before the first alarm, none fires now.
pub none_now :
    (p : ℕ → Alarm) (o : Option ℕ) (base : ℕ) (xs : List Entry)
    → 1 ≤ base
    → Runs p o base xs
    → (now xs ≡ []) × (later xs ≡ xs)
unfolding now later
none_now p o base [] h r = (refl, refl)
none_now p o base (e ∷ xs) h (_, _, time, _, r) =
    let (a, b) = none_now p (p e.node).next e.due xs (omega arith) r in (ground arith, ground arith)

pub ticked-Runs :
    (p : ℕ → Alarm) (o : Option ℕ) (base : ℕ) (xs : List Entry)
    → 1 ≤ base
    → Runs p o base xs
    → Runs p o (base - 1) (ticked xs)
unfolding ticked
ticked-Runs p o base [] h r = r
ticked-Runs p o base (e ∷ xs) h (a, b, time, small, r) =
    (a, b, omega arith, omega arith, ticked-Runs p (p e.node).next e.due xs (omega arith) r)

pub pop_alarm-IsTimer :
    (t : Timer) (e : Entry) (xs : List Entry) (ns : List ℕ)
    → IsTimer t (e ∷ xs) ns
    → e.due ≡ 0
    → IsTimer (pop_alarm e.node t) xs (e.node ∷ ns)
unfolding pop_alarm
pop_alarm-IsTimer t e xs ns v zero_due =
    let q : ℕ → Alarm = update t.pool e.node (record (t.pool e.node) { next = t.free }) in
    let out : (has e.node (nodes xs) ≡ false) × (has e.node ns ≡ false) =
      ground (arith, v.distinct.0, has-append e.node (nodes xs) ns) in
    let next : (q e.node).next ≡ t.free = ground arith in
    record {
      queued =
          rw zero_due at
            (Runs-frame t.pool q (t.pool e.node).next e.due xs (λ i h. ground arith) v.queued.4);
      unused = (refl, rw next (Chain-frame t.pool q t.free ns (λ i h. ground arith) v.unused));
      distinct = middle-Distinct e.node (nodes xs) ns v.distinct;
      in_pool = λ i h. ground (arith, v.in_pool i, has-middle i e.node (nodes xs) ns);
    }
