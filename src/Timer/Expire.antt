-- ===== src/Timer/Expire.antt =====
-- `timer_intr` fires the alarms whose time has come.
-- What a run of the loop leaves: no alarm is lost.
use yinyang_os.Base.{
  ==_iff, Bool-cases, List, [], arith, false, inl, inr, length, none, not, refl, slt32, some, suc,
  true, zero, ℕ, ◌+◌, ◌<◌, ◌==◌, ◌^◌, ◌∷◌, ◌≡◌, All, Distinct-append_iff, ap, length-le_of_below,
  sub32, update, ◌++◌, ◌∙◌, ◌≤◌, length-append, sym,
}
use yinyang_os.Timer.{Timer, expire, pop_alarm, Alarm, nr_process, timer_intr}
use yinyang_os.Timer.Alarms.{Entry, IsTimer, Chain-frame, Runs-frame, nodes, node_of}
use yinyang_os.Timer.Tick.{
  later, none_now, now, pop_alarm-IsTimer, fired, fired-ticked, left, nodes-ticked, ticked,
  ticked-Runs,
}
use yinyang_os.Message.Deposit.{length-map}

pub record Expires (f : ℕ) (t : Timer) (ps : List ℕ) (xs : List Entry) (size : ℕ) : Type 0 where
  pub after : Timer
  pub ns : List ℕ
  pub result : expire f t ≡ some (ps, after)
  pub timer : IsTimer after xs ns
  pub all_kept : length xs + length ns ≡ size

expire-stop :
    (f h : ℕ) (t : Timer)
    → t.queue ≡ some h
    → slt32 0 (t.pool h).remain_time ≡ true
    → expire (suc f) t ≡ some ([], t)
unfolding expire
expire-stop f h t q s = rw (expire, q, s) (ap (λ o. some ([], record t { queue = o })) q)

expire-none : (f : ℕ) (t : Timer) → t.queue ≡ none → expire (suc f) t ≡ some ([], t)
unfolding expire
expire-none f t q = rw (expire, q) (ap (λ o. some ([], record t { queue = o })) q)

expire-next :
    (f h : ℕ) (t : Timer) (ps : List ℕ) (t' : Timer)
    → t.queue ≡ some h
    → slt32 0 (t.pool h).remain_time ≡ false
    → expire f (pop_alarm h t) ≡ some (ps, t')
    → expire (suc f) t ≡ some ((t.pool h).pid ∷ ps, t')
unfolding expire
expire-next f h t ps t' q s r = rw (expire, q, s, r)

-- The test of the loop at the head of the queue.
overdue : (r due : ℕ) → 0 + r ≡ due → due < 2 ^ 31 → slt32 0 r ≡ not (due == 0)
overdue r due e h = ground arith

now-cons :
    (e : Entry) (xs : List Entry)
    → (e.due == 0) ≡ true
    → (now (e ∷ xs) ≡ e.pid ∷ now xs) × (later (e ∷ xs) ≡ later xs)
unfolding now later
now-cons e xs h = (rw h, rw h)

none_now-cons :
    (t : Timer) (e : Entry) (xs : List Entry) (ns : List ℕ)
    → IsTimer t (e ∷ xs) ns
    → (e.due == 0) ≡ false
    → (now (e ∷ xs) ≡ []) × (later (e ∷ xs) ≡ e ∷ xs)
unfolding now later
none_now-cons t e xs ns v h =
    let (a, b) = none_now t.pool (t.pool e.node).next e.due xs (ground arith) v.queued.4 in
    (rw (h, a), rw (h, b))

pub expire_lem :
    (f : ℕ) (t : Timer) (xs : List Entry) (ns : List ℕ)
    → IsTimer t xs ns
    → length xs < f
    → Expires f t (now xs) (later xs) (length xs + length ns)
unfolding now later
expire_lem zero t xs ns v h = absurd (omega arith)
expire_lem (suc f) t [] ns v h = record {
  after = t;
  ns = ns;
  result = expire-none f t v.queued;
  timer = v;
  all_kept = refl;
}
expire_lem (suc f) t (e ∷ xs) ns v h =
    let (q, pid, time, small, _) = v.queued in
    let test = overdue (t.pool e.node).remain_time e.due time small in
    elim (Bool-cases (e.due == 0)) [
      | inl z ↦
          let x =
            expire_lem f (pop_alarm e.node t) xs (e.node ∷ ns)
              (pop_alarm-IsTimer t e xs ns v ((==_iff e.due 0).0 z)) (omega arith) in
          rw ((now-cons e xs z).0, (now-cons e xs z).1, ← pid)
            record {
              after = x.after;
              ns = x.ns;
              result = expire-next f e.node t (now xs) x.after q (rw z at test) x.result;
              timer = x.timer;
              all_kept = omega (arith, x.all_kept);
            }
      | inr z ↦
          let (a, b) = none_now-cons t e xs ns v z in
          rw (a, b)
            record {
              after = t;
              ns = ns;
              result = expire-stop f e.node t q (rw z at test);
              timer = v;
              all_kept = refl;
            }
    ]

-- The state after the head of the queue has lost a tick.
lowered : ℕ → Timer → Timer
lowered h t = record t {
  pool = update t.pool h (record (t.pool h) { remain_time = sub32 (t.pool h).remain_time 1 });
}

timer_intr-none : (t : Timer) → t.queue ≡ none → timer_intr t ≡ some ([], t)
unfolding timer_intr
timer_intr-none t q = rw (timer_intr, q) (ap (λ o. some ([], record t { queue = o })) q)

timer_intr-some :
    (h : ℕ) (t : Timer) → t.queue ≡ some h → timer_intr t ≡ expire (nr_process + 1) (lowered h t)
unfolding timer_intr lowered
timer_intr-some h t q =
    rw (timer_intr, q) (ap (λ o. expire (nr_process + 1) (record (lowered h t) { queue = o })) q)

lowered-IsTimer :
    (t : Timer) (e : Entry) (xs : List Entry) (ns : List ℕ)
    → IsTimer t (e ∷ xs) ns
    → 1 ≤ e.due
    → IsTimer (lowered e.node t) (ticked (e ∷ xs)) ns
unfolding lowered ticked
lowered-IsTimer t e xs ns v h =
    let (front, _, away) = Distinct-append_iff (nodes (e ∷ xs)) ns v.distinct in
    let q : ℕ → Alarm = (lowered e.node t).pool in
    let (link, pid, time, small, r) = v.queued in
    let next : (q e.node).next ≡ (t.pool e.node).next = ground arith in
    record {
      queued = (
        link,
        ground arith,
        ground arith,
        omega arith,
        rw next (
            ticked-Runs q (t.pool e.node).next e.due xs h
              (Runs-frame t.pool q (t.pool e.node).next e.due xs (λ i k. ground arith) r)),
      );
      unused = Chain-frame t.pool q t.free ns (λ i k. ground (arith, away i)) v.unused;
      distinct = rw (nodes-ticked xs) v.distinct;
      in_pool = rw (nodes-ticked xs) v.in_pool;
    }

length-ticked : (xs : List Entry) → length (ticked xs) ≡ length xs
unfolding ticked
length-ticked [] = refl
length-ticked (e ∷ xs) = ap suc (length-ticked xs)

-- With the alarms in order and none overdue, a tick fires the alarms that are due, in their order,
-- and leaves the others in order and a tick nearer; no alarm of the pool is lost.
pub timer_intr_lem :
    (t : Timer) (xs : List Entry) (ns : List ℕ)
    → IsTimer t xs ns
    → All (λ e. 1 ≤ e.due) xs
    → (t' : Timer) × (ns' : List ℕ) × (timer_intr t ≡ some (fired xs, t'))
      × IsTimer t' (left xs) ns'
      × (length (left xs) + length ns' ≡ length xs + length ns)
unfolding fired left
timer_intr_lem t [] ns v h = (t, ns, timer_intr-none t v.queued, v, refl)
timer_intr_lem t (e ∷ xs) ns v h =
    let v' = lowered-IsTimer t e xs ns v h.0 in
    let few = length-le_of_below nr_process (nodes (e ∷ xs) ++ ns) v.distinct v.in_pool in
    let x = expire_lem (nr_process + 1) (lowered e.node t) (ticked (e ∷ xs)) ns v' (
      omega (
        arith,
        few,
        length-ticked (e ∷ xs),
        length-append (nodes (e ∷ xs)) ns,
        length-map node_of (e ∷ xs),
      )) in
    let (a, b) = fired-ticked (e ∷ xs) in
    (
      x.after,
      x.ns,
      timer_intr-some e.node t v.queued.0 ∙ x.result ∙ ap (λ ps. some (ps, x.after)) a,
      rw b at x.timer,
      ap (λ ys. length ys + length x.ns) (sym b)
          ∙ x.all_kept
          ∙ ap (λ k. k + length ns) (length-ticked (e ∷ xs)),
    )
