-- ===== src/Timer/Filled.antt =====
-- The alarm that `new_alarm` has filled in goes into the queue.
use yinyang_os.Base.{
  Distinct, Distinct-append_iff, List, [], ap, arith, false, has, has-append, refl, some, true,
  update, ℕ, ◌++◌, ◌<◌, ◌^◌, ◌∙◌, ◌∷◌, ◌≡◌, ◌≢◌, Bool-cases, inl, inr, leb, length-append,
  length-le_of_below, none, slt32, ◌+◌, ◌≤◌,
}
use yinyang_os.Timer.{Alarm, Timer, nr_process, settle, armed, insert, insert_behind}
use yinyang_os.Timer.Alarms.{Chain, Chain-frame, Entry, IsTimer, Runs, Runs-frame, nodes, node_of}
use yinyang_os.Timer.Insert.{Starts, place, settle-Runs, settle-same}
use yinyang_os.Message.Deposit.{length-map}
use yinyang_os.Timer.Behind.{insert_behind_lem, place-next, place-nil, place-stop}
use yinyang_os.Timer.Walk.{Walking, slt32-small}

has-place :
    (i : ℕ) (e : Entry) (xs : List Entry) (ns : List ℕ)
    → has i (nodes (place e xs) ++ ns) ≡ has i (e.node ∷ nodes xs ++ ns)
unfolding place
has-place i e [] ns = refl
has-place i e (x ∷ xs) ns = ground (arith, has-place i e xs ns)

place-Distinct :
    (e : Entry) (xs : List Entry) (ns : List ℕ)
    → Distinct (e.node ∷ nodes xs ++ ns)
    → Distinct (nodes (place e xs) ++ ns)
unfolding place
place-Distinct e [] ns d = d
place-Distinct e (x ∷ xs) ns d = ground (arith, place-Distinct e xs ns, has-place x.node e xs ns)

-- The alarm `e` is filled in but not yet in the queue.
pub record Filled (t : Timer) (e : Entry) (xs : List Entry) (ns : List ℕ) : Type 0 where
  pub timer : IsTimer t xs ns
  pub pid : (t.pool e.node).pid ≡ e.pid
  pub time : 0 + (t.pool e.node).remain_time ≡ e.due
  pub small : e.due < 2 ^ 31
  pub fresh : has e.node (nodes xs ++ ns) ≡ false
  pub in_pool : e.node < nr_process

place-IsTimer :
    (t t' : Timer) (e : Entry) (xs : List Entry) (ns : List ℕ)
    → Filled t e xs ns
    → Runs t'.pool t'.queue 0 (place e xs)
    → Chain t'.pool t'.free ns
    → IsTimer t' (place e xs) ns
place-IsTimer t t' e xs ns v runs chain = record {
  queued = runs;
  unused = chain;
  distinct = place-Distinct e xs ns (v.fresh, v.timer.distinct);
  in_pool = λ i. rw (has-place i e xs ns) (λ h. ground (arith, v.timer.in_pool i, v.in_pool));
}

apart :
    (t : Timer) (e : Entry) (xs : List Entry) (ns : List ℕ) (i : ℕ)
    → Filled t e xs ns
    → has i ns ≡ true
    → (has i (nodes xs) ≡ false) × (i ≢ e.node)
apart t e xs ns i v h =
    let (_, _, away) = Distinct-append_iff (nodes xs) ns v.timer.distinct in
    (ground (arith, away i), ground (arith, v.fresh, has-append e.node (nodes xs) ns))

-- At the head of the queue.
front_pool : Timer → Entry → ℕ → Alarm
front_pool t e = settle e.node (update t.pool e.node (record (t.pool e.node) { next = t.queue }))

front-IsTimer :
    (t : Timer) (e : Entry) (xs : List Entry) (ns : List ℕ)
    → Filled t e xs ns
    → Starts e.due xs
    → place e xs ≡ e ∷ xs
    → IsTimer (record t { pool = front_pool t e; queue = some e.node }) (place e xs) ns
unfolding front_pool
front-IsTimer t e xs ns v ahead first =
    let q : ℕ → Alarm = update t.pool e.node (record (t.pool e.node) { next = t.queue }) in
    let (front, _, away) = Distinct-append_iff (nodes xs) ns v.timer.distinct in
    let out : has e.node (nodes xs) ≡ false =
      ground (arith, v.fresh, has-append e.node (nodes xs) ns) in
    let here : q e.node ≡ record (t.pool e.node) { next = t.queue } = ground arith in
    let tail : Runs q (q e.node).next 0 xs =
      rw (ap (λ (z : Alarm). z.next) here)
        (Runs-frame t.pool q t.queue 0 xs (λ i h. ground arith) v.timer.queued) in
    place-IsTimer t _ e xs ns v
      (rw first (
        settle-Runs q e 0 xs (ap (λ (z : Alarm). z.pid) here ∙ v.pid)
          (ap (λ (z : Alarm). 0 + z.remain_time) here ∙ v.time) v.small ahead out front tail))
      (Chain-frame t.pool (settle e.node q) t.free ns
        (λ i h.
          settle-same q e.node 0 xs i tail (apart t e xs ns i v h).0
          ∙ ground (arith, (apart t e xs ns i v h).1))
        v.timer.unused)

insert-none :
    (t : Timer) (e : Entry)
    → t.queue ≡ none
    → insert e.node t ≡ armed (record t { pool = front_pool t e; queue = some e.node })
unfolding insert front_pool
insert-none t e h =
    rw (insert, h)
      (ap
        (λ o. armed (record t {
          pool = settle e.node (update t.pool e.node (record (t.pool e.node) { next = o }));
          queue = some e.node;
        }))
        h)

insert-front :
    (t : Timer) (e : Entry) (h : ℕ)
    → t.queue ≡ some h
    → slt32 (t.pool e.node).remain_time (t.pool h).remain_time ≡ true
    → insert e.node t ≡ armed (record t { pool = front_pool t e; queue = some e.node })
unfolding insert front_pool
insert-front t e h q s =
    rw (insert, q, s)
      (ap
        (λ o. armed (record t {
          pool = settle e.node (update t.pool e.node (record (t.pool e.node) { next = o }));
          queue = some e.node;
        }))
        q)

insert-behind :
    (t : Timer) (e : Entry) (h : ℕ) (p : ℕ → Alarm)
    → t.queue ≡ some h
    → slt32 (t.pool e.node).remain_time (t.pool h).remain_time ≡ false
    → insert_behind nr_process e.node h t.pool ≡ some p
    → insert e.node t ≡ armed (record t { pool = p })
unfolding insert
insert-behind t e h p q s b =
    rw (insert, q, s, b) (ap (λ o. armed (record { pool = p; free = t.free; queue = o })) q)

walk :
    (t : Timer) (e x : Entry) (xs : List Entry) (ns : List ℕ)
    → Filled t e (x ∷ xs) ns
    → x.due ≤ e.due
    → Walking t.pool x e 0 nr_process xs
walk t e x xs ns v le =
    let (front, _, _) = Distinct-append_iff (nodes (x ∷ xs)) ns v.timer.distinct in
    let few =
      length-le_of_below nr_process (nodes (x ∷ xs) ++ ns) v.timer.distinct v.timer.in_pool in
    record {
      pid = v.pid;
      time = v.time;
      small = v.small;
      later = le;
      fresh = ground (arith, v.fresh, has-append e.node (nodes (x ∷ xs)) ns);
      distinct = front;
      runs = rw v.timer.queued.0 at v.timer.queued;
      enough = omega (arith, length-append (nodes (x ∷ xs)) ns, length-map node_of xs);
    }

pub insert_lem :
    (t : Timer) (e : Entry) (xs : List Entry) (ns : List ℕ)
    → Filled t e xs ns
    → (t' : Timer) × (insert e.node t ≡ armed t') × IsTimer t' (place e xs) ns
insert_lem t e [] ns v =
    (_, insert-none t e v.timer.queued, front-IsTimer t e [] ns v tt (place-nil e))
insert_lem t e (x ∷ xs) ns v =
    let (q, _, time, small, _) = v.timer.queued in
    let test = slt32-small _ _ 0 e.due x.due v.time time v.small small in
    elim (Bool-cases (leb x.due e.due)) [
      | inl l ↦
          let (p, ins) =
            insert_behind_lem nr_process t.pool x e 0 xs (walk t e x xs ns v (ground arith)) in
          (
            record t { pool = p },
            insert-behind t e x.node p q (rw l at test) ins.result,
            place-IsTimer t _ e (x ∷ xs) ns v (rw (q, place-next e x xs l) ins.runs) (
                Chain-frame t.pool p t.free ns
                  (λ i h. ins.elsewhere i (ground (arith, apart t e (x ∷ xs) ns i v h)))
                  v.timer.unused),
          )
      | inr l ↦ (
        _,
        insert-front t e x.node q (rw l at test),
        front-IsTimer t e (x ∷ xs) ns v (ground arith) (place-stop e x xs l),
      )
    ]
