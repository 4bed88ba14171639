-- ===== src/Timer/Arm.antt =====
-- `new_alarm` keeps the alarms in order.
use yinyang_os.Base.{
  Distinct-append_iff, Distinct-middle, List, [], arith, has-middle, none, some, u32_mod, update, ℕ,
  ◌%◌, ◌*◌, ◌<◌, ◌^◌, ◌∷◌, ◌≡◌,
}
use yinyang_os.Timer.{Armed, Timer, armed, insert, new_alarm, no_alarm}
use yinyang_os.Timer.Alarms.{Chain-frame, Entry, IsTimer, Runs-frame, nodes}
use yinyang_os.Timer.Filled.{Filled, insert_lem}
use yinyang_os.Timer.Insert.{place}

abbrev entry : ℕ → ℕ → ℕ → Entry
entry n pid second = record { node = n; pid = pid; due = second * 100 }

-- What `new_alarm` may come to: an alarm is taken from the free list and stands behind those that
-- fire no later; or there is none, and the source follows a NULL pointer.
abbrev pub Arms : (pid second : ℕ) → List Entry → List ℕ → Armed → Type 0
Arms pid second xs (n ∷ ns) (armed t) = IsTimer t (place (entry n pid second) xs) ns
Arms pid second xs [] no_alarm = Unit
Arms pid second xs _ _ = ⊥

-- The state in which `insert` is called.
filled : ℕ → ℕ → ℕ → Timer → Timer
filled n pid second t = record t {
  free = (t.pool n).next;
  pool = update t.pool n (record (t.pool n) { remain_time = second * 100 % u32_mod; pid = pid });
}

new_alarm-some :
    (n pid second : ℕ) (t : Timer)
    → t.free ≡ some n
    → new_alarm pid second t ≡ insert n (filled n pid second t)
unfolding new_alarm filled
new_alarm-some n pid second t e = rw (new_alarm, e)

new_alarm-none : (pid second : ℕ) (t : Timer) → t.free ≡ none → new_alarm pid second t ≡ no_alarm
unfolding new_alarm
new_alarm-none pid second t e = rw (new_alarm, e)

Filled-filled :
    (n pid second : ℕ) (t : Timer) (xs : List Entry) (ns : List ℕ)
    → IsTimer t xs (n ∷ ns)
    → second * 100 < 2 ^ 31
    → Filled (filled n pid second t) (entry n pid second) xs ns
unfolding filled
Filled-filled n pid second t xs ns v small =
    let (front, back, away) = Distinct-append_iff (nodes xs) (n ∷ ns) v.distinct in
    let same = λ (i : ℕ). has-middle i n (nodes xs) ns in
    record {
      timer = record {
        queued =
            Runs-frame t.pool (filled n pid second t).pool t.queue 0 xs
              (λ i h. ground (arith, away i)) v.queued;
        unused =
            Chain-frame t.pool (filled n pid second t).pool (t.pool n).next ns
              (λ i h. ground (arith, back.0)) v.unused.1;
        distinct = (Distinct-middle n (nodes xs) ns v.distinct).1;
        in_pool = λ i h. ground (arith, v.in_pool i, same i);
      };
      pid = ground arith;
      time = ground arith;
      small = small;
      fresh = (Distinct-middle n (nodes xs) ns v.distinct).0;
      in_pool = ground (arith, v.in_pool n, same n);
    }

-- With the alarms in order and fewer than 2^31 ticks, `new_alarm` takes an alarm from the free list
-- and puts it behind all alarms that fire no later, with the alarms still in order and due when they
-- were; or the free list is empty, and it follows a NULL pointer.
pub new_alarm_lem :
    (pid second : ℕ) (t : Timer) (xs : List Entry) (ns : List ℕ)
    → IsTimer t xs ns
    → second * 100 < 2 ^ 31
    → Arms pid second xs ns (new_alarm pid second t)
new_alarm_lem pid second t xs [] v small = rw (new_alarm-none pid second t v.unused) tt
new_alarm_lem pid second t xs (n ∷ ns) v small =
    let (t', e, v') =
      insert_lem (filled n pid second t) (entry n pid second) xs ns
        (Filled-filled n pid second t xs ns v small) in
    rw (new_alarm-some n pid second t v.unused.0, e) v'
