-- ===== src/Timer/Start.antt =====
-- `init_alarm` puts all alarms into the free list.
use yinyang_os.Base.{
  Distinct, List, [], arith, has, leb, ltb, none, refl, some, suc, zero, ℕ, ◌&&◌, ◌+◌, ◌-◌, ◌<◌,
  ◌∙◌, ◌∷◌, ◌≡◌,
}
use yinyang_os.Timer.{Timer, init_alarm, nr_process}
use yinyang_os.Timer.Alarms.{Chain, IsTimer}

unfoldable pub indices : (n from : ℕ) → List ℕ
indices zero from = []
indices (suc n) from = from ∷ indices n (from + 1)

has-indices : (i n from : ℕ) → has i (indices n from) ≡ leb from i && ltb i (from + n)
unfolding indices
has-indices i zero from = ground arith
has-indices i (suc n) from = ground (arith, has-indices i n (from + 1))

indices-Distinct : (n from : ℕ) → Distinct (indices n from)
unfolding indices
indices-Distinct zero from = tt
indices-Distinct (suc n) from =
    (ground (arith, has-indices from n (from + 1)), indices-Distinct n (from + 1))

init_alarm-next :
    (t : Timer) (i : ℕ) → i < nr_process - 1 → ((init_alarm t).pool i).next ≡ some (i + 1)
unfolding init_alarm
init_alarm-next t i h = ground arith

init_alarm-last :
    (t : Timer) → ((init_alarm t).pool (nr_process - 1)).next ≡ (t.pool (nr_process - 1)).next
unfolding init_alarm
init_alarm-last t = refl

init_alarm-Chain :
    (t : Timer) (n from : ℕ)
    → (t.pool (nr_process - 1)).next ≡ none
    → from + suc n ≡ nr_process
    → Chain (init_alarm t).pool (some from) (indices (suc n) from)
unfolding indices
init_alarm-Chain t zero from h e =
    let last : from ≡ nr_process - 1 = omega arith in (refl, rw last (init_alarm-last t ∙ h))
init_alarm-Chain t (suc n) from h e = (
  refl,
  rw (init_alarm-next t from (omega arith)) (init_alarm-Chain t n (from + 1) h (omega arith)),
)

-- From a pool whose last alarm has no successor, as the loader leaves it, `init_alarm` makes a timer
-- in order, with no alarm in the queue and all 32 in the free list.
pub init_alarm-IsTimer :
    (t : Timer)
    → (t.pool (nr_process - 1)).next ≡ none
    → IsTimer (init_alarm t) [] (indices nr_process 0)
unfolding init_alarm
init_alarm-IsTimer t h = record {
  queued = refl;
  unused = init_alarm-Chain t (nr_process - 1) 0 h refl;
  distinct = indices-Distinct nr_process 0;
  in_pool = λ i k. ground (arith, has-indices i nr_process 0);
}
