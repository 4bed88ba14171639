-- ===== src/Waiters/Wake.antt =====
-- `Wake_Up` wakes the processes that wait for one pid, and no others.
use yinyang_os.Base.{
  ==_iff, ==_refl, Bool, Bool-cases, List, [], arith, if◌then◌else◌, inl, inr, ltb, suc, update,
  zero, ℕ, ◌+◌, ◌<◌, ◌==◌, ◌∷◌, ◌≡◌, All, Option, some, true, ◌-◌, ◌≢◌, ap, false, refl, sym, ◌∙◌,
  ◌≤◌,
}
use yinyang_os.Waiters.{Waiter, Waiters, remove, add_waiter, wake_from, wake_up}

-- How many of the first `n` waiters pass a test.
unfoldable pub tally : (Waiter → Bool) → ℕ → (ℕ → Waiter) → ℕ
tally test zero q = 0
tally test (suc n) q = tally test n q + (if test (q n) then 1 else 0)

unfoldable pub count : (Waiter → Bool) → List Waiter → ℕ
count test [] = 0
count test (e ∷ es) = count test es + (if test e then 1 else 0)

tally-update :
    (test : Waiter → Bool) (n : ℕ) (q : ℕ → Waiter) (i : ℕ) (v : Waiter)
    → tally test n (update q i v) + (if ltb i n then (if test (q i) then 1 else 0) else 0)
      ≡ tally test n q + (if ltb i n then (if test v then 1 else 0) else 0)
unfolding tally
tally-update test zero q i v = ground arith
tally-update test (suc n) q i v = elim (Bool-cases (i == n)) [
  | inl e ↦ rw ((==_iff i n).0 e, ==_refl n) (ground (arith, tally-update test n q n v))
  | inr e ↦ ground (arith, tally-update test n q i v)
]

drop_last :
    (test : Waiter → Bool) (i n : ℕ) (q : ℕ → Waiter)
    → i < suc n
    → tally test n (if ltb 1 (suc n) then update q i (q n) else q) + (if test (q i) then 1 else 0)
      ≡ tally test (suc n) q
unfolding tally
drop_last test i zero q h = let e : i ≡ 0 = omega arith in rw e
drop_last test i (suc n) q h =
    let t : ltb 1 (suc (suc n)) ≡ true = ground arith in
    elim (Bool-cases (i == suc n)) [
      | inl e ↦
          rw (t, (==_iff i (suc n)).0 e)
            (ground (arith, tally-update test (suc n) q (suc n) (q (suc n))))
      | inr e ↦ rw t (ground (arith, tally-update test (suc n) q i (q (suc n))))
    ]

remove-tally :
    (test : Waiter → Bool) (i n : ℕ) (q : ℕ → Waiter) (w : Waiters)
    → w ≡ record { queue = q; wq_ptr = suc n }
    → i < suc n
    → tally test (remove i w).wq_ptr (remove i w).queue + (if test (q i) then 1 else 0)
      ≡ tally test (suc n) q
unfolding remove
remove-tally test i n q w e h =
    let s : suc n - 1 ≡ n = omega arith in rw (e, s) (drop_last test i n q h)

-- The waiters that were there are those that are left and those that were woken; the woken ones
-- wait for `pid`, and none of those that are left does.
pub record WakesUp (pid : ℕ) (w : Waiters) (r : Option (List Waiter × Waiters)) : Type 0 where
  pub woken : List Waiter
  pub after : Waiters
  pub result : r ≡ some (woken, after)
  pub total :
      (test : Waiter → Bool)
      → tally test after.wq_ptr after.queue + count test woken ≡ tally test w.wq_ptr w.queue
  pub theirs : All (λ e. e.wait_for ≡ pid) woken
  pub nobody : (j : ℕ) → j < after.wq_ptr → (after.queue j).wait_for ≢ pid

remove_total :
    (test : Waiter → Bool) (i : ℕ) (w : Waiters)
    → i < w.wq_ptr
    → tally test (remove i w).wq_ptr (remove i w).queue + (if test (w.queue i) then 1 else 0)
      ≡ tally test w.wq_ptr w.queue
remove_total test i w h =
    let e : w.wq_ptr ≡ suc (w.wq_ptr - 1) = omega arith in
    remove-tally test i (w.wq_ptr - 1) w.queue w
      (ap (λ n. record { queue = w.queue; wq_ptr = n }) e) (omega arith)
    ∙ ap (λ n. tally test n w.queue) (sym e)

remove_others : (i j : ℕ) (w : Waiters) → j < i → (remove i w).queue j ≡ w.queue j
unfolding remove
remove_others i j w h = ground arith

remove_size : (i : ℕ) (w : Waiters) → (remove i w).wq_ptr ≡ w.wq_ptr - 1
unfolding remove
remove_size i w = refl

wake-stop :
    (f pid i : ℕ) (w : Waiters) → ltb i w.wq_ptr ≡ false → wake_from (suc f) pid i w ≡ some ([], w)
unfolding wake_from
wake-stop f pid i w t = rw (wake_from, t)

wake-hit :
    (f pid i : ℕ) (w w' : Waiters) (es : List Waiter)
    → ltb i w.wq_ptr ≡ true
    → ((w.queue i).wait_for == pid) ≡ true
    → wake_from f pid i (remove i w) ≡ some (es, w')
    → wake_from (suc f) pid i w ≡ some (w.queue i ∷ es, w')
unfolding wake_from
wake-hit f pid i w w' es t h e = rw (wake_from, t, h, e) (rw h)

wake-miss :
    (f pid i : ℕ) (w w' : Waiters) (es : List Waiter)
    → ltb i w.wq_ptr ≡ true
    → ((w.queue i).wait_for == pid) ≡ false
    → wake_from f pid (i + 1) w ≡ some (es, w')
    → wake_from (suc f) pid i w ≡ some (es, w')
unfolding wake_from
wake-miss f pid i w w' es t h e = rw (wake_from, t, h, e) (rw h)

not-same : (a b : ℕ) → (a == b) ≡ false → a ≢ b
not-same a b h = ground arith

wake_from_lem :
    (f pid i : ℕ) (w : Waiters)
    → i ≤ w.wq_ptr
    → w.wq_ptr < i + f
    → ((j : ℕ) → j < i → (w.queue j).wait_for ≢ pid)
    → WakesUp pid w (wake_from f pid i w)
unfolding count
wake_from_lem zero pid i w le few past = absurd (omega arith)
wake_from_lem (suc f) pid i w le few past = elim (Bool-cases (ltb i w.wq_ptr)) [
  | inr t ↦ record {
    woken = [];
    after = w;
    result = wake-stop f pid i w t;
    total = λ test. omega arith;
    theirs = tt;
    nobody = λ j h. past j (ground arith);
  }
  | inl t ↦ elim (Bool-cases ((w.queue i).wait_for == pid)) [
    | inl h ↦
        (let x =
            wake_from_lem f pid i (remove i w) (ground (arith, remove_size i w))
              (ground (arith, remove_size i w)) (λ j l. rw (remove_others i j w l) (past j l)) in
          record {
            woken = w.queue i ∷ x.woken;
            after = x.after;
            result = wake-hit f pid i w x.after x.woken t h x.result;
            total = λ test. omega (arith, x.total test, remove_total test i w (ground arith));
            theirs = ((==_iff (w.queue i).wait_for pid).0 h, x.theirs);
            nobody = x.nobody;
          })
    | inr h ↦
        (let x = wake_from_lem f pid (i + 1) w (ground arith) (omega arith) (λ j l.
            elim (Bool-cases (j == i)) [
              | inl k ↦ rw ((==_iff j i).0 k) (not-same (w.queue i).wait_for pid h)
              | inr k ↦ past j (ground arith)
            ]) in
          record {
            woken = x.woken;
            after = x.after;
            result = wake-miss f pid i w x.after x.woken t h x.result;
            total = x.total;
            theirs = x.theirs;
            nobody = x.nobody;
          })
  ]
]

-- `Wake_Up` wakes every process that waits for `pid` and no other, and those are left that wait for
-- another one: together the woken and the rest are the waiters that there were.
pub wake_up_lem : (pid : ℕ) (w : Waiters) → WakesUp pid w (wake_up pid w)
unfolding wake_up
wake_up_lem pid w =
    wake_from_lem (w.wq_ptr + 1) pid 0 w (omega arith) (omega arith) (λ j l. ground arith)

-- After `Sleep` the waiters that pass any test are those that passed it before, and the new one if it
-- passes.
pub add_waiter_lem :
    (pid wait_for : ℕ) (w : Waiters) (test : Waiter → Bool)
    → tally test (add_waiter pid wait_for w).wq_ptr (add_waiter pid wait_for w).queue
      ≡ tally test w.wq_ptr w.queue
        + (if test (record { pid = pid; wait_for = wait_for }) then 1 else 0)
unfolding add_waiter tally
add_waiter_lem pid wait_for w test =
    let e : w.wq_ptr + 1 ≡ suc w.wq_ptr = omega arith in
    let v : Waiter = record { pid = pid; wait_for = wait_for } in
    rw (e, ==_refl w.wq_ptr) (ground (arith, tally-update test w.wq_ptr w.queue w.wq_ptr v))
