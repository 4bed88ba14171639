-- ===== src/Timer/Insert.antt =====
-- `new_alarm` puts an alarm in its place in the queue.
use yinyang_os.Base.{
  Distinct, List, [], arith, false, has, if◌then◌else◌, leb, none, refl, some, sub32, update, ℕ,
  ◌+◌, ◌<◌, ◌^◌, ◌∷◌, ◌≡◌, ◌≤◌, ap, sym, ◌∙◌,
}
use yinyang_os.Timer.{Alarm, settle}
use yinyang_os.Timer.Alarms.{Entry, Runs, nodes, Runs-frame}
use mathlib.Core.Path.{subst}

-- The specification: behind the alarms that fire no later.
unfoldable pub place : Entry → List Entry → List Entry
place e [] = e ∷ []
place e (x ∷ xs) = let rest = place e xs in if leb x.due e.due then x ∷ rest else e ∷ x ∷ xs

abbrev pub Starts : ℕ → List Entry → Type 0
Starts due [] = Unit
Starts due (x ∷ xs) = due ≤ x.due

settle-none : (ptr : ℕ) (q : ℕ → Alarm) → (q ptr).next ≡ none → settle ptr q ≡ q
unfolding settle
settle-none ptr q e = rw (settle, e)

settle-some :
    (ptr n : ℕ) (q : ℕ → Alarm)
    → (q ptr).next ≡ some n
    → settle ptr q
      ≡ update q n (record (q n) { remain_time = sub32 (q n).remain_time (q ptr).remain_time })
unfolding settle
settle-some ptr n q e = rw (settle, e)

-- The alarm that is linked in front of `xs` becomes the first of the queue.
counted-Runs :
    (q : ℕ → Alarm) (e x : Entry) (base : ℕ) (xs : List Entry)
    → (q e.node).pid ≡ e.pid
    → base + (q e.node).remain_time ≡ e.due
    → e.due < 2 ^ 31
    → e.due ≤ x.due
    → has e.node (nodes (x ∷ xs)) ≡ false
    → Distinct (nodes (x ∷ xs))
    → Runs q (q e.node).next base (x ∷ xs)
    → Runs
        (update q x.node
          (record (q x.node) { remain_time = sub32 (q x.node).remain_time (q e.node).remain_time }))
        (some e.node)
        base
        (e ∷ x ∷ xs)
counted-Runs q e x base xs a b c later fresh d (link, pid, time, less, r) =
    let r' : ℕ → Alarm =
      update q x.node
        (record (q x.node) { remain_time = sub32 (q x.node).remain_time (q e.node).remain_time }) in
    let away : r' e.node ≡ q e.node = ground arith in
    let next : (r' x.node).next ≡ (q x.node).next = ground arith in
    (
      refl,
      ap (λ (z : Alarm). z.pid) away ∙ a,
      ap (λ (z : Alarm). base + z.remain_time) away ∙ b,
      c,
      (
        ap (λ (z : Alarm). z.next) away ∙ link,
        ground arith,
        ground arith,
        less,
        rw next (Runs-frame q r' (q x.node).next x.due xs (λ i h. ground arith) r),
      ),
    )

pub settle-Runs :
    (q : ℕ → Alarm) (e : Entry) (base : ℕ) (xs : List Entry)
    → (q e.node).pid ≡ e.pid
    → base + (q e.node).remain_time ≡ e.due
    → e.due < 2 ^ 31
    → Starts e.due xs
    → has e.node (nodes xs) ≡ false
    → Distinct (nodes xs)
    → Runs q (q e.node).next base xs
    → Runs (settle e.node q) (some e.node) base (e ∷ xs)
settle-Runs q e base [] a b c later fresh d r = rw (settle-none e.node q r) (refl, a, b, c, r)
settle-Runs q e base (x ∷ xs) a b c later fresh d r =
    subst (λ z. Runs z (some e.node) base (e ∷ x ∷ xs)) (sym (settle-some e.node x.node q r.0))
      (counted-Runs q e x base xs a b c later fresh d r)

pub settle-same :
    (q : ℕ → Alarm) (ptr : ℕ) (base : ℕ) (xs : List Entry) (i : ℕ)
    → Runs q (q ptr).next base xs
    → has i (nodes xs) ≡ false
    → settle ptr q i ≡ q i
settle-same q ptr base [] i r out = rw (settle-none ptr q r)
settle-same q ptr base (x ∷ xs) i r out = rw (settle-some ptr x.node q r.0) (ground arith)
