-- ===== src/Timer/Walk.antt =====
-- The loop of `new_alarm` finds the place of an alarm behind the head of the queue.
use yinyang_os.Base.{
  Distinct, List, ap, arith, false, has, none, refl, slt32, some, suc, true, ℕ, ◌+◌, ◌<◌, ◌^◌, ◌∙◌,
  ◌∷◌, ◌≡◌, ◌≢◌, leb, length, not, ◌≤◌,
}
use yinyang_os.Timer.{Alarm, find_place, insert_behind, lessen, link_after, settle}
use yinyang_os.Timer.Alarms.{Entry, Runs, Runs-frame, nodes}
use yinyang_os.Timer.Insert.{Starts, settle-Runs, settle-same, place}

-- Only `ptr`, the alarm `cnt` and those behind it may change.
abbrev pub Elsewhere : ℕ → ℕ → List Entry → (ℕ → Alarm) → (ℕ → Alarm) → Type 0
Elsewhere ptr cnt xs p q = (i : ℕ) → has i (ptr ∷ cnt ∷ nodes xs) ≡ false → q i ≡ p i

-- The alarm `e`, with the time that remains behind `c`, is linked between `c` and `xs`.
module _ (p : ℕ → Alarm) (c e : Entry) (base : ℕ) (xs : List Entry) where
  linked : ℕ → Alarm
  linked = link_after e.node c.node p

  linked_facts :
      c.node ≢ e.node
      → (linked e.node ≡ record (p e.node) { next = (p c.node).next })
        × (linked c.node ≡ record (p c.node) { next = some e.node })
        × ((i : ℕ) → i ≢ e.node → i ≢ c.node → linked i ≡ p i)
  unfolding linked link_after
  linked_facts ne = (ground arith, ground arith, λ i a b. ground arith)

  spliced-Runs :
      (p e.node).pid ≡ e.pid
      → c.due + (p e.node).remain_time ≡ e.due
      → e.due < 2 ^ 31
      → Starts e.due xs
      → has e.node (nodes (c ∷ xs)) ≡ false
      → Distinct (nodes (c ∷ xs))
      → Runs p (some c.node) base (c ∷ xs)
      → Runs (settle e.node linked) (some c.node) base (c ∷ e ∷ xs)
        × Elsewhere e.node c.node xs p (settle e.node linked)
  spliced-Runs a b less later fresh d (link, pid, time, small, r) =
      let (here, there, same) = linked_facts (ground arith) in
      let next : (linked e.node).next ≡ (p c.node).next = ap (λ (z : Alarm). z.next) here in
      let tail : Runs linked (linked e.node).next c.due xs = rw next (
        Runs-frame p linked (p c.node).next c.due xs (λ i h. same i (ground arith) (ground arith))
          r) in
      let kept : settle e.node linked c.node ≡ linked c.node =
        settle-same linked e.node c.due xs c.node tail d.0 in
      (
        (
          refl,
          ap (λ (z : Alarm). z.pid) (kept ∙ there) ∙ pid,
          ap (λ (z : Alarm). base + z.remain_time) (kept ∙ there) ∙ time,
          small,
          rw (ap (λ (z : Alarm). z.next) (kept ∙ there)) (
              settle-Runs linked e c.due xs (ap (λ (z : Alarm). z.pid) here ∙ a)
                (ap (λ (z : Alarm). c.due + z.remain_time) here ∙ b) less later (ground arith) d.1
                tail),
        ),
        λ i out.
            settle-same linked e.node c.due xs i tail (ground arith)
            ∙ same i (ground arith) (ground arith),
      )

-- What the loop does at each alarm.
pub find_place-end :
    (f ptr cnt : ℕ) (p : ℕ → Alarm)
    → (lessen ptr cnt p cnt).next ≡ none
    → insert_behind (suc f) ptr cnt p ≡ some (settle ptr (link_after ptr cnt (lessen ptr cnt p)))
unfolding insert_behind find_place
find_place-end f ptr cnt p e = rw (insert_behind, find_place, e)

pub find_place-stop :
    (f ptr cnt n : ℕ) (p : ℕ → Alarm)
    → (lessen ptr cnt p cnt).next ≡ some n
    → slt32 (lessen ptr cnt p ptr).remain_time (lessen ptr cnt p n).remain_time ≡ true
    → insert_behind (suc f) ptr cnt p ≡ some (settle ptr (link_after ptr cnt (lessen ptr cnt p)))
unfolding insert_behind find_place
find_place-stop f ptr cnt n p e t = rw (insert_behind, find_place, e, t)

pub find_place-next :
    (f ptr cnt n : ℕ) (p : ℕ → Alarm)
    → (lessen ptr cnt p cnt).next ≡ some n
    → slt32 (lessen ptr cnt p ptr).remain_time (lessen ptr cnt p n).remain_time ≡ false
    → insert_behind (suc f) ptr cnt p ≡ insert_behind f ptr n (lessen ptr cnt p)
unfolding insert_behind find_place
find_place-next f ptr cnt n p e t = rw (insert_behind, find_place, e, t)

pub lessen_same : (ptr cnt : ℕ) (p : ℕ → Alarm) (i : ℕ) → i ≢ ptr → lessen ptr cnt p i ≡ p i
unfolding lessen
lessen_same ptr cnt p i ne = ground arith

-- The new alarm counts from `c` now.
pub lessen_ptr :
    (p : ℕ → Alarm) (c e : Entry) (base : ℕ)
    → base + (p e.node).remain_time ≡ e.due
    → base + (p c.node).remain_time ≡ c.due
    → c.due ≤ e.due
    → e.due < 2 ^ 31
    → ((lessen e.node c.node p e.node).pid ≡ (p e.node).pid)
      × (c.due + (lessen e.node c.node p e.node).remain_time ≡ e.due)
unfolding lessen
lessen_ptr p c e base b t le less = (ground arith, ground arith)

pub slt32-small :
    (a b base due due' : ℕ)
    → base + a ≡ due
    → base + b ≡ due'
    → due < 2 ^ 31
    → due' < 2 ^ 31
    → slt32 a b ≡ not (leb due' due)
slt32-small a b base due due' e e' h h' = ground arith

-- The result of the loop, for an alarm that fires no earlier than `c`.
pub record Inserts (f : ℕ) (p : ℕ → Alarm) (c e : Entry) (base : ℕ) (xs : List Entry)
    (q : ℕ → Alarm) : Type 0 where
  pub result : insert_behind f e.node c.node p ≡ some q
  pub runs : Runs q (some c.node) base (c ∷ place e xs)
  pub elsewhere : Elsewhere e.node c.node xs p q

module _ (p : ℕ → Alarm) (c e : Entry) (base : ℕ) where
  abbrev pub less : ℕ → Alarm
  less = lessen e.node c.node p

  pub record Walking (f : ℕ) (xs : List Entry) : Type 0 where
    pub pid : (p e.node).pid ≡ e.pid
    pub time : base + (p e.node).remain_time ≡ e.due
    pub small : e.due < 2 ^ 31
    pub later : c.due ≤ e.due
    pub fresh : has e.node (nodes (c ∷ xs)) ≡ false
    pub distinct : Distinct (nodes (c ∷ xs))
    pub runs : Runs p (some c.node) base (c ∷ xs)
    pub enough : length xs < f

  pub less-Runs : (f : ℕ) (xs : List Entry) → Walking f xs → Runs less (some c.node) base (c ∷ xs)
  less-Runs f xs w =
      Runs-frame p less (some c.node) base (c ∷ xs)
        (λ i h. lessen_same e.node c.node p i (ground (arith, w.fresh))) w.runs

  pub stop :
      (f : ℕ) (xs : List Entry)
      → Walking (suc f) xs
      → Starts e.due xs
      → insert_behind (suc f) e.node c.node p ≡ some (settle e.node (link_after e.node c.node less))
      → place e xs ≡ e ∷ xs
      → (q : ℕ → Alarm) × Inserts (suc f) p c e base xs q
  unfolding linked
  stop f xs w ahead result first =
      let (a, b) = lessen_ptr p c e base w.time w.runs.2 w.later w.small in
      let (runs, same) =
        spliced-Runs less c e base xs (a ∙ w.pid) b w.small ahead w.fresh w.distinct
          (less-Runs (suc f) xs w) in
      (
        settle e.node (link_after e.node c.node less),
        record {
          result = result;
          runs = rw first runs;
          elsewhere = λ i out. same i out ∙ lessen_same e.node c.node p i (ground arith);
        },
      )
