-- ===== src/Irq/Handlers.antt =====
-- What drivers have registered, and what an interrupt runs.
use yinyang_os.Irq.{
  panic, past_end, Added, Irqs, added, nr_irq_handle, add_irq_handle, call_from, called, irq_handle,
  unexpected, unhandled,
}
use yinyang_os.Base.{
  Bool-cases, List, Option, [], arith, inl, inr, length, none, some, update, ℕ, ◌+◌, ◌<◌, ◌==◌, ◌∙◌,
  ◌∷◌, ◌≡◌, ◌≤◌, if◌then◌else◌, ltb, refl, slt32, suc, zero, ◌-◌,
}

-- From `o` the pool holds the handlers `fs`, every one before those that were registered earlier.
abbrev pub Lists : Irqs → Option ℕ → (bound : ℕ) → List ℕ → Type 0
Lists s o bound [] = o ≡ none
Lists s o bound (f ∷ fs) =
    (n : ℕ) × (o ≡ some n) × (n < bound) × (s.routine n ≡ f) × Lists s (s.next n) n fs

-- The registered handlers of every interrupt, the latest first.
pub record IsIrqs (s : Irqs) (fs : ℕ → List ℕ) : Type 0 where
  pub lists : (irq : ℕ) → Lists s (s.handles irq) s.handle_count (fs irq)
  pub in_pool : s.handle_count ≤ nr_irq_handle

Lists-frame :
    (s t : Irqs) (o : Option ℕ) (bound bound' : ℕ) (fs : List ℕ)
    → bound ≤ bound'
    → ((i : ℕ) → i < bound → (t.routine i ≡ s.routine i) × (t.next i ≡ s.next i))
    → Lists s o bound fs
    → Lists t o bound' fs
Lists-frame s t o bound bound' [] le same h = h
Lists-frame s t o bound bound' (f ∷ fs) le same (n, e, l, r, h) = (
  n,
  e,
  omega arith,
  (same n l).0 ∙ r,
  rw (same n l).1 (Lists-frame s t (s.next n) n n fs (omega arith) (λ i m. same i (omega arith)) h),
)

Lists-length :
    (s : Irqs) (o : Option ℕ) (bound : ℕ) (fs : List ℕ) → Lists s o bound fs → length fs ≤ bound
Lists-length s o bound [] h = omega arith
Lists-length s o bound (f ∷ fs) (n, e, l, r, h) = omega (arith, Lists-length s (s.next n) n fs h)

-- What `add_irq_handle` may come to: the handler is the first of its interrupt, and the others keep
-- theirs; or the pool is full, when the guard lets the 33rd registration pass.
abbrev pub Adds : (irq func : ℕ) → Irqs → (ℕ → List ℕ) → Added → Type 0
Adds irq func s fs (added t) = IsIrqs t (update fs irq (func ∷ fs irq))
Adds irq func s fs past_end = s.handle_count ≡ nr_irq_handle
Adds irq func s fs panic = nr_irq_handle < s.handle_count

registered : ℕ → ℕ → Irqs → Irqs
registered irq func s = record {
  routine = update s.routine s.handle_count func;
  next = update s.next s.handle_count (s.handles irq);
  handles = update s.handles irq (some s.handle_count);
  handle_count = s.handle_count + 1;
}

registered-Lists :
    (irq func : ℕ) (s : Irqs) (fs : ℕ → List ℕ) (i : ℕ)
    → IsIrqs s fs
    → Lists
        (registered irq func s)
        ((registered irq func s).handles i)
        (s.handle_count + 1)
        (update fs irq (func ∷ fs irq) i)
unfolding registered
registered-Lists irq func s fs i v =
    let t = registered irq func s in
    let keep = λ (b k : ℕ) (le : s.handle_count ≤ b).
      Lists-frame s t (s.handles k) s.handle_count b (fs k) le (λ j l. (ground arith, ground arith))
        (v.lists k) in
    let next : t.next s.handle_count ≡ s.handles irq = ground arith in
    elim (Bool-cases (i == irq)) [
      | inl e ↦ rw e (
        s.handle_count,
        refl,
        omega arith,
        ground arith,
        rw next (keep s.handle_count irq (omega arith)),
      )
      | inr e ↦ rw e (keep (s.handle_count + 1) i (omega arith))
    ]

add_irq_handle-added :
    (irq func : ℕ) (s : Irqs)
    → s.handle_count < nr_irq_handle
    → add_irq_handle irq func s ≡ added (registered irq func s)
unfolding add_irq_handle registered
add_irq_handle-added irq func s h = ground arith

add_irq_handle-past_end :
    (irq func : ℕ) (s : Irqs)
    → s.handle_count ≡ nr_irq_handle
    → add_irq_handle irq func s ≡ past_end
unfolding add_irq_handle
add_irq_handle-past_end irq func s h = ground arith

-- With the handlers in order, `add_irq_handle` makes the handler the first of its interrupt and
-- leaves the others theirs; or the pool of 32 is full, and it writes behind it.
pub add_irq_handle_lem :
    (irq func : ℕ) (s : Irqs) (fs : ℕ → List ℕ)
    → IsIrqs s fs
    → Adds irq func s fs (add_irq_handle irq func s)
unfolding registered
add_irq_handle_lem irq func s fs v = elim (Bool-cases (ltb s.handle_count nr_irq_handle)) [
  | inl room ↦
      rw (add_irq_handle-added irq func s (ground arith))
        (record { lists = λ i. registered-Lists irq func s fs i v; in_pool = ground arith })
  | inr full ↦
      let e : s.handle_count ≡ nr_irq_handle = ground (arith, v.in_pool) in
      rw (add_irq_handle-past_end irq func s e, e)
]

call_from_lem :
    (k : ℕ) (s : Irqs) (o : Option ℕ) (bound : ℕ) (fs : List ℕ)
    → Lists s o bound fs
    → length fs < k
    → call_from k s o ≡ some fs
unfolding call_from
call_from_lem zero s o bound fs h few = absurd (omega arith)
call_from_lem (suc k) s o bound [] h few = rw (h, call_from)
call_from_lem (suc k) s o bound (f ∷ fs) (n, e, l, r, h) few =
    rw (e, call_from, call_from_lem k s (s.next n) n fs h (omega arith), r)

irq_handle-run :
    (irq : ℕ) (s : Irqs) (rs : List ℕ)
    → call_from (nr_irq_handle + 1) s (s.handles (irq - 1000)) ≡ some rs
    → irq_handle irq s
      ≡ (if slt32 irq 0 then unhandled else if slt32 irq 1000 then unexpected irq else called rs)
unfolding irq_handle
irq_handle-run irq s rs e = rw (irq_handle, e)

-- With the handlers in order, `irq_handle` panics for an exception, and for an interrupt it calls all
-- handlers that are registered for it, the latest first.
pub irq_handle_lem :
    (irq : ℕ) (s : Irqs) (fs : ℕ → List ℕ)
    → IsIrqs s fs
    → irq_handle irq s ≡ (
        if slt32 irq 0
        then unhandled
        else if slt32 irq 1000
        then unexpected irq
        else called (fs (irq - 1000)))
irq_handle_lem irq s fs v =
    let few = Lists-length s _ s.handle_count (fs (irq - 1000)) (v.lists (irq - 1000)) in
    irq_handle-run irq s (fs (irq - 1000)) (
      call_from_lem (nr_irq_handle + 1) s _ s.handle_count (fs (irq - 1000)) (v.lists (irq - 1000))
        (omega (arith, few, v.in_pool)))
