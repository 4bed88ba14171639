-- ===== src/Kernel/Yield.antt =====
-- What a switch does to the table, in kernel/process/schedule.c.
use yinyang_os.Kernel.{System, running, sleeping, Status, waiting}
use yinyang_os.Kernel.Schedule.{demote, run_next, is_running}
use yinyang_os.Base.{
  Bool-cases, ◌⊎◌, arith, false, if◌then◌else◌, inl, inr, refl, ℕ, ◌==◌, ◌≡◌, ap, ==_refl, ==_iff,
}

-- The status of a process once the current one has given up the processor.
abbrev pub yields : Status → Status
yields running = waiting
yields waiting = waiting
yields sleeping = sleeping

abbrev pub yielded : System → ℕ → Status
yielded s i = if i == s.current then yields (s.proc i).status else (s.proc i).status

demote-current :
    (s : System) → ((demote s).proc s.current).status ≡ yields (s.proc s.current).status
unfolding demote is_running
demote-current s = ground (arith, ==_refl s.current)

pub demote-status : (s : System) (i : ℕ) → ((demote s).proc i).status ≡ yielded s i
unfolding demote is_running
demote-status s i = elim (Bool-cases (i == s.current)) [
  | inl e ↦ rw ((==_iff i s.current).0 e, ==_refl s.current) (demote-current s)
  | inr e ↦ rw e (ground arith)
]

pub run_next_lem :
    (p : ℕ) (s : System) → ((run_next p s).current ≡ p) × ((run_next p s).need_sched ≡ false)
unfolding run_next
run_next_lem p s = (refl, refl)

Status-cases : (st : Status) → (st ≡ waiting) ⊎ (st ≡ sleeping) ⊎ (st ≡ running)
Status-cases waiting = inl refl
Status-cases sleeping = inr (inl refl)
Status-cases running = inr (inr refl)

demote-proc : (s : System) (q : ℕ) → (demote s).proc q ≡ record (s.proc q) { status = yielded s q }
unfolding demote is_running
demote-proc s q = elim (Bool-cases (q == s.current)) [
  | inl h ↦
      let e = (==_iff q s.current).0 h in
      let r = ==_refl s.current in
      elim (Status-cases (s.proc s.current).status) [
        | inl w ↦ rw (e, r, w) (ap (λ st. record (s.proc s.current) { status = st }) w)
        | inr (inl w) ↦ rw (e, r, w) (ap (λ st. record (s.proc s.current) { status = st }) w)
        | inr (inr w) ↦ rw (e, w, r)
      ]
  | inr h ↦ rw h (ground arith)
]

-- Of a process, only the status changes.
pub run_next-proc :
    (p : ℕ) (s : System) (q : ℕ)
    → (run_next p (demote s)).proc q
      ≡ record (s.proc q) { status = if q == p then running else yielded s q }
unfolding run_next
run_next-proc p s q = elim (Bool-cases (q == p)) [
  | inl h ↦ let e = (==_iff q p).0 h in let d = demote-proc s p in let r = ==_refl p in rw (e, r, d)
  | inr h ↦ let d = demote-proc s q in rw (h, d)
]

pub run_next-ring : (p : ℕ) (s : System) → (run_next p (demote s)).ring ≡ s.ring
unfolding run_next demote
run_next-ring p s = refl

pub run_next-cpu : (p : ℕ) (s : System) → (run_next p (demote s)).cpu ≡ s.cpu
unfolding run_next demote
run_next-cpu p s = refl
