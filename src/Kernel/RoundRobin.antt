-- ===== src/Kernel/RoundRobin.antt =====
-- kernel/process/schedule.c takes the processes in the order of the ring, and only one runs.
use yinyang_os.Kernel.{System, running}
use yinyang_os.Kernel.Schedule.{
  switched, spinning, demote, find_live_from, live_at, run_next, schedule, is_running, is_waiting,
  Scheduled,
}
use yinyang_os.Base.{
  Bool-cases, List, Option, [], arith, false, if◌then◌else◌, inl, inr, length, none, refl, some,
  suc, true, zero, ℕ, ◌++◌, ◌<◌, ◌==◌, ◌∷◌, ◌≡◌, ◌≢◌, ap, ◌∙◌, ==_refl, Option-cases, sym,
}
use yinyang_os.Ring.Linked.{Linked}
use yinyang_os.Split.{Split, pass_over, split_first, split_first-last}
use mathlib.Core.Path.{subst, fun_ext}
use yinyang_os.Kernel.Yield.{
  demote-status, run_next-cpu, run_next-proc, run_next-ring, run_next_lem, yielded,
}

abbrev hit_of : Option (Split ℕ) → Option ℕ
hit_of none = none
hit_of (some k) = some k.hit

hit_of-pass_over : (x : ℕ) (o : Option (Split ℕ)) → hit_of (pass_over x o) ≡ hit_of o
hit_of-pass_over x none = refl
hit_of-pass_over x (some k) = refl

some_of-pass_over : {A : Type 0} (x : A) (o : Option (Split A)) → pass_over x o ≢ none → o ≢ none
some_of-pass_over x none h = h
some_of-pass_over x (some k) h = λ e. cc

-- If somebody waits on the way from `a` to `z`, the search stops at the first who does.
find_live_from-eq :
    (f : ℕ) (s : System) (a z : ℕ) (xs : List ℕ)
    → Linked s.ring a xs z
    → length xs < f
    → split_first (live_at s) (xs ++ z ∷ []) ≢ none
    → find_live_from f s (s.ring.next a) ≡ hit_of (split_first (live_at s) (xs ++ z ∷ []))
unfolding find_live_from split_first
find_live_from-eq zero s a z xs h fuel some_one = absurd (omega arith)
find_live_from-eq (suc f) s a z [] h fuel some_one = elim (Bool-cases (live_at s z)) [
  | inl hit ↦ rw (h.0, hit)
  | inr miss ↦ absurd (some_one (rw miss))
]
find_live_from-eq (suc f) s a z (x ∷ xs) h fuel some_one = elim (Bool-cases (live_at s x)) [
  | inl hit ↦ rw (h.0, hit)
  | inr miss ↦
      rw (h.0, miss, hit_of-pass_over)
        (find_live_from-eq f s x z xs h.2 (omega arith)
          (some_of-pass_over x _ (λ e. some_one (rw miss e))))
]

next_live : ℕ → System → Option ℕ
next_live fuel s = find_live_from fuel (demote s) ((demote s).ring.next (demote s).current)

schedule-eq :
    (fuel : ℕ) (s : System)
    → s.need_sched ≡ true
    → schedule fuel s
      ≡ elim (next_live fuel s) [ none ↦ spinning | some p ↦ switched (run_next p (demote s)) ]
unfolding schedule next_live
schedule-eq fuel s due = simp due

schedule-some :
    (fuel : ℕ) (s : System) (p : ℕ)
    → s.need_sched ≡ true
    → next_live fuel s ≡ some p
    → schedule fuel s ≡ switched (run_next p (demote s))
schedule-some fuel s p due e = schedule-eq fuel s due ∙ rw e

schedule-none :
    (fuel : ℕ) (s : System)
    → s.need_sched ≡ true
    → next_live fuel s ≡ none
    → schedule fuel s ≡ spinning
schedule-none fuel s due e = schedule-eq fuel s due ∙ rw e

schedule-idle : (fuel : ℕ) (s : System) → s.need_sched ≡ false → schedule fuel s ≡ switched s
unfolding schedule
schedule-idle fuel s idle = simp idle

abbrev target : System → Scheduled → System
target s (switched t) = t
target s spinning = s

-- No process but the current one is marked running.
abbrev pub OneRuns : System → Type 0
OneRuns s = (q : ℕ) → (s.proc q).status ≡ running → q ≡ s.current

run_next_one : (s : System) (p : ℕ) → OneRuns s → OneRuns (run_next p (demote s))
unfolding run_next demote is_running
run_next_one s p one q runs = ground (arith, one q, ==_refl s.current)

module _ (fuel : ℕ) (s : System) where
  schedule_hit :
      (xs : List ℕ) (k : Split ℕ)
      → Linked s.ring s.current xs s.current
      → length xs < fuel
      → s.need_sched ≡ true
      → split_first (live_at (demote s)) (xs ++ s.current ∷ []) ≡ some k
      → schedule fuel s ≡ switched (run_next k.hit (demote s))
  unfolding next_live demote
  schedule_hit xs k h enough due e =
      schedule-some fuel s k.hit due
        (find_live_from-eq fuel (demote s) s.current s.current xs h enough (λ n. cc) ∙ ap hit_of e)

  -- When a switch is due and somebody waits, with more rounds than the ring has other processes,
  -- `schedule` runs the first process that waits, in the order of the ring behind the running one,
  -- which comes last; the process that was running waits from now on, no other status changes, and
  -- nothing else of any process, of the ring or of the processor changes.
  pub schedule_lem :
      (xs : List ℕ) (k : Split ℕ)
      → Linked s.ring s.current xs s.current
      → length xs < fuel
      → s.need_sched ≡ true
      → split_first (λ i. is_waiting (yielded s i)) (xs ++ s.current ∷ []) ≡ some k
      → (t : System) × (schedule fuel s ≡ switched t)
        × (t.current ≡ k.hit)
        × (t.need_sched ≡ false)
        × ((q : ℕ)
            → t.proc q ≡ record (s.proc q) { status = if q == k.hit then running else yielded s q })
        × (t.ring ≡ s.ring)
        × (t.cpu ≡ s.cpu)
  schedule_lem xs k h enough due e =
      let live =
        ap (λ f. split_first f (xs ++ s.current ∷ []))
          (fun_ext (λ i. ap is_waiting (demote-status s i))) in
      (
        run_next k.hit (demote s),
        schedule_hit xs k h enough due (live ∙ e),
        (run_next_lem k.hit (demote s)).0,
        (run_next_lem k.hit (demote s)).1,
        run_next-proc k.hit s,
        run_next-ring k.hit s,
        run_next-cpu k.hit s,
      )

  -- When the current process, in a ring with the others, is running, and there are more rounds than
  -- other processes, `schedule` ends.
  pub schedule_ends :
      (xs : List ℕ)
      → Linked s.ring s.current xs s.current
      → length xs < fuel
      → (s.proc s.current).status ≡ running
      → (t : System) × (schedule fuel s ≡ switched t)
  unfolding demote is_running is_waiting
  schedule_ends xs h enough runs =
      let last : live_at (demote s) s.current ≡ true = ground (arith, ==_refl s.current) in
      elim (Bool-cases s.need_sched) [
        | inl due ↦ elim (Option-cases (split_first (live_at (demote s)) (xs ++ s.current ∷ []))) [
          | inl e ↦ absurd (split_first-last (live_at (demote s)) s.current xs last e)
          | inr (k, e) ↦ (run_next k.hit (demote s), schedule_hit xs k h enough due e)
        ]
        | inr idle ↦ (s, schedule-idle fuel s idle)
      ]

  -- At most one process runs: before `schedule` no process but the current one is marked running,
  -- and so it is afterwards.
  pub schedule-OneRuns : {t : System} → OneRuns s → schedule fuel s ≡ switched t → OneRuns t
  schedule-OneRuns {t} one e = elim (Bool-cases s.need_sched) [
    | inl due ↦ elim (Option-cases (next_live fuel s)) [
      | inl n ↦ absurd (let e' = sym (schedule-none fuel s due n) ∙ e in cc)
      | inr (p, n) ↦
          subst OneRuns (ap (target s) (sym (schedule-some fuel s p due n) ∙ e))
            (run_next_one s p one)
    ]
    | inr idle ↦ subst OneRuns (ap (target s) (sym (schedule-idle fuel s idle) ∙ e)) one
  ]
