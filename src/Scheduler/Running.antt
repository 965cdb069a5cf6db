-- ===== src/Scheduler/Running.antt =====
-- `run_current` and `wait`: what a process that ends, yields or is made to wait leaves behind.
use bantu_os.Prelude.{
  ℕ, ◌+◌, ◌≡◌, refl, ap, ◌∙◌, true, Option, none, some, List, [], ◌∷◌, ◌++◌, arith, eqb, Result, ok,
  err, any, if◌then◌else◌,
}
use bantu_os.Prelude.Tally.{count, hit, count-append}
use bantu_os.Scheduler.{
  Scheduler, RunError, raised, lost_process, run_current, finish, yield_cpu, wait, wait_in,
  priority_of,
}
use bantu_os.Scheduler.Conserved.{HasPriorities, places, yield_cpu-places}

abbrev pub outcome : {V E : Type 0} → Result E V → Result (RunError E) (Option V)
outcome (ok v) = ok (some v)
outcome (err e) = err (raised e)

module _ {V E : Type 0} (call : ℕ → Scheduler V → Result E V × Scheduler V) where
  -- A process whose function leaves the scheduler alone ends: its result or its exception is the
  -- outcome, it is the last of the terminated ones, nothing runs, and no process is lost or copied.
  pub run_current-ends :
      (p q : ℕ) (s : Scheduler V)
      → s.running ≡ some p
      → (call p s).1 ≡ s
      → ((run_current call s).0 ≡ outcome (call p s).0)
        × ((run_current call s).1.running ≡ none)
        × ((run_current call s).1.terminated ≡ s.terminated ++ p ∷ [])
        × (places q (run_current call s).1 ≡ places q s)
  unfolding run_current finish count
  run_current-ends p q s r same = (
    ground arith,
    ground arith,
    ground arith,
    ground (arith, count-append q s.terminated (p ∷ [])),
  )

  -- Where no priority is above 3, a process whose function yields makes `run_current` fail with an
  -- `AttributeError`, whatever the function returned: its result is lost, the scheduler is as the
  -- yield left it, and no process is lost or copied.
  pub run_current_after_yield :
      (p q : ℕ) (s : Scheduler V)
      → HasPriorities s
      → s.running ≡ some p
      → (call p s).1 ≡ yield_cpu s
      → ((run_current call s).0 ≡ err lost_process)
        × ((run_current call s).1 ≡ yield_cpu s)
        × (places q (run_current call s).1 ≡ places q s)
  unfolding run_current
  run_current_after_yield p q s h r same =
      let yielded = yield_cpu-places q s h in
      let result : run_current call s ≡ (err lost_process, yield_cpu s) =
        ground (arith, yielded.2) in
      (ap (λ t. t.0) result, ap (λ t. t.1) result, ap (λ t. places q t.1) result ∙ yielded.0)

module _ {V : Type 0} where
  wait_in-places :
      (p q : ℕ) (qs : List ℕ) (s : Scheduler V)
      → places q (wait_in p qs s) ≡ places q s + (if any (λ r. eqb r p) qs then hit q p else 0)
  unfolding wait_in any count
  wait_in-places p q [] s = omega arith
  wait_in-places p q (r ∷ qs) s =
      ground (arith, wait_in-places p q qs s, count-append q s.waiting (p ∷ []))

  wait_in-ready : (p : ℕ) (qs : List ℕ) (s : Scheduler V) → (wait_in p qs s).ready ≡ s.ready
  unfolding wait_in
  wait_in-ready p [] s = refl
  wait_in-ready p (r ∷ qs) s = ground (arith, wait_in-ready p qs s)

  -- `wait` copies: while a process runs, a process of its queue that is told to wait stands in the
  -- scheduler once more than before, in the waiting list and still in the ready queue.
  pub wait-copies :
      (p r : ℕ) (s : Scheduler V)
      → s.running ≡ some r
      → any (λ q. eqb q p) (s.ready (priority_of r s)) ≡ true
      → (places p (wait p s) ≡ places p s + 1) × ((wait p s).ready ≡ s.ready)
  unfolding wait hit
  wait-copies p r s run there = (
    ground (arith, wait_in-places p p (s.ready (priority_of r s)) s),
    ground (arith, wait_in-ready p (s.ready (priority_of r s)) s),
  )
