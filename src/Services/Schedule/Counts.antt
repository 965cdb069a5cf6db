-- ===== src/Services/Schedule/Counts.antt =====
-- What holds of the tables after any methods but the removal of old runs.
use bantu_os.Prelude.{
  ℕ, ◌+◌, ◌≤◌, ◌<◌, ◌≡◌, inl, inr, refl, sym, Option, List, [], ◌∷◌, ◌++◌, arith, length, filter,
  All, All-append, Option-cases, if◌then◌else◌,
}
use mathlib.Core.Path.{subst}
use bantu_os.Prelude.Text.{Text, ◌==◌, eq_iff}
use bantu_os.Services.Schedule.Table.{
  ScheduledTask, TaskRun, Reader, find, update, new_task, id_or, calculate_next_run, next_update,
  run_update, cancelled,
}
use bantu_os.Services.Schedule.{
  SchedulerService, init, schedule, cancel, record_run, register_callback, start, stop,
}
use bantu_os.Services.Schedule.Rows.{
  IsKeyed, update-IsKeyed, update-maps, append-IsKeyed, update-update,
}
use bantu_os.Services.Schedule.Runs.{recorded, recorded-id, recorded-count}

-- The runs in the table that are one task's.
unfoldable pub runs_of : Text → List TaskRun → ℕ
runs_of id runs = length (filter (λ r. r.task_id == id) runs)

-- No two tasks have one id, no task counts more runs than the table has for it, and the runs are
-- numbered below the counter.
pub record IsCounted {C : Type 0} (s : SchedulerService C) : Type 0 where
  pub keyed : IsKeyed s.tasks
  pub counted : All (λ t. t.run_count ≤ runs_of t.id s.task_runs) s.tasks
  pub numbered : All (λ (r : TaskRun). r.id < s.next_id) s.task_runs

-- One call of a method.
pub data Step {C : Type 0} (io : Reader) : SchedulerService C → SchedulerService C → Type 0 where
  scheduled :
      (now later : ℕ) (fresh name action schedule_type schedule_value task_id params : Text)
      (s : SchedulerService C)
      → Step io s
          (schedule io now later fresh name action schedule_type schedule_value task_id params s).1
  dropped : (id : Text) (s : SchedulerService C) → Step io s (cancel id s).1
  ran :
      (now later : ℕ) (id status : Text) (result error : Option Text) (s : SchedulerService C)
      → Step io s (record_run io now later id status result error s)
  registered : (id : Text) (c : C) (s : SchedulerService C) → Step io s (register_callback id c s)
  started : (s : SchedulerService C) → Step io s (start s)
  stopped : (s : SchedulerService C) → Step io s (stop s)

pub data Reachable {C : Type 0} (io : Reader) : SchedulerService C → Type 0 where
  new : Reachable io init
  next : {s s' : SchedulerService C} → Reachable io s → Step io s s' → Reachable io s'

runs_of-append :
    (k : Text) (r : TaskRun) (runs : List TaskRun)
    → runs_of k (runs ++ r ∷ []) ≡ (if r.task_id == k then runs_of k runs + 1 else runs_of k runs)
unfolding runs_of filter
runs_of-append k r [] = ground arith
runs_of-append k r (q ∷ runs) = ground (arith, runs_of-append k r runs)

numbered_up :
    (n : ℕ) (runs : List TaskRun)
    → All (λ (r : TaskRun). r.id < n) runs
    → All (λ (r : TaskRun). r.id < n + 1) runs
numbered_up n [] h = tt
numbered_up n (r ∷ runs) h = (omega arith, numbered_up n runs h.1)

module _ {C : Type 0} (io : Reader) (s : SchedulerService C) (h : IsCounted s) where
  schedule-IsCounted :
      (now later : ℕ) (fresh name action schedule_type schedule_value task_id params : Text)
      → IsCounted
          (schedule io now later fresh name action schedule_type schedule_value task_id params s).1
  unfolding schedule new_task
  schedule-IsCounted now later fresh name action schedule_type schedule_value task_id params =
      let id = id_or task_id fresh in
      let next = calculate_next_run io later schedule_type schedule_value in
      let t = new_task now id name action schedule_type schedule_value params next in
      elim (Option-cases (find id s.tasks)) [
        | inr (old, e) ↦ rw e h
        | inl e ↦ rw e (record {
          keyed = append-IsKeyed t s.tasks e h.keyed;
          counted = All-append _ s.tasks (t ∷ []) h.counted (omega arith, tt);
          numbered = h.numbered;
        })
      ]

  cancel-IsCounted : (id : Text) → IsCounted (cancel id s).1
  unfolding cancel
  cancel-IsCounted id =
      let f : ScheduledTask → ScheduledTask = λ row. record row { status = cancelled } in
      elim (Option-cases (find id s.tasks)) [
        | inl e ↦ rw (cancel, e) h
        | inr (t, e) ↦
            rw (cancel, e)
              (record {
                keyed = update-IsKeyed id f (λ t. refl) s.tasks h.keyed;
                counted =
                    update-maps id f (λ t. refl) _ _ (λ t at p. p) (λ t ne p. p) s.tasks h.counted;
                numbered = h.numbered;
              })
      ]

  module _ (r : TaskRun) (t : ScheduledTask) (p : t.run_count ≤ runs_of t.id s.task_runs) where
    none_less : t.run_count ≤ runs_of t.id (s.task_runs ++ r ∷ [])
    none_less = ground (arith, runs_of-append t.id r s.task_runs)

    one_more :
        (u : ScheduledTask)
        → u.id ≡ t.id
        → u.run_count ≡ t.run_count + 1
        → r.task_id ≡ t.id
        → u.run_count ≤ runs_of u.id (s.task_runs ++ r ∷ [])
    one_more u named counted at =
        rw named (ground (arith, runs_of-append t.id r s.task_runs, eq_iff r.task_id t.id))

  record_run-IsCounted :
      (now later : ℕ) (id status : Text) (result error : Option Text)
      → IsCounted (record_run io now later id status result error s)
  unfolding record_run recorded run_update
  record_run-IsCounted now later id status result error =
      let f = run_update now status error in
      let o = find id (update id f s.tasks) in
      let g = recorded io now later status error o in
      let one = update-update id f (next_update io later o) (λ t. refl) s.tasks in
      let same = recorded-id io now later status error o in
      record {
        keyed = subst IsKeyed (sym one) (update-IsKeyed id g same s.tasks h.keyed);
        counted = subst (All _) (sym one) (
            update-maps id g same (λ t. t.run_count ≤ runs_of t.id s.task_runs) _
              (λ t at p.
                one_more _ t p (g t) (same t) (recorded-count io now later status error o t)
                  (sym at))
              (λ t ne p. none_less _ t p) s.tasks h.counted);
        numbered =
            All-append _ s.task_runs _ (numbered_up s.next_id s.task_runs h.numbered)
              (omega arith, tt);
      }

Step-IsCounted :
    {C : Type 0} (io : Reader) {s s' : SchedulerService C}
    → Step io s s'
    → IsCounted s
    → IsCounted s'
unfolding register_callback start stop
Step-IsCounted io (scheduled now later fresh name action type value task_id params s) h =
    schedule-IsCounted io s h now later fresh name action type value task_id params
Step-IsCounted io (dropped id s) h = cancel-IsCounted io s h id
Step-IsCounted io (ran now later id status result error s) h =
    record_run-IsCounted io s h now later id status result error
Step-IsCounted io (registered id c s) h = record {
  keyed = h.keyed;
  counted = h.counted;
  numbered = h.numbered;
}
Step-IsCounted io (started s) h = record {
  keyed = h.keyed;
  counted = h.counted;
  numbered = h.numbered;
}
Step-IsCounted io (stopped s) h = record {
  keyed = h.keyed;
  counted = h.counted;
  numbered = h.numbered;
}

-- From the empty tables, whatever methods are called and in whatever order, but for the removal of
-- old runs: no two tasks have one id, no task counts more runs than the table of runs has for it,
-- and every run's number is below the next one.
pub Reachable-IsCounted :
    {C : Type 0} (io : Reader) (s : SchedulerService C) → Reachable io s → IsCounted s
unfolding init
Reachable-IsCounted io _ new = record { keyed = tt; counted = tt; numbered = tt }
Reachable-IsCounted io s' (next before step) =
    Step-IsCounted io step (Reachable-IsCounted io _ before)
