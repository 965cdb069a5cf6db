-- ===== src/Services/Schedule/Runs.antt =====
-- What scheduling, cancelling and recording a run do to the tasks.
use bantu_os.Prelude.{
  ℕ, ◌+◌, ◌≡◌, ◌≢◌, ◌⊎◌, inl, inr, refl, sym, ap, ◌∙◌, true, Option, none, some, List, arith,
  filter, All, Option-cases, ok, err,
}
use bantu_os.Prelude.Text.{Text, eq_iff, eq_refl}
use mathlib.Core.Path.{subst}
use bantu_os.Services.Schedule.Table.{
  ScheduledTask, Reader, find, update, new_task, id_or, calculate_next_run, next_update, run_update,
  is_due, pending, cancelled,
}
use bantu_os.Services.Schedule.{
  SchedulerService, ScheduleError, integrity_error, schedule, cancel, get_task, get_pending_tasks,
  record_run,
}
use bantu_os.Services.Schedule.Rows.{
  find-update, update-All, find-append, filter-All, update-update, find-append_other,
}

due-pending : (now : ℕ) (t : ScheduledTask) → is_due now t ≡ true → t.status ≡ pending
unfolding is_due
due-pending now t h = ground (arith, eq_iff t.status pending)

-- Rows of an id that are not pending are not due at any time.
not_due :
    (now : ℕ) (id : Text) (rows : List ScheduledTask)
    → All (λ t. t.id ≡ id → t.status ≢ pending) rows
    → All (λ t. t.id ≢ id) (filter (is_due now) rows)
not_due now id rows h =
    filter-All (is_due now) (λ t. t.id ≡ id → t.status ≢ pending) (λ t. t.id ≢ id)
      (λ t due q at. q at (due-pending now t due)) rows h

-- Both updates of `record_run` on one row.
unfoldable pub recorded :
    Reader → ℕ → ℕ → Text → Option Text → Option ScheduledTask → ScheduledTask → ScheduledTask
recorded io now later status error o t = next_update io later o (run_update now status error t)

pub recorded-id :
    (io : Reader) (now later : ℕ) (status : Text) (error : Option Text) (o : Option ScheduledTask)
    (t : ScheduledTask)
    → (recorded io now later status error o t).id ≡ t.id
unfolding recorded next_update run_update
recorded-id io now later status error none t = refl
recorded-id io now later status error (some u) t = ground arith

pub recorded-count :
    (io : Reader) (now later : ℕ) (status : Text) (error : Option Text) (o : Option ScheduledTask)
    (t : ScheduledTask)
    → (recorded io now later status error o t).run_count ≡ t.run_count + 1
unfolding recorded next_update run_update
recorded-count io now later status error none t = refl
recorded-count io now later status error (some u) t = ground arith

recorded-status :
    (io : Reader) (now later : ℕ) (status : Text) (error : Option Text) (o : Option ScheduledTask)
    (t : ScheduledTask)
    → status ≢ pending
    → (recorded io now later status error o t).status ≢ pending
unfolding recorded next_update run_update
recorded-status io now later status error none t ne = λ e. absurd (ground (arith, e))
recorded-status io now later status error (some u) t ne = λ e. absurd (ground (arith, e))

module _ {C : Type 0} (s : SchedulerService C) where
  -- Scheduling under an id that a task has is refused and changes nothing. Under another id, the
  -- task is found afterwards, pending and without a run, and every other task as it was.
  pub schedule-get_task :
      (io : Reader) (now later : ℕ)
      (fresh name action schedule_type schedule_value task_id params : Text)
      → let id = id_or task_id fresh in
        let (made, s') =
          schedule io now later fresh name action schedule_type schedule_value task_id params s in
        ((t : ScheduledTask) × (get_task id s ≡ some t) × (made ≡ err integrity_error) × (s' ≡ s))
        ⊎ ((get_task id s ≡ none)
            × (made
                ≡ ok (
                    new_task now id name action schedule_type schedule_value params
                      (calculate_next_run io later schedule_type schedule_value)))
            × (get_task id s'
                ≡ some (
                    new_task now id name action schedule_type schedule_value params
                      (calculate_next_run io later schedule_type schedule_value)))
            × ((k : Text) → k ≢ id → get_task k s' ≡ get_task k s))
  unfolding schedule get_task new_task
  schedule-get_task io now later fresh name action schedule_type schedule_value task_id params =
      let id = id_or task_id fresh in
      let next = calculate_next_run io later schedule_type schedule_value in
      let t = new_task now id name action schedule_type schedule_value params next in
      elim (Option-cases (find id s.tasks)) [
        | inr (old, e) ↦ inl (old, e, rw e refl, rw e refl)
        | inl e ↦ inr (
          e,
          rw e refl,
          rw e (ground (arith, find-append id t s.tasks e, eq_refl id)),
          λ k ne. rw e (find-append_other id k t s.tasks refl ne),
        )
      ]

  -- A cancelled task is not due at any time, and the others are as they were. An unknown id is an
  -- error, and then nothing changes.
  pub cancel-ends :
      (id : Text)
      → ((cancel id s ≡ (err ScheduleError.not_found, s)) × (get_task id s ≡ none))
        ⊎ (((cancel id s).0 ≡ ok tt)
            × ((now : ℕ) → All (λ t. t.id ≢ id) (get_pending_tasks now (cancel id s).1))
            × ((k : Text) → k ≢ id → get_task k (cancel id s).1 ≡ get_task k s))
  unfolding cancel get_task get_pending_tasks
  cancel-ends id =
      let f : ScheduledTask → ScheduledTask = λ row. record row { status = cancelled } in
      elim (Option-cases (find id s.tasks)) [
        | inl e ↦ inl (rw (cancel, e) refl, e)
        | inr (t, e) ↦ inr (
          rw (cancel, e) refl,
          λ now.
              rw (cancel, e)
                (not_due now id (update id f s.tasks) (
                  update-All id f (λ t. refl) _ (λ t at p. absurd (ground (arith, p)))
                    (λ t ne at. absurd (ne at)) s.tasks)),
          λ k ne.
              rw (cancel, e) (ground (arith, find-update id f (λ t. refl) k s.tasks, eq_iff id k)),
        )
      ]

  -- A run that is recorded with any status but "pending" takes its task out of the pending ones for
  -- good: at no later time is it due, neither a task of a single run nor an interval, recurring or
  -- cron task, for which a next run is computed. The other tasks are as they were.
  pub record_run-ends :
      (io : Reader) (now later : ℕ) (id status : Text) (result error : Option Text)
      → status ≢ pending
      → ((time : ℕ)
          → All
              (λ t. t.id ≢ id)
              (get_pending_tasks time (record_run io now later id status result error s)))
        × ((k : Text)
            → k ≢ id
            → get_task k (record_run io now later id status result error s) ≡ get_task k s)
  unfolding record_run get_task get_pending_tasks run_update recorded
  record_run-ends io now later id status result error ne =
      let f = run_update now status error in
      let o = find id (update id f s.tasks) in
      let g = recorded io now later status error o in
      let one = update-update id f (next_update io later o) (λ t. refl) s.tasks in
      let same = recorded-id io now later status error o in
      (
        λ time.
            subst (λ rows. All (λ t. t.id ≢ id) (filter (is_due time) rows)) (sym one)
              (not_due time id (update id g s.tasks) (
                update-All id g same _ (λ t at. recorded-status io now later status error o t ne)
                  (λ t other at. absurd (other at)) s.tasks)),
        λ k other.
            ap (find k) one ∙ (find-update id g same k s.tasks ∙ ground (arith, eq_iff id k)),
      )
