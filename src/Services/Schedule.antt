-- ===== src/Services/Schedule.antt =====
-- `SchedulerService` of bantu_os/services/scheduler_service.py. A table is the list of its rows, in
-- the order in which they were inserted; a method runs under the lock, so as one step. A time is a
-- number of microseconds, in the order of its ISO text.
pub mod Table
pub mod Rows
pub mod Runs
pub mod Counts
use bantu_os.Prelude.{
  ℕ, zero, suc, ◌+◌, ◌-◌, ◌*◌, ◌≡◌, Bool, true, false, Option, none, some, List, [], ◌∷◌, ◌++◌,
  ◌||◌, ◌&&◌, not, length, filter, Result, ok, err, is_some, leb, ltb, if◌then◌else◌,
}
use bantu_os.Prelude.Text.{Text, codes, ◌==◌}
use bantu_os.Prelude.Dict.{Dict, lookup, insert}
use bantu_os.Prelude.Int.{ℤ, pos, negsuc}
use bantu_os.Services.Schedule.Table.{
  ScheduledTask, TaskRun, Reader, pending, completed, cancelled, second, calculate_next_run, find,
  update, id_or, new_task, is_due, next_update, run_update, by_created, by_started, take,
  has_status, count_status, Stats, pending, completed, cancelled, once,
}

-- `next_id` is the counter of AUTOINCREMENT; `C` is the type of the callbacks.
pub record SchedulerService (C : Type 0) : Type 0 where
  pub tasks : List ScheduledTask
  pub task_runs : List TaskRun
  pub next_id : ℕ
  pub callbacks : Dict C
  pub running : Bool

unfoldable pub init : {C : Type 0} → SchedulerService C
init = record { tasks = []; task_runs = []; next_id = 1; callbacks = []; running = false }

-- What leaves a method by an exception: SQLite's `IntegrityError`, or a `ValueError`.
pub data ScheduleError : Type 0 where
  integrity_error not_found : ScheduleError

module _ {C : Type 0} where
  -- `fresh` is the id that `uuid` gives; `now` and `later` are the times of the task and of its
  -- next run.
  unfoldable pub schedule :
      Reader
      → ℕ
      → ℕ
      → Text
      → Text
      → Text
      → Text
      → Text
      → Text
      → Text
      → SchedulerService C
      → Result ScheduleError ScheduledTask × SchedulerService C
  schedule io now later fresh name action schedule_type schedule_value task_id params s =
      let id = id_or task_id fresh in
      let task =
        new_task now id name action schedule_type schedule_value params
          (calculate_next_run io later schedule_type schedule_value) in
      if is_some (find id s.tasks)
      then (err integrity_error, s)
      else (ok task, record s { tasks = s.tasks ++ task ∷ [] })

  unfoldable pub cancel :
      Text → SchedulerService C → Result ScheduleError (Unit {0}) × SchedulerService C
  cancel id s = elim (find id s.tasks) [
    | none ↦ (err not_found, s)
    | some t ↦
        (ok tt, record s { tasks = update id (λ row. record row { status = cancelled }) s.tasks })
  ]

  unfoldable pub get_task : Text → SchedulerService C → Option ScheduledTask
  get_task id s = find id s.tasks

  unfoldable pub get_pending_tasks : ℕ → SchedulerService C → List ScheduledTask
  unfolding is_due
  get_pending_tasks now s = filter (is_due now) s.tasks

  unfoldable pub record_run :
      Reader
      → ℕ
      → ℕ
      → Text
      → Text
      → Option Text
      → Option Text
      → SchedulerService C
      → SchedulerService C
  record_run io now later id status result error s =
      let run : TaskRun = record {
        id = s.next_id;
        task_id = id;
        started_at = now;
        completed_at = now;
        status = status;
        result = result;
        error = error;
      } in
      let rows = update id (run_update now status error) s.tasks in
      record s {
        tasks = update id (next_update io later (find id rows)) rows;
        task_runs = s.task_runs ++ run ∷ [];
        next_id = s.next_id + 1;
      }

  -- `list_tasks` and `get_task_history` order their rows by time, the last first.
  unfoldable pub list_tasks : Text → SchedulerService C → List ScheduledTask
  unfolding by_created has_status
  list_tasks status s = by_created (filter (has_status status) s.tasks)

  unfoldable pub get_task_history : Text → ℕ → SchedulerService C → List TaskRun
  unfolding by_started
  get_task_history id limit s = take limit (by_started (filter (λ r. r.task_id == id) s.task_runs))

  unfoldable pub register_callback : Text → C → SchedulerService C → SchedulerService C
  register_callback id callback s = record s { callbacks = insert id callback s.callbacks }

  unfoldable pub get_callback : Text → SchedulerService C → Option C
  get_callback id s = lookup id s.callbacks

  unfoldable pub cleanup_old_runs : ℕ → ℕ → SchedulerService C → ℕ × SchedulerService C
  cleanup_old_runs now days s =
      let kept =
        filter (λ r. not (ltb r.started_at (now - days * (24 * 3600 * second)))) s.task_runs in
      (length s.task_runs - length kept, record s { task_runs = kept })

  unfoldable pub get_stats : SchedulerService C → Stats
  unfolding count_status
  get_stats s = record {
    total_tasks = length s.tasks;
    pending = count_status pending s.tasks;
    running = count_status (codes "running") s.tasks;
    completed = count_status completed s.tasks;
    failed = count_status (codes "failed") s.tasks;
    total_runs = length s.task_runs;
    callbacks_registered = length s.callbacks;
  }

  unfoldable pub start : SchedulerService C → SchedulerService C
  start s = record s { running = true }

  unfoldable pub stop : SchedulerService C → SchedulerService C
  stop s = record s { running = false }

  -- Whether the service is healthy, and the number of tasks; `database_ok` is what SQLite answers.
  unfoldable pub health_check : Bool → SchedulerService C → Bool × Option ℕ
  unfolding get_stats
  health_check database_ok s =
      (s.running && database_ok, if database_ok then some (get_stats s).total_tasks else none)
