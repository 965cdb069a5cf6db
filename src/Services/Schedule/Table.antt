-- ===== src/Services/Schedule/Table.antt =====
-- The rows of `SchedulerService` in bantu_os/services/scheduler_service.py, and the times of next runs.
use bantu_os.Prelude.{
  ℕ, zero, suc, ◌+◌, ◌-◌, ◌*◌, Bool, true, Option, none, some, List, [], ◌∷◌, ◌&&◌, not, length,
  filter, leb, ltb, if◌then◌else◌,
}
use bantu_os.Prelude.Text.{Text, codes, ◌==◌}
use bantu_os.Prelude.Int.{ℤ, pos, negsuc}

-- `params` is its JSON text.
pub record ScheduledTask : Type 0 where
  pub id : Text
  pub name : Text
  pub schedule_type : Text
  pub schedule_value : Text
  pub action : Text
  pub params : Text
  pub status : Text
  pub created_at : ℕ
  pub next_run : Option ℕ
  pub last_run : Option ℕ
  pub run_count : ℕ
  pub error : Option Text

pub record TaskRun : Type 0 where
  pub id : ℕ
  pub task_id : Text
  pub started_at : ℕ
  pub completed_at : ℕ
  pub status : Text
  pub result : Option Text
  pub error : Option Text

-- `int(text)` and `datetime.fromisoformat(text)`, `none` for a `ValueError`.
pub record Reader : Type 0 where
  pub int : Text → Option ℤ
  pub fromisoformat : Text → Option ℕ

abbrev pub pending : Text
pending = codes "pending"

abbrev pub completed : Text
completed = codes "completed"

abbrev pub cancelled : Text
cancelled = codes "cancelled"

abbrev pub once : Text
once = codes "once"

-- `now + timedelta(...)`; before the first date that there is, Python raises.
shift : ℕ → ℕ → ℤ → ℕ
shift now unit (pos n) = now + n * unit
shift now unit (negsuc n) = now - (n + 1) * unit

after_delay : ℕ → ℕ → Option ℤ → Option ℕ
unfolding shift
after_delay now unit none = none
after_delay now unit (some n) = some (shift now unit n)

in_future : ℕ → Option ℕ → Option ℕ
in_future now none = none
in_future now (some time) = if ltb now time then some time else none

-- Units of time, in microseconds.
abbrev pub second : ℕ
second = 1000000

unfoldable pub calculate_next_run : Reader → ℕ → Text → Text → Option ℕ
unfolding in_future after_delay
calculate_next_run io now schedule_type schedule_value =
    if schedule_type == once
    then in_future now (io.fromisoformat schedule_value)
    else if schedule_type == codes "interval"
    then after_delay now second (io.int schedule_value)
    else if schedule_type == codes "recurring"
    then after_delay now (60 * second) (io.int schedule_value)
    else if schedule_type == codes "cron"
    then some (now + 3600 * second)
    else none

-- `SELECT ... WHERE id = ?` and `fetchone`
unfoldable pub find : Text → List ScheduledTask → Option ScheduledTask
find id [] = none
find id (t ∷ rows) = if t.id == id then some t else find id rows

-- `UPDATE tasks SET ... WHERE id = ?`
unfoldable pub update :
    Text → (ScheduledTask → ScheduledTask) → List ScheduledTask → List ScheduledTask
update id f [] = []
update id f (t ∷ rows) = let rest = update id f rows in if t.id == id then f t ∷ rest else t ∷ rest

-- `task_id or str(uuid.uuid4())[:8]`
unfoldable pub id_or : Text → Text → Text
id_or [] fresh = fresh
id_or (c ∷ task_id) fresh = c ∷ task_id

unfoldable pub new_task : ℕ → Text → Text → Text → Text → Text → Text → Option ℕ → ScheduledTask
new_task now id name action schedule_type schedule_value params next_run = record {
  id = id;
  name = name;
  schedule_type = schedule_type;
  schedule_value = schedule_value;
  action = action;
  params = params;
  status = pending;
  created_at = now;
  next_run = next_run;
  last_run = none;
  run_count = 0;
  error = none;
}

-- `status = 'pending' AND (next_run IS NULL OR next_run <= now)`
due_at : ℕ → Option ℕ → Bool
due_at now none = true
due_at now (some time) = leb time now

unfoldable pub is_due : ℕ → ScheduledTask → Bool
unfolding due_at
is_due now t = t.status == pending && due_at now t.next_run

-- The second update of `record_run`; a task that is not there counts as one of a single run.
unfoldable pub next_update : Reader → ℕ → Option ScheduledTask → ScheduledTask → ScheduledTask
next_update io later none row = record row { status = completed }
next_update io later (some t) row =
    if not (t.schedule_type == once)
    then record row { next_run = calculate_next_run io later t.schedule_type t.schedule_value }
    else record row { status = completed }

unfoldable pub run_update : ℕ → Text → Option Text → ScheduledTask → ScheduledTask
run_update now status error row = record row {
  last_run = some now;
  run_count = row.run_count + 1;
  status = status;
  error = error;
}

-- Rows in the order of their time, the last first; rows of one time as the table has them.
insert_created : ScheduledTask → List ScheduledTask → List ScheduledTask
insert_created t [] = t ∷ []
insert_created t (u ∷ rows) =
    let rest = insert_created t rows in
    if leb u.created_at t.created_at then t ∷ u ∷ rows else u ∷ rest

unfoldable pub by_created : List ScheduledTask → List ScheduledTask
unfolding insert_created
by_created [] = []
by_created (t ∷ rows) = insert_created t (by_created rows)

insert_started : TaskRun → List TaskRun → List TaskRun
insert_started r [] = r ∷ []
insert_started r (q ∷ rows) =
    let rest = insert_started r rows in
    if leb q.started_at r.started_at then r ∷ q ∷ rows else q ∷ rest

unfoldable pub by_started : List TaskRun → List TaskRun
unfolding insert_started
by_started [] = []
by_started (r ∷ rows) = insert_started r (by_started rows)

-- `LIMIT`
unfoldable pub take {ℓ} : {A : Type ℓ} → ℕ → List A → List A
take zero xs = []
take (suc n) [] = []
take (suc n) (x ∷ xs) = x ∷ take n xs

-- The filter of `list_tasks`: an empty status is none.
unfoldable pub has_status : Text → ScheduledTask → Bool
has_status [] t = true
has_status (c ∷ status) t = t.status == (c ∷ status)

unfoldable pub count_status : Text → List ScheduledTask → ℕ
count_status status rows = length (filter (λ t. t.status == status) rows)

pub record Stats : Type 0 where
  pub total_tasks : ℕ
  pub pending : ℕ
  pub running : ℕ
  pub completed : ℕ
  pub failed : ℕ
  pub total_runs : ℕ
  pub callbacks_registered : ℕ
