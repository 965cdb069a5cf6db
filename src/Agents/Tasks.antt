-- ===== src/Agents/Tasks.antt =====
-- bantu_os/agents/task_manager.py. Parameters and results are JSON texts.
use bantu_os.Prelude.{
  ℕ, ◌+◌, ◌≤◌, ◌≡◌, ◌≢◌, sym, ap, ◌∙◌, Bool, true, false, Option, none, some, List, [], ◌∷◌, ◌++◌,
  arith, length, length-append, Bool-cases, inl, inr, if◌then◌else◌,
}
use bantu_os.Prelude.Text.{Text, codes, ◌==◌, eq_iff, eq_refl}
use bantu_os.Prelude.Dict.{Dict, lookup, has_key, insert, lookup-insert, length-insert}
use bantu_os.Prelude.Decimal.{decimal, number_from, number-decimal}

pub data TaskStatus : Type 0 where
  pending running completed failed : TaskStatus

pub record Task : Type 0 where
  pub id : Text
  pub name : Text
  pub description : Text
  pub parameters : Text
  pub status : TaskStatus
  pub result : Option Text
  pub error : Option Text

-- The queue holds the tasks of the dict, by their ids.
pub record TaskManager : Type 0 where
  pub tasks : Dict Task
  pub task_queue : List Text

-- `__init__`
abbrev pub init : TaskManager
init = record { tasks = []; task_queue = [] }

-- `f"task_{n}"`
unfoldable pub task_id_of : ℕ → Text
task_id_of n = codes "task_" ++ decimal n

unfoldable pub create_task : Text → Text → Text → TaskManager → Text × TaskManager
create_task name description parameters m =
    let task_id = task_id_of (length m.tasks + 1) in
    let task : Task = record {
      id = task_id;
      name = name;
      description = description;
      parameters = parameters;
      status = pending;
      result = none;
      error = none;
    } in
    (
      task_id,
      record { tasks = insert task_id task m.tasks; task_queue = m.task_queue ++ task_id ∷ [] },
    )

unfoldable pub get_task_status : Text → TaskManager → Option TaskStatus
get_task_status task_id m = elim (lookup task_id m.tasks) [ none ↦ none | some t ↦ some t.status ]

is_completed : TaskStatus → Bool
is_completed completed = true
is_completed s = false

unfoldable pub get_task_result : Text → TaskManager → Option Text
unfolding is_completed
get_task_result task_id m = elim (lookup task_id m.tasks) [
  | none ↦ none
  | some t ↦ if is_completed t.status then t.result else none
]

-- The ids in use are numbered up to the number of tasks, each of which is in the queue.
abbrev pub IsNumbered : TaskManager → Type 0
IsNumbered m =
    ((n : ℕ) → has_key (task_id_of n) m.tasks ≡ true → n ≤ length m.tasks)
    × (length m.task_queue ≡ length m.tasks)

task_id_of-injective : (n k : ℕ) → task_id_of n ≡ task_id_of k → n ≡ k
unfolding task_id_of
task_id_of-injective n k e =
    let same : decimal n ≡ decimal k = cc in
    sym (number-decimal n) ∙ ap (number_from 0) same ∙ number-decimal k

-- In a manager whose ids are numbered up to the number of its tasks, the id that a new task gets
-- is not in use: the task replaces no other, it is found under its id as pending and without a
-- result, all others stay as they were, and the ids are numbered again.
pub create_task-fresh :
    (name description parameters : Text) (m : TaskManager)
    → IsNumbered m
    → let r = create_task name description parameters m in
      (lookup r.0 m.tasks ≡ none)
      × (get_task_status r.0 r.1 ≡ some pending)
      × (get_task_result r.0 r.1 ≡ none)
      × ((k : Text) → k ≢ r.0 → lookup k r.1.tasks ≡ lookup k m.tasks)
      × IsNumbered r.1
unfolding create_task get_task_status get_task_result is_completed
create_task-fresh name description parameters m h =
    let id = task_id_of (length m.tasks + 1) in
    let task : Task = record {
      id = id;
      name = name;
      description = description;
      parameters = parameters;
      status = pending;
      result = none;
      error = none;
    } in
    let free : has_key id m.tasks ≡ false = ground (arith, h.0 (length m.tasks + 1)) in
    let longer = length-insert id task m.tasks in
    (
      ground (arith, free),
      ground (arith, lookup-insert id id task m.tasks, eq_refl id),
      ground (arith, lookup-insert id id task m.tasks, eq_refl id),
      λ k other. ground (arith, lookup-insert id k task m.tasks, eq_iff id k),
      (
        λ n used. elim (Bool-cases (id == task_id_of n)) [
          | inl same ↦
              let n_is =
                task_id_of-injective (length m.tasks + 1) n ((eq_iff id (task_id_of n)).0 same) in
              ground (arith, longer, free, n_is)
          | inr other ↦
              let found : has_key (task_id_of n) m.tasks ≡ true =
                ground (arith, used, lookup-insert id (task_id_of n) task m.tasks, other) in
              ground (arith, longer, free, h.0 n found)
        ],
        ground (arith, longer, free, h.1, length-append m.task_queue (id ∷ [])),
      ),
    )
