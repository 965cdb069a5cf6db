-- ===== src/Intent/Saved.antt =====
-- `to_dict` and `from_dict` of bantu_os/core/intent/goal_tree.py: a goal tree as a JSON object and
-- back. An entry that may be missing is an `Option`. Nodes have all fields here, also the times, which
-- Tree leaves out. `isoformat`, `fromisoformat` and `now` of `datetime` are the parameter `Clock`.
pub mod Reload
use bantu_os.Prelude.{
  ℕ, ◌+◌, Bool, true, false, Option, none, some, List, [], ◌∷◌, map, Result, ok, err, if◌then◌else◌,
}
use bantu_os.Prelude.Text.{Text, codes, ◌==◌}
use bantu_os.Intent.Tree.{GoalStatus}

pub record TimedRetry : Type 0 where
  pub reason : Text
  pub attempted_plan : Text
  pub error : Text
  pub attempted_at : ℕ

-- The fields of `GoalNode` but its children.
pub record TimedGoal : Type 0 where
  pub id : ℕ
  pub text : Text
  pub level : ℕ
  pub status : GoalStatus
  pub tool : Option Text
  pub tool_params : Option Text
  pub result : Option Text
  pub error : Option Text
  pub retry_count : ℕ
  pub retry_history : List TimedRetry
  pub parent_id : Option ℕ
  pub requires : List Text
  pub destructive : Bool
  pub created_at : ℕ
  pub completed_at : Option ℕ

mutual
  pub data TimedNode : Type 0 where
    node : TimedGoal → TimedNodes → TimedNode

  pub data TimedNodes : Type 0 where
    nil : TimedNodes
    cons : TimedNode → TimedNodes → TimedNodes

-- `fromisoformat` is `none` for its `ValueError`; `now` is taken to stand still during a load.
pub record Clock : Type 0 where
  pub isoformat : ℕ → Text
  pub fromisoformat : Text → Option ℕ
  pub now : ℕ

-- A time is `none` where the entry is missing or no text.
pub record RetryDict : Type 0 where
  pub reason : Option Text
  pub attempted_plan : Option Text
  pub error : Option Text
  pub attempted_at : Option Text

-- `tool_params` is a JSON text, "{}" for an empty dict.
pub record GoalDict : Type 0 where
  pub id : Option ℕ
  pub text : Option Text
  pub level : Option ℕ
  pub status : Option Text
  pub tool : Option Text
  pub tool_params : Option Text
  pub result : Option Text
  pub error : Option Text
  pub retry_count : Option ℕ
  pub retry_history : Option (List RetryDict)
  pub parent_id : Option ℕ
  pub requires : Option (List Text)
  pub destructive : Option Bool
  pub created_at : Option Text
  pub completed_at : Option Text

mutual
  pub data NodeDict : Type 0 where
    object : GoalDict → NodeDicts → NodeDict

  -- The entry "children".
  pub data NodeDicts : Type 0 where
    no_more : NodeDicts
    more : NodeDict → NodeDicts → NodeDicts

-- `status.value`, and `GoalStatus(text)`, `none` for its `ValueError`.
unfoldable pub value : GoalStatus → Text
value GoalStatus.pending = codes "PENDING"
value GoalStatus.running = codes "RUNNING"
value GoalStatus.done = codes "DONE"
value GoalStatus.failed = codes "FAILED"
value GoalStatus.blocked = codes "BLOCKED"

unfoldable pub status_of : Text → Option GoalStatus
status_of s =
    if s == codes "PENDING"
    then some GoalStatus.pending
    else if s == codes "RUNNING"
    then some GoalStatus.running
    else if s == codes "DONE"
    then some GoalStatus.done
    else if s == codes "FAILED"
    then some GoalStatus.failed
    else if s == codes "BLOCKED"
    then some GoalStatus.blocked
    else none

-- `data.get(name, default)`
abbrev pub get_or {ℓ} : {A : Type ℓ} → A → Option A → A
get_or default none = default
get_or default (some a) = a

-- `data.get("tool_params") or None`
unfoldable pub or_none : Option Text → Option Text
or_none none = none
or_none (some s) = if s == codes "{}" then none else some s

module _ (clock : Clock) where
  unfoldable pub retry_to_dict : TimedRetry → RetryDict
  retry_to_dict r = record {
    reason = some r.reason;
    attempted_plan = some r.attempted_plan;
    error = some r.error;
    attempted_at = some (clock.isoformat r.attempted_at);
  }

  -- A time that is no text is the current one.
  unfoldable pub time_of : Option Text → Option ℕ
  time_of none = some clock.now
  time_of (some s) = clock.fromisoformat s

  -- A time that is missing or empty is none; `none` outside is an error.
  unfoldable pub completed_of : Option Text → Option (Option ℕ)
  completed_of none = some none
  completed_of (some []) = some none
  completed_of (some (c ∷ s)) = elim (clock.fromisoformat (c ∷ s)) [
    | none ↦ none
    | some t ↦ some (some t)
  ]

  unfoldable pub retry_from_dict : RetryDict → Option TimedRetry
  unfolding time_of
  retry_from_dict d = elim (time_of d.attempted_at) [
    | none ↦ none
    | some t ↦ some (record {
      reason = get_or [] d.reason;
      attempted_plan = get_or [] d.attempted_plan;
      error = get_or [] d.error;
      attempted_at = t;
    })
  ]

  unfoldable pub retries_from_dicts : List RetryDict → Option (List TimedRetry)
  unfolding retry_from_dict
  retries_from_dicts [] = some []
  retries_from_dicts (d ∷ ds) =
      let rest = retries_from_dicts ds in
      elim (retry_from_dict d) [
        | none ↦ none
        | some r ↦ elim rest [ none ↦ none | some rs ↦ some (r ∷ rs) ]
      ]

  -- `self.completed_at.isoformat() if self.completed_at else None`
  unfoldable pub completed_to_text : Option ℕ → Option Text
  completed_to_text none = none
  completed_to_text (some t) = some (clock.isoformat t)

  unfoldable pub goal_to_dict : TimedGoal → GoalDict
  unfolding value retry_to_dict completed_to_text
  goal_to_dict g = record {
    id = some g.id;
    text = some g.text;
    level = some g.level;
    status = some (value g.status);
    tool = g.tool;
    tool_params = g.tool_params;
    result = g.result;
    error = g.error;
    retry_count = some g.retry_count;
    retry_history = some (map retry_to_dict g.retry_history);
    parent_id = g.parent_id;
    requires = some g.requires;
    destructive = some g.destructive;
    created_at = some (clock.isoformat g.created_at);
    completed_at = completed_to_text g.completed_at;
  }

  unfoldable mutual
    unfolding goal_to_dict

    pub to_dict : TimedNode → NodeDict
    to_dict (node g cs) = object (goal_to_dict g) (to_dicts cs)

    pub to_dicts : TimedNodes → NodeDicts
    to_dicts nil = no_more
    to_dicts (cons n ns) = more (to_dict n) (to_dicts ns)

  -- `cls(…)`, from the arguments that were read; `none` where one of them is a `ValueError`.
  unfoldable pub goal_made :
      ℕ
      → GoalDict
      → Option GoalStatus
      → Option (List TimedRetry)
      → Option ℕ
      → Option (Option ℕ)
      → Option TimedGoal
  unfolding or_none
  goal_made fresh d (some status) (some retries) (some created) (some completed) = some (record {
    id = get_or fresh d.id;
    text = get_or [] d.text;
    level = get_or 0 d.level;
    status = status;
    tool = d.tool;
    tool_params = or_none d.tool_params;
    result = d.result;
    error = d.error;
    retry_count = get_or 0 d.retry_count;
    retry_history = retries;
    parent_id = d.parent_id;
    requires = get_or [] d.requires;
    destructive = get_or false d.destructive;
    created_at = created;
    completed_at = completed;
  })
  goal_made fresh d status retries created completed = none

  -- The id is `fresh` where there is none.
  unfoldable pub goal_from_dict : ℕ → GoalDict → Option TimedGoal
  unfolding goal_made retries_from_dicts status_of time_of completed_of
  goal_from_dict fresh d =
      goal_made fresh d (status_of (get_or (codes "PENDING") d.status))
        (retries_from_dicts (get_or [] d.retry_history)) (time_of d.created_at)
        (completed_of d.completed_at)

-- `child.parent_id = node.id`
unfoldable pub link_all : ℕ → TimedNodes → TimedNodes
link_all id nil = nil
link_all id (cons (node g cs) ns) =
    cons (node (record g { parent_id = some id }) cs) (link_all id ns)

-- The counter goes up where an id is drawn; an error is the `ValueError` of a status or a time.
unfoldable pub after_id : Option ℕ → ℕ → ℕ
after_id none fresh = fresh + 1
after_id (some id) fresh = fresh

with_children : TimedGoal → Result (Unit {0}) TimedNodes × ℕ → Result (Unit {0}) TimedNode × ℕ
unfolding link_all
with_children g (err e, fresh) = (err e, fresh)
with_children g (ok cs, fresh) = (ok (node g (link_all g.id cs)), fresh)

in_front : TimedNode → Result (Unit {0}) TimedNodes × ℕ → Result (Unit {0}) TimedNodes × ℕ
in_front n (err e, fresh) = (err e, fresh)
in_front n (ok ns, fresh) = (ok (cons n ns), fresh)

-- The other children are read after one that was.
unfoldable pub followed :
    Result (Unit {0}) TimedNode × ℕ
    → (ℕ → Result (Unit {0}) TimedNodes × ℕ)
    → Result (Unit {0}) TimedNodes × ℕ
unfolding in_front
followed (err e, fresh) rest = (err e, fresh)
followed (ok n, fresh) rest = in_front n (rest fresh)

-- A node that was made, or not, and the children that were read.
unfoldable pub loaded :
    Option TimedGoal
    → GoalDict
    → ℕ
    → Result (Unit {0}) TimedNodes × ℕ
    → Result (Unit {0}) TimedNode × ℕ
unfolding with_children after_id
loaded none d fresh children = (err tt, after_id d.id fresh)
loaded (some g) d fresh children = with_children g children

module _ (clock : Clock) where
  unfoldable mutual
    unfolding goal_from_dict followed after_id

    pub from_dict : NodeDict → ℕ → Result (Unit {0}) TimedNode × ℕ
    from_dict (object d cs) fresh =
        loaded (goal_from_dict clock fresh d) d fresh (from_dicts cs (after_id d.id fresh))

    pub from_dicts : NodeDicts → ℕ → Result (Unit {0}) TimedNodes × ℕ
    from_dicts no_more fresh = (ok nil, fresh)
    from_dicts (more d ds) fresh = followed (from_dict d fresh) (λ next. from_dicts ds next)
