-- ===== src/Intent/Saved/Reload.antt =====
-- A goal tree that is saved is loaded as it was.
use bantu_os.Prelude.{ℕ, ◌≡◌, ◌≢◌, refl, sym, ap, ◌∙◌, Option, none, some, List, [], ◌∷◌, map, ok}
use bantu_os.Prelude.Text.{Text, ◌==◌}
use bantu_os.Intent.Tree.{GoalStatus}
use bantu_os.Intent.Saved.{
  TimedRetry, TimedGoal, TimedNode, node, TimedNodes, nil, cons, Clock, value, status_of, or_none,
  retry_to_dict, time_of, completed_of, completed_to_text, retry_from_dict, retries_from_dicts,
  goal_to_dict, to_dict, to_dicts, goal_made, goal_from_dict, link_all, loaded, followed, from_dict,
  from_dicts, with_children, in_front, after_id,
}

-- Every child is linked to the node above it, and no node has an empty dict of parameters.
abbrev mutual
  pub IsLinked : TimedNode → Type 0
  IsLinked (node g cs) = (or_none g.tool_params ≡ g.tool_params) × AreLinked g.id cs

  pub AreLinked : ℕ → TimedNodes → Type 0
  AreLinked id nil = Unit
  AreLinked id (cons (node g cs) ns) =
      (g.parent_id ≡ some id) × IsLinked (node g cs) × AreLinked id ns

status_of-value : (s : GoalStatus) → status_of (value s) ≡ some s
unfolding status_of value ◌==◌
status_of-value GoalStatus.pending = refl
status_of-value GoalStatus.running = refl
status_of-value GoalStatus.done = refl
status_of-value GoalStatus.failed = refl
status_of-value GoalStatus.blocked = refl

link_all-same : (id : ℕ) (ns : TimedNodes) → AreLinked id ns → link_all id ns ≡ ns
unfolding link_all
link_all-same id nil h = refl
link_all-same id (cons (node g cs) ns) h =
    ap (λ p. cons (node (record g { parent_id = p }) cs) (link_all id ns)) (sym h.0)
    ∙ ap (cons (node g cs)) (link_all-same id ns h.2)

module _ (clock : Clock) (exact : (t : ℕ) → clock.fromisoformat (clock.isoformat t) ≡ some t)
    (nonempty : (t : ℕ) → clock.isoformat t ≢ []) where
  retries-same :
      (rs : List TimedRetry) → retries_from_dicts clock (map (retry_to_dict clock) rs) ≡ some rs
  unfolding retries_from_dicts retry_from_dict retry_to_dict time_of
  retries-same [] = refl
  retries-same (r ∷ rs) = rw (exact r.attempted_at, retries-same rs) refl

  completed_text :
      (t : ℕ) (s : Text) → clock.isoformat t ≡ s → completed_of clock (some s) ≡ some (some t)
  unfolding completed_of
  completed_text t [] h = absurd (nonempty t h)
  completed_text t (c ∷ s) h =
      let read : clock.fromisoformat (c ∷ s) ≡ some t = rw (← h) (exact t) in
      rw (completed_of, read) refl

  completed-same : (o : Option ℕ) → completed_of clock (completed_to_text clock o) ≡ some o
  unfolding completed_to_text completed_of
  completed-same none = refl
  completed-same (some t) = completed_text t (clock.isoformat t) refl

  goal_made-same :
      (fresh : ℕ) (g : TimedGoal)
      → or_none g.tool_params ≡ g.tool_params
      → goal_made clock fresh
          (goal_to_dict clock g)
          (some g.status)
          (some g.retry_history)
          (some g.created_at)
          (some g.completed_at)
        ≡ some g
  unfolding goal_made goal_to_dict
  goal_made-same fresh g h = rw h refl

  goal-same :
      (fresh : ℕ) (g : TimedGoal)
      → or_none g.tool_params ≡ g.tool_params
      → goal_from_dict clock fresh (goal_to_dict clock g) ≡ some g
  unfolding goal_from_dict goal_to_dict time_of
  goal-same fresh g h =
      let d = goal_to_dict clock g in
      let rs = retries_from_dicts clock (map (retry_to_dict clock) g.retry_history) in
      let created = clock.fromisoformat (clock.isoformat g.created_at) in
      let completed = completed_of clock (completed_to_text clock g.completed_at) in
      ap (λ o. goal_made clock fresh d o rs created completed) (status_of-value g.status)
      ∙ (ap (λ o. goal_made clock fresh d (some g.status) o created completed)
            (retries-same g.retry_history)
          ∙ (ap (λ o. goal_made clock fresh d (some g.status) (some g.retry_history) o completed)
                (exact g.created_at)
              ∙ (ap
                    (λ o.
                      goal_made clock fresh d (some g.status) (some g.retry_history)
                        (some g.created_at) o)
                    (completed-same g.completed_at)
                  ∙ goal_made-same fresh g h)))

  mutual
    unfolding from_dict to_dict followed after_id goal_to_dict loaded with_children

    loaded_node :
        (n : TimedNode) (fresh : ℕ)
        → IsLinked n
        → from_dict clock (to_dict clock n) fresh ≡ (ok n, fresh)
    loaded_node (node g cs) fresh h =
        ap
          (λ r.
            loaded (goal_from_dict clock fresh (goal_to_dict clock g)) (goal_to_dict clock g) fresh
              r)
          (loaded_nodes g.id cs fresh h.1)
        ∙ (ap (λ o. loaded o (goal_to_dict clock g) fresh (ok cs, fresh)) (goal-same fresh g h.0)
            ∙ ap (λ ns. (ok (node g ns), fresh)) (link_all-same g.id cs h.1))

    loaded_nodes :
        (id : ℕ) (ns : TimedNodes) (fresh : ℕ)
        → AreLinked id ns
        → from_dicts clock (to_dicts clock ns) fresh ≡ (ok ns, fresh)
    loaded_nodes id nil fresh h = refl
    loaded_nodes id (cons (node g cs) ns) fresh h =
        ap (λ r. followed r (λ next. from_dicts clock (to_dicts clock ns) next))
          (loaded_node (node g cs) fresh h.1)
        ∙ ap (in_front (node g cs)) (loaded_nodes id ns fresh h.2)

  -- If `fromisoformat` reads back the texts of `isoformat`, which are not empty, then a tree whose
  -- children are linked to their parents, and in which no node has an empty dict of parameters, is
  -- what `from_dict` makes of its `to_dict`: every field, the times included, and every node in its
  -- place. No new id is drawn.
  pub from_dict-to_dict :
      (n : TimedNode) (fresh : ℕ)
      → IsLinked n
      → from_dict clock (to_dict clock n) fresh ≡ (ok n, fresh)
  from_dict-to_dict n fresh h = loaded_node n fresh h
