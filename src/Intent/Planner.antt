-- ===== src/Intent/Planner.antt =====
-- bantu_os/core/intent/goal_planner.py: the check of a plan that the model returned, and the goal
-- tree made of it.
pub mod Plans
pub mod Decompose
pub mod Tries
use bantu_os.Prelude.{
  ℕ, zero, suc, ◌+◌, ◌≤◌, ◌<◌, ◌≡◌, ◌≢◌, ◌⊎◌, refl, sym, ap, ◌∙◌, Bool, true, false, not, ◌&&◌,
  ◌||◌, Option, none, some, List, [], ◌∷◌, ◌++◌, arith, ltb, leb, eqb, Result, ok, err, length,
  length-append, any, Bool-cases, Option-cases, Result-cases, inl, inr, if◌then◌else◌,
}
use bantu_os.Prelude.Text.{Text, codes, ◌==◌, eq_iff}
use bantu_os.Intent.Tree.{
  GoalStatus, Goal, GoalNode, GoalNodes, node, nil, cons, new_goal, append_node, add_child,
  leaf_nodes, leaf_children,
}
use bantu_os.Intent.Gate.{is_destructive}

-- The fields of `PlannedGoalNode` but its children; `params` is a JSON text, none for `{}`.
pub record Planned : Type 0 where
  pub id : Text
  pub text : Text
  pub tool : Option Text
  pub params : Option Text
  pub requires : List Text
  pub destructive : Bool

mutual
  pub data PlannedNode : Type 0 where
    planned : Planned → PlannedNodes → PlannedNode

  pub data PlannedNodes : Type 0 where
    no_steps : PlannedNodes
    step : PlannedNode → PlannedNodes → PlannedNodes

-- `PlannedGoalPlan`
pub record PlannedPlan : Type 0 where
  pub root_goal : Text
  pub steps : PlannedNodes

pub record GoalPlanner : Type 0 where
  pub available_tools : List Text
  pub max_leaf_nodes : ℕ
  pub max_nesting : ℕ

-- The default limits.
abbrev pub planner_for : List Text → GoalPlanner
planner_for tools = record { available_tools = tools; max_leaf_nodes = 12; max_nesting = 3 }

is_empty : {A : Type 0} → List A → Bool
is_empty [] = true
is_empty (x ∷ xs) = false

-- A tool that is named and stands not in the list, where there is a list.
unfoldable pub unknown_tool : GoalPlanner → Option Text → Bool
unfolding is_empty
unknown_tool gp none = false
unknown_tool gp (some t) =
    not (is_empty t)
    && (not (is_empty gp.available_tools) && not (any (λ s. s == t) gp.available_tools))

-- The plan as the check leaves it, and the leaves counted so far.
abbrev pub Checked : Type 0 → Type 0
Checked N = Result Text (N × ℕ)

unfoldable pub validate_leaf : GoalPlanner → Planned → ℕ → Checked PlannedNode
validate_leaf gp p count =
    if ltb gp.max_leaf_nodes (count + 1)
    then err (codes "Goal plan exceeds maximum leaf nodes")
    else if unknown_tool gp p.tool
    then err (codes "Unknown tool: " ++ elim p.tool [ none ↦ [] | some t ↦ t ])
    else if is_destructive p.text p.tool
    then ok (planned (record p { destructive = true }) no_steps, count + 1)
    else ok (planned p no_steps, count + 1)

unfoldable pub with_children : Planned → Checked PlannedNodes → Checked PlannedNode
with_children p (ok (ns, count)) = ok (planned p ns, count)
with_children p (err e) = err e

unfoldable pub and_step : PlannedNode → Checked PlannedNodes → Checked PlannedNodes
and_step n (ok (ns, count)) = ok (step n ns, count)
and_step n (err e) = err e

unfoldable pub then_steps : Checked PlannedNode → (ℕ → Checked PlannedNodes) → Checked PlannedNodes
then_steps (ok (n, count)) rest = and_step n (rest count)
then_steps (err e) rest = err e

-- `walk(node, depth)` of `_validate_plan`.
unfoldable mutual
  pub validate : GoalPlanner → PlannedNode → ℕ → ℕ → Checked PlannedNode
  validate gp (planned p no_steps) depth count =
      if ltb gp.max_nesting depth
      then err (codes "Goal plan exceeds maximum nesting depth")
      else validate_leaf gp p count
  validate gp (planned p (step n ns)) depth count =
      if ltb gp.max_nesting depth
      then err (codes "Goal plan exceeds maximum nesting depth")
      else with_children p (validate_all gp (step n ns) (depth + 1) count)

  pub validate_all : GoalPlanner → PlannedNodes → ℕ → ℕ → Checked PlannedNodes
  validate_all gp no_steps depth count = ok (no_steps, count)
  validate_all gp (step n ns) depth count =
      then_steps (validate gp n depth count) (λ k. validate_all gp ns depth k)

-- `_validate_plan`
unfoldable pub validate_plan : GoalPlanner → PlannedPlan → Result Text PlannedPlan
validate_plan gp plan = elim (validate_all gp plan.steps 1 0) [
  | ok (steps, count) ↦ ok (record plan { steps = steps })
  | err e ↦ err e
]

-- `_node_from_plan` before its loop: the goal with the id `id`.
unfoldable pub goal_from_plan : ℕ → Planned → ℕ → Goal
goal_from_plan id p level = record (new_goal id p.text level) {
  tool = p.tool;
  tool_params = p.params;
  requires = p.requires;
  destructive = p.destructive || is_destructive p.text p.tool;
}

-- `_node_from_plan`, which draws ids from `next`, and its loop.
unfoldable mutual
  pub node_from_plan : PlannedNode → ℕ → ℕ → GoalNode × ℕ
  node_from_plan (planned p cs) level next =
      add_planned (node (goal_from_plan next p level) nil) cs (level + 1) (next + 1)

  pub add_planned : GoalNode → PlannedNodes → ℕ → ℕ → GoalNode × ℕ
  add_planned parent no_steps level next = (parent, next)
  add_planned parent (step n ns) level next =
      let made = node_from_plan n level next in
      add_planned (add_child parent made.0) ns level made.1

-- `_plan_to_tree`: the root of the tree.
unfoldable pub plan_to_tree : PlannedPlan → ℕ → GoalNode × ℕ
plan_to_tree plan next =
    add_planned (node (new_goal next plan.root_goal 0) nil) plan.steps 1 (next + 1)

-- `_fallback_tree`
unfoldable pub fallback_tree : Text → ℕ → GoalNode × ℕ
fallback_tree goal_text next = (
  add_child (node (new_goal next goal_text 0) nil) (node (new_goal (next + 1) goal_text 1) nil),
  next + 2,
)
