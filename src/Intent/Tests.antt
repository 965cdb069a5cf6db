-- ===== src/Intent/Tests.antt =====
-- Concrete runs of the planner and of the walk over a goal tree.
use bantu_os.Intent.Tree.{GoalNode, node, nil, cons, new_goal}
use bantu_os.Intent.Tree.{GoalStatus}
use bantu_os.Intent.Saved
use bantu_os.Intent.Saved.{TimedGoal, TimedNode, Clock, or_none, from_dict, to_dict}
use bantu_os.Intent.Saved.Reload.{from_dict-to_dict}
use bantu_os.Prelude.{
  List, Result, ltb, if◌then◌else◌, ◌⊎◌, ℕ, ◌+◌, ◌≤◌, ◌≡◌, refl, true, false, any, Option, none,
  some, [], ◌∷◌, arith, Result, ok, err,
}
use bantu_os.Prelude.Text.{Text, codes, ◌==◌, contains, starts_with, lower}
use bantu_os.Intent.Tree.{Goal, GoalNode, node, nil, cons, new_goal}
use bantu_os.Intent.Gate.{requires_confirmation, mentions, haystack, is_destructive}
use bantu_os.Intent.Leaf.{AgentManager, timed_out, Outcome, execute_leaf, tool_error}
use bantu_os.Intent.Walk.{
  State, emit, is_approved, needs_confirmation, Resolver, attempts, walk_leaf, leaf_node,
  close_node, handle_confirmation, after_first, then_children, walk,
}
use bantu_os.Intent.Walk.Safety.{walk_without_resolver}
use bantu_os.Intent.Walk.Outcomes.{Settled, walk-Settled}
use bantu_os.Intent.Receive.{GoalTree, receive_streaming}
use bantu_os.Intent.Receive.Frames.{EndsFinal, receive_streaming-EndsFinal}
use bantu_os.Intent.Planner.{
  Planned, planned, no_steps, step, PlannedPlan, GoalPlanner, planner_for, unknown_tool,
  validate_leaf, and_step, then_steps, validate, validate_plan, plan_to_tree, fallback_tree,
}
use bantu_os.Intent.Planner.Decompose.{
  ChatMessage, Failure, Sources, decompose, tries, build_messages, with_error,
}
use bantu_os.Intent.Planner.Tries.{IsPlanned, decompose-IsPlanned}

-- An agent manager that runs texts, and counts the runs in the world.
abbrev agent : AgentManager ℕ
agent = record {
  tool_call = none;
  execute = some (λ t w. (ok (Outcome.text (codes "fine")), w + 1));
}

-- One whose runs all time out.
abbrev slow_agent : AgentManager ℕ
slow_agent = record { tool_call = none; execute = some (λ t w. (err timed_out, w + 1)) }

abbrev limit_text : Text
limit_text = codes "30"

abbrev start : State ℕ
start = record { approved = []; events = []; world = 10 }

abbrev deletes : Goal
deletes = new_goal 2 (codes "delete it") 1

abbrev lists : Goal
lists = new_goal 3 (codes "list") 1

abbrev tree : GoalNode
tree = node (new_goal 1 (codes "clean") 0) (cons (node deletes nil) (cons (node lists nil) nil))

-- No run lowers the count.
abbrev Counted : ℕ → Type 0
Counted w = 10 ≤ w

agent-Counted :
    (g : Goal) (w : ℕ)
    → requires_confirmation g ≡ false
    → Counted w
    → Counted (execute_leaf agent g w).1
unfolding execute_leaf
agent-Counted g w free h = omega arith

abbrev refuses : Resolver ℕ
refuses request w = (ok (codes "abort"), w)

abbrev planner : GoalPlanner
planner = planner_for (codes "rm" ∷ [])

abbrev cleaning : GoalTree
cleaning = record { root = tree; clarification_needed = false; clarification_question = none }

abbrev leaf : Planned
leaf = record {
  id = codes "1";
  text = codes "delete it";
  tool = some (codes "rm");
  params = none;
  requires = [];
  destructive = false;
}

abbrev plan_of : Planned → PlannedPlan
plan_of p = record { root_goal = codes "clean"; steps = step (planned p no_steps) no_steps }

walk_without_resolver_example :
    let am : AgentManager ℕ = agent in
    let limit : Text = limit_text in
    let max_retries : ℕ = 2 in
    let n : GoalNode = tree in
    let s : State ℕ = start in
    ((walk am limit max_retries none n s).2.approved ≡ [])
    × Counted (walk am limit max_retries none n s).2.world
walk_without_resolver_example =
    walk_without_resolver agent limit_text 2 Counted agent-Counted tree start refl (omega arith)

walk-Settled_example :
    let am : AgentManager ℕ = agent in
    let limit : Text = limit_text in
    let max_retries : ℕ = 2 in
    let resolver : Option (Resolver ℕ) = none in
    let n : GoalNode = tree in
    let s : State ℕ = start in Settled (walk am limit max_retries resolver n s).1
unfolding walk then_children after_first leaf_node close_node walk_leaf handle_confirmation attempts
    execute_leaf tool_error emit needs_confirmation is_approved any requires_confirmation mentions
    haystack lower contains starts_with
walk-Settled_example = walk-Settled agent limit_text 2 none tree start refl

receive_streaming-EndsFinal_example :
    let am : AgentManager ℕ = agent in
    let limit : Text = limit_text in
    let max_retries : ℕ = 2 in
    let resolver : Option (Resolver ℕ) = none in
    let render : GoalNode → Text = λ n. [] in
    let persist : GoalNode → ℕ → ℕ = λ n w. w in
    let planned : Result Text GoalTree = ok cleaning in
    let s : State ℕ = start in
    EndsFinal (receive_streaming am limit max_retries resolver render persist planned s).0
receive_streaming-EndsFinal_example =
    receive_streaming-EndsFinal agent limit_text 2 none (λ n. []) (λ n w. w) (ok cleaning) start

-- A time is a text of one character here.
abbrev read_time : Text → Option ℕ
read_time [] = none
read_time (c ∷ s) = some c

abbrev clock : Clock
clock = record { isoformat = λ t. t ∷ []; fromisoformat = read_time; now = 7 }

abbrev timed_goal : ℕ → Option ℕ → TimedGoal
timed_goal id parent_id = record {
  id = id;
  text = codes "step";
  level = 1;
  status = GoalStatus.done;
  tool = none;
  tool_params = none;
  result = some (codes "ok");
  error = none;
  retry_count = 1;
  retry_history =
      record { reason = codes "retry"; attempted_plan = []; error = []; attempted_at = 4 } ∷ [];
  parent_id = parent_id;
  requires = [];
  destructive = false;
  created_at = 3;
  completed_at = some 5;
}

abbrev linked_tree : TimedNode
linked_tree =
    Saved.node (timed_goal 1 none)
      (Saved.cons (Saved.node (timed_goal 2 (some 1)) Saved.nil) Saved.nil)

from_dict-to_dict_example :
    let n : TimedNode = linked_tree in
    let fresh : ℕ = 9 in from_dict clock (to_dict clock n) fresh ≡ (ok n, fresh)
unfolding or_none
from_dict-to_dict_example =
    from_dict-to_dict clock (λ t. refl) (λ t e. absurd (cc)) linked_tree 9
      (refl, (refl, (refl, tt), tt))

-- A model that answers nonsense twice, counting the answers in the world, and then gives a plan.
abbrev sources : Sources ℕ
sources = record {
  generate = some (λ ms w. (ok (if ltb w 2 then codes "?" else codes "{}"), w + 1));
  retrieve = none;
  read_plan = λ text. if text == codes "?" then err (codes "no JSON") else ok (plan_of leaf);
  schema = codes "{}";
}

abbrev cleaning_root : GoalNode × ℕ
cleaning_root = plan_to_tree (plan_of (record leaf { destructive = true })) 1

decompose-IsPlanned_example :
    ((sources.generate ≡ none) × (cleaning_root ≡ fallback_tree (codes "clean") 1))
    ⊎ ((generate : List ChatMessage → ℕ → Result Failure Text × ℕ) × (sources.generate
          ≡ some generate)
        × IsPlanned sources generate planner 1 cleaning_root)
unfolding decompose tries build_messages with_error bantu_os.Intent.Planner.Decompose.plan_of
    plan_to_tree validate_plan validate validate_leaf then_steps and_step unknown_tool
    is_destructive mentions any haystack lower contains starts_with ◌==◌
decompose-IsPlanned_example =
    decompose-IsPlanned sources planner 3 (codes "clean") none 1 0 cleaning_root refl
