-- ===== src/Intent/Walk.antt =====
-- bantu_os/core/intent/intent_kernel.py: the walk over a goal tree, with confirmation and retries.
-- The agent manager and the resolver act on a world of their own, `W`.
pub mod Retries
pub mod Ends
pub mod Safety
pub mod Outcomes
use bantu_os.Prelude.{
  ℕ, zero, suc, ◌+◌, ◌≡◌, Bool, true, false, not, ◌&&◌, ◌||◌, Option, none, some, List, [], ◌∷◌,
  ◌++◌, arith, ltb, leb, eqb, Result, ok, err, any, length, if◌then◌else◌,
}
use bantu_os.Prelude.Text.{Text, codes, ◌==◌, lower, starts_with}
use bantu_os.Prelude.Decimal.{decimal}
use bantu_os.Intent.Tree.{
  GoalStatus, running, blocked, Goal, GoalNode, GoalNodes, node, nil, cons, mark_done, mark_failed,
  decide, leaf_nodes,
}
use bantu_os.Intent.Gate.{
  ConfirmationRequest, requires_confirmation, describe_impact, build_request,
}
use bantu_os.Intent.Leaf.{AgentManager, Failure, execute_leaf, message_of}

-- Kinds of `GoalEvent`, with the id of the node and the message.
pub data Event : Type 0 where
  task_started task_done task_failed task_retry task_skipped : ℕ → Text → Event

-- What ends a walk before its end.
pub data Stop : Type 0 where
  aborted : ℕ → Stop
  failed : Text → Stop
  out_of_fuel : Stop

-- The kernel's state: the approved steps, the monitor's events, and the world.
pub record State (W : Type 0) : Type 0 where
  pub approved : List (Text × Option Text)
  pub events : List Event
  pub world : W

-- `(node.text, node.tool)` against an approved step.
same_tool : Option Text → Option Text → Bool
same_tool none none = true
same_tool (some s) (some t) = s == t
same_tool s t = false

unfoldable pub is_approved : Goal → List (Text × Option Text) → Bool
unfolding same_tool
is_approved g approved = any (λ k. k.0 == g.text && same_tool k.1 g.tool) approved

module _ {W : Type 0} where
  unfoldable pub emit : Event → State W → State W
  emit e s = record s { events = s.events ++ e ∷ [] }

  abbrev pub set_world : State W → W → State W
  set_world s w = record s { world = w }

  unfoldable pub needs_confirmation : Goal → State W → Bool
  needs_confirmation g s = if is_approved g s.approved then false else requires_confirmation g

-- The resolver's answer, or its exception.
abbrev pub Resolver : Type 0 → Type 0
Resolver W = ConfirmationRequest → W → Result Text Text × W

-- How a step of the walk went, the node as it is then, and the state.
abbrev pub Step : Type 0 → Type 0 → Type 0
Step N W = Result Stop (Unit {0}) × N × State W

-- The fuel for the attempts at one leaf: the third failure is never retried.
abbrev pub max_attempts : ℕ
max_attempts = 3

-- The node as its walk begins.
abbrev pub started : Goal → Goal
started g = record g { status = running }

module _ {W : Type 0} where
  -- `_handle_confirmation` of a step that needs it: whether to go on.
  unfoldable pub skip : Text → Goal → State W → Step Goal W × Bool
  skip why g s = (
    (ok tt, record g { status = blocked; error = some why }, emit (task_skipped g.id why) s),
    false,
  )

  unfoldable pub answered : Goal → State W → Text → Step Goal W × Bool
  unfolding skip
  answered g s decision =
      if decision == codes "approve"
      then ((ok tt, g, record s { approved = (g.text, g.tool) ∷ s.approved }), true)
      else if decision == codes "skip"
      then skip (codes "Skipped by user") g s
      else if decision == codes "abort"
      then ((err (aborted g.id), g, s), false)
      else skip (codes "Skipped (unrecognised confirmation response)") g s

  unfoldable pub handle_confirmation : Option (Resolver W) → Goal → State W → Step Goal W × Bool
  unfolding answered
  handle_confirmation none g s =
      skip (codes "Destructive step skipped (no confirmation resolver)") g s
  handle_confirmation (some ask) g s =
      let (r, w) = ask (build_request g) s.world in
      elim r [
        | ok decision ↦ answered g (set_world s w) decision
        | err e ↦ ((err (failed e), g, set_world s w), false)
      ]

  unfoldable pub leaf_node : Step Goal W → Step GoalNode W
  leaf_node (r, g, s) = (r, node g nil, s)

  -- A node is done when its children are walked.
  unfoldable pub close_node : Goal → Step GoalNodes W → Step GoalNode W
  close_node g (ok u, cs, s) = (ok tt, node (mark_done none g) cs, emit (task_done g.id g.text) s)
  close_node g (err e, cs, s) = (err e, node g cs, s)

  unfoldable pub after_first : GoalNode → Step GoalNodes W → Step GoalNodes W
  after_first n (r, ns, s) = (r, cons n ns, s)

  -- One round of the loop over the children, `rest` being those that follow.
  unfoldable pub then_children :
      Step GoalNode W → GoalNodes → (State W → Step GoalNodes W) → Step GoalNodes W
  then_children (ok u, n, s) ns rest = after_first n (rest s)
  then_children (err e, n, s) ns rest = (err e, cons n ns, s)

module _ {W : Type 0} (am : AgentManager W) (limit : Text) (max_retries : ℕ) where
  -- The `while True` of `_walk`, in its round `attempt`.
  unfoldable pub attempts : ℕ → ℕ → Goal → State W → Step Goal W
  attempts zero attempt g s = (err out_of_fuel, g, s)
  attempts (suc fuel) attempt g s =
      let (r, w) = execute_leaf am g s.world in
      elim r [
        | ok result ↦
            (ok tt, mark_done (some result) g, emit (task_done g.id g.text) (set_world s w))
        | err f ↦
            let error = message_of limit g f in
            let s' = emit (task_failed g.id error) (set_world s w) in
            let (again, g') = decide g error in
            let rest = attempts fuel (attempt + 1) g' (
              emit
                (task_retry g.id (codes "Retrying '" ++ (g.text ++ (codes "' after: " ++ error))))
                s') in
            if again && leb attempt max_retries
            then rest
            else (err (failed error), mark_failed error g', s')
      ]

  -- The leaf is run once it is confirmed or needs no confirmation.
  run_confirmed : Step Goal W × Bool → Step Goal W
  run_confirmed ((r, g, s), true) = attempts max_attempts 1 g s
  run_confirmed (step, false) = step

  unfoldable pub walk_leaf : Option (Resolver W) → Goal → State W → Step Goal W
  unfolding run_confirmed
  walk_leaf resolver g s =
      if needs_confirmation g s
      then run_confirmed (handle_confirmation resolver g s)
      else attempts max_attempts 1 g s

module _ {W : Type 0} (am : AgentManager W) (limit : Text) (max_retries : ℕ)
    (resolver : Option (Resolver W)) where
  unfoldable mutual
    -- `_walk`
    pub walk : GoalNode → State W → Step GoalNode W
    walk (node g nil) s =
        leaf_node
          (walk_leaf am limit max_retries resolver (started g) (emit (task_started g.id g.text) s))
    walk (node g (cons n ns)) s =
        close_node (started g) (walk_children (cons n ns) (emit (task_started g.id g.text) s))

    -- The loop over `children`, which an abort or a failure ends.
    pub walk_children : GoalNodes → State W → Step GoalNodes W
    walk_children nil s = (ok tt, nil, s)
    walk_children (cons n ns) s = then_children (walk n s) ns (walk_children ns)
