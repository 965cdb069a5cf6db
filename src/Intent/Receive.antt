-- ===== src/Intent/Receive.antt =====
-- bantu_os/core/intent/intent_kernel.py: `receive_streaming`, as the list of the frames that it
-- yields, and the marking after an abort. What the planner returns or raises, the printing of a
-- tree and the store of memories are arguments.
pub mod Frames
use bantu_os.Prelude.{
  ℕ, ◌+◌, ◌≡◌, ◌≢◌, refl, Bool, true, false, Option, none, some, List, [], ◌∷◌, ◌++◌, arith, eqb,
  Result, ok, err, length, Result-cases, inl, inr, if◌then◌else◌,
}
use bantu_os.Prelude.Text.{Text, codes}
use bantu_os.Prelude.Decimal.{decimal}
use bantu_os.Intent.Tree.{
  GoalStatus, pending, running, blocked, Goal, GoalNode, GoalNodes, node, nil, cons, goal_of,
  children_of, mark_done, leaf_nodes,
}
use bantu_os.Intent.Leaf.{AgentManager}
use bantu_os.Intent.Walk.{Stop, aborted, failed, out_of_fuel, State, Resolver, Step, walk_children}

-- The fields of `GoalTree` that are read.
pub record GoalTree : Type 0 where
  pub root : GoalNode
  pub clarification_needed : Bool
  pub clarification_question : Option Text

-- The frames by their "type"; each shows the tree as it is when the frame is made.
pub data Frame : Type 0 where
  plan_failed : Text → Frame
  clarification : Text → GoalNode → Frame
  goal_update : Text → GoalNode → Frame
  goal_complete : Text → Bool → GoalNode → Frame
  goal_failed : Text → GoalNode → Frame

-- `if node.status in (PENDING, RUNNING)`
unfoldable pub block_goal : Goal → Goal
block_goal g = elim g.status [
  | pending ↦ record g { status = blocked; error = some (codes "Blocked by upstream abort") }
  | running ↦ record g { status = blocked; error = some (codes "Blocked by upstream abort") }
  | _ ↦ g
]

unfoldable mutual
  pub block : GoalNode → GoalNode
  block (node g cs) = node (block_goal g) (block_children cs)

  pub block_children : GoalNodes → GoalNodes
  block_children nil = nil
  block_children (cons n ns) = cons (block n) (block_children ns)

-- The first node with an id, before its children, is blocked; whether there was one.
unfoldable mutual
  pub block_at : ℕ → GoalNode → Bool × GoalNode
  block_at id (node g cs) =
      let (found, ds) = block_in id cs in
      if eqb g.id id then (true, block (node g cs)) else (found, node g ds)

  pub block_in : ℕ → GoalNodes → Bool × GoalNodes
  block_in id nil = (false, nil)
  block_in id (cons n ns) =
      let (found, n') = block_at id n in
      let (later, ns') = block_in id ns in if found then (true, cons n' ns) else (later, cons n ns')

-- `_mark_descendants_blocked`
unfoldable pub mark_descendants_blocked : ℕ → GoalNode → GoalNode
mark_descendants_blocked id root = (block_at id root).1

-- `clarification_question or "…"`
unfoldable pub question_of : Option Text → Text
question_of none = codes "Could you clarify your goal?"
question_of (some []) = codes "Could you clarify your goal?"
question_of (some (c ∷ s)) = c ∷ s

unfoldable pub queued : GoalNode → Text
queued root =
    codes "Planning complete. " ++ (decimal (length (leaf_nodes root)) ++ codes " steps queued.")

module _ {W : Type 0} (am : AgentManager W) (limit : Text) (max_retries : ℕ)
    (resolver : Option (Resolver W)) (render : GoalNode → Text) (persist : GoalNode → W → W) where
  -- The frames after the walk over the children of the root `g`.
  unfoldable pub frames_after : Goal → Step GoalNodes W → List Frame × State W
  frames_after g (ok u, cs, s) =
      let root = node (mark_done (some (render (node g cs))) g) cs in
      (goal_complete (render root) false root ∷ [], record s { world = persist root s.world })
  frames_after g (err (aborted id), cs, s) =
      let root = mark_descendants_blocked id (node g cs) in
      (
        goal_update (codes "Goal aborted by user.") root
            ∷ goal_complete (render root) true root
            ∷ [],
        s,
      )
  frames_after g (err (failed e), cs, s) = (goal_failed e (node g cs) ∷ [], s)
  frames_after g (err out_of_fuel, cs, s) = ([], s)

  unfoldable pub frames_of : GoalTree → State W → List Frame × State W
  unfolding queued
  frames_of tree s =
      if tree.clarification_needed
      then (clarification (question_of tree.clarification_question) tree.root ∷ [], s)
      else (let (frames, s') =
            frames_after (goal_of tree.root)
              (walk_children am limit max_retries resolver (children_of tree.root) s) in
          (goal_update (queued tree.root) tree.root ∷ frames, s'))

  -- `receive_streaming`, on what `decompose` returned or raised.
  unfoldable pub receive_streaming : Result Text GoalTree → State W → List Frame × State W
  receive_streaming (err e) s = (plan_failed e ∷ [], s)
  receive_streaming (ok tree) s = frames_of tree s
