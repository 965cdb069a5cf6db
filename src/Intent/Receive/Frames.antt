-- ===== src/Intent/Receive/Frames.antt =====
-- What the frames of a request end with.
use bantu_os.Prelude.{ℕ, Option, List, [], ◌∷◌, Result, ok, err, Bool-cases, inl, inr}
use bantu_os.Prelude.Text.{Text}
use bantu_os.Intent.Tree.{Goal, GoalNode, GoalNodes, goal_of, children_of}
use bantu_os.Intent.Leaf.{AgentManager}
use bantu_os.Intent.Walk.{aborted, failed, out_of_fuel, State, Resolver, Step, walk_children}
use bantu_os.Intent.Walk.Retries.{Ends}
use bantu_os.Intent.Walk.Ends.{walk_children-Ends}
use bantu_os.Intent.Receive.{
  GoalTree, Frame, goal_update, queued, frames_after, frames_of, receive_streaming,
}

abbrev IsFinal : Frame → Type 0
IsFinal (goal_update m n) = ⊥
IsFinal f = Unit

-- There is a last frame, and it is final.
abbrev pub EndsFinal : List Frame → Type 0
EndsFinal [] = ⊥
EndsFinal (f ∷ []) = IsFinal f
EndsFinal (f ∷ g ∷ fs) = EndsFinal (g ∷ fs)

cons-EndsFinal : (f : Frame) (fs : List Frame) → EndsFinal fs → EndsFinal (f ∷ fs)
cons-EndsFinal f [] h = absurd h
cons-EndsFinal f (g ∷ fs) h = h

module _ {W : Type 0} (am : AgentManager W) (limit : Text) (max_retries : ℕ)
    (resolver : Option (Resolver W)) (render : GoalNode → Text) (persist : GoalNode → W → W) where
  frames_after-EndsFinal :
      (g : Goal) (r : Step GoalNodes W)
      → Ends r.0
      → EndsFinal (frames_after am limit max_retries resolver render persist g r).0
  unfolding frames_after
  frames_after-EndsFinal g (ok u, cs, s) h = tt
  frames_after-EndsFinal g (err (aborted id), cs, s) h = tt
  frames_after-EndsFinal g (err (failed e), cs, s) h = tt
  frames_after-EndsFinal g (err out_of_fuel, cs, s) h = absurd h

  -- Every request is answered, and its last frame is a final one: a plan that failed, a question, a
  -- completed goal or a failed one, and never the update of a goal that is still under way. The walk
  -- in between always ends, whatever the tools, the model and the resolver do.
  pub receive_streaming-EndsFinal :
      (planned : Result Text GoalTree) (s : State W)
      → EndsFinal (receive_streaming am limit max_retries resolver render persist planned s).0
  unfolding receive_streaming frames_of
  receive_streaming-EndsFinal (err e) s = tt
  receive_streaming-EndsFinal (ok tree) s = elim (Bool-cases tree.clarification_needed) [
    | inl ask ↦ rw ask tt
    | inr go ↦
        let r = walk_children am limit max_retries resolver (children_of tree.root) s in
        rw go (
          cons-EndsFinal (goal_update (queued tree.root) tree.root)
            (frames_after am limit max_retries resolver render persist (goal_of tree.root) r).0
            (frames_after-EndsFinal (goal_of tree.root) r
              (walk_children-Ends am limit max_retries resolver (children_of tree.root) s)))
  ]
