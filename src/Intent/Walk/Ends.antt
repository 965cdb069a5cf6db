-- ===== src/Intent/Walk/Ends.antt =====
-- The walk of a tree never ends for want of fuel.
use bantu_os.Prelude.{ℕ, Option, none, some, arith, ok, err, Bool-cases, Result-cases, inl, inr}
use bantu_os.Prelude.Text.{Text, codes, ◌==◌}
use bantu_os.Intent.Tree.{Goal, GoalNode, GoalNodes, node, nil, cons}
use bantu_os.Intent.Gate.{build_request}
use bantu_os.Intent.Leaf.{AgentManager}
use bantu_os.Intent.Walk.{
  State, needs_confirmation, Resolver, Step, skip, answered, handle_confirmation, run_confirmed,
  walk_leaf, leaf_node, close_node, after_first, then_children, started, walk, walk_children,
}
use bantu_os.Intent.Walk.Retries.{Ends, attempts-Ends}

module _ {W : Type 0} (am : AgentManager W) (limit : Text) (max_retries : ℕ)
    (resolver : Option (Resolver W)) where
  answered-Ends :
      (decision : Text) (g : Goal) (s : State W)
      → Ends (run_confirmed am limit max_retries (answered g s decision)).0
  unfolding answered run_confirmed skip
  answered-Ends decision g s = elim (Bool-cases (decision == codes "approve")) [
    | inl e ↦ rw e (attempts-Ends am limit max_retries 3 1 g _ (omega arith) (omega arith))
    | inr e ↦ rw e (elim (Bool-cases (decision == codes "skip")) [
      | inl e' ↦ rw e' tt
      | inr e' ↦
          rw e'
            (elim (Bool-cases (decision == codes "abort")) [ inl a ↦ rw a tt | inr a ↦ rw a tt ])
    ])
  ]

  confirmed-Ends :
      (o : Option (Resolver W)) (g : Goal) (s : State W)
      → Ends (run_confirmed am limit max_retries (handle_confirmation o g s)).0
  unfolding handle_confirmation run_confirmed skip
  confirmed-Ends none g s = tt
  confirmed-Ends (some ask) g s = elim (Result-cases (ask (build_request g) s.world).0) [
    | inl (decision, e) ↦ rw (e, handle_confirmation) (answered-Ends decision g _)
    | inr (f, e) ↦ rw (e, handle_confirmation) tt
  ]

  walk_leaf-Ends : (g : Goal) (s : State W) → Ends (walk_leaf am limit max_retries resolver g s).0
  unfolding walk_leaf
  walk_leaf-Ends g s = elim (Bool-cases (needs_confirmation g s)) [
    | inl need ↦ rw need (confirmed-Ends resolver g s)
    | inr free ↦ rw free (attempts-Ends am limit max_retries 3 1 g s (omega arith) (omega arith))
  ]

  leaf_node-Ends : (r : Step Goal W) → Ends r.0 → Ends (leaf_node r).0
  unfolding leaf_node
  leaf_node-Ends (r, g, s) h = h

  close_node-Ends : (g : Goal) (r : Step GoalNodes W) → Ends r.0 → Ends (close_node g r).0
  unfolding close_node
  close_node-Ends g (ok u, cs, s) h = tt
  close_node-Ends g (err e, cs, s) h = h

  after_first-Ends : (n : GoalNode) (r : Step GoalNodes W) → Ends r.0 → Ends (after_first n r).0
  unfolding after_first
  after_first-Ends n (r, ns, s) h = h

  then_children-Ends :
      (r : Step GoalNode W) (ns : GoalNodes) (rest : State W → Step GoalNodes W)
      → Ends r.0
      → ((s : State W) → Ends (rest s).0)
      → Ends (then_children r ns rest).0
  unfolding then_children
  then_children-Ends (ok u, n, s) ns rest h k = after_first-Ends n (rest s) (k s)
  then_children-Ends (err e, n, s) ns rest h k = h

  mutual
    unfolding walk

    pub walk-Ends : (n : GoalNode) (s : State W) → Ends (walk am limit max_retries resolver n s).0
    walk-Ends (node g nil) s = leaf_node-Ends _ (walk_leaf-Ends (started g) _)
    walk-Ends (node g (cons n ns)) s =
        close_node-Ends (started g) _ (walk_children-Ends (cons n ns) _)

    pub walk_children-Ends :
        (ns : GoalNodes) (s : State W) → Ends (walk_children am limit max_retries resolver ns s).0
    walk_children-Ends nil s = tt
    walk_children-Ends (cons n ns) s =
        then_children-Ends (walk am limit max_retries resolver n s) ns
          (walk_children am limit max_retries resolver ns) (walk-Ends n s)
          (λ s'. walk_children-Ends ns s')
