-- ===== src/Intent/Walk/Outcomes.antt =====
-- How a walk that is not ended early leaves its nodes.
use bantu_os.Prelude.{
  ℕ, zero, suc, ◌+◌, ◌≡◌, ◌⊎◌, refl, ◌&&◌, Option, none, some, arith, leb, ok, err, Bool-cases,
  Result-cases, inl, inr,
}
use bantu_os.Prelude.Text.{Text, codes, ◌==◌}
use bantu_os.Intent.Tree.{
  GoalStatus, blocked, Goal, GoalNode, GoalNodes, node, nil, cons, mark_done, decide,
}
use bantu_os.Intent.Gate.{build_request}
use bantu_os.Intent.Leaf.{AgentManager, execute_leaf, message_of}
use bantu_os.Intent.Walk.{
  aborted, failed, out_of_fuel, State, needs_confirmation, Resolver, Step, attempts,
  handle_confirmation, run_confirmed, answered, skip, walk_leaf, leaf_node, close_node, after_first,
  started, then_children, walk, walk_children,
}

-- A leaf was run or skipped; an inner node is done, and its children are settled.
abbrev mutual
  pub Settled : GoalNode → Type 0
  Settled (node g nil) = (g.status ≡ GoalStatus.done) ⊎ (g.status ≡ blocked)
  Settled (node g (cons n ns)) = (g.status ≡ GoalStatus.done) × Settled n × AllSettled ns

  pub AllSettled : GoalNodes → Type 0
  AllSettled nil = Unit
  AllSettled (cons n ns) = Settled n × AllSettled ns

-- What the outcome of a leaf says of it.
abbrev LeafEnd : {W : Type 0} → Step Goal W → Type 0
LeafEnd (ok u, g, s) = (g.status ≡ GoalStatus.done) ⊎ (g.status ≡ blocked)
LeafEnd (err (failed e), g, s) = Unit
LeafEnd (err (aborted i), g, s) = i ≡ g.id
LeafEnd (err out_of_fuel, g, s) = Unit

module _ {W : Type 0} (am : AgentManager W) (limit : Text) (max_retries : ℕ) where
  attempts-LeafEnd :
      (fuel attempt : ℕ) (g : Goal) (s : State W)
      → LeafEnd (attempts am limit max_retries fuel attempt g s)
  unfolding attempts mark_done
  attempts-LeafEnd zero attempt g s = tt
  attempts-LeafEnd (suc fuel) attempt g s = elim (Result-cases (execute_leaf am g s.world).0) [
    | inl (result, e) ↦ rw (e, attempts) (inl refl)
    | inr (f, e) ↦
        let error = message_of limit g f in
        elim (Bool-cases ((decide g error).0 && leb attempt max_retries)) [
          | inr stop ↦ rw (e, attempts) (rw stop tt)
          | inl again ↦
              rw (e, attempts) (rw again (attempts-LeafEnd fuel (attempt + 1) (decide g error).1 _))
        ]
  ]

  answered-LeafEnd :
      (decision : Text) (g : Goal) (s : State W)
      → LeafEnd (run_confirmed am limit max_retries (answered g s decision))
  unfolding answered run_confirmed skip
  answered-LeafEnd decision g s = elim (Bool-cases (decision == codes "approve")) [
    | inl e ↦ rw e (attempts-LeafEnd 3 1 g _)
    | inr e ↦ rw e (elim (Bool-cases (decision == codes "skip")) [
      | inl e' ↦ rw e' (inr refl)
      | inr e' ↦ rw e' (elim (Bool-cases (decision == codes "abort")) [
        | inl e'' ↦ rw e'' refl
        | inr e'' ↦ rw e'' (inr refl)
      ])
    ])
  ]

  confirmed-LeafEnd :
      (resolver : Option (Resolver W)) (g : Goal) (s : State W)
      → LeafEnd (run_confirmed am limit max_retries (handle_confirmation resolver g s))
  unfolding handle_confirmation run_confirmed skip
  confirmed-LeafEnd none g s = inr refl
  confirmed-LeafEnd (some ask) g s = elim (Result-cases (ask (build_request g) s.world).0) [
    | inl (decision, e) ↦ rw (e, handle_confirmation) (answered-LeafEnd decision g _)
    | inr (f, e) ↦ rw (e, handle_confirmation) tt
  ]

  walk_leaf-LeafEnd :
      (resolver : Option (Resolver W)) (g : Goal) (s : State W)
      → LeafEnd (walk_leaf am limit max_retries resolver g s)
  unfolding walk_leaf handle_confirmation
  walk_leaf-LeafEnd resolver g s = elim (Bool-cases (needs_confirmation g s)) [
    | inl need ↦ rw need (confirmed-LeafEnd resolver g s)
    | inr free ↦ rw free (attempts-LeafEnd 3 1 g s)
  ]

  module _ (resolver : Option (Resolver W)) where
    abbrev End : Step GoalNode W → Type 0
    End (ok u, n, s) = Settled n
    End (err e, n, s) = Unit

    abbrev Ends : Step GoalNodes W → Type 0
    Ends (ok u, ns, s) = AllSettled ns
    Ends (err e, ns, s) = Unit

    after_first-Ends :
        (n : GoalNode) (r : Step GoalNodes W) → Settled n → Ends r → Ends (after_first n r)
    unfolding after_first
    after_first-Ends n (ok u, ns, s) h k = (h, k)
    after_first-Ends n (err e, ns, s) h k = tt

    then_children-Ends :
        (r : Step GoalNode W) (ns : GoalNodes) (rest : State W → Step GoalNodes W)
        → End r
        → ((s : State W) → Ends (rest s))
        → Ends (then_children r ns rest)
    unfolding then_children after_first
    then_children-Ends (ok u, n, s) ns rest h k = after_first-Ends n (rest s) h (k s)
    then_children-Ends (err e, n, s) ns rest h k = tt

    leaf_node-End : (r : Step Goal W) → LeafEnd r → End (leaf_node r)
    unfolding leaf_node
    leaf_node-End (ok u, g, s) h = h
    leaf_node-End (err e, g, s) h = tt

    close_node-End :
        (g : Goal) (n : GoalNode) (ns : GoalNodes) (r : Step GoalNodes W)
        → Ends r
        → End (close_node g r)
    unfolding close_node mark_done
    close_node-End g n ns (ok u, nil, s) h = inl refl
    close_node-End g n ns (ok u, cons m ms, s) h = (refl, h.0, h.1)
    close_node-End g n ns (err e, ms, s) h = tt

    mutual
      unfolding walk

      walk-End : (n : GoalNode) (s : State W) → End (walk am limit max_retries resolver n s)
      walk-End (node g nil) s = leaf_node-End _ (walk_leaf-LeafEnd resolver (started g) _)
      walk-End (node g (cons n ns)) s =
          close_node-End (started g) n ns _ (walk_children-Ends (cons n ns) _)

      walk_children-Ends :
          (ns : GoalNodes) (s : State W) → Ends (walk_children am limit max_retries resolver ns s)
      walk_children-Ends nil s = tt
      walk_children-Ends (cons n ns) s =
          then_children-Ends (walk am limit max_retries resolver n s) ns
            (walk_children am limit max_retries resolver ns) (walk-End n s)
            (λ s'. walk_children-Ends ns s')

    End-Settled : (r : Step GoalNode W) → End r → r.0 ≡ ok tt → Settled r.1
    End-Settled (ok u, n, s) h e = h
    End-Settled (err f, n, s) h e = absurd (ground arith)

    -- A walk that comes to its end settles every node of the tree: each leaf is done or blocked,
    -- and each inner node is done, also where a leaf under it was blocked.
    pub walk-Settled :
        (n : GoalNode) (s : State W)
        → (walk am limit max_retries resolver n s).0 ≡ ok tt
        → Settled (walk am limit max_retries resolver n s).1
    walk-Settled n s e = End-Settled _ (walk-End n s) e
