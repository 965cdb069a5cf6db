-- ===== src/Intent/Walk/Safety.antt =====
-- Without a resolver nothing that needs confirmation is ever run.
use bantu_os.Prelude.{
  ℕ, zero, suc, ◌+◌, ◌≡◌, ◌≢◌, refl, sym, ◌∙◌, true, false, ◌&&◌, none, some, [], arith, leb, ok,
  err, any, Bool-cases, Result-cases, inl, inr,
}
use bantu_os.Prelude.Text.{Text, codes, eq_iff}
use bantu_os.Intent.Tree.{blocked, Goal, GoalNode, GoalNodes, node, nil, cons, decide}
use bantu_os.Intent.Gate.{requires_confirmation, build_request}
use bantu_os.Intent.Leaf.{AgentManager, execute_leaf, message_of}
use bantu_os.Intent.Walk.{
  aborted, State, emit, is_approved, needs_confirmation, Resolver, Step, attempts,
  handle_confirmation, run_confirmed, walk_leaf, leaf_node, close_node, after_first, started,
  then_children, walk, walk_children,
}

decide-same : (g : Goal) (e : Text) → requires_confirmation (decide g e).1 ≡ requires_confirmation g
unfolding decide requires_confirmation
decide-same g e = ground arith

started-same : (g : Goal) → requires_confirmation (started g) ≡ requires_confirmation g
unfolding requires_confirmation
started-same g = refl

-- Nothing is approved, and `P` holds of the world.
abbrev Guarded : {W : Type 0} → (W → Type 0) → State W → Type 0
Guarded P s = (s.approved ≡ []) × P s.world

module _ {W : Type 0} (am : AgentManager W) (limit : Text) (max_retries : ℕ) (P : W → Type 0)
    (harmless : (g : Goal) (w : W)
      → requires_confirmation g ≡ false
      → P w
      → P (execute_leaf am g w).1) where
  attempts-Guarded :
      (fuel attempt : ℕ) (g : Goal) (s : State W)
      → requires_confirmation g ≡ false
      → Guarded P s
      → Guarded P (attempts am limit max_retries fuel attempt g s).2
  unfolding attempts emit
  attempts-Guarded zero attempt g s free h = h
  attempts-Guarded (suc fuel) attempt g s free h =
      let ran = harmless g s.world free h.1 in
      elim (Result-cases (execute_leaf am g s.world).0) [
        | inl (result, e) ↦ rw (e, attempts) (h.0, ran)
        | inr (f, e) ↦
            let error = message_of limit g f in
            elim (Bool-cases ((decide g error).0 && leb attempt max_retries)) [
              | inr stop ↦ rw (e, attempts) (rw stop (h.0, ran))
              | inl again ↦
                  rw (e, attempts)
                    (rw again (
                      attempts-Guarded fuel (attempt + 1) (decide g error).1 _
                        (decide-same g error ∙ free) (h.0, ran)))
            ]
      ]

  needs-eq :
      (g : Goal) (s : State W) → s.approved ≡ [] → needs_confirmation g s ≡ requires_confirmation g
  unfolding needs_confirmation is_approved any
  needs-eq g s e = ground arith

  walk_leaf-Guarded :
      (g : Goal) (s : State W) → Guarded P s → Guarded P (walk_leaf am limit max_retries none g s).2
  unfolding walk_leaf handle_confirmation emit
  walk_leaf-Guarded g s h = elim (Bool-cases (needs_confirmation g s)) [
    | inl need ↦ rw need h
    | inr free ↦ rw free (attempts-Guarded 3 1 g s (sym (needs-eq g s h.0) ∙ free) h)
  ]

  close_node-Guarded :
      (g : Goal) (r : Step GoalNodes W) → Guarded P r.2 → Guarded P (close_node g r).2
  unfolding close_node emit
  close_node-Guarded g (ok u, cs, s) h = h
  close_node-Guarded g (err e, cs, s) h = h

  then_children-Guarded :
      (r : Step GoalNode W) (ns : GoalNodes) (rest : State W → Step GoalNodes W)
      → Guarded P r.2
      → ((s : State W) → Guarded P s → Guarded P (rest s).2)
      → Guarded P (then_children r ns rest).2
  unfolding then_children after_first
  then_children-Guarded (ok u, n, s) ns rest h k = k s h
  then_children-Guarded (err e, n, s) ns rest h k = h

  mutual
    unfolding walk leaf_node emit

    walk-Guarded :
        (n : GoalNode) (s : State W)
        → Guarded P s
        → Guarded P (walk am limit max_retries none n s).2
    walk-Guarded (node g nil) s h = walk_leaf-Guarded (started g) _ h
    walk-Guarded (node g (cons n ns)) s h =
        close_node-Guarded (started g) _ (walk_children-Guarded (cons n ns) _ h)

    walk_children-Guarded :
        (ns : GoalNodes) (s : State W)
        → Guarded P s
        → Guarded P (walk_children am limit max_retries none ns s).2
    walk_children-Guarded nil s h = h
    walk_children-Guarded (cons n ns) s h =
        then_children-Guarded (walk am limit max_retries none n s) ns
          (walk_children am limit max_retries none ns) (walk-Guarded n s h)
          (λ s' h'. walk_children-Guarded ns s' h')

  -- From a state in which nothing was approved before, the walk of a tree without a resolver never
  -- runs a step that needs confirmation: whatever is true of the world, and stays true when steps
  -- are run that need none, is true after the walk, and nothing is approved on the way. (A step that
  -- was approved in an earlier request is run.)
  pub walk_without_resolver :
      (n : GoalNode) (s : State W)
      → s.approved ≡ []
      → P s.world
      → ((walk am limit max_retries none n s).2.approved ≡ [])
        × P (walk am limit max_retries none n s).2.world
  walk_without_resolver n s e h = walk-Guarded n s (e, h)

module _ {W : Type 0} (am : AgentManager W) (limit : Text) (max_retries : ℕ) where
  -- A step that needs confirmation and does not get it is not run: with any answer but "approve"
  -- the world is as the resolver left it and nothing is approved; on "abort" the walk ends there,
  -- and on any other answer it goes on with the node blocked.
  pub walk_leaf_refused :
      (ask : Resolver W) (decision : Text) (g : Goal) (s : State W)
      → needs_confirmation g s ≡ true
      → (ask (build_request g) s.world).0 ≡ ok decision
      → decision ≢ codes "approve"
      → let r = walk_leaf am limit max_retries (some ask) g s in
        (r.2.world ≡ (ask (build_request g) s.world).1)
        × (r.2.approved ≡ s.approved)
        × (decision ≡ codes "abort" → r.0 ≡ err (aborted g.id))
        × (decision ≢ codes "abort" → (r.0 ≡ ok tt) × (r.1.status ≡ blocked))
  unfolding walk_leaf handle_confirmation emit
  walk_leaf_refused ask decision g s need answer not_approve =
      let confirmed : walk_leaf am limit max_retries (some ask) g s
          ≡ run_confirmed am limit max_retries (handle_confirmation (some ask) g s) =
        rw need in
      rw (confirmed, answer)
        (ground (
          arith,
          eq_iff decision (codes "approve"),
          eq_iff decision (codes "skip"),
          eq_iff decision (codes "abort"),
          eq_iff (codes "skip") (codes "abort"),
        ))
