-- ===== src/Intent/Planner/Tries.antt =====
-- What `decompose` returns, whatever the model answers.
use bantu_os.Prelude.{
  ℕ, zero, suc, ◌≤◌, ◌≡◌, ◌⊎◌, inl, inr, List, Option, none, some, Result, ok, Option-cases,
  Result-cases, arith,
}
use bantu_os.Prelude.Text.{Text}
use bantu_os.Intent.Tree.{GoalNode}
use bantu_os.Intent.Planner.{PlannedPlan, GoalPlanner, validate_plan, plan_to_tree, fallback_tree}
use bantu_os.Intent.Planner.Plans.{AreCheckedAt, leaves_of, validate_plan-Bounds}
use bantu_os.Intent.Planner.Decompose.{
  ChatMessage, Failure, value_error, uncaught, Sources, build_messages, with_error, plan_of, tries,
  decompose,
}

-- The tree of a plan that passed the check, and that the model gave as the answer to some messages.
pub record IsPlanned {W : Type 0} (sources : Sources W)
    (generate : List ChatMessage → W → Result Failure Text × W) (gp : GoalPlanner) (next : ℕ)
    (root : GoalNode × ℕ) : Type 0 where
  pub messages : List ChatMessage
  pub world : W
  pub answer : Text
  pub plan : PlannedPlan
  pub checked_plan : PlannedPlan
  pub answered : (generate messages world).0 ≡ ok answer
  pub read : sources.read_plan answer ≡ ok plan
  pub passed : validate_plan gp plan ≡ ok checked_plan
  pub made : root ≡ plan_to_tree checked_plan next
  pub checked : AreCheckedAt gp 1 checked_plan.steps
  pub few : leaves_of checked_plan.steps ≤ gp.max_leaf_nodes

module _ {W : Type 0} (sources : Sources W) (gp : GoalPlanner) (memory_top_k : ℕ) where
  plan_of-passed :
      (text : Text) (plan : PlannedPlan)
      → plan_of sources gp memory_top_k text ≡ ok plan
      → (p : PlannedPlan) × (sources.read_plan text ≡ ok p) × (validate_plan gp p ≡ ok plan)
  unfolding plan_of
  plan_of-passed text plan h = elim (Result-cases (sources.read_plan text)) [
    | inl (p, e) ↦ (p, e, ground arith)
    | inr (x, e) ↦ absurd (ground arith)
  ]

  module _ (generate : List ChatMessage → W → Result Failure Text × W) (goal_text : Text)
      (context : Option Text) (next : ℕ) (root : GoalNode × ℕ) where
    -- One try, if those after it keep the promise.
    try-IsPlanned :
        (n : ℕ) (last : Option Text) (w : W)
        → ((e : Text) (v : W)
            → (tries sources gp memory_top_k generate n goal_text context next (some e) v).0
              ≡ ok root
            → IsPlanned sources generate gp next root)
        → (tries sources gp memory_top_k generate (suc n) goal_text context next last w).0 ≡ ok root
        → IsPlanned sources generate gp next root
    unfolding tries
    try-IsPlanned n last w ih =
        let (messages, w') = build_messages sources gp memory_top_k goal_text context w in
        let sent = generate (with_error last messages) w' in
        elim (Result-cases sent.0) [
          | inr (uncaught x, e) ↦ rw (tries, e) (λ h. absurd (cc))
          | inr (value_error x, e) ↦ rw (tries, e) (ih x sent.1)
          | inl (text, e) ↦ elim (Result-cases (plan_of sources gp memory_top_k text)) [
            | inr (x, f) ↦ rw (tries, e, f) (ih x sent.1)
            | inl (plan, f) ↦
                rw (tries, e, f)
                  (λ h.
                    let (p, read, passed) = plan_of-passed text plan f in
                    let bounds = validate_plan-Bounds gp p plan passed in
                    record {
                      messages = with_error last messages;
                      world = w';
                      answer = text;
                      answered = e;
                      read = read;
                      plan = p;
                      checked_plan = plan;
                      passed = passed;
                      made = ground arith;
                      checked = bounds.0;
                      few = bounds.1;
                    })
          ]
        ]

    tries-IsPlanned :
        (n : ℕ) (e : Text) (w : W)
        → (tries sources gp memory_top_k generate n goal_text context next (some e) w).0 ≡ ok root
        → IsPlanned sources generate gp next root
    unfolding tries
    tries-IsPlanned zero e w h = absurd (cc)
    tries-IsPlanned (suc n) e w h = try-IsPlanned n (some e) w (tries-IsPlanned n) h

  -- A decomposition that returns a tree: where there is no model, it is the tree of the goal alone;
  -- where there is one, it is the tree of a plan that the model gave as an answer and that passed
  -- the check, so within the limits of depth and leaves, and with tools at its leaves that are
  -- known if the planner has a list of tools.
  pub decompose-IsPlanned :
      (goal_text : Text) (context : Option Text) (next : ℕ) (w : W) (root : GoalNode × ℕ)
      → (decompose sources gp memory_top_k goal_text context next w).0 ≡ ok root
      → ((sources.generate ≡ none) × (root ≡ fallback_tree goal_text next))
        ⊎ ((generate : List ChatMessage → W → Result Failure Text × W) × (sources.generate
              ≡ some generate)
            × IsPlanned sources generate gp next root)
  unfolding decompose
  decompose-IsPlanned goal_text context next w root h = elim (Option-cases sources.generate) [
    | inl e ↦ inl (e, ground arith)
    | inr (generate, e) ↦ inr (
      generate,
      e,
      try-IsPlanned generate goal_text context next root 2 none w
          (tries-IsPlanned generate goal_text context next root 2) (ground arith),
    )
  ]
