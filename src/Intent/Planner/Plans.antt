-- ===== src/Intent/Planner/Plans.antt =====
-- The check of a plan, and the tree that is made of it.
use bantu_os.Prelude.{
  ℕ, ◌+◌, ◌≤◌, ◌≡◌, refl, true, false, arith, ltb, ok, err, Bool-cases, Result-cases, inl, inr,
}
use mathlib.Core.Path.{subst}
use bantu_os.Intent.Gate.{is_destructive}
use bantu_os.Intent.Planner.{
  Planned, PlannedNode, planned, PlannedNodes, no_steps, step, PlannedPlan, GoalPlanner,
  unknown_tool, Checked, validate_leaf, with_children, and_step, then_steps, validate, validate_all,
  validate_plan,
}

-- What the check promises of a leaf.
abbrev pub IsChecked : GoalPlanner → Planned → Type 0
IsChecked gp p =
    (unknown_tool gp p.tool ≡ false) × (is_destructive p.text p.tool ≡ true → p.destructive ≡ true)

-- The plan's leaves are checked, and no node of it is too deep.
abbrev mutual
  pub IsCheckedAt : GoalPlanner → ℕ → PlannedNode → Type 0
  IsCheckedAt gp depth (planned p no_steps) = (depth ≤ gp.max_nesting) × IsChecked gp p
  IsCheckedAt gp depth (planned p (step n ns)) =
      (depth ≤ gp.max_nesting) × IsCheckedAt gp (depth + 1) n × AreCheckedAt gp (depth + 1) ns

  pub AreCheckedAt : GoalPlanner → ℕ → PlannedNodes → Type 0
  AreCheckedAt gp depth no_steps = Unit
  AreCheckedAt gp depth (step n ns) = IsCheckedAt gp depth n × AreCheckedAt gp depth ns

abbrev mutual
  pub leaves : PlannedNode → ℕ
  leaves (planned p no_steps) = 1
  leaves (planned p (step n ns)) = leaves n + leaves_of ns

  pub leaves_of : PlannedNodes → ℕ
  leaves_of no_steps = 0
  leaves_of (step n ns) = leaves n + leaves_of ns

-- The outcome of the check of a node and of a list, from `count` leaves on.
abbrev Good : GoalPlanner → ℕ → ℕ → Checked PlannedNode → Type 0
Good gp depth count (ok (n, k)) =
    IsCheckedAt gp depth n × (k ≡ count + leaves n) × (k ≤ gp.max_leaf_nodes)
Good gp depth count (err e) = Unit

abbrev Goods : GoalPlanner → ℕ → ℕ → Checked PlannedNodes → Type 0
Goods gp depth count (ok (ns, k)) =
    AreCheckedAt gp depth ns
    × (k ≡ count + leaves_of ns)
    × (count ≤ gp.max_leaf_nodes → k ≤ gp.max_leaf_nodes)
Goods gp depth count (err e) = Unit

validate_leaf-Good :
    (gp : GoalPlanner) (p : Planned) (depth count : ℕ)
    → depth ≤ gp.max_nesting
    → Good gp depth count (validate_leaf gp p count)
unfolding validate_leaf
validate_leaf-Good gp p depth count d = elim (Bool-cases (ltb gp.max_leaf_nodes (count + 1))) [
  | inl e ↦ rw e tt
  | inr e ↦ rw e (elim (Bool-cases (unknown_tool gp p.tool)) [
    | inl u ↦ rw u tt
    | inr u ↦ rw u (elim (Bool-cases (is_destructive p.text p.tool)) [
      | inl t ↦ rw t ((d, (u, λ h. refl)), refl, ground arith)
      | inr t ↦ rw t ((d, (u, λ h. absurd (ground (arith, h, t)))), refl, ground arith)
    ])
  ])
]

and_step-Goods :
    (gp : GoalPlanner) (depth count k : ℕ) (n : PlannedNode) (r : Checked PlannedNodes)
    → Good gp depth count (ok (n, k))
    → Goods gp depth k r
    → Goods gp depth count (and_step n r)
unfolding and_step
and_step-Goods gp depth count k n (ok (ns, j)) h hs = ((h.0, hs.0), omega arith, λ c. hs.2 h.2)
and_step-Goods gp depth count k n (err e) h hs = tt

then_steps-Goods :
    (gp : GoalPlanner) (depth count : ℕ) (r : Checked PlannedNode) (rest : ℕ → Checked PlannedNodes)
    → Good gp depth count r
    → ((k : ℕ) → Goods gp depth k (rest k))
    → Goods gp depth count (then_steps r rest)
unfolding then_steps
then_steps-Goods gp depth count (ok (n, k)) rest h hs =
    and_step-Goods gp depth count k n (rest k) h (hs k)
then_steps-Goods gp depth count (err e) rest h hs = tt

all_children-Good :
    (gp : GoalPlanner) (depth count k : ℕ) (p : Planned) (n : PlannedNode)
    (r : Checked PlannedNodes)
    → depth ≤ gp.max_nesting
    → Good gp (depth + 1) count (ok (n, k))
    → Goods gp (depth + 1) k r
    → Good gp depth count (with_children p (and_step n r))
unfolding with_children and_step
all_children-Good gp depth count k p n (ok (ns, j)) d h g = ((d, h.0, g.0), omega arith, g.2 h.2)
all_children-Good gp depth count k p n (err e) d h g = tt

-- A list that stands under a node is not empty, and a checked one counts a leaf.
with_children-Good :
    (gp : GoalPlanner) (depth count : ℕ) (p : Planned) (r : Checked PlannedNode)
    (rest : ℕ → Checked PlannedNodes)
    → depth ≤ gp.max_nesting
    → Good gp (depth + 1) count r
    → ((k : ℕ) → Goods gp (depth + 1) k (rest k))
    → Good gp depth count (with_children p (then_steps r rest))
unfolding with_children then_steps
with_children-Good gp depth count p (ok (n, k)) rest d h hs =
    all_children-Good gp depth count k p n (rest k) d h (hs k)
with_children-Good gp depth count p (err e) rest d h hs = tt

mutual
  unfolding validate

  validate-Good :
      (gp : GoalPlanner) (n : PlannedNode) (depth count : ℕ)
      → Good gp depth count (validate gp n depth count)
  validate-Good gp (planned p no_steps) depth count = elim (Bool-cases (ltb gp.max_nesting depth)) [
    | inl e ↦ rw e tt
    | inr e ↦ rw e (validate_leaf-Good gp p depth count (ground arith))
  ]
  validate-Good gp (planned p (step n ns)) depth count =
      elim (Bool-cases (ltb gp.max_nesting depth)) [
        | inl e ↦ rw e tt
        | inr e ↦ rw e (
            with_children-Good gp depth count p (validate gp n (depth + 1) count)
              (λ k. validate_all gp ns (depth + 1) k) (ground arith)
              (validate-Good gp n (depth + 1) count) (λ k. validate_all-Goods gp ns (depth + 1) k))
      ]

  validate_all-Goods :
      (gp : GoalPlanner) (ns : PlannedNodes) (depth count : ℕ)
      → Goods gp depth count (validate_all gp ns depth count)
  validate_all-Goods gp no_steps depth count = (tt, omega arith, λ c. c)
  validate_all-Goods gp (step n ns) depth count =
      then_steps-Goods gp depth count (validate gp n depth count) (λ k. validate_all gp ns depth k)
        (validate-Good gp n depth count) (λ k. validate_all-Goods gp ns depth k)

accepted :
    (gp : GoalPlanner) (plan plan' : PlannedPlan) (r : PlannedNodes × ℕ)
    → validate_all gp plan.steps 1 0 ≡ ok r
    → validate_plan gp plan ≡ ok plan'
    → AreCheckedAt gp 1 plan'.steps × (leaves_of plan'.steps ≤ gp.max_leaf_nodes)
unfolding validate_plan
accepted gp plan plan' (ns, k) e h =
    let good : Goods gp 1 0 (ok (ns, k)) =
      subst (Goods gp 1 0) e (validate_all-Goods gp plan.steps 1 0) in
    let same : ns ≡ plan'.steps = ground (arith, e, h) in
    (
      subst (AreCheckedAt gp 1) same good.0,
      subst (λ ns. leaves_of ns ≤ gp.max_leaf_nodes) same (ground (arith, good)),
    )

-- A plan that passes the check has at most as many leaves as the planner allows and no node nested
-- deeper than it allows, and each leaf of it names no unknown tool and is flagged where its text or
-- tool is destructive.
pub validate_plan-Bounds :
    (gp : GoalPlanner) (plan plan' : PlannedPlan)
    → validate_plan gp plan ≡ ok plan'
    → AreCheckedAt gp 1 plan'.steps × (leaves_of plan'.steps ≤ gp.max_leaf_nodes)
unfolding validate_plan
validate_plan-Bounds gp plan plan' h = elim (Result-cases (validate_all gp plan.steps 1 0)) [
  | inl (r, e) ↦ accepted gp plan plan' r e h
  | inr (f, e) ↦ absurd (ground (arith, e, h))
]
