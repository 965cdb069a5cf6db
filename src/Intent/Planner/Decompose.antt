-- ===== src/Intent/Planner/Decompose.antt =====
-- `decompose` of bantu_os/core/intent/goal_planner.py: the prompt, the snippets of memory, and the
-- three tries. The model, the memory and the reader of its answers are the parameter `Sources`.
use bantu_os.Prelude.{ℕ, zero, suc, List, [], ◌∷◌, ◌++◌, Option, none, some, Result, ok, err}
use bantu_os.Prelude.Text.{Text, codes}
use bantu_os.Prelude.Decimal.{decimal}
use bantu_os.Auth.Names.{strip}
use bantu_os.Intent.Tree.{GoalNode}
use bantu_os.Intent.Planner.{PlannedPlan, GoalPlanner, validate_plan, plan_to_tree, fallback_tree}

pub record ChatMessage : Type 0 where
  pub role : Text
  pub content : Text

-- An item of the memory: a dict by its `text` and `content`, or anything else as a text.
pub data Item : Type 0 where
  entry : Text → Text → Item
  plain : Text → Item

-- A `ValueError` is caught, as are the errors of the two readers; others are not.
pub data Failure : Type 0 where
  value_error : Text → Failure
  uncaught : Text → Failure

-- `generate` and `retrieve` are `none` where there is no such method. `read_plan` reads the JSON and
-- checks it against the schema, whose text is `schema`.
pub record Sources (W : Type 0) : Type 0 where
  pub generate : Option (List ChatMessage → W → Result Failure Text × W)
  pub retrieve : Option (Text → ℕ → W → Result Text (List Item) × W)
  pub read_plan : Text → Result Text PlannedPlan
  pub schema : Text

abbrev pub system : Text → ChatMessage
system content = record { role = codes "system"; content = content }

unfoldable pub item_text : Item → Text
item_text (entry [] content) = content
item_text (entry (c ∷ text) content) = c ∷ text
item_text (plain text) = text

unfoldable pub first {ℓ} : {A : Type ℓ} → ℕ → List A → List A
first zero xs = []
first (suc n) [] = []
first (suc n) (x ∷ xs) = x ∷ first n xs

unfoldable pub snippets_of : List Item → List Text
unfolding item_text
snippets_of [] = []
snippets_of (i ∷ items) =
    let rest = snippets_of items in
    elim (strip (item_text i)) [ [] ↦ rest | c ∷ s ↦ (c ∷ s) ∷ rest ]

-- `"\n".join(f"- {snippet}" for snippet in snippets)`
unfoldable pub bullets : List Text → Text
bullets [] = []
bullets (s ∷ []) = codes "- " ++ s
bullets (s ∷ t ∷ rest) = codes "- " ++ s ++ 10 ∷ bullets (t ∷ rest)

-- `messages.insert(1, …)`
unfoldable pub insert_second : ChatMessage → List ChatMessage → List ChatMessage
insert_second m [] = m ∷ []
insert_second m (x ∷ xs) = x ∷ m ∷ xs

unfoldable pub with_error : Option Text → List ChatMessage → List ChatMessage
unfolding insert_second
with_error none ms = ms
with_error (some []) ms = ms
with_error (some (c ∷ e)) ms =
    insert_second (system (codes "Validation error from previous attempt: " ++ c ∷ e)) ms

module _ {W : Type 0} (sources : Sources W) (gp : GoalPlanner) (memory_top_k : ℕ) where
  unfoldable pub memory_snippets : Text → W → List Text × W
  unfolding first snippets_of
  memory_snippets goal_text w = elim sources.retrieve [
    | none ↦ ([], w)
    | some retrieve ↦
        let (r, w') = retrieve goal_text memory_top_k w in
        elim r [ err e ↦ ([], w') | ok items ↦ (snippets_of (first memory_top_k items), w') ]
  ]

  unfoldable pub system_prompt : Text
  system_prompt =
      codes "You are GoalPlanner for Bantu-OS. Convert the user's goal into strict JSON only. "
      ++ codes "Do not exceed "
      ++ decimal gp.max_leaf_nodes
      ++ codes " leaf nodes or "
      ++ decimal gp.max_nesting
      ++ codes " levels of nesting. Return only valid JSON matching this schema: "
      ++ sources.schema

  unfoldable pub memory_messages : List Text → List ChatMessage
  unfolding bullets
  memory_messages [] = []
  memory_messages (s ∷ snippets) =
      system (codes "Relevant memory items (most similar first):" ++ 10 ∷ bullets (s ∷ snippets))
      ∷ []

  -- `context` is `none` for a missing or empty one, else its JSON text.
  unfoldable pub context_messages : Option Text → List ChatMessage
  context_messages none = []
  context_messages (some context) = system (codes "Execution context: " ++ context) ∷ []

  unfoldable pub build_messages : Text → Option Text → W → List ChatMessage × W
  unfolding memory_snippets system_prompt memory_messages context_messages
  build_messages goal_text context w =
      let (snippets, w') = memory_snippets goal_text w in
      let user : ChatMessage = record { role = codes "user"; content = goal_text } in
      (
        (system system_prompt ∷ context_messages context) ++ memory_messages snippets ++ user ∷ [],
        w',
      )

  -- An answer as a plan that passed the check, or the text of the exception.
  unfoldable pub plan_of : Text → Result Text PlannedPlan
  plan_of text = elim (sources.read_plan text) [ err e ↦ err e | ok plan ↦ validate_plan gp plan ]

  -- The tries that are left, after the error of the last one. Ids are drawn from `next`.
  unfoldable pub tries :
      (List ChatMessage → W → Result Failure Text × W)
      → ℕ
      → Text
      → Option Text
      → ℕ
      → Option Text
      → W
      → Result Text (GoalNode × ℕ) × W
  unfolding build_messages with_error plan_of
  tries generate zero goal_text context next none w = (ok (fallback_tree goal_text next), w)
  tries generate zero goal_text context next (some e) w =
      (err (codes "Could not build goal plan: " ++ e), w)
  tries generate (suc n) goal_text context next last w =
      let (messages, w') = build_messages goal_text context w in
      let (r, w'') = generate (with_error last messages) w' in
      elim r [
        | err (uncaught e) ↦ (err e, w'')
        | err (value_error e) ↦ tries generate n goal_text context next (some e) w''
        | ok text ↦ elim (plan_of text) [
          | err e ↦ tries generate n goal_text context next (some e) w''
          | ok plan ↦ (ok (plan_to_tree plan next), w'')
        ]
      ]

  unfoldable pub decompose : Text → Option Text → ℕ → W → Result Text (GoalNode × ℕ) × W
  unfolding tries
  decompose goal_text context next w = elim sources.generate [
    | none ↦ (ok (fallback_tree goal_text next), w)
    | some generate ↦ tries generate 3 goal_text context next none w
  ]
