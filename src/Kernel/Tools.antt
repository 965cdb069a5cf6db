-- ===== src/Kernel/Tools.antt =====
-- bantu_os/core/kernel/kernel.py: `run_tool_calls` and `agentic_loop`. The tools and the model act on
-- a world of their own, `W`; arguments are of a type `A`, results texts.
pub mod Rounds
use bantu_os.Prelude.{
  ℕ, zero, suc, ◌+◌, ◌*◌, ◌≤◌, ◌<◌, ◌≡◌, ◌≢◌, ◌⊎◌, refl, sym, ap, ◌∙◌, Bool, true, false, Option,
  none, some, List, [], ◌∷◌, ◌++◌, arith, map, Result, ok, err, length, length-append, Bool-cases,
  Option-cases, Result-cases, inl, inr, if◌then◌else◌,
}
use bantu_os.Prelude.Text.{Text, codes, ◌==◌}
use bantu_os.Prelude.Dict.{Dict, lookup}
use bantu_os.Kernel.Parse.{Loaded, parse_tool_calls}

-- What a call's `name` is: a text, or a value of another type, by its `str`.
pub data Name : Type 0 where
  name other_name : Text → Name

pub data Args (A : Type 0) : Type 0 where
  args : A → Args A
  other_args : Args A

-- A call is a dict, or a value of another type.
pub data ToolCall (A : Type 0) : Type 0 where
  call : Name → Args A → ToolCall A
  no_object : ToolCall A

pub record Outcome : Type 0 where
  pub name : Text
  pub result : Result Text Text

-- A registered tool: its result, or the text of its exception.
abbrev pub Tool : Type 0 → Type 0 → Type 0
Tool A W = A → W → Result Text Text × W

module _ {A W : Type 0} (tools : Dict (Tool A W)) where
  unfoldable pub run_named : Text → A → W → Outcome × W
  run_named n a w = elim (lookup n tools) [
    | none ↦ (record { name = n; result = err (codes "Tool not found: " ++ n) }, w)
    | some tool ↦ let (r, w') = tool a w in (record { name = n; result = r }, w')
  ]

  -- One round of the loop over the calls.
  unfoldable pub run_call : ToolCall A → W → Outcome × W
  unfolding run_named
  run_call no_object w =
      (record { name = []; result = err (codes "Invalid tool call: expected an object") }, w)
  run_call (call (other_name n) a) w = (
    record { name = n; result = err (codes "Invalid tool call: name must be a non-empty string") },
    w,
  )
  run_call (call (name []) a) w = (
    record { name = []; result = err (codes "Invalid tool call: name must be a non-empty string") },
    w,
  )
  run_call (call (name (c ∷ n)) other_args) w = (
    record {
      name = c ∷ n;
      result = err (codes "Invalid args for " ++ ((c ∷ n) ++ codes ": expected an object"));
    },
    w,
  )
  run_call (call (name (c ∷ n)) (args a)) w = run_named (c ∷ n) a w

  unfoldable pub run_tool_calls : List (ToolCall A) → W → List Outcome × W
  unfolding run_call
  run_tool_calls [] w = ([], w)
  run_tool_calls (c ∷ cs) w =
      let (o, w') = run_call c w in let (os, w'') = run_tool_calls cs w' in (o ∷ os, w'')

-- The name that a call asks for, as the outcome shows it.
abbrev pub name_of : {A : Type 0} → ToolCall A → Text
name_of no_object = []
name_of (call (name n) a) = n
name_of (call (other_name n) a) = n

pub data Role : Type 0 where
  system user assistant : Role

abbrev pub ChatMessage : Type 0
ChatMessage = Role × Text

abbrev pub shown : Result Text Text → Text
shown (ok s) = s
shown (err s) = s

-- `"\n".join(f"Tool: …" for o in outcomes)`
unfoldable pub results_text : List Outcome → Text
results_text [] = []
results_text (o ∷ []) = codes "Tool: " ++ (o.name ++ (codes " | Result: " ++ shown o.result))
results_text (o ∷ p ∷ os) =
    codes "Tool: "
    ++ (o.name ++ (codes " | Result: " ++ (shown o.result ++ (10 ∷ results_text (p ∷ os)))))

-- The model's reply to the messages, or its exception.
abbrev pub Generate : Type 0 → Type 0
Generate W = List ChatMessage → W → Result Text Text × W

-- How the loop ends, with the messages as they are then, and the world.
abbrev pub Ended : Type 0 → Type 0
Ended W = Result Text Text × List ChatMessage × W

module _ {A W : Type 0} (tools : Dict (Tool A W)) (loads : Text → Loaded A) (no_args : A)
    (generate : Generate W) where
  -- The calls in a reply, or the exception of the search; that has enough fuel.
  unfoldable pub calls_in : Text → Result Text (List (ToolCall A))
  calls_in text = elim (parse_tool_calls loads no_args text) [
    | none ↦ ok []
    | some (err e) ↦ err e
    | some (ok calls) ↦ ok (map (λ c. call (name c.0) (args c.1)) calls)
  ]

  -- A reply with tool calls: the messages and the world for the next round.
  unfoldable pub inject : Text → List (ToolCall A) → List ChatMessage → W → List ChatMessage × W
  inject output calls messages w =
      let (outcomes, w') = run_tool_calls tools calls w in
      (
        messages
            ++ ((assistant, output)
                ∷ (system, codes "Tool results:" ++ (10 ∷ results_text outcomes))
                ∷ []),
        w',
      )

  -- The `for` loop, with the rounds that are left and the last reply.
  unfoldable pub rounds : ℕ → Text → List ChatMessage → W → Ended W
  unfolding inject
  rounds zero output messages w = (ok output, messages, w)
  rounds (suc left) last messages w =
      let (r, w') = generate messages w in
      elim r [
        | err e ↦ (err e, messages, w')
        | ok output ↦ elim (calls_in output) [
          | err e ↦ (err e, messages, w')
          | ok [] ↦ (ok output, messages, w')
          | ok (c ∷ cs) ↦
              let (messages', w'') = inject output (c ∷ cs) messages w' in
              rounds left output messages' w''
        ]
      ]

  -- `if system_prompt:`
  unfoldable pub opening : Option Text → Text → List ChatMessage
  opening none text = (user, text) ∷ []
  opening (some []) text = (user, text) ∷ []
  opening (some (c ∷ s)) text = (system, c ∷ s) ∷ (user, text) ∷ []

  unfoldable pub agentic_loop : Text → Option Text → ℕ → W → Ended W
  unfolding opening
  agentic_loop text system_prompt zero w = (err (codes "max_iterations must be at least 1"), [], w)
  agentic_loop text system_prompt (suc n) w = rounds (suc n) [] (opening system_prompt text) w
