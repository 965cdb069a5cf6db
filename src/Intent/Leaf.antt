-- ===== src/Intent/Leaf.antt =====
-- `_execute_leaf` and `_tool_error` of bantu_os/core/intent/intent_kernel.py: one run of a leaf by
-- the agent manager, which acts on a world of its own, `W`.
use bantu_os.Prelude.{
  Bool, true, false, ◌||◌, Option, none, some, [], ◌∷◌, ◌++◌, Result, ok, err, if◌then◌else◌,
}
use bantu_os.Prelude.Text.{Text, codes, lower, starts_with}
use bantu_os.Intent.Tree.{Goal}

-- A dict that a tool returned: the entries that are read, as texts, and the whole as JSON.
pub record OutcomeDict : Type 0 where
  pub is_ok : Option Bool
  pub success : Option Bool
  pub error : Option Text
  pub result : Option Text
  pub json : Text

-- What a tool returned; `other` is neither a `str` nor a `dict`.
pub data Outcome : Type 0 where
  text : Text → Outcome
  dict : OutcomeDict → Outcome
  other : Outcome

-- What was raised: `str(exc)` and the name of the class, or the timeout of `wait_for`.
pub data Failure : Type 0 where
  raised : Text → Text → Failure
  timed_out : Failure

-- The methods of the agent manager that the kernel looks for.
pub record AgentManager (W : Type 0) : Type 0 where
  pub tool_call : Option (Text → Option Text → W → Result Failure Outcome × W)
  pub execute : Option (Text → W → Result Failure Outcome × W)

is_false : Option Bool → Bool
is_false (some false) = true
is_false o = false

is_true : Option Bool → Bool
is_true (some true) = true
is_true o = false

-- `str(outcome.get("error") or "Tool execution failed")`
error_text : Option Text → Text
error_text none = codes "Tool execution failed"
error_text (some []) = codes "Tool execution failed"
error_text (some (c ∷ s)) = c ∷ s

-- `lowered.startswith(error_prefixes)`
is_error_text : Text → Bool
is_error_text s =
    starts_with (lower s) (codes "unknown tool")
    || starts_with (lower s) (codes "agentmanager has no kernel")
    || starts_with (lower s) (codes "tool '")

unfoldable pub tool_error : Outcome → Option Text
unfolding is_false error_text is_error_text
tool_error (dict d) =
    if is_false d.is_ok || is_false d.success then some (error_text d.error) else none
tool_error (text s) = if is_error_text s then some s else none
tool_error other = none

-- The text of a dict without an error.
dict_text : OutcomeDict → Text
unfolding is_true
dict_text d = elim d.result [
  | none ↦ d.json
  | some r ↦ if is_true d.is_ok || is_true d.success then r else d.json
]

abbrev runtime_error : Text → Failure
runtime_error error = raised error (codes "RuntimeError")

-- `none` where the outcome is neither text nor dict, and the code goes on.
settle_tool : Outcome → Option (Result Failure Text)
unfolding dict_text
settle_tool other = none
settle_tool (text s) = elim (tool_error (text s)) [
  | none ↦ some (ok s)
  | some e ↦ some (err (runtime_error e))
]
settle_tool (dict d) = elim (tool_error (dict d)) [
  | none ↦ some (ok (dict_text d))
  | some e ↦ some (err (runtime_error e))
]

-- The same for `execute(node.text)`, where a dict is returned as JSON.
settle_text : Outcome → Result Failure Text
settle_text other = err (runtime_error (codes "No execution backend configured"))
settle_text (text s) = elim (tool_error (text s)) [ none ↦ ok s | some e ↦ err (runtime_error e) ]
settle_text (dict d) = elim (tool_error (dict d)) [
  | none ↦ ok d.json
  | some e ↦ err (runtime_error e)
]

is_unknown_tool : Outcome → Bool
is_unknown_tool (text s) = starts_with (lower s) (codes "unknown tool")
is_unknown_tool o = false

module _ {W : Type 0} (am : AgentManager W) where
  run_text : Goal → W → Result Failure Text × W
  unfolding settle_text
  run_text g w = elim am.execute [
    | none ↦ (err (runtime_error (codes "No execution backend configured")), w)
    | some run ↦ let (r, w') = run g.text w in (elim r [ ok o ↦ settle_text o | err f ↦ err f ], w')
  ]

  -- After the tool's outcome: `none` falls through to `execute`.
  after_tool : Goal → Result Failure Outcome → W → Result Failure Text × W
  unfolding settle_tool run_text
  after_tool g (err f) w = (err f, w)
  after_tool g (ok o) w = elim (settle_tool o) [ none ↦ run_text g w | some r ↦ (r, w) ]

  -- "unknown tool" runs the node's text instead; without `execute` that is an `AttributeError`.
  retry_unknown : Goal → Outcome → W → Result Failure Outcome × W
  retry_unknown g o w = elim am.execute [
    | none ↦ (err (raised (codes "execute") (codes "AttributeError")), w)
    | some run ↦ run g.text w
  ]

  run_tool :
      (Text → Option Text → W → Result Failure Outcome × W)
      → Text
      → Goal
      → W
      → Result Failure Text × W
  unfolding after_tool retry_unknown is_unknown_tool
  run_tool call tool g w =
      let (r, w1) = call tool g.tool_params w in
      elim r [
        | err f ↦ (err f, w1)
        | ok o ↦
            let (r', w2) = (if is_unknown_tool o then retry_unknown g o w1 else (ok o, w1)) in
            after_tool g r' w2
      ]

  unfoldable pub execute_leaf : Goal → W → Result Failure Text × W
  unfolding run_tool run_text
  execute_leaf g w = elim am.tool_call [
    | none ↦ run_text g w
    | some call ↦ elim g.tool [
      | none ↦ run_text g w
      | some [] ↦ run_text g w
      | some (c ∷ t) ↦ run_tool call (c ∷ t) g w
    ]
  ]

abbrev tool_text : Option Text → Text
tool_text none = codes "None"
tool_text (some t) = t

-- The error of a failed attempt; `limit` is the timeout in print.
unfoldable pub message_of : Text → Goal → Failure → Text
message_of limit g timed_out =
    codes "Tool '" ++ (tool_text g.tool ++ (codes "' timed out after " ++ (limit ++ codes "s")))
message_of limit g (raised [] name) = name
message_of limit g (raised (c ∷ s) name) = c ∷ s
