-- ===== src/Ai/Engine.antt =====
-- `AIEngine` of bantu_os/ai/engine.py: the tools, the dispatch of a call, and the think-act loop. The
-- model, the handlers' effects and `json.dumps` are parameters, over a world `W`.
use bantu_os.Prelude.{
  ℕ, zero, suc, not, List, [], ◌∷◌, ◌++◌, Option, none, some, Result, ok, err, any, if◌then◌else◌,
}
use bantu_os.Prelude.Text.{Text, codes, ◌==◌}
use bantu_os.Prelude.Dict.{Dict, lookup}
use bantu_os.Ai.Calls.{Json, str, arr, obj, EngineError, failed, Call, Reader, extract_tool_calls}

pub data HandlerError : Type 0 where
  type_error other_error : Text → HandlerError

-- A coroutine function raises `TypeError` when it is called with arguments that it does not take, else
-- it gives a coroutine.
pub data Handler (W : Type 0) : Type 0 where
  plain : (Json → W → Result HandlerError Json × W) → Handler W
  coroutine : (Json → Result Text (W → Result HandlerError Json × W)) → Handler W

-- The functions of the module, by what they do, and `asyncio.run` of a coroutine.
pub record Effects (W : Type 0) : Type 0 where
  pub read_file : Json → W → Result HandlerError Json × W
  pub write_file : Json → W → Result HandlerError Json × W
  pub list_files : Json → W → Result HandlerError Json × W
  pub run_command : Json → W → Result HandlerError Json × W
  pub search_web : Json → Result Text (W → Result HandlerError Json × W)
  pub send_message : Json → W → Result HandlerError Json × W
  pub asyncio_run : (W → Result HandlerError Json × W) → W → Result HandlerError Json × W

pub data ToolResult : Type 0 where
  success : Json → ToolResult
  failure : Text → ToolResult

-- A message with a role and a content, one with the call of a tool, and one with a tool's result.
pub data ChatMessage : Type 0 where
  said : Text → Text → ChatMessage
  calls_tool : Option Text → Json → Json → Text → ChatMessage
  tool_said : Text → Json → ChatMessage

unfoldable pub role_of : ChatMessage → Text
role_of (said role content) = role
role_of (calls_tool content id name arguments) = codes "assistant"
role_of (tool_said content name) = codes "tool"

pub record Llm (W : Type 0) : Type 0 where
  pub generate : List ChatMessage → W → Result Text (Text × Json) × W
  pub dumps : Json → Text
  pub dumps_result : ToolResult → Text
  -- The JSON text of the schemas of the tools.
  pub schemas : Text

-- `tools` is the names of the tools.
pub record Engine : Type 0 where
  pub system_prompt : Text
  pub tools : List Text
  pub max_iterations : ℕ

unfoldable pub builtin_handlers : {W : Type 0} → Effects W → Dict (Handler W)
builtin_handlers fx =
    (codes "read_file", plain fx.read_file)
    ∷ (codes "write_file", plain fx.write_file)
    ∷ (codes "list_files", plain fx.list_files)
    ∷ (codes "run_command", plain fx.run_command)
    ∷ (codes "search_web", coroutine fx.search_web)
    ∷ (codes "send_message", plain fx.send_message)
    ∷ []

-- `messages`, with the tools after the first message of a user.
unfoldable pub inject : ChatMessage → List ChatMessage → List ChatMessage
unfolding role_of
inject tool_message [] = []
inject tool_message (m ∷ ms) =
    if role_of m == codes "user" then m ∷ tool_message ∷ ms else m ∷ inject tool_message ms

unfoldable pub first_chars : ℕ → Text → Text
first_chars zero s = []
first_chars (suc n) [] = []
first_chars (suc n) (c ∷ s) = c ∷ first_chars n s

-- `text[:500] if text else None`
unfoldable pub shortened : Text → Option Text
unfolding first_chars
shortened [] = none
shortened (c ∷ s) = some (first_chars 500 (c ∷ s))

module _ {W : Type 0} (fx : Effects W) (reader : Reader) (llm : Llm W) (engine : Engine) where
  -- What a handler returned, or what its exception becomes.
  unfoldable pub tool_result : Text → Result HandlerError Json → ToolResult
  tool_result name (ok j) = success j
  tool_result name (err (type_error e)) =
      failure (codes "Bad arguments for " ++ name ++ codes ": " ++ e)
  tool_result name (err (other_error e)) = failure e

  unfoldable pub run_handler : Text → Handler W → Json → W → ToolResult × W
  unfolding tool_result
  run_handler name (plain f) args w = let (r, w') = f args w in (tool_result name r, w')
  run_handler name (coroutine f) args w = elim (f args) [
    | err e ↦ (tool_result name (err (type_error e)), w)
    | ok c ↦ let (r, w') = fx.asyncio_run c w in (tool_result name r, w')
  ]

  unfoldable pub dispatch_named : Text → Json → W → ToolResult × W
  unfolding run_handler builtin_handlers
  dispatch_named name args w =
      let found : ToolResult × W = elim (lookup name (builtin_handlers fx)) [
        | none ↦ (failure (codes "No handler for tool: " ++ name), w)
        | some h ↦ run_handler name h args w
      ] in
      if not (any (λ t. t == name) engine.tools)
      then (failure (codes "Unknown tool: " ++ name), w)
      else found

  -- A name that is a list or a dict cannot be looked up; any other that is no text is unknown.
  unfoldable pub dispatch_tool : Json → Json → W → Result EngineError ToolResult × W
  unfolding dispatch_named
  dispatch_tool (str name) args w = let (r, w') = dispatch_named name args w in (ok r, w')
  dispatch_tool (arr js) args w = (err EngineError.unhashable, w)
  dispatch_tool (obj fs) args w = (err EngineError.unhashable, w)
  dispatch_tool j args w = (ok (failure (codes "Unknown tool: " ++ reader.to_str j)), w)

  unfoldable pub tool_message : Call → ToolResult → ChatMessage
  tool_message c r = tool_said (llm.dumps_result r) c.name

  unfoldable pub assistant_message : Text → Call → ChatMessage
  assistant_message text c = calls_tool (shortened text) c.id c.name (llm.dumps c.arguments)

  -- The loop over the calls. `messages` gets the results at once; what it returns comes after them.
  unfoldable pub dispatch_all :
      Text
      → List Call
      → List ChatMessage
      → List ChatMessage
      → W
      → Result EngineError (List ChatMessage × List ChatMessage) × W
  unfolding tool_message assistant_message
  dispatch_all text [] messages new w = (ok (messages, new), w)
  dispatch_all text (c ∷ calls) messages new w =
      let (r, w') = dispatch_tool c.name c.arguments w in
      elim r [
        | err e ↦ (err e, w')
        | ok result ↦
            dispatch_all text calls (messages ++ tool_message c result ∷ [])
              (new ++ assistant_message text c ∷ []) w'
      ]

  unfoldable pub tool_system_message : ChatMessage
  tool_system_message = said (codes "system") (
      codes "You have access to the following tools. To call a tool, respond with a JSON object "
      ++ codes "of the form:\n{\"name\": \"<tool_name>\", \"arguments\": {\"param\": \"value\"}}"
      ++ codes "\n\nAvailable tools:\n"
      ++ llm.schemas)

  -- The text of the answer, and the messages for the next round, `none` if there is none.
  unfoldable pub after_answer :
      Text
      → Result EngineError (List Call)
      → List ChatMessage
      → W
      → Result EngineError (Text × Option (List ChatMessage × List ChatMessage)) × W
  unfolding dispatch_all
  after_answer text (err e) messages w = (err e, w)
  after_answer text (ok []) messages w = (ok (text, none), w)
  after_answer text (ok (c ∷ calls)) messages w =
      let (r, w') = dispatch_all text (c ∷ calls) messages [] w in
      elim r [ err e ↦ (err e, w') | ok ms ↦ (ok (text, some ms), w') ]

  unfoldable pub generate_with_tools :
      List ChatMessage
      → W
      → Result EngineError (Text × Option (List ChatMessage × List ChatMessage)) × W
  unfolding tool_system_message after_answer
  generate_with_tools messages w =
      let (r, w') = llm.generate (inject tool_system_message messages) w in
      elim r [
        | err e ↦ (err (failed e), w')
        | ok (text, raw) ↦ after_answer text (extract_tool_calls reader raw text) messages w'
      ]

  abbrev pub apology : Text
  apology =
      codes "I apologies for the inconvenience — I seem to be caught in a loop. "
      ++ codes "Could you please rephrase or break that down?"

  unfoldable pub rounds : ℕ → List ChatMessage → W → Result EngineError Text × W
  unfolding generate_with_tools
  rounds zero messages w = (ok apology, w)
  rounds (suc n) messages w =
      let (r, w') = generate_with_tools messages w in
      elim r [
        | err e ↦ (err e, w')
        | ok (text, none) ↦ (ok text, w')
        | ok (text, some (messages', new)) ↦ rounds n (messages' ++ new) w'
      ]

  unfoldable pub opening : Text → Option (List ChatMessage) → List ChatMessage
  opening user_input memory_context =
      let system : List ChatMessage = elim engine.system_prompt [
        | [] ↦ []
        | c ∷ s ↦ said (codes "system") (c ∷ s) ∷ []
      ] in
      let memory : List ChatMessage = elim memory_context [ none ↦ [] | some ms ↦ ms ] in
      system ++ memory ++ said (codes "user") user_input ∷ []

  unfoldable pub run : Text → Option (List ChatMessage) → W → Result EngineError Text × W
  unfolding rounds opening
  run user_input memory_context w =
      rounds engine.max_iterations (opening user_input memory_context) w
