-- ===== src/Ai/Rounds.antt =====
-- What a round of the engine makes of the conversation, and what a dispatch refuses.
use mathlib.Core.List.{append-nil, append_assoc}
use bantu_os.Prelude.{
  ◌≤◌, ◌≡◌, inl, inr, refl, ◌∙◌, List, [], ◌∷◌, ◌++◌, map, some, Result, ok, err, any, length,
  Bool-cases, Result-cases, arith,
}
use bantu_os.Prelude.Text.{Text, codes, ◌==◌}
use bantu_os.Prelude.Dict.{lookup}
use bantu_os.Ai.Calls.{Json, EngineError, Call, Reader, extract_tool_calls}
use bantu_os.Ai.Engine.{
  HandlerError, other_error, coroutine, tool_result, Effects, ToolResult, failure, ChatMessage, Llm,
  Engine, builtin_handlers, inject, run_handler, dispatch_named, dispatch_tool, tool_message,
  assistant_message, dispatch_all, tool_system_message, after_answer, generate_with_tools,
}

module _ {W : Type 0} (fx : Effects W) (reader : Reader) (llm : Llm W) (engine : Engine) where
  -- The results of the calls, as messages.
  unfoldable pub tool_messages : List Call → List ToolResult → List ChatMessage
  tool_messages [] rs = []
  tool_messages (c ∷ cs) [] = []
  tool_messages (c ∷ cs) (r ∷ rs) = tool_message fx reader llm engine c r ∷ tool_messages cs rs

  -- The results are those of the calls, one after the other from a world on.
  abbrev pub AreResults : List Call → List ToolResult → W → Type 0
  AreResults [] [] w = Unit
  AreResults [] (r ∷ rs) w = ⊥
  AreResults (c ∷ cs) [] w = ⊥
  AreResults (c ∷ cs) (r ∷ rs) w =
      let called = dispatch_tool fx reader llm engine c.name c.arguments w in
      (called.0 ≡ ok r) × AreResults cs rs called.1

  -- What the dispatch of calls adds to the messages and to those that come after them.
  record Dispatched (text : Text) (calls : List Call) (messages new : List ChatMessage) (w : W)
      (ms : List ChatMessage × List ChatMessage) : Type 0 where
    results : List ToolResult
    real : AreResults calls results w
    kept : ms.0 ≡ messages ++ tool_messages calls results
    later : ms.1 ≡ new ++ map (assistant_message fx reader llm engine text) calls

  dispatch_all-Dispatched :
      (text : Text) (calls : List Call) (messages new : List ChatMessage) (w : W)
      (ms : List ChatMessage × List ChatMessage)
      → (dispatch_all fx reader llm engine text calls messages new w).0 ≡ ok ms
      → Dispatched text calls messages new w ms
  unfolding dispatch_all tool_messages
  dispatch_all-Dispatched text [] messages new w ms = λ h. record {
    results = [];
    real = tt;
    kept = ground (arith, append-nil messages);
    later = ground (arith, append-nil new);
  }
  dispatch_all-Dispatched text (c ∷ calls) messages new w ms =
      let called = dispatch_tool fx reader llm engine c.name c.arguments w in
      elim (Result-cases called.0) [
        | inr (x, e) ↦ rw (dispatch_all, e) (λ h. absurd (cc))
        | inl (r, e) ↦
            rw (dispatch_all, e)
              (λ h.
                let t = tool_message fx reader llm engine c r in
                let a = assistant_message fx reader llm engine text c in
                let d =
                  dispatch_all-Dispatched text calls (messages ++ t ∷ []) (new ++ a ∷ []) called.1
                    ms h in
                record {
                  results = r ∷ d.results;
                  real = (e, d.real);
                  kept = d.kept ∙ append_assoc messages (t ∷ []) (tool_messages calls d.results);
                  later = d.later ∙ append_assoc new (a ∷ []) _;
                })
      ]

  -- The conversation after a round, for the calls that were found and the world before them.
  abbrev pub InOrder :
      Result EngineError (List Call)
      → W
      → Text
      → List ChatMessage
      → List ChatMessage × List ChatMessage
      → Type 0
  InOrder found w text messages ms =
      (calls : List Call) × (results : List ToolResult) × (found ≡ ok calls)
      × (1 ≤ length calls)
      × AreResults calls results w
      × (ms.0 ++ ms.1
          ≡ (messages ++ tool_messages calls results)
            ++ map (assistant_message fx reader llm engine text) calls)

  after_answer-InOrder :
      (answer : Text) (found : Result EngineError (List Call)) (messages : List ChatMessage) (w : W)
      (text : Text) (ms : List ChatMessage × List ChatMessage)
      → (after_answer fx reader llm engine answer found messages w).0 ≡ ok (text, some ms)
      → (answer ≡ text) × InOrder found w answer messages ms
  unfolding after_answer
  after_answer-InOrder answer (err e) messages w text ms = λ h. absurd (cc)
  after_answer-InOrder answer (ok []) messages w text ms = λ h. absurd (ground arith)
  after_answer-InOrder answer (ok (c ∷ calls)) messages w text ms =
      let sent = dispatch_all fx reader llm engine answer (c ∷ calls) messages [] w in
      elim (Result-cases sent.0) [
        | inr (x, e) ↦ rw (after_answer, e) (λ h. absurd (cc))
        | inl (made, e) ↦
            rw (after_answer, e)
              (λ h.
                let same : made ≡ ms = ground arith in
                let d = dispatch_all-Dispatched answer (c ∷ calls) messages [] w made e in
                (
                  ground arith,
                  rw (← same)
                      (c ∷ calls, d.results, refl, omega arith, d.real, rw (d.kept, d.later) refl),
                ))
      ]

  -- A round that goes on has called the model and found tool calls in its answer, at least one. It
  -- has called all of them, one after the other, and the conversation goes on with all their results
  -- before all the messages of the assistant that call them.
  pub generate_with_tools-InOrder :
      (messages : List ChatMessage) (w : W) (text : Text) (ms : List ChatMessage × List ChatMessage)
      → (generate_with_tools fx reader llm engine messages w).0 ≡ ok (text, some ms)
      → let sent = llm.generate (inject (tool_system_message fx reader llm engine) messages) w in
        (raw : Json) × (sent.0 ≡ ok (text, raw))
        × InOrder (extract_tool_calls reader raw text) sent.1 text messages ms
  unfolding generate_with_tools
  generate_with_tools-InOrder messages w text ms =
      let tools = tool_system_message fx reader llm engine in
      let sent = llm.generate (inject tools messages) w in
      elim (Result-cases sent.0) [
        | inr (x, e) ↦ rw (generate_with_tools, e) (λ h. absurd (cc))
        | inl ((answer, raw), e) ↦
            rw (generate_with_tools, e)
              (λ h.
                let (told, order) =
                  after_answer-InOrder answer (extract_tool_calls reader raw answer) messages sent.1
                    text ms h in
                rw (← told) (raw, refl, order))
      ]

  handler_of-search_web :
      lookup (codes "search_web") (builtin_handlers fx) ≡ some (coroutine fx.search_web)
  unfolding builtin_handlers lookup ◌==◌
  handler_of-search_web = refl

  -- `asyncio.run` raises where an event loop runs already, as it does in a dispatch, which is called
  -- from a coroutine.
  module _
      (running_loop : (c : W → Result HandlerError Json × W) (w : W)
        → (e : Text) × (fx.asyncio_run c w ≡ (err (other_error e), w))) where
    -- A coroutine function as a tool never succeeds, whatever it does.
    coroutine_fails :
        (name : Text) (f : Json → Result Text (W → Result HandlerError Json × W)) (args : Json)
        (w : W)
        → (e : Text) × (run_handler fx reader llm engine name (coroutine f) args w ≡ (failure e, w))
    unfolding run_handler tool_result
    coroutine_fails name f args w = elim (Result-cases (f args)) [
      | inr (x, e) ↦
          (codes "Bad arguments for " ++ name ++ codes ": " ++ x, rw (run_handler, e) refl)
      | inl (c, e) ↦ let (x, raises) = running_loop c w in (x, rw (run_handler, e, raises) refl)
    ]

    -- Where a loop runs, every call of `search_web` fails, with any arguments, and nothing happens.
    pub dispatch_named-search_web :
        (args : Json) (w : W)
        → (e : Text) × (dispatch_named fx reader llm engine (codes "search_web") args w
            ≡ (failure e, w))
    unfolding dispatch_named
    dispatch_named-search_web args w =
        elim (Bool-cases (any (λ t. t == codes "search_web") engine.tools)) [
          | inr unknown ↦ (codes "Unknown tool: search_web", rw unknown refl)
          | inl known ↦
              let (e, p) = coroutine_fails (codes "search_web") fx.search_web args w in
              (e, rw (dispatch_named, known, handler_of-search_web, p) refl)
        ]
