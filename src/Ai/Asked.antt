-- ===== src/Ai/Asked.antt =====
-- How often a run of the engine asks the model.
use bantu_os.Prelude.{
  ℕ, zero, suc, ◌+◌, ◌≤◌, ◌≡◌, inl, inr, refl, ◌∙◌, List, [], ◌∷◌, ◌++◌, Option, none, some, Result,
  ok, err, Result-cases, arith,
}
use bantu_os.Prelude.Text.{Text}
use bantu_os.Ai.Calls.{EngineError, Call, Reader}
use bantu_os.Ai.Engine.{
  Effects, ChatMessage, Llm, Engine, inject, dispatch_tool, dispatch_all, tool_system_message,
  after_answer, generate_with_tools, rounds, run,
}

module _ {W : Type 0} (fx : Effects W) (reader : Reader) (llm : Llm W) (engine : Engine) where
  module _ (asked : W → ℕ)
      (once : (ms : List ChatMessage) (w : W) → asked (llm.generate ms w).1 ≡ asked w + 1)
      (silent : (c : Call) (w : W)
        → asked (dispatch_tool fx reader llm engine c.name c.arguments w).1 ≡ asked w) where
    dispatch_all-asked :
        (text : Text) (calls : List Call) (messages new : List ChatMessage) (w : W)
        → asked (dispatch_all fx reader llm engine text calls messages new w).1 ≡ asked w
    unfolding dispatch_all
    dispatch_all-asked text [] messages new w = refl
    dispatch_all-asked text (c ∷ calls) messages new w =
        let called = dispatch_tool fx reader llm engine c.name c.arguments w in
        elim (Result-cases called.0) [
          | inr (x, e) ↦ rw (dispatch_all, e) (silent c w)
          | inl (r, e) ↦
              rw (dispatch_all, e) (dispatch_all-asked text calls _ _ called.1 ∙ silent c w)
        ]

    after_answer-asked :
        (answer : Text) (found : Result EngineError (List Call)) (messages : List ChatMessage)
        (w : W)
        → asked (after_answer fx reader llm engine answer found messages w).1 ≡ asked w
    unfolding after_answer
    after_answer-asked answer (err e) messages w = refl
    after_answer-asked answer (ok []) messages w = refl
    after_answer-asked answer (ok (c ∷ calls)) messages w =
        let same = dispatch_all-asked answer (c ∷ calls) messages [] w in
        elim (Result-cases (dispatch_all fx reader llm engine answer (c ∷ calls) messages [] w).0) [
          | inr (x, e) ↦ rw (after_answer, e) same
          | inl (ms, e) ↦ rw (after_answer, e) same
        ]

    generate_with_tools-asked :
        (messages : List ChatMessage) (w : W)
        → asked (generate_with_tools fx reader llm engine messages w).1 ≡ asked w + 1
    unfolding generate_with_tools
    generate_with_tools-asked messages w =
        let sent = inject (tool_system_message fx reader llm engine) messages in
        elim (Result-cases (llm.generate sent w).0) [
          | inr (x, e) ↦ rw (generate_with_tools, e) (once sent w)
          | inl ((answer, raw), e) ↦
              rw (generate_with_tools, e) (after_answer-asked answer _ messages _ ∙ once sent w)
        ]

    rounds-asked :
        (n : ℕ) (messages : List ChatMessage) (w : W)
        → asked (rounds fx reader llm engine n messages w).1 ≤ asked w + n
    unfolding rounds
    rounds-asked zero messages w = omega arith
    rounds-asked (suc n) messages w =
        let one = generate_with_tools-asked messages w in
        elim (Result-cases (generate_with_tools fx reader llm engine messages w).0) [
          | inr (x, e) ↦ rw (rounds, e) (omega (arith, one))
          | inl ((text, none), e) ↦ rw (rounds, e) (omega (arith, one))
          | inl ((text, some (ms, new)), e) ↦
              rw (rounds, e)
                (omega (
                  arith,
                  one,
                  rounds-asked n (ms ++ new)
                      (generate_with_tools fx reader llm engine messages w).1,
                ))
        ]

    -- If each request to the model counts one and no tool asks it, a run asks the model at most
    -- `max_iterations` times.
    pub run-asked :
        (user_input : Text) (memory_context : Option (List ChatMessage)) (w : W)
        → asked (run fx reader llm engine user_input memory_context w).1
          ≤ asked w + engine.max_iterations
    unfolding run
    run-asked user_input memory_context w = rounds-asked engine.max_iterations _ w
