-- ===== src/Ai/Tests.antt =====
-- Concrete runs of the engine.
use bantu_os.Prelude.{err, ℕ, ◌+◌, ◌≤◌, ◌≡◌, refl, List, [], ◌∷◌, ◌++◌, none, ok, any, arith}
use bantu_os.Prelude.Text.{Text, codes, ◌==◌}
use bantu_os.Prelude.Dict.{lookup}
use bantu_os.Ai.Calls.{
  Json, null, bool, num, str, arr, obj, Items, Fields, Call, Loaded, Reader, extract_tool_calls,
  calls_of_raw, calls_in, normalise_call, normalise_all, own_or_function, or_value, name_of,
  arguments_of, truthy, field_of, get,
}
use bantu_os.Ai.Engine.{
  HandlerError, inject, Effects, tool_result, tool_system_message, ToolResult, ChatMessage, said,
  Llm, Engine, builtin_handlers, dispatch_tool, dispatch_named, run_handler, dispatch_all,
  after_answer, generate_with_tools, assistant_message, tool_message, run,
}
use bantu_os.Ai.Rounds.{InOrder, generate_with_tools-InOrder}
use bantu_os.Ai.Asked.{run-asked}

-- Tools that give their arguments back and change nothing; the world counts the answers.
abbrev effects : Effects ℕ
effects = record {
  read_file = λ j w. (ok j, w);
  write_file = λ j w. (ok j, w);
  list_files = λ j w. (ok j, w);
  run_command = λ j w. (ok j, w);
  search_web = λ j. ok (λ w. (ok j, w));
  send_message = λ j w. (ok j, w);
  asyncio_run = λ c w. (err (HandlerError.other_error (codes "a loop is running")), w);
}

abbrev reader : Reader
reader = record {
  loads = λ s. Loaded.value (obj Fields.end);
  to_str = λ j. codes "?";
  in_text = λ s. [];
}

-- A call as providers write it.
abbrev raw_call : Json
raw_call = obj (
    Fields.field (codes "tool_calls")
      (arr (
        Items.cons
          (obj (
            Fields.field (codes "function")
              (obj (Fields.field (codes "name") (str (codes "read_file")) Fields.end)) Fields.end))
          Items.nil))
      Fields.end)

abbrev llm : Llm ℕ
llm = record {
  generate = λ ms w. (ok (codes "ok", raw_call), w + 1);
  dumps = λ j. codes "{}";
  dumps_result = λ r. codes "{}";
  schemas = codes "[]";
}

abbrev engine : Engine
engine = record {
  system_prompt = codes "Help.";
  tools = codes "read_file" ∷ codes "search_web" ∷ [];
  max_iterations = 10;
}

abbrev conversation : List ChatMessage
conversation = said (codes "user") (codes "hi") ∷ []

abbrev call : Call
call = record { name = str (codes "read_file"); arguments = obj Fields.end; id = str [] }

abbrev after_round : List ChatMessage × List ChatMessage
after_round = (
  conversation
      ++ tool_message effects reader llm engine call (ToolResult.success (obj Fields.end)) ∷ [],
  assistant_message effects reader llm engine (codes "ok") call ∷ [],
)

generate_with_tools-InOrder_example :
    let sent =
      llm.generate (inject (tool_system_message effects reader llm engine) conversation) 0 in
    (raw : Json) × (sent.0 ≡ ok (codes "ok", raw))
    × InOrder effects reader llm engine
        (extract_tool_calls reader raw (codes "ok"))
        sent.1
        (codes "ok")
        conversation
        after_round
unfolding generate_with_tools after_answer dispatch_all extract_tool_calls calls_of_raw calls_in
    normalise_all normalise_call name_of own_or_function or_value arguments_of truthy field_of get
    dispatch_tool dispatch_named run_handler tool_result builtin_handlers lookup ◌==◌ any
generate_with_tools-InOrder_example =
    generate_with_tools-InOrder effects reader llm engine conversation 0 (codes "ok") after_round
      refl

named_silent :
    (name : Text) (args : Json) (w : ℕ)
    → (dispatch_named effects reader llm engine name args w).1 ≡ w
unfolding dispatch_named builtin_handlers run_handler tool_result lookup
named_silent name args w = ground arith

silent : (name args : Json) (w : ℕ) → (dispatch_tool effects reader llm engine name args w).1 ≡ w
unfolding dispatch_tool
silent null args w = refl
silent (bool b) args w = refl
silent (num n) args w = refl
silent (str s) args w = named_silent s args w
silent (arr js) args w = refl
silent (obj fs) args w = refl

run-asked_example :
    (run effects reader llm engine (codes "hi") none 5).1 ≤ 5 + engine.max_iterations
run-asked_example =
    run-asked effects reader llm engine (λ w. w) (λ ms w. refl) (λ c w. silent c.name c.arguments w)
      (codes "hi") none 5
