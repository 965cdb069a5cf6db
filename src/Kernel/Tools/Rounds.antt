-- ===== src/Kernel/Tools/Rounds.antt =====
-- The outcomes of tool calls, and the rounds of the agentic loop.
use bantu_os.Prelude.{
  ℕ, zero, suc, ◌+◌, ◌*◌, ◌<◌, ◌≡◌, ◌⊎◌, refl, Option, List, [], ◌∷◌, arith, map, Result, ok, err,
  none, some, length, length-append, Option-cases, Result-cases, inl, inr,
}
use bantu_os.Prelude.Text.{Text, codes}
use bantu_os.Prelude.Dict.{Dict, lookup}
use bantu_os.Kernel.Parse.{Loaded, raised, Parsed, parse_tool_calls}
use bantu_os.Kernel.Parse.Fuel.{IsParsed, parse_tool_calls-total}
use bantu_os.Kernel.Tools.{
  name, other_name, args, other_args, ToolCall, call, no_object, Tool, run_named, run_call,
  run_tool_calls, name_of, ChatMessage, Generate, Ended, calls_in, inject, rounds, opening,
  agentic_loop,
}

module _ {A W : Type 0} (tools : Dict (Tool A W)) where
  run_call-name : (c : ToolCall A) (w : W) → (run_call tools c w).0.name ≡ name_of c
  unfolding run_call run_named
  run_call-name no_object w = refl
  run_call-name (call (other_name n) a) w = refl
  run_call-name (call (name []) a) w = refl
  run_call-name (call (name (c ∷ n)) other_args) w = refl
  run_call-name (call (name (c ∷ n)) (args a)) w = elim (Option-cases (lookup (c ∷ n) tools)) [
    | inl e ↦ rw (e, run_named) refl
    | inr (tool, e) ↦ rw (e, run_named) refl
  ]

  -- Each call gets one outcome, in the order of the calls and under the name it asked for, whatever
  -- the calls are and whichever of them fail.
  pub run_tool_calls-names :
      (cs : List (ToolCall A)) (w : W)
      → map (λ o. o.name) (run_tool_calls tools cs w).0 ≡ map name_of cs
  unfolding run_tool_calls
  run_tool_calls-names [] w = refl
  run_tool_calls-names (c ∷ cs) w =
      let head = run_call-name c w in
      let tail = run_tool_calls-names cs (run_call tools c w).1 in cc (head, tail)

found_cases :
    {B : Type 0} (r : Result Text (List B))
    → ((e : Text) × (r ≡ err e)) ⊎ ((r ≡ ok []) ⊎ ((y : B) × (ys : List B) × (r ≡ ok (y ∷ ys))))
found_cases (err e) = inl (e, refl)
found_cases (ok []) = inr (inl refl)
found_cases (ok (x ∷ xs)) = inr (inr (x, xs, refl))

module _ {A W : Type 0} (tools : Dict (Tool A W)) (loads : Text → Loaded A) (no_args : A)
    (generate : Generate W) where
  inject-length :
      (output : Text) (cs : List (ToolCall A)) (messages : List ChatMessage) (w : W)
      → length (inject tools loads no_args generate output cs messages w).0 ≡ length messages + 2
  unfolding inject
  inject-length output cs messages w = length-append messages _

  -- The exception is one of the model, or of `json.loads` for the text of some arguments.
  abbrev pub Raises : Text → Type 0
  Raises e =
      ((messages : List ChatMessage) × (w : W) × ((generate messages w).0 ≡ err e))
      ⊎ ((raw : Text) × (loads raw ≡ raised e))

  calls_in-Raises :
      (output e : Text) → calls_in tools loads no_args generate output ≡ err e → Raises e
  unfolding calls_in
  calls_in-Raises output e h =
      by_parsed (parse_tool_calls loads no_args output) refl
        (parse_tool_calls-total loads no_args output)
    where
      by_parsed :
          (p : Parsed loads no_args)
          → parse_tool_calls loads no_args output ≡ p
          → IsParsed loads no_args p
          → Raises e
      by_parsed none at parsed = absurd parsed
      by_parsed (some (ok calls)) at parsed = absurd (ground (arith, h, at))
      by_parsed (some (err x)) at (raw, raises) =
          let same : x ≡ e = ground (arith, h, at) in inr (raw, rw (← same) raises)

  -- A reply that the rounds return has no tool calls, or every round was used. Each round that made
  -- calls added two messages.
  abbrev pub Finished : ℕ → List ChatMessage → Ended W → Type 0
  Finished left messages (err e, messages', w) = Raises e
  Finished left messages (ok output, messages', w) =
      ((calls_in tools loads no_args generate output ≡ ok [])
        × (length messages' < length messages + 2 * left))
      ⊎ (length messages' ≡ length messages + 2 * left)

  grown :
      (left : ℕ) (messages more : List ChatMessage) (r : Ended W)
      → length more ≡ length messages + 2
      → Finished left more r
      → Finished (suc left) messages r
  grown left messages more (err e, messages', w) l h = h
  grown left messages more (ok output, messages', w) l (inl (quiet, short)) =
      inl (quiet, omega arith)
  grown left messages more (ok output, messages', w) l (inr long) = inr (omega arith)

  rounds-Finished :
      (left : ℕ) (last : Text) (messages : List ChatMessage) (w : W)
      → Finished left messages (rounds tools loads no_args generate left last messages w)
  unfolding rounds
  rounds-Finished zero last messages w = inr (omega arith)
  rounds-Finished (suc left) last messages w = elim (Result-cases (generate messages w).0) [
    | inr (f, e) ↦ rw (e, rounds) (inl (messages, w, e))
    | inl (output, e) ↦ elim (found_cases (calls_in tools loads no_args generate output)) [
      | inl (x, bad) ↦ rw (e, rounds, bad) (calls_in-Raises output x bad)
      | inr (inl quiet) ↦ rw (e, rounds, quiet) (inl (quiet, omega arith))
      | inr (inr (c, cs, some_calls)) ↦
          let made =
            inject tools loads no_args generate output (c ∷ cs) messages (generate messages w).1 in
          let longer = inject-length output (c ∷ cs) messages (generate messages w).1 in
          rw (e, rounds, some_calls)
            (grown left messages made.0 _ longer (rounds-Finished left output made.0 made.1))
    ]
  ]

  -- The agentic loop refuses to run for no round. With one or more rounds, either it ends by an
  -- exception of the model, or of `json.loads` for the arguments of a tool call (one that is not
  -- caught), or the reply that is returned has no tool calls and fewer than two messages were added
  -- for each round, or every round was used and added two messages.
  pub agentic_loop-Finished :
      (text : Text) (system_prompt : Option Text) (n : ℕ) (w : W)
      → ((agentic_loop tools loads no_args generate text system_prompt 0 w).0
          ≡ err (codes "max_iterations must be at least 1"))
        × Finished
            (suc n)
            (opening tools loads no_args generate system_prompt text)
            (agentic_loop tools loads no_args generate text system_prompt (suc n) w)
  unfolding agentic_loop
  agentic_loop-Finished text system_prompt n w =
      (refl, rounds-Finished (suc n) [] (opening tools loads no_args generate system_prompt text) w)
