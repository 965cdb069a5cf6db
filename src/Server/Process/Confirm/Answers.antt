-- ===== src/Server/Process/Confirm/Answers.antt =====
-- The answer to a question is the first one that arrives.
use bantu_os.Prelude.{
  ℕ, ◌≡◌, inl, inr, refl, ap, Bool, true, false, Option, none, some, List, [], ◌∷◌, arith,
  Option-cases, Bool-cases, Result, ok, err, if◌then◌else◌,
}
use bantu_os.Prelude.Text.{Text, codes, lower, ◌==◌, eq_iff, eq_refl}
use bantu_os.Prelude.Dict.{lookup, lookup-insert, lookup-erase}
use bantu_os.Auth.Names.{strip}
use bantu_os.Session.Manager.{SessionError}
use bantu_os.Server.State.{Request, State, Host, Reply, is_empty, get, find}
use bantu_os.Server.Process.{
  confirm, intent, login, logout, whoami, clear_history, session_stats, session_of, ai, tool,
  handle, logged, run_text, run_session, run_guest, may_use,
}
use bantu_os.Server.Process.Confirm.{
  ask, settle, decision_in, answer_to, first_answer, handle_all, requests, no_answer,
}

-- A future takes one answer; a later one changes nothing.
after : Option Text → Option (Option Text) → Option (Option Text)
after answer none = none
after answer (some (some decision)) = some (some decision)
after answer (some none) = some answer

after-none : (o : Option (Option Text)) → after none o ≡ o
unfolding after
after-none none = refl
after-none (some none) = refl
after-none (some (some d)) = refl

module _ {W Args Frame : Type 0} (host : Host W Args Frame) where
  module _ (step_id : Text) (st : State W) where
    Same : List (Reply Frame) × State W → Type 0
    Same x = x.1.connection.pending ≡ st.connection.pending

    either :
        (b : Bool) (x y : List (Reply Frame) × State W)
        → Same x
        → Same y
        → Same (if b then x else y)
    either true x y p q = p
    either false x y p q = q

    logged-Same :
        (made : Result SessionError Text)
        → (logged host st.connection made).pending ≡ st.connection.pending
    unfolding logged
    logged-Same (err e) = refl
    logged-Same (ok sid) = refl

    clear_history-Same : Same (clear_history host st)
    unfolding clear_history Same
    clear_history-Same = elim (Option-cases st.connection.session_id) [
      | inl e ↦ rw (e, clear_history) refl
      | inr (sid, e) ↦ rw (e, clear_history) refl
    ]

    whoami-Same : Same (whoami host st)
    unfolding whoami Same
    whoami-Same = elim (Option-cases (session_of host st)) [
      | inl e ↦ rw (e, whoami) refl
      | inr (s, e) ↦ rw (e, whoami) refl
    ]

    run_text-Same : (now later : ℕ) (text : Text) → Same (run_text host now later text st)
    unfolding run_text run_session run_guest Same
    run_text-Same now later text = elim (Option-cases st.connection.session_id) [
      | inl e ↦ rw (e, run_text) refl
      | inr (sid, e) ↦ elim (Option-cases (find sid st.server)) [
        | inl f ↦ rw (e, run_text, f) refl
        | inr (s, f) ↦ rw (e, run_text, f) refl
      ]
    ]

    confirm-after :
        (r : Request Args)
        → get (codes "cmd") r ≡ codes "confirm"
        → lookup step_id (confirm host r st).1.connection.pending
          ≡ after (answer_to step_id r) (lookup step_id st.connection.pending)
    unfolding confirm after answer_to ◌==◌
    confirm-after r cmd =
        let id = get (codes "step_id") r in
        let d = lower (get (codes "decision") r) in
        let a = if is_empty d then codes "skip" else d in
        let put = lookup-insert id step_id (some a) st.connection.pending in
        elim (Option-cases (lookup id st.connection.pending)) [
          | inl e ↦ rw (e, confirm) (ground (arith, eq_iff id step_id, eq_refl (codes "confirm")))
          | inr (none, e) ↦
              rw (e, confirm) (ground (arith, put, eq_iff id step_id, eq_refl (codes "confirm")))
          | inr (some x, e) ↦
              rw (e, confirm) (ground (arith, eq_iff id step_id, eq_refl (codes "confirm")))
        ]

    others-Same :
        (now later : ℕ) (r : Request Args)
        → (get (codes "cmd") r == codes "confirm") ≡ false
        → Same (handle host now later r st)
    unfolding handle intent login logout session_stats ai tool Same
    others-Same now later r cmd =
        let c = get (codes "cmd") r in
        let text = get (codes "text") r in
        rw (handle, cmd)
          (either (c == codes "ping") _ _ refl (
            either (c == codes "intent") _ _
              (either (is_empty text) _ _ refl (either r.stream _ _ refl refl))
              (either (c == codes "login") _ _
                (either (is_empty (strip (get (codes "username") r))) _ _ refl (logged-Same _))
                (either (c == codes "logout") _ _ refl (
                  either (c == codes "whoami") _ _ whoami-Same (
                    either (c == codes "clear_history") _ _ clear_history-Same (
                      either (c == codes "session_stats") _ _ refl (
                        either (c == codes "ai") _ _
                          (either (is_empty text) _ _ refl (run_text-Same now later text))
                          (either (c == codes "tool") _ _
                            (either (may_use host (session_of host st) (get (codes "tool") r)) _ _
                              refl refl)
                            refl)))))))))

    handle-confirm :
        (now later : ℕ) (r : Request Args)
        → get (codes "cmd") r ≡ codes "confirm"
        → handle host now later r st ≡ confirm host r st
    unfolding handle ◌==◌
    handle-confirm now later r cmd = rw (handle, cmd) refl

    handle-after :
        (now later : ℕ) (r : Request Args)
        → lookup step_id (handle host now later r st).1.connection.pending
          ≡ after (answer_to step_id r) (lookup step_id st.connection.pending)
    unfolding Same
    handle-after now later r = elim (Bool-cases (get (codes "cmd") r == codes "confirm")) [
      | inl e ↦
          let cmd = (eq_iff (get (codes "cmd") r) (codes "confirm")).0 e in
          rw (handle-confirm now later r cmd) (confirm-after r cmd)
      | inr e ↦
          rw (no_answer step_id r e, after-none (lookup step_id st.connection.pending))
            (ap (lookup step_id) (others-Same now later r e))
    ]

  answered-stays :
      (step_id decision : Text) (rs : List (ℕ × ℕ × Request Args)) (st : State W)
      → lookup step_id st.connection.pending ≡ some (some decision)
      → lookup step_id (handle_all host rs st).connection.pending ≡ some (some decision)
  unfolding handle_all after
  answered-stays step_id decision [] st h = h
  answered-stays step_id decision ((now, later, r) ∷ rest) st h =
      answered-stays step_id decision rest (handle host now later r st).1
        (rw (handle-after step_id st now later r, h) refl)

  open-answer :
      (step_id : Text) (rs : List (ℕ × ℕ × Request Args)) (st : State W)
      → lookup step_id st.connection.pending ≡ some none
      → decision_in (lookup step_id (handle_all host rs st).connection.pending)
        ≡ first_answer step_id (requests rs)
  unfolding handle_all after decision_in first_answer requests
  open-answer step_id [] st h = rw h refl
  open-answer step_id ((now, later, r) ∷ rest) st h =
      let next = handle-after step_id st now later r in
      elim (Option-cases (answer_to step_id r)) [
        | inl e ↦
            rw (e, first_answer)
              (open-answer step_id rest (handle host now later r st).1 (rw (next, e, h) refl))
        | inr (d, e) ↦
            rw
              (
                e,
                first_answer,
                answered-stays step_id d rest (handle host now later r st).1 (rw (next, e, h) refl),
              )
              refl
      ]

  -- Whatever requests arrive on the connection between the question for a step and the end of the
  -- wait, the decision that the intent kernel gets is the first one that a `confirm` request gave
  -- for this step, in lower case, and "skip" if none did or if it was empty: later answers and
  -- other requests change nothing. After that the step has no pending question.
  pub settle-first_answer :
      (step_id : Text) (rs : List (ℕ × ℕ × Request Args)) (st : State W)
      → let asked = record st { connection = ask step_id st.connection } in
        let (decision, c) = settle step_id (handle_all host rs asked).connection in
        (decision ≡ first_answer step_id (requests rs)) × (lookup step_id c.pending ≡ none)
  unfolding settle ask
  settle-first_answer step_id rs st =
      let asked = record st { connection = ask step_id st.connection } in
      let p = (handle_all host rs asked).connection.pending in
      (
        open-answer step_id rs asked (
            ground
              (arith, eq_refl step_id, lookup-insert step_id step_id none st.connection.pending)),
        ground (arith, eq_refl step_id, lookup-erase step_id step_id p),
      )
