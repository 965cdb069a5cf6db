-- ===== src/Server/Process/Budgets.antt =====
-- What a client is told of its token budget, and what a second login does to it.
use bantu_os.Prelude.{
  ℕ, ◌≡◌, ◌≢◌, ◌⊎◌, ◌+◌, ◌/◌, inl, inr, refl, false, some, [], ◌∷◌, length, leb, ok, err,
}
use bantu_os.Prelude.Text.{Text, codes}
use bantu_os.Auth.Names.{strip}
use bantu_os.Session.Budget.{default_budget, budget_exceeded, record_tokens}
use bantu_os.Session.Manager.{
  UserSession, memory_context, exhausted, existing, max_sessions, create_session,
}
use bantu_os.Session.Manager.Update.{run-exhausted, create_session_again}
use bantu_os.Session.Permissions.{default_permissions}
use bantu_os.Server.State.{Request, State, Host, success, get, find}
use bantu_os.Server.Process.{session_of, ai, login, run_text, run_session, ai_reply, logged}

name-cases : (s : Text) → (s ≡ []) ⊎ ((c : ℕ) × (u : Text) × (s ≡ c ∷ u))
name-cases [] = inl refl
name-cases (c ∷ s) = inr (c, s, refl)

module _ {W Args Frame : Type 0} (host : Host W Args Frame) (st : State W) where
  -- A request of a session whose budget is exhausted is answered as a success: `run` catches the
  -- exception and returns a text, so the handler of `BudgetExceededError` is never reached. The
  -- tokens are charged all the same.
  pub ai-exhausted :
      (now later : ℕ) (r : Request Args) (sid : Text) (s : UserSession) (c : ℕ) (text reply : Text)
      → get (codes "text") r ≡ c ∷ text
      → st.connection.session_id ≡ some sid
      → find sid st.server ≡ some s
      → (host.backend sid st.world).reply
          (c ∷ text)
          (memory_context (host.backend sid st.world) (c ∷ text))
        ≡ ok reply
      → (record_tokens later ((length (c ∷ text) + length reply) / 4) s.budget).0
        ≡ err budget_exceeded
      → (ai host now later r st).0 ≡ success exhausted ∷ []
  unfolding ai run_text run_session ai_reply
  ai-exhausted now later r sid s c text reply at mine found answered over =
      rw
        (
          ai,
          at,
          run_text,
          mine,
          found,
          run_session,
          at,
          run-exhausted (host.backend sid st.world) now later (c ∷ text) reply s answered over,
        )
        refl

  -- Logging in again, as a user who has a session, below the limit of sessions, hands out the
  -- session that there is: nothing changes on the server, so what was spent stays spent.
  pub login_again :
      (now : ℕ) (r : Request Args) (sid : Text)
      → strip (get (codes "username") r) ≢ []
      → leb max_sessions (length st.server.manager.sessions) ≡ false
      → existing (strip (get (codes "username") r)) st.server.manager ≡ some sid
      → ((login host now r st).1.server ≡ st.server)
        × (session_of host (login host now r st).1 ≡ find sid st.server)
  unfolding login create_session session_of logged find
  login_again now r sid named room has = elim (name-cases (strip (get (codes "username") r))) [
    | inl e ↦ absurd (named e)
    | inr (c, u, e) ↦
        let again =
          create_session_again now (strip (get (codes "username") r)) sid default_budget
            default_permissions st.server.manager room has in
        (rw (login, again, e) refl, rw (login, again, e) refl)
  ]
