-- ===== src/Server/Process/Requests.antt =====
-- Every request of a connection keeps the state safe.
use bantu_os.Prelude.{
  ℕ, ◌≡◌, inl, inr, refl, sym, Bool, true, false, none, some, List, arith, Option-cases,
  Result-cases, Result, ok, err, if◌then◌else◌,
}
use bantu_os.Prelude.Text.{Text, codes, ◌==◌}
use bantu_os.Prelude.Dict.{lookup}
use bantu_os.Session.Budget.{default_budget}
use bantu_os.Session.Permissions.{default_permissions}
use bantu_os.Session.Manager.{UserSession, SessionError, create_session}
use bantu_os.Session.Manager.Operations.{create_session-IsConsistent}
use bantu_os.Session.Manager.Isolation.{run-accounts}
use bantu_os.Auth.Names.{strip}
use bantu_os.Server.State.{Request, Connection, State, Host, Reply, is_empty, find, get}
use bantu_os.Server.Process.{
  logged, session_of, may_use, confirm, intent, login, logout, whoami, clear_history, session_stats,
  ai, tool, handle, process, run_session, run_text, run_guest,
}
use bantu_os.Server.Process.Keeps.{
  IsSafe, Keeps, replace-IsConsistent, replace-Held, destroy-IsConsistent, destroy-Held, created,
  create-Held, create-Held-own,
}

module _ {W Args Frame : Type 0} (host : Host W Args Frame) (st : State W) (h : IsSafe st) where
  Good : List (Reply Frame) × State W → Type 0
  Good x = Keeps st.server x.1

  either :
      (b : Bool) (x y : List (Reply Frame) × State W) → Good x → Good y → Good (if b then x else y)
  either true x y p q = p
  either false x y p q = q

  -- A request that changes neither the server nor the connection's session.
  same :
      (c : Connection) (w : W)
      → c.session_id ≡ st.connection.session_id
      → Keeps st.server (record { connection = c; server = st.server; world = w })
  same c w e = record {
    safe = record { consistent = h.consistent; held = λ sid at. h.held sid (cc) };
    kept = λ sid at. at;
  }

  confirm-Keeps : (r : Request Args) → Good (confirm host r st)
  unfolding confirm Good
  confirm-Keeps r = elim (Option-cases (lookup (get (codes "step_id") r) st.connection.pending)) [
    | inl e ↦ rw (e, confirm) (same st.connection st.world refl)
    | inr (none, e) ↦ rw (e, confirm) (same _ st.world refl)
    | inr (some d, e) ↦ rw (e, confirm) (same st.connection st.world refl)
  ]

  intent-Keeps : (r : Request Args) → Good (intent host r st)
  unfolding intent Good
  intent-Keeps r =
      either (is_empty (get (codes "text") r)) _ _ (same st.connection st.world refl)
        (either r.stream _ _ (same st.connection _ refl) (same st.connection _ refl))

  logged-Keeps :
      (now : ℕ) (u : Text) (made : Result SessionError Text)
      → (create_session now u default_budget default_permissions st.server.manager).0 ≡ made
      → Keeps st.server (record {
        connection = logged host st.connection made;
        server = created now u st.server;
        world = st.world;
      })
  unfolding logged created
  logged-Keeps now u (err e) made = record {
    safe = record {
      consistent = create_session-IsConsistent now u _ _ st.server.manager h.consistent;
      held = λ sid at. create-Held now u sid st.server (h.held sid at);
    };
    kept = λ sid. create-Held now u sid st.server;
  }
  logged-Keeps now u (ok new) made = record {
    safe = record {
      consistent = create_session-IsConsistent now u _ _ st.server.manager h.consistent;
      held = λ sid at. create-Held-own now u sid st.server (ground arith);
    };
    kept = λ sid. create-Held now u sid st.server;
  }

  login-Keeps : (now : ℕ) (r : Request Args) → Good (login host now r st)
  unfolding login Good created
  login-Keeps now r =
      let u = strip (get (codes "username") r) in
      either (is_empty u) _ _ (same st.connection st.world refl) (logged-Keeps now u _ refl)

  logout-Keeps : Good (logout host st)
  unfolding logout Good
  logout-Keeps = elim (Option-cases st.connection.session_id) [
    | inl e ↦ rw (e, logout) (same _ st.world (sym e))
    | inr (sid, e) ↦
        rw (e, logout)
          (record {
            safe = record {
              consistent = destroy-IsConsistent sid st.server h.consistent;
              held = λ k at. absurd (cc);
            };
            kept = λ k. destroy-Held sid k st.server;
          })
  ]

  clear_history-Keeps : Good (clear_history host st)
  unfolding clear_history Good
  clear_history-Keeps = elim (Option-cases st.connection.session_id) [
    | inl e ↦ rw (e, clear_history) (same st.connection st.world refl)
    | inr (sid, e) ↦ rw (e, clear_history) (same st.connection _ refl)
  ]

  run_session-Keeps :
      (now later : ℕ) (text sid : Text) (s : UserSession)
      → find sid st.server ≡ some s
      → Good (run_session host now later text sid s st)
  unfolding run_session Good
  run_session-Keeps now later text sid s found =
      let run_of = run-accounts (host.backend sid st.world) now later text s in
      record {
        safe = record {
          consistent =
              replace-IsConsistent sid s _ st.server h.consistent found (ground (arith, run_of))
                (ground (arith, run_of));
          held = λ k at. replace-Held sid k _ st.server (h.held k at);
        };
        kept = λ k. replace-Held sid k _ st.server;
      }

  run_text-Keeps : (now later : ℕ) (text : Text) → Good (run_text host now later text st)
  unfolding run_text run_guest Good
  run_text-Keeps now later text = elim (Option-cases st.connection.session_id) [
    | inl e ↦ rw (e, run_text) (same st.connection _ refl)
    | inr (sid, e) ↦ elim (Option-cases (find sid st.server)) [
      | inl f ↦ rw (e, run_text, f) (same st.connection _ refl)
      | inr (s, f) ↦ rw (e, run_text, f) (run_session-Keeps now later text sid s f)
    ]
  ]

  whoami-Keeps : Good (whoami host st)
  unfolding whoami Good
  whoami-Keeps = elim (Option-cases (session_of host st)) [
    | inl e ↦ rw (e, whoami) (same st.connection st.world refl)
    | inr (s, e) ↦ rw (e, whoami) (same st.connection st.world refl)
  ]

  handle-Keeps : (now later : ℕ) (r : Request Args) → Good (handle host now later r st)
  unfolding handle ai tool session_stats Good
  handle-Keeps now later r =
      let cmd = get (codes "cmd") r in
      let stays : (w : W) → Keeps st.server (record st { world = w }) =
        λ w. same st.connection w refl in
      either (cmd == codes "ping") _ _ (stays st.world) (
        either (cmd == codes "confirm") _ _ (confirm-Keeps r) (
          either (cmd == codes "intent") _ _ (intent-Keeps r) (
            either (cmd == codes "login") _ _ (login-Keeps now r) (
              either (cmd == codes "logout") _ _ logout-Keeps (
                either (cmd == codes "whoami") _ _ whoami-Keeps (
                  either (cmd == codes "clear_history") _ _ clear_history-Keeps (
                    either (cmd == codes "session_stats") _ _ (stays st.world) (
                      either (cmd == codes "ai") _ _
                        (either (is_empty (get (codes "text") r)) _ _ (stays st.world)
                          (run_text-Keeps now later (get (codes "text") r)))
                        (either (cmd == codes "tool") _ _
                          (either (may_use host (session_of host st) (get (codes "tool") r)) _ _
                            (stays _) (stays st.world))
                          (stays st.world))))))))))

  -- Whatever line arrives on a connection in a safe state, the manager's index and its sessions
  -- still agree afterwards, the object that the connection holds is still to be found, and so is
  -- every session object that was there: no request of one client, a logout included, takes the
  -- session object away from another connection that holds it.
  pub process-Keeps :
      (now later : ℕ) (line : Text) → Keeps st.server (process host now later line st).1
  unfolding process Good
  process-Keeps now later line = elim (Result-cases (host.loads line)) [
    | inl (r, e) ↦ rw (e, process) (handle-Keeps now later r)
    | inr (error, e) ↦ rw (e, process) (same st.connection st.world refl)
  ]
