-- ===== src/Server/Process.antt =====
-- `_process` of ShellProtocol in bantu_os/core/socket_server.py: one request of one connection. A
-- request that awaits nothing but its own answer is one step.
pub mod Keeps
pub mod Requests
pub mod Access
pub mod Budgets
pub mod Confirm
use bantu_os.Prelude.{
  ℕ, ◌+◌, ◌≡◌, Bool, true, false, Option, none, some, List, [], ◌∷◌, ◌++◌, not, arith, ltb, length,
  filter, Result, ok, err, is_some, if◌then◌else◌, map,
}
use bantu_os.Prelude.Text.{Text, codes, concat, lower, ◌==◌}
use bantu_os.Prelude.Decimal.{decimal}
use bantu_os.Prelude.Dict.{Dict, lookup, has_key, insert}
use bantu_os.Auth.Names.{strip}
use bantu_os.Session.Budget.{default_budget, budget_exceeded}
use bantu_os.Session.Permissions.{default_permissions, can_use}
use bantu_os.Session.Manager.{
  UserSession, Backend, RunError, kernel_error, budget_error, SessionError, SessionManager, run,
  create_session, destroy_session,
}
use bantu_os.Session.Manager.Listing.{SessionDict, list_sessions}
use bantu_os.Server.Tools.{Toolbox, execute_tool}
use bantu_os.Server.State.{
  Request, Reply, Connection, State, Host, find, replace, destroy, get, is_empty, success, failure,
  logged_in, identity, stats, frame,
}

-- `str` of a `SessionError` of `create_session`.
session_error_text : SessionError → Text
session_error_text SessionError.limit_reached = codes "Session limit reached (64)."
session_error_text SessionError.not_found = codes "No session"
session_error_text SessionError.key_error = codes "'session'"

abbrev pub exhausted_error : Text
exhausted_error = codes "Session token budget exhausted. Login again to reset."

abbrev line_feed : Text
line_feed = 10 ∷ []

module _ {W Args Frame : Type 0} (host : Host W Args Frame) where
  -- The object behind `self._session`.
  unfoldable pub session_of : State W → Option UserSession
  unfolding find
  session_of st = elim st.connection.session_id [ none ↦ none | some sid ↦ find sid st.server ]

  unfoldable pub confirm : Request Args → State W → List (Reply Frame) × State W
  unfolding get
  confirm r st =
      let step_id = get (codes "step_id") r in
      let decision = lower (get (codes "decision") r) in
      let c = st.connection in
      elim (lookup step_id c.pending) [
        | some none ↦
            let answer = if is_empty decision then codes "skip" else decision in
            (
              success (codes "confirmation received") ∷ [],
              record st {
                connection = record c { pending = insert step_id (some answer) c.pending };
              },
            )
        | _ ↦ (failure (codes "No pending confirmation for " ++ step_id) ∷ [], st)
      ]

  frames_then : List Frame → Option Text → List (Reply Frame)
  frames_then frames none = map frame frames
  frames_then frames (some e) = map frame frames ++ failure e ∷ []

  received_reply : Result Text Frame → Reply Frame
  received_reply (ok f) = frame f
  received_reply (err e) = failure e

  unfoldable pub intent : Request Args → State W → List (Reply Frame) × State W
  unfolding get frames_then received_reply
  intent r st =
      let text = get (codes "text") r in
      let sid = st.connection.session_id in
      let (frames, error, streamed) = host.receive_streaming text sid st.world in
      let (response, received) = host.receive text sid st.world in
      if is_empty text
      then (failure (codes "text is required") ∷ [], st)
      else if r.stream
      then (frames_then frames error, record st { world = streamed })
      else (received_reply response ∷ [], record st { world = received })

  login_reply : Text → Result SessionError Text → Reply Frame
  unfolding session_error_text
  login_reply username (err e) = failure (session_error_text e)
  login_reply username (ok sid) =
      logged_in
        (concat (codes "Logged in as " ∷ username ∷ codes " (session: " ∷ sid ∷ codes ")" ∷ [])) sid

  logged : Connection → Result SessionError Text → Connection
  logged c (err e) = c
  logged c (ok sid) = record c { session_id = some sid }

  unfoldable pub login : ℕ → Request Args → State W → List (Reply Frame) × State W
  unfolding get login_reply logged
  login now r st =
      let username = strip (get (codes "username") r) in
      let (made, m) =
        create_session now username default_budget default_permissions st.server.manager in
      if is_empty username then (failure (codes "username is required") ∷ [], st) else (
        login_reply username made ∷ [],
        record st {
          connection = logged st.connection made;
          server = record st.server { manager = m };
        },
      )

  unfoldable pub logout : State W → List (Reply Frame) × State W
  unfolding destroy
  logout st = (
    success (codes "Logged out.") ∷ [],
    record st {
      connection = record st.connection { session_id = none };
      server = elim st.connection.session_id [
        | none ↦ st.server
        | some sid ↦ destroy sid st.server
      ];
    },
  )

  unfoldable pub whoami : State W → List (Reply Frame) × State W
  unfolding session_of
  whoami st = elim (session_of st) [
    | none ↦ (identity (codes "Guest (not logged in)") none ∷ [], st)
    | some s ↦
        let text = concat (
          codes "User: "
          ∷ s.username
          ∷ line_feed
          ∷ codes "Session: "
          ∷ s.session_id
          ∷ line_feed
          ∷ codes "Requests: "
          ∷ decimal s.request_count
          ∷ line_feed
          ∷ codes "Budget: "
          ∷ decimal s.budget.spent
          ∷ codes "/"
          ∷ decimal s.budget.max_tokens_per_session
          ∷ codes " tokens"
          ∷ []) in
        (identity text (some (s.session_id, s.username)) ∷ [], st)
  ]

  unfoldable pub clear_history : State W → List (Reply Frame) × State W
  clear_history st = (
    success (codes "Conversation history cleared.") ∷ [],
    elim st.connection.session_id [
      | none ↦ st
      | some sid ↦ record st { world = host.clear_memory sid st.world }
    ],
  )

  sample : List SessionDict → Text
  sample [] = codes "none"
  sample (s ∷ rest) = s.username

  -- `time.time() - s["last_active"] < 300`
  abbrev pub is_active : ℕ → SessionDict → Bool
  is_active now s = ltb now (s.last_active + 300000)

  unfoldable pub session_stats : ℕ → State W → List (Reply Frame) × State W
  unfolding sample
  session_stats now st =
      let all_stats = list_sessions st.server.manager in
      let active = filter (is_active now) all_stats in
      let text = concat (
        codes "Total sessions: "
        ∷ decimal (length all_stats)
        ∷ line_feed
        ∷ codes "Active (5m): "
        ∷ decimal (length active)
        ∷ line_feed
        ∷ codes "Sample: "
        ∷ sample all_stats
        ∷ []) in
      (stats text all_stats ∷ [], st)

  guest_reply : Result Text Text → Reply Frame
  guest_reply (ok result) = success result
  guest_reply (err e) = failure e

  -- The handlers of `BudgetExceededError` and of other exceptions.
  ai_reply : Result RunError Text → Reply Frame
  ai_reply (ok result) = success result
  ai_reply (err (kernel_error e)) = failure e
  ai_reply (err (budget_error budget_exceeded)) = failure exhausted_error
  ai_reply (err (budget_error _)) = failure (codes "division by zero")

  run_session : ℕ → ℕ → Text → Text → UserSession → State W → List (Reply Frame) × State W
  unfolding replace ai_reply
  run_session now later text sid s st =
      let (result, s') = run (host.backend sid st.world) now later text s in
      (
        ai_reply result ∷ [],
        record st { server = replace sid s' st.server; world = host.after_run sid text st.world },
      )

  run_guest : Text → State W → List (Reply Frame) × State W
  unfolding guest_reply
  run_guest text st =
      let (result, w) = host.process_input text st.world in
      (guest_reply result ∷ [], record st { world = w })

  run_text : ℕ → ℕ → Text → State W → List (Reply Frame) × State W
  unfolding run_session run_guest find
  run_text now later text st = elim st.connection.session_id [
    | none ↦ run_guest text st
    | some sid ↦ elim (find sid st.server) [
      | none ↦ run_guest text st
      | some s ↦ run_session now later text sid s st
    ]
  ]

  -- `now` and `later` are the times that the session's run reads.
  unfoldable pub ai : ℕ → ℕ → Request Args → State W → List (Reply Frame) × State W
  unfolding get run_text
  ai now later r st =
      let text = get (codes "text") r in
      let ran = run_text now later text st in
      if is_empty text then (failure (codes "text is required") ∷ [], st) else ran

  tool_reply : Result Text Text → Reply Frame
  tool_reply (ok result) = success result
  tool_reply (err e) = failure e

  abbrev pub may_use : Option UserSession → Text → Bool
  may_use none name = true
  may_use (some s) name = can_use name s.permissions

  unfoldable pub tool : Request Args → State W → List (Reply Frame) × State W
  unfolding get tool_reply session_of
  tool r st =
      let name = get (codes "tool") r in
      let session = session_of st in
      let (result, w) =
        execute_tool host.toolbox session name (get (codes "method") r) r.args st.world in
      if may_use session name
      then (tool_reply result ∷ [], record st { world = w })
      else (failure (codes "Permission denied for tool: " ++ name) ∷ [], st)

  unfoldable pub handle : ℕ → ℕ → Request Args → State W → List (Reply Frame) × State W
  unfolding get
  handle now later r st =
      let cmd = get (codes "cmd") r in
      if cmd == codes "ping"
      then (success (codes "pong") ∷ [], st)
      else if cmd == codes "confirm"
      then confirm r st
      else if cmd == codes "intent"
      then intent r st
      else if cmd == codes "login"
      then login now r st
      else if cmd == codes "logout"
      then logout st
      else if cmd == codes "whoami"
      then whoami st
      else if cmd == codes "clear_history"
      then clear_history st
      else if cmd == codes "session_stats"
      then session_stats now st
      else if cmd == codes "ai"
      then ai now later r st
      else if cmd == codes "tool"
      then tool r st
      else (failure (codes "Unknown cmd: " ++ cmd) ∷ [], st)

  unfoldable pub process : ℕ → ℕ → Text → State W → List (Reply Frame) × State W
  process now later line st = elim (host.loads line) [
    | err e ↦ (failure (codes "Invalid JSON: " ++ e) ∷ [], st)
    | ok r ↦ handle now later r st
  ]
