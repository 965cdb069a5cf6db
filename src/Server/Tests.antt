-- ===== src/Server/Tests.antt =====
-- Concrete runs of the socket server.
use bantu_os.Prelude.{
  ℕ, ◌+◌, ◌≡◌, ◌⊎◌, refl, true, false, Option, none, some, List, [], ◌∷◌, ◌++◌, ok, arith,
  if◌then◌else◌,
}
use bantu_os.Prelude.Text.{Text, codes, concat, starts_with, ◌==◌}
use bantu_os.Prelude.Dict.{lookup, insert}
use bantu_os.Session.Budget.{TokenBudget, default_budget}
use bantu_os.Session.Permissions.{default_permissions, can_use}
use bantu_os.Session.Manager.{
  UserSession, Backend, SessionManager, init, session_id_of, new_session, create_session, existing,
}
use bantu_os.Session.Manager.Consistent.{init-IsConsistent}
use bantu_os.Session.Manager.Operations.{create_session-IsConsistent}
use bantu_os.Server.Framing.{received}
use bantu_os.Server.Framing.Chunks.{split_all, tidy, sent, received-eq-split_all, received-sent}
use bantu_os.Server.Tools.{Tool, Toolbox, sandbox_base}
use bantu_os.Server.State.{Request, State, Host, find, get}
use bantu_os.Server.Process.{session_of, process, tool}
use bantu_os.Server.Process.Keeps.{IsSafe, Keeps, Held}
use bantu_os.Server.Process.Requests.{process-Keeps}
use bantu_os.Server.Process.Access.{tool-Contained}
use bantu_os.Server.Process.Confirm.{ask, settle, first_answer, handle_all, requests}
use mathlib.Core.Path.{subst}
use bantu_os.Prelude.Decimal.{decimal}
use bantu_os.Server.Process.Confirm.Answers.{settle-first_answer}

abbrev alice : Text
alice = codes "alice"

abbrev key : Text
key = session_id_of alice 5

-- A budget that the next request exhausts; its last warning was just now.
abbrev small_budget : TokenBudget
small_budget = record default_budget { max_tokens_per_session = 1; last_warning_at = 5 }

abbrev manager : SessionManager
manager = (create_session 5 alice small_budget default_permissions init).1

abbrev session : UserSession
session = new_session 5 alice small_budget default_permissions

-- A tool that counts its calls, and one that a sandbox would be.
abbrev counter : Tool ℕ ℕ
counter = record { has_method = λ name. true; call = λ name args w. (ok name, w + args) }

abbrev confined : Tool ℕ ℕ
confined = record { has_method = λ name. true; call = λ name args w. (ok name, w + 100) }

abbrev toolbox : Toolbox ℕ ℕ
toolbox = record {
  tools = (codes "file", counter) ∷ (codes "process", counter) ∷ [];
  sandboxed = λ path. confined;
  join = λ base name. base ++ codes "/" ++ name;
}

abbrev backend : Backend
backend = record { recall = none; reply = λ prompt memory. ok (codes "done") }

-- Every line is read as a request to log out.
abbrev host : Host ℕ ℕ Text
host = record {
  loads =
      λ line. ok (record { fields = (codes "cmd", codes "logout") ∷ []; stream = false; args = 1 });
  backend = λ sid w. backend;
  after_run = λ sid text w. w;
  process_input = λ text w. (ok text, w);
  clear_memory = λ sid w. w;
  receive = λ text sid w. (ok text, w);
  receive_streaming = λ text sid w. (text ∷ [], none, w);
  toolbox = toolbox;
}

abbrev state : State ℕ
state = record {
  connection = record { session_id = some key; pending = [] };
  server = record { manager = manager; orphans = [] };
  world = 0;
}

abbrev guest : State ℕ
guest = record state { connection = record { session_id = none; pending = [] } }

IsNamed : Option Text → Type 0
IsNamed none = Unit
IsNamed (some sid) = Held sid state.server

key-Held : IsNamed (some key)
unfolding IsNamed find lookup create_session existing insert ◌==◌ session_id_of decimal
key-Held = refl

state-IsSafe : IsSafe state
unfolding IsNamed
state-IsSafe = record {
  consistent =
      create_session-IsConsistent 5 alice small_budget default_permissions init init-IsConsistent;
  held = λ sid at. subst (λ o. IsNamed o) at key-Held;
}

abbrev file_request : Request ℕ
file_request = record {
  fields = (codes "tool", codes "file") ∷ (codes "method", codes "delete") ∷ [];
  stream = false;
  args = 7;
}

abbrev run_request : Request ℕ
run_request = record file_request {
  fields = (codes "tool", codes "process") ∷ (codes "method", codes "run") ∷ [];
}

abbrev ask_request : Request ℕ
ask_request = record file_request { fields = (codes "text", codes "hello") ∷ [] }

abbrev login_request : Request ℕ
login_request = record file_request { fields = (codes "username", codes " alice ") ∷ [] }

abbrev yes : Request ℕ
yes = record file_request {
  fields =
      (codes "cmd", codes "confirm")
      ∷ (codes "step_id", codes "s1")
      ∷ (codes "decision", codes "YES")
      ∷ [];
}

received-eq-split_all_example :
    let decode : Text → Text = λ s. s in
    let chunks : List Text = codes "a" ∷ (98 ∷ 10 ∷ 99 ∷ []) ∷ [] in
    received decode chunks []
    ≡ (tidy decode (split_all (concat chunks)).0, (split_all (concat chunks)).1)
received-eq-split_all_example =
    received-eq-split_all (λ s. s) (codes "a" ∷ (98 ∷ 10 ∷ 99 ∷ []) ∷ [])

received-sent_example :
    let decode : Text → Text = λ s. s in
    let lines : List Text = codes "ab" ∷ codes "c" ∷ [] in
    let chunks : List Text = codes "a" ∷ (98 ∷ 10 ∷ 99 ∷ 10 ∷ []) ∷ [] in
    received decode chunks [] ≡ (tidy decode lines, [])
unfolding concat sent
received-sent_example =
    received-sent (λ s. s) (codes "ab" ∷ codes "c" ∷ []) (codes "a" ∷ (98 ∷ 10 ∷ 99 ∷ 10 ∷ []) ∷ [])
      (ground arith) refl

process-Keeps_example :
    let st : State ℕ = state in
    let now : ℕ = 6 in
    let later : ℕ = 7 in
    let line : Text = codes "{}" in Keeps st.server (process host now later line st).1
process-Keeps_example = process-Keeps host state state-IsSafe 6 7 (codes "{}")

tool-Contained_example :
    let r : Request ℕ = file_request in
    let st : State ℕ = state in
    let s : UserSession = session in
    ((tool host r st).1 ≡ st)
    ⊎ ((can_use (get (codes "tool") r) s.permissions ≡ true)
        × (t : Tool ℕ ℕ) × (lookup (get (codes "tool") r) host.toolbox.tools ≡ some t)
        × ((tool host r st).1 ≡ record st {
          world =
              ((if get (codes "tool") r == codes "file"
                  then host.toolbox.sandboxed (host.toolbox.join sandbox_base s.username)
                  else t).call
                (get (codes "method") r)
                r.args
                st.world).1;
        }))
unfolding session_of find lookup create_session existing can_use get insert ◌==◌ session_id_of
    decimal starts_with
tool-Contained_example = tool-Contained host file_request state session refl

settle-first_answer_example :
    let step_id : Text = codes "s1" in
    let rs : List (ℕ × ℕ × Request ℕ) = (6, 6, ask_request) ∷ (7, 7, yes) ∷ [] in
    let st : State ℕ = guest in
    let asked = record st { connection = ask step_id st.connection } in
    let (decision, c) = settle step_id (handle_all host rs asked).connection in
    (decision ≡ first_answer step_id (requests rs)) × (lookup step_id c.pending ≡ none)
settle-first_answer_example =
    settle-first_answer host (codes "s1") ((6, 6, ask_request) ∷ (7, 7, yes) ∷ []) guest
