-- ===== src/Session/Manager.antt =====
-- `UserSession` and `SessionManager` of bantu_os/core/session_manager.py. A session is handed out by
-- its key in the manager's dict; each method runs under the lock, so as one step.
pub mod Consistent
pub mod Operations
pub mod Isolation
pub mod Stale
pub mod Update
pub mod Listing
use bantu_os.Prelude.{
  ℕ, ◌+◌, ◌/◌, ◌≡◌, Bool, true, false, Option, none, some, List, [], ◌∷◌, ◌++◌, arith, ltb, leb,
  length, Result, ok, err, is_some, if◌then◌else◌,
}
use bantu_os.Prelude.Text.{Text, codes}
use bantu_os.Prelude.Decimal.{decimal}
use bantu_os.Prelude.Dict.{Dict, lookup, has_key, insert, erase, values}
use bantu_os.Session.Budget.{
  TokenBudget, default_budget, BudgetError, budget_exceeded, zero_division, record_tokens,
}
use bantu_os.Session.Permissions.{ToolPermissions, default_permissions}

pub record UserSession : Type 0 where
  pub session_id : Text
  pub username : Text
  pub created_at : ℕ
  pub last_active : ℕ
  pub request_count : ℕ
  pub budget : TokenBudget
  pub permissions : ToolPermissions

-- What a session reads of its kernel and of its memory: `recall` is the texts of the results of
-- `retrieve_memory`, `none` where the session has no memory; `reply` gets the memory's message.
pub record Backend : Type 0 where
  pub recall : Option (Text → Result Text (List Text))
  pub reply : Text → Option Text → Result Text Text

-- What leaves `run` by an exception: one of the kernel, or of the budget.
pub data RunError : Type 0 where
  kernel_error : Text → RunError
  budget_error : BudgetError → RunError

-- `"\n".join(f"- {s}" for s in snippets)`
join_snippets : List Text → Text
join_snippets [] = []
join_snippets (s ∷ []) = codes "- " ++ s
join_snippets (s ∷ t ∷ rest) = (codes "- " ++ s) ++ 10 ∷ join_snippets (t ∷ rest)

-- The texts that are not empty.
snippets_of : List Text → List Text
snippets_of [] = []
snippets_of ([] ∷ rest) = snippets_of rest
snippets_of ((c ∷ s) ∷ rest) = (c ∷ s) ∷ snippets_of rest

context_of : List Text → Option Text
unfolding join_snippets
context_of [] = none
context_of (s ∷ rest) =
    some (codes "Relevant context from memory:" ++ 10 ∷ join_snippets (s ∷ rest))

-- An exception of the memory is passed over.
recalled : Result Text (List Text) → Option Text
unfolding context_of snippets_of
recalled (ok texts) = context_of (snippets_of texts)
recalled (err e) = none

unfoldable pub memory_context : Backend → Text → Option Text
unfolding recalled
memory_context k text = elim k.recall [ none ↦ none | some retrieve ↦ recalled (retrieve text) ]

unfoldable pub touch : ℕ → UserSession → UserSession
touch now s = record s { last_active = now }

abbrev pub exhausted : Text
exhausted = codes "[Session budget exhausted. Ask the user to reset or increase the budget.]"

-- The inner `try` around `self.budget.record`.
reply_of : Text → Result BudgetError Bool → Result RunError Text
reply_of result (ok b) = ok result
reply_of result (err budget_exceeded) = ok exhausted
reply_of result (err zero_division) = err (budget_error zero_division)

charge : ℕ → Text → UserSession → Result Text Text → Result RunError Text × UserSession
unfolding reply_of
charge now text s (err e) = (err (kernel_error e), s)
charge now text s (ok result) =
    let (r, b) = record_tokens now ((length text + length result) / 4) s.budget in
    (reply_of result r, record s { budget = b })

-- `now` is the time of the call, `later` that of the budget's record.
unfoldable pub run : Backend → ℕ → ℕ → Text → UserSession → Result RunError Text × UserSession
unfolding touch charge
run k now later text s =
    let s' = record (touch now s) { request_count = s.request_count + 1 } in
    charge later text s' (k.reply text (memory_context k text))

pub record SessionManager : Type 0 where
  pub sessions : Dict UserSession
  pub username_index : Dict Text

abbrev pub init : SessionManager
init = record { sessions = []; username_index = [] }

pub data SessionError : Type 0 where
  limit_reached not_found key_error : SessionError

abbrev pub max_sessions : ℕ
max_sessions = 64

-- 3600 seconds.
abbrev pub session_ttl : ℕ
session_ttl = 3600000

-- `f"sess_{username}_{int(time.time() * 1000)}"`
unfoldable pub session_id_of : Text → ℕ → Text
session_id_of username now = codes "sess_" ++ (username ++ (codes "_" ++ decimal now))

unfoldable pub new_session : ℕ → Text → TokenBudget → ToolPermissions → UserSession
new_session now username budget permissions = record {
  session_id = session_id_of username now;
  username = username;
  created_at = now;
  last_active = now;
  request_count = 0;
  budget = budget;
  permissions = permissions;
}

pub add_session : Text → UserSession → SessionManager → SessionManager
add_session sid session m = record {
  sessions = insert sid session m.sessions;
  username_index = insert session.username sid m.username_index;
}

-- The session that the index names for a user, if the dict still has it.
unfoldable pub existing : Text → SessionManager → Option Text
existing username m = elim (lookup username m.username_index) [
  | none ↦ none
  | some sid ↦ if has_key sid m.sessions then some sid else none
]

-- The budget and the permissions are those given, or the defaults.
unfoldable pub create_session :
    ℕ
    → Text
    → TokenBudget
    → ToolPermissions
    → SessionManager
    → Result SessionError Text × SessionManager
unfolding add_session new_session
create_session now username budget permissions m =
    if leb max_sessions (length m.sessions)
    then (err limit_reached, m)
    else elim (existing username m) [
      | some sid ↦ (ok sid, m)
      | none ↦
          let sid = session_id_of username now in
          (ok sid, add_session sid (new_session now username budget permissions) m)
    ]

unfoldable pub get_session : Text → SessionManager → Result SessionError UserSession
get_session sid m = elim (lookup sid m.sessions) [ none ↦ err not_found | some s ↦ ok s ]

-- `key_error` is the `KeyError` of an index that names no session.
unfoldable pub get_session_by_username : Text → SessionManager → Result SessionError UserSession
get_session_by_username username m = elim (lookup username m.username_index) [
  | none ↦ err not_found
  | some sid ↦ elim (lookup sid m.sessions) [ none ↦ err key_error | some s ↦ ok s ]
]

pub drop_session : Text → UserSession → SessionManager → SessionManager
drop_session sid s m = record {
  sessions = erase sid m.sessions;
  username_index = erase s.username m.username_index;
}

unfoldable pub destroy_session : Text → SessionManager → SessionManager
unfolding drop_session
destroy_session sid m = elim (lookup sid m.sessions) [ none ↦ m | some s ↦ drop_session sid s m ]

unfoldable pub destroy_user : Text → SessionManager → SessionManager
destroy_user username m = elim (lookup username m.username_index) [
  | none ↦ m
  | some sid ↦ record {
    sessions = erase sid m.sessions;
    username_index = erase username m.username_index;
  }
]

-- `s.last_active < cutoff`
abbrev pub is_stale : ℕ → UserSession → Bool
is_stale now s = ltb (s.last_active + session_ttl) now

-- The keys of the stale sessions, in the order of the dict.
unfoldable pub stale_ids : ℕ → Dict UserSession → List Text
stale_ids now [] = []
stale_ids now ((sid, s) ∷ rest) =
    let more = stale_ids now rest in if is_stale now s then sid ∷ more else more

-- `key_error` is the `KeyError` of `self._sessions.pop(sid)` on a missing key.
unfoldable pub drop_all : List Text → ℕ → SessionManager → Result SessionError ℕ × SessionManager
unfolding drop_session
drop_all [] removed m = (ok removed, m)
drop_all (sid ∷ rest) removed m = elim (lookup sid m.sessions) [
  | none ↦ (err key_error, m)
  | some s ↦ drop_all rest (removed + 1) (drop_session sid s m)
]

unfoldable pub cleanup_stale : ℕ → SessionManager → Result SessionError ℕ × SessionManager
cleanup_stale now m = drop_all (stale_ids now m.sessions) 0 m

unfoldable pub session_count : SessionManager → ℕ
session_count m = length m.sessions
