-- ===== src/Session/Manager/Listing.antt =====
-- `UserSession.to_dict` and `list_sessions` of bantu_os/core/session_manager.py.
use bantu_os.Prelude.{ℕ, ◌≡◌, Bool, List, map, length, refl, arith, [], ◌∷◌}
use bantu_os.Prelude.Text.{Text}
use bantu_os.Prelude.Dict.{Dict, values}
use bantu_os.Session.Manager.{UserSession, SessionManager, session_count}

-- The dict that stands for a session, with its permissions as fields.
pub record SessionDict : Type 0 where
  pub session_id : Text
  pub username : Text
  pub created_at : ℕ
  pub last_active : ℕ
  pub request_count : ℕ
  pub budget_spent : ℕ
  pub budget_max : ℕ
  pub admin : Bool
  pub file_delete : Bool
  pub process_run : Bool
  pub process_kill : Bool
  pub fintech : Bool
  pub crypto : Bool

unfoldable pub session_dict : UserSession → SessionDict
session_dict s = record {
  session_id = s.session_id;
  username = s.username;
  created_at = s.created_at;
  last_active = s.last_active;
  request_count = s.request_count;
  budget_spent = s.budget.spent;
  budget_max = s.budget.max_tokens_per_session;
  admin = s.permissions.admin;
  file_delete = s.permissions.file_delete;
  process_run = s.permissions.process_run;
  process_kill = s.permissions.process_kill;
  fintech = s.permissions.fintech;
  crypto = s.permissions.crypto;
}

unfoldable pub list_sessions : SessionManager → List SessionDict
list_sessions m = map session_dict (values m.sessions)

length-sessions : (d : Dict UserSession) → length (map session_dict (values d)) ≡ length d
unfolding values
length-sessions [] = refl
length-sessions ((k, s) ∷ d) = omega (arith, length-sessions d)

-- The list has as many entries as `session_count` says.
pub length-list_sessions : (m : SessionManager) → length (list_sessions m) ≡ session_count m
unfolding list_sessions session_count
length-list_sessions m = length-sessions m.sessions
