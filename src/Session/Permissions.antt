-- ===== src/Session/Permissions.antt =====
-- `ToolPermissions` of bantu_os/core/session_manager.py.
use bantu_os.Prelude.{
  ◌≡◌, Bool, true, false, List, [], ◌∷◌, ◌||◌, arith, Result, ok, err, if◌then◌else◌,
}
use bantu_os.Prelude.Text.{Text, codes, ◌==◌, eq_iff, starts_with, contains}

pub record ToolPermissions : Type 0 where
  pub file_read : Bool
  pub file_write : Bool
  pub file_delete : Bool
  pub process_run : Bool
  pub process_kill : Bool
  pub network_outbound : Bool
  pub messaging : Bool
  pub fintech : Bool
  pub crypto : Bool
  pub iot : Bool
  pub hardware : Bool
  pub admin : Bool

abbrev pub default_permissions : ToolPermissions
default_permissions = record {
  file_read = true;
  file_write = true;
  file_delete = false;
  process_run = false;
  process_kill = false;
  network_outbound = true;
  messaging = true;
  fintech = false;
  crypto = false;
  iot = false;
  hardware = false;
  admin = false;
}

-- The set `_dangerous`.
unfoldable pub is_dangerous : Text → Bool
is_dangerous tool =
    tool == codes "delete" || tool == codes "kill_process" || tool == codes "kill_pid"

-- `tool_to_flag`, in the order in which it is searched.
abbrev tool_to_flag : ToolPermissions → List (Text × Bool)
tool_to_flag p =
    (codes "file", p.file_read)
    ∷ (codes "process", p.process_run)
    ∷ (codes "network", p.network_outbound)
    ∷ (codes "messaging", p.messaging)
    ∷ (codes "fintech", p.fintech)
    ∷ (codes "crypto", p.crypto)
    ∷ (codes "iot", p.iot)
    ∷ (codes "hardware", p.hardware)
    ∷ []

-- The loop over `tool_to_flag.items()`.
first_prefix : Text → List (Text × Bool) → Bool
first_prefix tool [] = true
first_prefix tool ((prefix, allowed) ∷ rest) =
    if starts_with tool prefix then allowed else first_prefix tool rest

unfoldable pub can_use : Text → ToolPermissions → Bool
unfolding first_prefix is_dangerous
can_use tool p =
    if p.admin
    then true
    else if is_dangerous tool
    then (if contains (codes "delete") tool then p.file_delete else p.process_kill)
    else first_prefix tool (tool_to_flag p)

-- The permissions that `grant` and `revoke` know; `other` is any other text.
pub data Permission : Type 0 where
  file_delete process_run process_kill fintech crypto iot hardware admin other : Permission

-- The tests on `permission`, which are the same in `grant` and in `revoke`.
unfoldable pub permission_of : Text → Permission
permission_of name =
    if name == codes "file_delete"
    then Permission.file_delete
    else if name == codes "process_run"
    then Permission.process_run
    else if name == codes "process_kill"
    then Permission.process_kill
    else if name == codes "fintech"
    then Permission.fintech
    else if name == codes "crypto"
    then Permission.crypto
    else if name == codes "iot"
    then Permission.iot
    else if name == codes "hardware"
    then Permission.hardware
    else if name == codes "admin"
    then Permission.admin
    else Permission.other

grant_flag : Permission → ToolPermissions → Result (Unit {0}) ToolPermissions
grant_flag Permission.file_delete p = ok (record p { file_delete = true })
grant_flag Permission.process_run p = ok (record p { process_run = true })
grant_flag Permission.process_kill p = ok (record p { process_kill = true })
grant_flag Permission.fintech p = ok (record p { fintech = true })
grant_flag Permission.crypto p = ok (record p { crypto = true })
grant_flag Permission.iot p = ok (record p { iot = true })
grant_flag Permission.hardware p = ok (record p { hardware = true })
grant_flag Permission.admin p = ok (record p { admin = true })
grant_flag Permission.other p = err tt

-- `err` is the `ValueError` of an unknown permission.
unfoldable pub grant : Text → ToolPermissions → Result (Unit {0}) ToolPermissions
unfolding grant_flag
grant name p = grant_flag (permission_of name) p

revoke_flag : Permission → ToolPermissions → ToolPermissions
revoke_flag Permission.admin p = record p {
  admin = false;
  file_delete = false;
  process_run = false;
  process_kill = false;
  fintech = false;
  crypto = false;
  iot = false;
  hardware = false;
}
revoke_flag Permission.file_delete p = record p { file_delete = false }
revoke_flag Permission.process_run p = record p { process_run = false }
revoke_flag Permission.process_kill p = record p { process_kill = false }
revoke_flag Permission.fintech p = record p { fintech = false }
revoke_flag Permission.crypto p = record p { crypto = false }
revoke_flag Permission.iot p = record p { iot = false }
revoke_flag Permission.hardware p = record p { hardware = false }
revoke_flag Permission.other p = p

unfoldable pub revoke : Text → ToolPermissions → ToolPermissions
unfolding revoke_flag
revoke name p = revoke_flag (permission_of name) p

-- No permission of `p` is missing in `q`.
pub record Within (p q : ToolPermissions) : Type 0 where
  pub file_read : p.file_read ≡ true → q.file_read ≡ true
  pub file_delete : p.file_delete ≡ true → q.file_delete ≡ true
  pub process_run : p.process_run ≡ true → q.process_run ≡ true
  pub process_kill : p.process_kill ≡ true → q.process_kill ≡ true
  pub network_outbound : p.network_outbound ≡ true → q.network_outbound ≡ true
  pub messaging : p.messaging ≡ true → q.messaging ≡ true
  pub fintech : p.fintech ≡ true → q.fintech ≡ true
  pub crypto : p.crypto ≡ true → q.crypto ≡ true
  pub iot : p.iot ≡ true → q.iot ≡ true
  pub hardware : p.hardware ≡ true → q.hardware ≡ true
  pub admin : p.admin ≡ true → q.admin ≡ true

revoke_flag-Within : (r : Permission) (p : ToolPermissions) → Within (revoke_flag r p) p
unfolding revoke_flag
revoke_flag-Within Permission.admin p = ground arith
revoke_flag-Within _ p = ground arith

first_prefix_mono :
    (tool : Text) (p q : ToolPermissions)
    → Within p q
    → first_prefix tool (tool_to_flag p) ≡ true
    → first_prefix tool (tool_to_flag q) ≡ true
unfolding first_prefix
first_prefix_mono tool p q w h = ground arith

-- Permissions are monotone: with every flag of `p` set in `q` too, a tool that `p` may use is one
-- that `q` may use. So no revocation, of whatever name, makes a tool usable.
pub can_use_mono :
    (tool : Text) (p q : ToolPermissions)
    → Within p q
    → can_use tool p ≡ true
    → can_use tool q ≡ true
unfolding can_use
can_use_mono tool p q w h = ground (arith, first_prefix_mono tool p q w)

-- A tool that may be used after a revocation, of whatever name, could be used before it.
pub can_use-revoke :
    (name tool : Text) (p : ToolPermissions)
    → can_use tool (revoke name p) ≡ true
    → can_use tool p ≡ true
unfolding revoke
can_use-revoke name tool p h = can_use_mono tool _ p (revoke_flag-Within (permission_of name) p) h

not_dangerous : (tool : Text) → starts_with tool (codes "file") ≡ true → is_dangerous tool ≡ false
unfolding is_dangerous starts_with
not_dangerous tool h = ground (
  arith,
  eq_iff tool (codes "delete"),
  eq_iff tool (codes "kill_process"),
  eq_iff tool (codes "kill_pid"),
)

-- Without `admin`, a tool whose name begins with "file" is decided by `file_read` alone: neither
-- `file_write` nor `file_delete` is read, for "file_delete" and "file.write" as for "file.read".
pub can_use_file :
    (tool : Text) (p : ToolPermissions)
    → p.admin ≡ false
    → starts_with tool (codes "file") ≡ true
    → can_use tool p ≡ p.file_read
unfolding can_use
can_use_file tool p na h = ground (arith, not_dangerous tool h)

-- The three dangerous names need the flag of their own, or `admin`.
pub can_use_dangerous :
    (p : ToolPermissions)
    → (can_use (codes "delete") p ≡ (p.admin || p.file_delete))
      × (can_use (codes "kill_process") p ≡ (p.admin || p.process_kill))
      × (can_use (codes "kill_pid") p ≡ (p.admin || p.process_kill))
unfolding can_use ◌==◌ contains
can_use_dangerous p = ground arith

grant_flag-Within :
    (r : Permission) (p q : ToolPermissions)
    → grant_flag r p ≡ ok q
    → Within p q × Within (revoke_flag r q) p
unfolding grant_flag revoke_flag
grant_flag-Within Permission.admin p q h = ground arith
grant_flag-Within _ p q h = ground arith

-- A grant that succeeds takes no flag away, and revoking the same name afterwards leaves no flag
-- that was not set before the grant.
pub grant-Within :
    (name : Text) (p q : ToolPermissions)
    → grant name p ≡ ok q
    → Within p q × Within (revoke name q) p
unfolding grant revoke
grant-Within name p q h = grant_flag-Within (permission_of name) p q h
