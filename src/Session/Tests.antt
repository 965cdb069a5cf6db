-- ===== src/Session/Tests.antt =====
-- Concrete runs of the session manager, of budgets and of permissions.
use bantu_os.Prelude.{ℕ, true, none, ok}
use bantu_os.Prelude.Text.{Text, codes}
use bantu_os.Session.Budget.{TokenBudget, default_budget}
use bantu_os.Session.Permissions.{ToolPermissions, default_permissions}
use bantu_os.Session.Manager.{
  UserSession, Backend, SessionManager, init, session_id_of, new_session, create_session,
}
use bantu_os.Session.Manager.Consistent.{IsConsistent, init-IsConsistent}
use bantu_os.Session.Manager.Operations.{create_session-IsConsistent}

abbrev alice : Text
alice = codes "alice"

abbrev bob : Text
bob = codes "bob"

abbrev session : UserSession
session = new_session 5 alice default_budget default_permissions

abbrev session_key : Text
session_key = session_id_of alice 5

-- Alice has a session.
abbrev one_user : SessionManager
one_user = (create_session 5 alice default_budget default_permissions init).1

one_user-IsConsistent : IsConsistent one_user
one_user-IsConsistent =
    create_session-IsConsistent 5 alice default_budget default_permissions init init-IsConsistent

abbrev backend : Backend
backend = record { recall = none; reply = λ prompt memory. ok (codes "done") }

abbrev with_admin : ToolPermissions
with_admin = record default_permissions { admin = true }

create_session-IsConsistent_example :
    let now : ℕ = 6 in
    let u : Text = bob in
    let b : TokenBudget = default_budget in
    let p : ToolPermissions = default_permissions in
    let m : SessionManager = one_user in IsConsistent (create_session now u b p m).1
create_session-IsConsistent_example =
    create_session-IsConsistent 6 bob default_budget default_permissions one_user
      one_user-IsConsistent
