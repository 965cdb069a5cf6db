-- ===== src/Server/Process/Keeps.antt =====
-- Every request keeps the manager's index and its sessions in agreement, and every session object
-- that a connection may hold.
use bantu_os.Prelude.{ℕ, ◌≡◌, inl, inr, true, some, arith, Option-cases, ok, is_some}
use bantu_os.Prelude.Text.{Text, eq_iff}
use bantu_os.Prelude.Dict.{lookup, lookup-insert}
use bantu_os.Session.Budget.{default_budget}
use bantu_os.Session.Permissions.{default_permissions}
use bantu_os.Session.Manager.{UserSession, create_session}
use bantu_os.Session.Manager.Consistent.{IsConsistent}
use bantu_os.Session.Manager.Operations.{destroy_session-IsConsistent}
use bantu_os.Session.Manager.Update.{
  update-IsConsistent, create_session-keeps, create_session-has, lookup-destroy_session,
}
use bantu_os.Server.State.{Server, State, find, replace, destroy}

-- The object of a session is to be found.
abbrev pub Held : Text → Server → Type 0
Held sid v = is_some (find sid v) ≡ true

-- The manager agrees with itself, and the object that the connection holds is to be found.
pub record IsSafe {W : Type 0} (st : State W) : Type 0 where
  pub consistent : IsConsistent st.server.manager
  pub held : (sid : Text) → st.connection.session_id ≡ some sid → Held sid st.server

-- What a request leaves: a safe state, in which every object that was there is there.
pub record Keeps {W : Type 0} (v : Server) (st : State W) : Type 0 where
  pub safe : IsSafe st
  pub kept : (sid : Text) → Held sid v → Held sid st.server

pub replace-IsConsistent :
    (sid : Text) (s s' : UserSession) (v : Server)
    → IsConsistent v.manager
    → find sid v ≡ some s
    → s'.username ≡ s.username
    → s'.session_id ≡ s.session_id
    → IsConsistent (replace sid s' v).manager
unfolding replace find
replace-IsConsistent sid s s' v c found user key =
    elim (Option-cases (lookup sid v.manager.sessions)) [
      | inl e ↦ rw (e, replace) c
      | inr (t, e) ↦
          let same : t ≡ s = ground arith in
          rw (e, replace) (update-IsConsistent sid t s' v.manager c e (ground arith) (ground arith))
    ]

pub replace-Held :
    (sid k : Text) (s' : UserSession) (v : Server) → Held k v → Held k (replace sid s' v)
unfolding replace find
replace-Held sid k s' v h = elim (Option-cases (lookup sid v.manager.sessions)) [
  | inl e ↦ rw (e, replace) (ground (arith, lookup-insert sid k s' v.orphans))
  | inr (t, e) ↦ rw (e, replace) (ground (arith, lookup-insert sid k s' v.manager.sessions))
]

pub destroy-Held : (sid k : Text) (v : Server) → Held k v → Held k (destroy sid v)
unfolding destroy find
destroy-Held sid k v h = elim (Option-cases (lookup sid v.manager.sessions)) [
  | inl e ↦ rw (e, destroy) h
  | inr (s, e) ↦
      rw (e, destroy)
        (ground (
          arith,
          lookup-destroy_session sid k v.manager,
          eq_iff sid k,
          lookup-insert sid k s v.orphans,
        ))
]

pub destroy-IsConsistent :
    (sid : Text) (v : Server) → IsConsistent v.manager → IsConsistent (destroy sid v).manager
unfolding destroy
destroy-IsConsistent sid v c = elim (Option-cases (lookup sid v.manager.sessions)) [
  | inl e ↦ rw (e, destroy) c
  | inr (s, e) ↦ rw (e, destroy) (destroy_session-IsConsistent sid v.manager c)
]

unfoldable pub created : ℕ → Text → Server → Server
created now u v = record v {
  manager = (create_session now u default_budget default_permissions v.manager).1;
}

pub create-Held : (now : ℕ) (u k : Text) (v : Server) → Held k v → Held k (created now u v)
unfolding created find
create-Held now u k v h =
    ground (arith, create_session-keeps now u k default_budget default_permissions v.manager)

pub create-Held-own :
    (now : ℕ) (u sid : Text) (v : Server)
    → (create_session now u default_budget default_permissions v.manager).0 ≡ ok sid
    → Held sid (created now u v)
unfolding created find
create-Held-own now u sid v e =
    ground (arith, create_session-has now u sid default_budget default_permissions v.manager)
