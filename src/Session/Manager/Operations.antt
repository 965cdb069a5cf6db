-- ===== src/Session/Manager/Operations.antt =====
-- Every operation of `SessionManager` keeps the index and the sessions in agreement.
use bantu_os.Prelude.{
  ℕ, ◌≡◌, refl, inl, inr, none, some, arith, length, leb, Option-cases, Bool-cases,
}
use bantu_os.Prelude.Text.{Text}
use bantu_os.Prelude.Dict.{lookup}
use bantu_os.Session.Budget.{TokenBudget}
use bantu_os.Session.Permissions.{ToolPermissions}
use bantu_os.Session.Manager.{
  SessionManager, max_sessions, session_id_of, existing, new_session, create_session, drop_session,
  destroy_session, destroy_user,
}
use bantu_os.Session.Manager.Consistent.{
  IsConsistent, fresh_key, add_session-IsConsistent, drop_session-IsConsistent,
}

pub existing-none :
    (u : Text) (m : SessionManager)
    → IsConsistent m
    → existing u m ≡ none
    → lookup u m.username_index ≡ none
unfolding existing
existing-none u m c h = elim (Option-cases (lookup u m.username_index)) [
  | inl e ↦ e
  | inr (sid, e) ↦ absurd (ground (arith, (c.indexed u sid e).1))
]

-- Creating a session in a consistent manager keeps the index and the sessions in agreement,
-- whether it makes one, finds one or refuses: the keys it makes never collide with those of other
-- users, and the number of sessions stays within the limit.
pub create_session-IsConsistent :
    (now : ℕ) (u : Text) (b : TokenBudget) (p : ToolPermissions) (m : SessionManager)
    → IsConsistent m
    → IsConsistent (create_session now u b p m).1
unfolding create_session
create_session-IsConsistent now u b p m c =
    elim (Bool-cases (leb max_sessions (length m.sessions))) [
      | inl full ↦ rw full c
      | inr room ↦ rw room (elim (Option-cases (existing u m)) [
        | inr (sid, e) ↦ rw e c
        | inl e ↦ rw e (
            let none_u = existing-none u m c e in
            add_session-IsConsistent now (session_id_of u now) (new_session now u b p) m c none_u
              (fresh_key now u m c none_u) refl refl (ground arith))
      ])
    ]

pub destroy_session-IsConsistent :
    (sid : Text) (m : SessionManager) → IsConsistent m → IsConsistent (destroy_session sid m)
unfolding destroy_session
destroy_session-IsConsistent sid m c = elim (Option-cases (lookup sid m.sessions)) [
  | inl e ↦ rw (e, destroy_session) c
  | inr (s, e) ↦ rw (e, destroy_session) (drop_session-IsConsistent sid s m c e)
]

-- In a consistent manager, destroying a user is destroying the user's session.
pub destroy_user-eq-destroy_session :
    (u sid : Text) (m : SessionManager)
    → IsConsistent m
    → lookup u m.username_index ≡ some sid
    → destroy_user u m ≡ destroy_session sid m
unfolding destroy_user destroy_session drop_session
destroy_user-eq-destroy_session u sid m c e =
    let own = c.indexed u sid e in ground (arith, own.1, own.2)

pub destroy_user-IsConsistent :
    (u : Text) (m : SessionManager) → IsConsistent m → IsConsistent (destroy_user u m)
unfolding destroy_user
destroy_user-IsConsistent u m c = elim (Option-cases (lookup u m.username_index)) [
  | inl e ↦ rw (e, destroy_user) c
  | inr (sid, e) ↦
      rw (destroy_user-eq-destroy_session u sid m c e) (destroy_session-IsConsistent sid m c)
]
