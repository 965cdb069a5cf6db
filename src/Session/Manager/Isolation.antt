-- ===== src/Session/Manager/Isolation.antt =====
-- What a session's user sees: creation and lookup agree, and sessions do not disturb one another.
use bantu_os.Prelude.{
  ℕ, ◌+◌, ◌/◌, ◌≡◌, ◌≢◌, ◌⊎◌, inl, inr, refl, true, false, some, Result, ok, err, arith, length,
  leb, Option-cases,
}
use bantu_os.Prelude.Text.{Text, eq_iff, eq_refl}
use bantu_os.Prelude.Dict.{lookup, lookup-insert, lookup-erase}
use bantu_os.Session.Budget.{TokenBudget, record_tokens}
use bantu_os.Session.Permissions.{ToolPermissions}
use bantu_os.Session.Manager.{
  UserSession, SessionManager, limit_reached, not_found, max_sessions, session_id_of, existing,
  create_session, get_session, get_session_by_username, destroy_session, new_session, Backend,
  memory_context, run, drop_session,
}
use bantu_os.Session.Manager.Consistent.{IsConsistent}

-- In a consistent manager, looking up a user finds a session of that user, or there is none: it
-- never fails on an index that names a missing session.
pub get_session_by_username-cases :
    (u : Text) (m : SessionManager)
    → IsConsistent m
    → (get_session_by_username u m ≡ err not_found)
      ⊎ ((s : UserSession) × (get_session_by_username u m ≡ ok s)
          × (s.username ≡ u)
          × (get_session s.session_id m ≡ ok s))
unfolding get_session_by_username get_session
get_session_by_username-cases u m c = elim (Option-cases (lookup u m.username_index)) [
  | inl e ↦ inl (ground arith)
  | inr (sid, e) ↦
      let own = c.indexed u sid e in
      let mine = c.owned sid own.0 own.1 in
      inr (own.0, ground (arith, own.1), own.2, ground (arith, own.1, mine.1))
]

existing-some :
    (u sid : Text) (m : SessionManager)
    → existing u m ≡ some sid
    → lookup u m.username_index ≡ some sid
unfolding existing
existing-some u sid m h = ground arith

-- In a consistent manager below the limit, creating a session for a user gives a key under which
-- the user's session is found, by key and by name, and leaves every other key as it was.
pub create_session-finds :
    (now : ℕ) (u : Text) (b : TokenBudget) (p : ToolPermissions) (m : SessionManager)
    → IsConsistent m
    → leb max_sessions (length m.sessions) ≡ false
    → (sid : Text) × (s : UserSession) × ((create_session now u b p m).0 ≡ ok sid)
      × (s.username ≡ u)
      × (get_session sid (create_session now u b p m).1 ≡ ok s)
      × (get_session_by_username u (create_session now u b p m).1 ≡ ok s)
      × ((k : Text) → k ≢ sid → get_session k (create_session now u b p m).1 ≡ get_session k m)
unfolding create_session get_session get_session_by_username existing
create_session-finds now u b p m c room = elim (Option-cases (existing u m)) [
  | inr (sid, e) ↦
      let own = c.indexed u sid (existing-some u sid m e) in
      (
        sid,
        own.0,
        ground arith,
        own.2,
        ground (arith, own.1),
        ground (arith, own.1, existing-some u sid m e),
        λ k ne. ground arith,
      )
  | inl e ↦
      let sid = session_id_of u now in
      (
        sid,
        new_session now u b p,
        ground arith,
        refl,
        ground (arith, lookup-insert sid sid (new_session now u b p) m.sessions, eq_refl sid),
        ground (
          arith,
          lookup-insert sid sid (new_session now u b p) m.sessions,
          lookup-insert u u sid m.username_index,
          eq_refl sid,
          eq_refl u,
        ),
        λ k ne.
            ground (arith, lookup-insert sid k (new_session now u b p) m.sessions, eq_iff sid k),
      )
]

-- At the limit no session is handed out, not even one that the user has already, and nothing
-- changes.
pub create_session_full :
    (now : ℕ) (u : Text) (b : TokenBudget) (p : ToolPermissions) (m : SessionManager)
    → leb max_sessions (length m.sessions) ≡ true
    → create_session now u b p m ≡ (err limit_reached, m)
unfolding create_session
create_session_full now u b p m full = rw full

others_stay :
    (sid : Text) (s : UserSession) (m : SessionManager)
    → IsConsistent m
    → lookup sid m.sessions ≡ some s
    → (v : Text) → v ≢ s.username
    → get_session_by_username v (drop_session sid s m) ≡ get_session_by_username v m
unfolding drop_session get_session_by_username
others_stay sid s m c h v ne = elim (Option-cases (lookup v m.username_index)) [
  | inl e ↦ ground (arith, lookup-erase s.username v m.username_index)
  | inr (k, e) ↦
      let own = c.indexed v k e in
      ground (
        arith,
        own.1,
        own.2,
        eq_iff s.username v,
        eq_iff sid k,
        lookup-erase s.username v m.username_index,
        lookup-erase sid k m.sessions,
      )
]

found_session :
    (sid : Text) (s : UserSession) (m : SessionManager)
    → get_session sid m ≡ ok s
    → lookup sid m.sessions ≡ some s
unfolding get_session
found_session sid s m h = ground arith

found_drop :
    (sid : Text) (s : UserSession) (m : SessionManager)
    → lookup sid m.sessions ≡ some s
    → destroy_session sid m ≡ drop_session sid s m
unfolding destroy_session
found_drop sid s m h = ground arith

gone_by_key :
    (sid : Text) (s : UserSession) (m : SessionManager)
    → get_session sid (drop_session sid s m) ≡ err not_found
unfolding get_session drop_session
gone_by_key sid s m = ground (arith, lookup-erase sid sid m.sessions, eq_refl sid)

gone_by_name :
    (sid : Text) (s : UserSession) (m : SessionManager)
    → get_session_by_username s.username (drop_session sid s m) ≡ err not_found
unfolding get_session_by_username drop_session
gone_by_name sid s m =
    ground (arith, lookup-erase s.username s.username m.username_index, eq_refl s.username)

stays_by_key :
    (sid : Text) (s : UserSession) (m : SessionManager) (k : Text)
    → k ≢ sid
    → get_session k (drop_session sid s m) ≡ get_session k m
unfolding get_session drop_session
stays_by_key sid s m k ne = ground (arith, lookup-erase sid k m.sessions, eq_iff sid k)

-- In a consistent manager, destroying a session removes it under its key and under its user's
-- name, and leaves every other session of every other user as it was.
pub destroy_session-removes :
    (sid : Text) (s : UserSession) (m : SessionManager)
    → IsConsistent m
    → get_session sid m ≡ ok s
    → (get_session sid (destroy_session sid m) ≡ err not_found)
      × (get_session_by_username s.username (destroy_session sid m) ≡ err not_found)
      × ((k : Text) → k ≢ sid → get_session k (destroy_session sid m) ≡ get_session k m)
      × ((v : Text)
          → v ≢ s.username
          → get_session_by_username v (destroy_session sid m) ≡ get_session_by_username v m)
destroy_session-removes sid s m c h =
    let found = found_session sid s m h in
    rw (found_drop sid s m found) (
      gone_by_key sid s m,
      gone_by_name sid s m,
      λ k ne. stays_by_key sid s m k ne,
      others_stay sid s m c found,
    )

-- The tokens that a reply costs; an exception costs none.
abbrev pub spent_by : Text → Result Text Text → ℕ
spent_by text (ok result) = (length text + length result) / 4
spent_by text (err e) = 0

-- A run counts the request and the time in any case. It charges the budget by a quarter of the
-- length of the prompt and of the reply if the kernel replied, and not at all if it raised; the
-- session's names, permissions and limits stay.
pub run-accounts :
    (k : Backend) (now later : ℕ) (text : Text) (s : UserSession)
    → let s' = (run k now later text s).1 in
      (s'.request_count ≡ s.request_count + 1)
      × (s'.last_active ≡ now)
      × (s'.session_id ≡ s.session_id)
      × (s'.username ≡ s.username)
      × (s'.permissions ≡ s.permissions)
      × (s'.budget.max_tokens_per_session ≡ s.budget.max_tokens_per_session)
      × (s'.budget.spent ≡ s.budget.spent + spent_by text (k.reply text (memory_context k text)))
unfolding run record_tokens
run-accounts k now later text s = ground arith
