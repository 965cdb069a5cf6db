-- ===== src/Session/Manager/Update.antt =====
-- A session object may change in place, as `run` changes it, if its key and its user stay.
use bantu_os.Prelude.{
  ℕ, ◌+◌, ◌/◌, ◌≡◌, refl, err, inl, inr, none, some, arith, length, Bool-cases, leb, false, true,
  ok, if◌then◌else◌,
}
use bantu_os.Session.Budget.{TokenBudget, record_tokens, budget_exceeded}
use bantu_os.Session.Permissions.{ToolPermissions}
use bantu_os.Prelude.Text.{Text, ◌==◌, eq_iff, eq_refl}
use bantu_os.Prelude.Dict.{
  lookup, has_key, insert, lookup-insert, lookup-erase, insert-IsDict, length-insert,
}
use bantu_os.Session.Manager.{
  UserSession, SessionManager, session_id_of, create_session, destroy_session, new_session,
  add_session, drop_session, existing, Backend, run, memory_context, exhausted, charge, reply_of,
  max_sessions,
}
use bantu_os.Session.Manager.Consistent.{IsConsistent}

module _ (sid : Text) (s s' : UserSession) (m : SessionManager) (c : IsConsistent m)
    (found : lookup sid m.sessions ≡ some s) (user : s'.username ≡ s.username)
    (key : s'.session_id ≡ s.session_id) where
  indexed_updated :
      (u k : Text)
      → lookup u m.username_index ≡ some k
      → (t : UserSession) × (lookup k (insert sid s' m.sessions) ≡ some t) × (t.username ≡ u)
  indexed_updated u k e =
      let (t, l, n) = c.indexed u k e in
      elim (Bool-cases (sid == k)) [
        | inl same ↦ (
          s',
          ground (arith, eq_iff sid k, lookup-insert sid k s' m.sessions),
          ground (arith, eq_iff sid k),
        )
        | inr other ↦ (t, ground (arith, lookup-insert sid k s' m.sessions), n)
      ]

  owned_updated :
      (k : Text) (t : UserSession)
      → lookup k (insert sid s' m.sessions) ≡ some t
      → (lookup t.username m.username_index ≡ some k)
        × (t.session_id ≡ k)
        × ((n : ℕ) × (k ≡ session_id_of t.username n))
  owned_updated k t e =
      let (index, own, (n, shape)) = c.owned sid s found in
      elim (Bool-cases (sid == k)) [
        | inl same ↦
            let is_t : s' ≡ t = ground (arith, lookup-insert sid k s' m.sessions) in
            let at : sid ≡ k = (eq_iff sid k).0 same in
            let name : t.username ≡ s.username = cc in (rw name (cc), cc, (n, rw name (cc)))
        | inr other ↦ c.owned k t (ground (arith, lookup-insert sid k s' m.sessions))
      ]

  pub update-IsConsistent : IsConsistent (record m { sessions = insert sid s' m.sessions })
  update-IsConsistent = record {
    session_keys = insert-IsDict sid s' m.sessions c.session_keys;
    index_keys = c.index_keys;
    bounded = ground (arith, length-insert sid s' m.sessions, c.bounded);
    indexed = indexed_updated;
    owned = owned_updated;
  }

-- The keys in the dict of sessions after a creation and after a destruction.
pub create_session-keeps :
    (now : ℕ) (u k : Text) (b : TokenBudget) (p : ToolPermissions) (m : SessionManager)
    → has_key k m.sessions ≡ true
    → has_key k (create_session now u b p m).1.sessions ≡ true
unfolding create_session add_session
create_session-keeps now u k b p m h =
    ground (arith, lookup-insert (session_id_of u now) k (new_session now u b p) m.sessions)

pub create_session-has :
    (now : ℕ) (u sid : Text) (b : TokenBudget) (p : ToolPermissions) (m : SessionManager)
    → (create_session now u b p m).0 ≡ ok sid
    → has_key sid (create_session now u b p m).1.sessions ≡ true
unfolding create_session add_session existing
create_session-has now u sid b p m e =
    ground (
      arith,
      eq_refl sid,
      lookup-insert (session_id_of u now) sid (new_session now u b p) m.sessions,
    )

pub lookup-destroy_session :
    (sid k : Text) (m : SessionManager)
    → lookup k (destroy_session sid m).sessions ≡ (if sid == k then none else lookup k m.sessions)
unfolding destroy_session drop_session
lookup-destroy_session sid k m = ground (arith, eq_iff sid k, lookup-erase sid k m.sessions)

-- A run that exhausts the budget returns the text that says so.
pub run-exhausted :
    (k : Backend) (now later : ℕ) (text reply : Text) (s : UserSession)
    → k.reply text (memory_context k text) ≡ ok reply
    → (record_tokens later ((length text + length reply) / 4) s.budget).0 ≡ err budget_exceeded
    → (run k now later text s).0 ≡ ok exhausted
unfolding run charge reply_of
run-exhausted k now later text reply s answered over = rw (answered, over) refl

pub create_session_again :
    (now : ℕ) (u sid : Text) (b : TokenBudget) (p : ToolPermissions) (m : SessionManager)
    → leb max_sessions (length m.sessions) ≡ false
    → existing u m ≡ some sid
    → create_session now u b p m ≡ (ok sid, m)
unfolding create_session
create_session_again now u sid b p m room has = rw (room, has) refl
