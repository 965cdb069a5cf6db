-- ===== src/Session/Manager/Consistent.antt =====
-- The index and the sessions agree, and every operation of `SessionManager` keeps it so.
use bantu_os.Prelude.{
  ℕ, ◌≤◌, ◌<◌, ◌≡◌, ◌≢◌, inl, inr, false, none, some, [], ◌∷◌, arith, length, Option-cases,
  Bool-cases, All,
}
use bantu_os.Prelude.Text.{Text, ◌==◌, eq_iff}
use bantu_os.Prelude.Decimal.{decimal, IsDigit, decimal-digits, cut_at_last}
use bantu_os.Prelude.Dict.{
  lookup, insert, erase, IsDict, lookup-insert, lookup-erase, insert-IsDict, erase-IsDict,
  length-insert, length-erase,
}
use bantu_os.Session.Manager.{
  UserSession, SessionManager, init, max_sessions, session_id_of, add_session, drop_session,
}

-- Every indexed user has its own session, every session is indexed under its user and its key, and
-- the keys are of the form that `create_session` gives.
pub record IsConsistent (m : SessionManager) : Type 0 where
  pub session_keys : IsDict m.sessions
  pub index_keys : IsDict m.username_index
  pub bounded : length m.sessions ≤ max_sessions
  pub indexed :
      (u sid : Text)
      → lookup u m.username_index ≡ some sid
      → (s : UserSession) × (lookup sid m.sessions ≡ some s) × (s.username ≡ u)
  pub owned :
      (sid : Text) (s : UserSession)
      → lookup sid m.sessions ≡ some s
      → (lookup s.username m.username_index ≡ some sid)
        × (s.session_id ≡ sid)
        × ((t : ℕ) × (sid ≡ session_id_of s.username t))

pub init-IsConsistent : IsConsistent init
unfolding lookup
init-IsConsistent = record {
  session_keys = tt;
  index_keys = tt;
  bounded = omega arith;
  indexed = λ u sid e. absurd (cc);
  owned = λ sid s e. absurd (cc);
}

no_underscore : (s : Text) → All IsDigit s → All (λ c. c ≢ 95) s
no_underscore [] h = tt
no_underscore (c ∷ s) h = (omega arith, no_underscore s h.1)

-- Two users never get one key, at whatever times.
pub session_id_of-injective :
    (u v : Text) (t t' : ℕ) → session_id_of u t ≡ session_id_of v t' → u ≡ v
unfolding session_id_of
session_id_of-injective u v t t' p =
    cut_at_last 95 u v (decimal t) (decimal t') (no_underscore _ (decimal-digits t))
      (no_underscore _ (decimal-digits t')) (cc)

-- A user without an indexed session has no key in the dict of sessions.
pub fresh_key :
    (now : ℕ) (u : Text) (m : SessionManager)
    → IsConsistent m
    → lookup u m.username_index ≡ none
    → lookup (session_id_of u now) m.sessions ≡ none
fresh_key now u m c none_u = elim (Option-cases (lookup (session_id_of u now) m.sessions)) [
  | inl e ↦ e
  | inr (s, e) ↦
      let own = c.owned (session_id_of u now) s e in
      let same = session_id_of-injective u s.username now own.2.0 own.2.1 in
      absurd (cc (own.0, same, none_u))
]

-- Adding a session for a user who has none, under a new key of that user, below the limit.
module _ (now : ℕ) (key : Text) (s : UserSession) (m : SessionManager) (c : IsConsistent m)
    (none_u : lookup s.username m.username_index ≡ none) (none_key : lookup key m.sessions ≡ none)
    (names : s.session_id ≡ key) (shaped : key ≡ session_id_of s.username now)
    (room : length m.sessions < max_sessions) where
  kept :
      (v sid : Text)
      → (t : UserSession) × (lookup sid m.sessions ≡ some t) × (t.username ≡ v)
      → (t : UserSession) × (lookup sid (insert key s m.sessions) ≡ some t) × (t.username ≡ v)
  kept v sid (t, l, e) = (t, ground (arith, eq_iff key sid, lookup-insert key sid s m.sessions), e)

  indexed_added :
      (v sid : Text)
      → lookup v (insert s.username key m.username_index) ≡ some sid
      → (t : UserSession) × (lookup sid (insert key s m.sessions) ≡ some t) × (t.username ≡ v)
  indexed_added v sid e = elim (Bool-cases (s.username == v)) [
    | inl same ↦ (
      s,
      ground (
        arith,
        eq_iff key sid,
        lookup-insert s.username v key m.username_index,
        lookup-insert key sid s m.sessions,
      ),
      (eq_iff s.username v).0 same,
    )
    | inr other ↦
        kept v sid
          (c.indexed v sid (ground (arith, lookup-insert s.username v key m.username_index)))
  ]

  owned_added :
      (sid : Text) (t : UserSession)
      → lookup sid (insert key s m.sessions) ≡ some t
      → (lookup t.username (insert s.username key m.username_index) ≡ some sid)
        × (t.session_id ≡ sid)
        × ((n : ℕ) × (sid ≡ session_id_of t.username n))
  owned_added sid t e = elim (Bool-cases (key == sid)) [
    | inl same ↦
        let is_s : s ≡ t = ground (arith, lookup-insert key sid s m.sessions) in
        (
          ground (
            arith,
            eq_iff key sid,
            eq_iff s.username t.username,
            lookup-insert s.username t.username key m.username_index,
          ),
          ground (arith, eq_iff key sid),
          (now, ground (arith, eq_iff key sid)),
        )
    | inr other ↦
        let old = c.owned sid t (ground (arith, lookup-insert key sid s m.sessions)) in
        (
          ground (
            arith,
            eq_iff s.username t.username,
            old.0,
            lookup-insert s.username t.username key m.username_index,
          ),
          old.1,
          old.2,
        )
  ]

  pub add_session-IsConsistent : IsConsistent (add_session key s m)
  unfolding add_session
  add_session-IsConsistent = record {
    session_keys = insert-IsDict key s m.sessions c.session_keys;
    index_keys = insert-IsDict s.username key m.username_index c.index_keys;
    bounded = ground (arith, length-insert key s m.sessions);
    indexed = indexed_added;
    owned = owned_added;
  }

-- Removing a session and its user's entry.
module _ (sid : Text) (s : UserSession) (m : SessionManager) (c : IsConsistent m)
    (found : lookup sid m.sessions ≡ some s) where
  kept_back :
      (v k : Text)
      → (s.username == v) ≡ false
      → lookup v m.username_index ≡ some k
      → (t : UserSession) × (lookup k m.sessions ≡ some t) × (t.username ≡ v)
      → (t : UserSession) × (lookup k (erase sid m.sessions) ≡ some t) × (t.username ≡ v)
  kept_back v k other at (t, l, e) =
      (t, ground (arith, eq_iff sid k, lookup-erase sid k m.sessions, eq_iff s.username v), e)

  pub drop_session-IsConsistent : IsConsistent (drop_session sid s m)
  unfolding drop_session
  drop_session-IsConsistent = record {
    session_keys = erase-IsDict sid m.sessions c.session_keys;
    index_keys = erase-IsDict s.username m.username_index c.index_keys;
    bounded = ground (arith, length-erase sid m.sessions c.session_keys, c.bounded);
    indexed = λ v k e.
        kept_back v k (ground (arith, lookup-erase s.username v m.username_index))
          (ground (arith, lookup-erase s.username v m.username_index))
          (c.indexed v k (ground (arith, lookup-erase s.username v m.username_index)));
    owned = λ k t e.
        let old = c.owned k t (ground (arith, lookup-erase sid k m.sessions)) in
        let mine = c.owned sid s found in
        (
          ground (
            arith,
            eq_iff s.username t.username,
            eq_iff sid k,
            old.0,
            mine.0,
            lookup-erase sid k m.sessions,
            lookup-erase s.username t.username m.username_index,
          ),
          old.1,
          old.2,
        );
  }
