-- ===== src/Session/Manager/Stale.antt =====
-- `cleanup_stale`: the loop over the keys found first never misses one, and removes just those.
use bantu_os.Prelude.{
  ℕ, ◌+◌, ◌≡◌, refl, ap, ◌∙◌, Bool, true, false, Option, none, some, List, [], ◌∷◌, arith, length,
  any, ok, Bool-cases, Option-cases, inl, inr, if◌then◌else◌,
}
use bantu_os.Prelude.Text.{Text, ◌==◌, eq_iff, eq_refl}
use bantu_os.Prelude.Dict.{Dict, lookup, has_key, erase, IsDict, lookup-erase}
use bantu_os.Session.Manager.{
  UserSession, SessionManager, is_stale, stale_ids, drop_all, drop_session, cleanup_stale,
}
use bantu_os.Session.Manager.Consistent.{IsConsistent, drop_session-IsConsistent}

abbrev mem : Text → List Text → Bool
mem k ids = any (λ j. j == k) ids

-- The keys are all there, and none stands twice.
abbrev AreKeys : List Text → Dict UserSession → Type 0
AreKeys [] d = Unit
AreKeys (k ∷ ks) d = (has_key k d ≡ true) × (mem k ks ≡ false) × AreKeys ks d

abbrev pub stale_at : ℕ → Option UserSession → Bool
stale_at now none = false
stale_at now (some s) = is_stale now s

mem-stale_ids :
    (now : ℕ) (k : Text) (d : Dict UserSession)
    → IsDict d
    → mem k (stale_ids now d) ≡ stale_at now (lookup k d)
unfolding any stale_ids lookup
mem-stale_ids now k [] h = refl
mem-stale_ids now k ((j, s) ∷ d) h = ground (arith, mem-stale_ids now k d h.1, eq_iff j k)

keys_grow :
    (j : Text) (s : UserSession) (d : Dict UserSession) (ks : List Text)
    → AreKeys ks d
    → AreKeys ks ((j, s) ∷ d)
unfolding lookup any
keys_grow j s d [] h = tt
keys_grow j s d (k ∷ ks) h = (ground arith, h.1, keys_grow j s d ks h.2)

stale_ids-AreKeys : (now : ℕ) (d : Dict UserSession) → IsDict d → AreKeys (stale_ids now d) d
unfolding stale_ids lookup
stale_ids-AreKeys now [] h = tt
stale_ids-AreKeys now ((j, s) ∷ d) h =
    let rest = keys_grow j s d (stale_ids now d) (stale_ids-AreKeys now d h.1) in
    elim (Bool-cases (is_stale now s)) [
      | inl old ↦
          rw old (ground (arith, eq_refl j), ground (arith, mem-stale_ids now j d h.1), rest)
      | inr live ↦ rw live rest
    ]

keys_shrink :
    (j : Text) (d : Dict UserSession) (ks : List Text)
    → mem j ks ≡ false
    → AreKeys ks d
    → AreKeys ks (erase j d)
unfolding any
keys_shrink j d [] n h = tt
keys_shrink j d (k ∷ ks) n h = (
  ground (arith, lookup-erase j k d, eq_iff j k, eq_iff k j),
  h.1,
  keys_shrink j d ks (ground arith) h.2,
)

-- The loop over keys that are there removes them all and counts them.
drop_all_lem :
    (ks : List Text) (n : ℕ) (m : SessionManager)
    → IsConsistent m
    → AreKeys ks m.sessions
    → ((drop_all ks n m).0 ≡ ok (n + length ks))
      × IsConsistent (drop_all ks n m).1
      × ((k : Text)
          → lookup k (drop_all ks n m).1.sessions
            ≡ (if mem k ks then none else lookup k m.sessions))
unfolding drop_all drop_session any
drop_all_lem [] n m c h = (ap ok (omega arith), c, λ k. refl)
drop_all_lem (j ∷ ks) n m c h = elim (Option-cases (lookup j m.sessions)) [
  | inl e ↦ absurd (ground arith)
  | inr (s, e) ↦
      let rest =
        drop_all_lem ks (n + 1) (drop_session j s m) (drop_session-IsConsistent j s m c e)
          (keys_shrink j m.sessions ks h.1 h.2) in
      rw (e, drop_all)
        (
          rest.0 ∙ ap ok (omega arith),
          rest.1,
          λ k. rest.2 k ∙ ground (arith, lookup-erase j k m.sessions),
        )
]

-- In a consistent manager `cleanup_stale` never raises. It reports how many sessions it removed,
-- keeps the manager consistent, and afterwards finds a session under a key exactly if it did
-- before and the session was not stale.
pub cleanup_stale-removes :
    (now : ℕ) (m : SessionManager)
    → IsConsistent m
    → ((cleanup_stale now m).0 ≡ ok (length (stale_ids now m.sessions)))
      × IsConsistent (cleanup_stale now m).1
      × ((sid : Text)
          → lookup sid (cleanup_stale now m).1.sessions
            ≡ (if stale_at now (lookup sid m.sessions) then none else lookup sid m.sessions))
unfolding cleanup_stale
cleanup_stale-removes now m c =
    let all_gone =
      drop_all_lem (stale_ids now m.sessions) 0 m c
        (stale_ids-AreKeys now m.sessions c.session_keys) in
    (
      all_gone.0 ∙ ap ok (omega arith),
      all_gone.1,
      λ sid.
          all_gone.2 sid
          ∙ ap (λ b. if b then none else lookup sid m.sessions)
              (mem-stale_ids now sid m.sessions c.session_keys),
    )
