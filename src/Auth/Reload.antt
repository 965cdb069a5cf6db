-- ===== src/Auth/Reload.antt =====
-- What bantu_os/auth/user_store.py writes to its file is read back as it was.
use bantu_os.Prelude.{
  ◌≡◌, ◌⊎◌, inl, inr, refl, sym, ap, ◌∙◌, false, some, [], ◌∷◌, ◌++◌, arith, ltb, length,
  Option-cases, Bool-cases,
}
use mathlib.Core.Path.{subst}
use mathlib.Core.List.{append_assoc, append-nil}
use bantu_os.Prelude.Text.{Text, ◌==◌, eq_iff, eq_refl}
use bantu_os.Prelude.Dict.{Dict, lookup, has_key, insert, values, IsDict}
use bantu_os.Auth.Names.{normalise}
use bantu_os.Auth.{
  UserDict, UserStore, put_user, by_username, load, save, get_user, create_user, delete_user,
  set_password, update_last_login, suspend_user, reactivate_user, create_api_key, revoke_api_key,
}
use bantu_os.Auth.Sound.{
  IsSound, Step, create, delete, change_password, login, suspend, reactivate, new_key, revoke,
}
use bantu_os.Auth.Steps.{Step-IsSound}

-- Every user stands under its name.
abbrev IsNamed : Dict UserDict → Type 0
IsNamed [] = Unit
IsNamed ((k, u) ∷ d) = (u.username ≡ k) × IsNamed d

lookup-IsNamed :
    (d : Dict UserDict)
    → IsDict d
    → ((k : Text) (u : UserDict) → lookup k d ≡ some u → u.username ≡ k)
    → IsNamed d
unfolding lookup
lookup-IsNamed [] h n = tt
lookup-IsNamed ((k, u) ∷ d) h n = (
  n k u (ground (arith, eq_refl k)),
  lookup-IsNamed d h.1 (λ j v e. n j v (ground (arith, eq_iff k j))),
)

insert-new :
    (k : Text) (u : UserDict) (d : Dict UserDict)
    → has_key k d ≡ false
    → insert k u d ≡ d ++ (k, u) ∷ []
unfolding insert lookup
insert-new k u [] h = refl
insert-new k u ((j, v) ∷ d) h = ground (arith, insert-new k u d)

-- No key of the second dict stands in the first.
abbrev Apart : Dict UserDict → Dict UserDict → Type 0
Apart a [] = Unit
Apart a ((k, u) ∷ d) = (has_key k a ≡ false) × Apart a d

has_key-append :
    (j k : Text) (u : UserDict) (a : Dict UserDict)
    → (k == j) ≡ false
    → has_key j a ≡ false
    → has_key j (a ++ (k, u) ∷ []) ≡ false
unfolding lookup
has_key-append j k u [] ne h = ground arith
has_key-append j k u ((i, v) ∷ a) ne h = ground (arith, has_key-append j k u a ne)

Apart-append :
    (k : Text) (u : UserDict) (a d : Dict UserDict)
    → has_key k d ≡ false
    → Apart a d
    → Apart (a ++ (k, u) ∷ []) d
unfolding lookup
Apart-append k u a [] h p = tt
Apart-append k u a ((j, v) ∷ d) h p = (
  has_key-append j k u a (ground (arith, eq_iff k j, eq_iff j k)) p.0,
  Apart-append k u a d (ground arith) p.1,
)

by_username-values :
    (d a : Dict UserDict) → IsDict d → IsNamed d → Apart a d → by_username (values d) a ≡ a ++ d
unfolding values
by_username-values [] a h n p = sym (append-nil a)
by_username-values ((k, u) ∷ d) a h n p =
    ap (by_username (values d)) (ap (λ j. insert j u a) n.0 ∙ insert-new k u a p.0)
    ∙ (by_username-values d (a ++ (k, u) ∷ []) h.1 n.1 (Apart-append k u a d h.0 p.1)
        ∙ append_assoc a ((k, u) ∷ []) d)

Apart-nil : (d : Dict UserDict) → Apart [] d
unfolding lookup
Apart-nil [] = tt
Apart-nil ((k, u) ∷ d) = (refl, Apart-nil d)

-- A sound store that is saved is read back as the same store.
pub load-save : (st : UserStore) → IsSound st → load (save st).file ≡ save st
unfolding load save
load-save st s =
    let n = lookup-IsNamed st.users s.user_keys (λ k d e. (s.named k d e).0) in
    rw (by_username-values st.users [] s.user_keys n (Apart-nil st.users)) refl

abbrev Saves : UserStore → UserStore → Type 0
Saves st st' = (st' ≡ st) ⊎ (save st' ≡ st')

Step-Saves : (pbkdf2 : Text → Text → Text) {st st' : UserStore} → Step pbkdf2 st st' → Saves st st'
unfolding save create_user delete_user set_password update_last_login suspend_user reactivate_user
    create_api_key revoke_api_key put_user
Step-Saves pbkdf2 {st} (create now now' salt name password is_admin metadata) =
    elim (Bool-cases (ltb (length (normalise name)) 2)) [
      | inl e ↦ inl (rw e refl)
      | inr e ↦ elim (Bool-cases (has_key (normalise name) st.users)) [
        | inl f ↦ inl (rw (e, f) refl)
        | inr f ↦ inr (rw (e, f) refl)
      ]
    ]
Step-Saves pbkdf2 {st} (delete name) = elim (Bool-cases (has_key (normalise name) st.users)) [
  | inl e ↦ inr (rw e refl)
  | inr e ↦ inl (rw e refl)
]
Step-Saves pbkdf2 {st} (change_password salt name password) =
    elim (Option-cases (get_user name st)) [
      | inl e ↦ inl (rw (e, set_password) refl)
      | inr (u, e) ↦ inr (rw (e, set_password) refl)
    ]
Step-Saves pbkdf2 {st} (login now name) = elim (Option-cases (get_user name st)) [
  | inl e ↦ inl (rw (e, update_last_login) refl)
  | inr (u, e) ↦ inr (rw (e, update_last_login) refl)
]
Step-Saves pbkdf2 {st} (suspend name) = elim (Option-cases (get_user name st)) [
  | inl e ↦ inl (rw (e, suspend_user) refl)
  | inr (u, e) ↦ elim (Bool-cases u.is_admin) [
    | inl a ↦ inl (rw (e, suspend_user, a) refl)
    | inr a ↦ inr (rw (e, suspend_user, a) refl)
  ]
]
Step-Saves pbkdf2 {st} (reactivate name) = elim (Option-cases (get_user name st)) [
  | inl e ↦ inl (rw (e, reactivate_user) refl)
  | inr (u, e) ↦ inr (rw (e, reactivate_user) refl)
]
Step-Saves pbkdf2 {st} (new_key now api_key name) = elim (Option-cases (get_user name st)) [
  | inl e ↦ inl (rw (e, create_api_key) refl)
  | inr (u, e) ↦ inr (rw (e, create_api_key) refl)
]
Step-Saves pbkdf2 {st} (revoke api_key) = elim (Bool-cases (has_key api_key st.api_keys)) [
  | inl e ↦ inr (rw e refl)
  | inr e ↦ inl (rw e refl)
]

-- A restart after any operation finds the store as the operation left it: if reading the file gives
-- a sound store back before an operation, then it does so after it, whatever the operation is and
-- whether it succeeds or not.
pub Step-load :
    (pbkdf2 : Text → Text → Text) (st st' : UserStore)
    → IsSound st
    → load st.file ≡ st
    → Step pbkdf2 st st'
    → load st'.file ≡ st'
Step-load pbkdf2 st st' s same step = elim (Step-Saves pbkdf2 step) [
  | inl e ↦ subst (λ x. load x.file ≡ x) (sym e) same
  | inr e ↦ subst (λ x. load x.file ≡ x) e (load-save st' (Step-IsSound pbkdf2 step s))
]
