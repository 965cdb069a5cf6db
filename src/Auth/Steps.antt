-- ===== src/Auth/Steps.antt =====
-- Every operation of bantu_os/auth/user_store.py keeps the invariant.
use bantu_os.Prelude.{
  ℕ, ◌≡◌, refl, Bool, true, not, arith, ltb, length, Option-cases, Bool-cases, inl, inr,
}
use bantu_os.Prelude.Text.{Text, ◌==◌, eq_iff}
use bantu_os.Prelude.Dict.{
  Dict, has_key, insert, erase, keep_values, keep_values-IsDict, lookup-keep_values, lookup-insert,
  lookup-erase, insert-IsDict, erase-IsDict,
}
use bantu_os.Auth.Names.{normalise, normalise_idem}
use bantu_os.Auth.{
  UserDict, UserStore, save, get_user, delete_user, update_last_login, suspend_user,
  reactivate_user, create_api_key, revoke_api_key, create_user, set_password,
}
use bantu_os.Auth.Sound.{
  IsSound, get_user-found, put_user-IsSound, put_found-IsSound, Step, create, delete,
  change_password, login, suspend, reactivate, new_key, revoke,
}

-- A new user under a name in normal form.
insert_new-IsSound :
    (d : UserDict) (st : UserStore)
    → IsSound st
    → normalise d.username ≡ d.username
    → IsSound (save (record st { users = insert d.username d st.users }))
unfolding save
insert_new-IsSound d st s norm = record {
  user_keys = insert-IsDict d.username d st.users s.user_keys;
  api_key_keys = s.api_key_keys;
  named = λ k e h.
      ground (arith, lookup-insert d.username k d st.users, eq_iff d.username k, s.named k e);
  owned =
      λ key name e. ground (arith, lookup-insert d.username name d st.users, s.owned key name e);
}

create_user-IsSound :
    (pbkdf2 : Text → Text → Text) (now now' : ℕ) (salt name password : Text) (is_admin : Bool)
    (metadata : Dict Text) (st : UserStore)
    → IsSound st
    → IsSound (create_user pbkdf2 now now' salt name password is_admin metadata st).1
unfolding create_user
create_user-IsSound pbkdf2 now now' salt name password is_admin metadata st s =
    elim (Bool-cases (ltb (length (normalise name)) 2)) [
      | inl short ↦ rw short s
      | inr long ↦ rw long (elim (Bool-cases (has_key (normalise name) st.users)) [
        | inl old ↦ rw old s
        | inr new ↦ rw new (insert_new-IsSound _ st s (normalise_idem name))
      ])
    ]

-- The keys of other users, without a user.
without_user-IsSound :
    (key : Text) (st : UserStore)
    → IsSound st
    → IsSound (
        save (record st {
          users = erase key st.users;
          api_keys = keep_values (λ v. not (v == key)) st.api_keys;
        }))
unfolding save
without_user-IsSound key st s = record {
  user_keys = erase-IsDict key st.users s.user_keys;
  api_key_keys = keep_values-IsDict _ st.api_keys s.api_key_keys;
  named = λ k d e. s.named k d (ground (arith, lookup-erase key k st.users));
  owned = λ k name e. ground (
    arith,
    lookup-keep_values (λ v. not (v == key)) k st.api_keys s.api_key_keys,
    lookup-erase key name st.users,
    eq_iff name key,
    eq_iff key name,
    s.owned k name,
  );
}

delete_user-IsSound : (name : Text) (st : UserStore) → IsSound st → IsSound (delete_user name st).1
unfolding delete_user
delete_user-IsSound name st s = elim (Bool-cases (has_key (normalise name) st.users)) [
  | inl old ↦ rw old (without_user-IsSound (normalise name) st s)
  | inr new ↦ rw new s
]

suspend_user-IsSound :
    (name : Text) (st : UserStore) → IsSound st → IsSound (suspend_user name st).1
unfolding suspend_user
suspend_user-IsSound name st s = elim (Option-cases (get_user name st)) [
  | inl e ↦ rw (e, suspend_user) s
  | inr (u, e) ↦
      rw (e, suspend_user)
        (elim (Bool-cases u.is_admin) [
          | inl a ↦ rw a s
          | inr a ↦ rw a (put_found-IsSound name u _ st s e refl)
        ])
]

-- A key for a user who is there.
with_key-IsSound :
    (api_key name : Text) (st : UserStore)
    → IsSound st
    → has_key name st.users ≡ true
    → IsSound (record st { api_keys = insert api_key name st.api_keys })
with_key-IsSound api_key name st s there = record {
  user_keys = s.user_keys;
  api_key_keys = insert-IsDict api_key name st.api_keys s.api_key_keys;
  named = s.named;
  owned = λ k n e. ground (arith, lookup-insert api_key k name st.api_keys, s.owned k n);
}

create_api_key-IsSound :
    (now : ℕ) (api_key name : Text) (st : UserStore)
    → IsSound st
    → IsSound (create_api_key now api_key name st).1
unfolding create_api_key
create_api_key-IsSound now api_key name st s = elim (Option-cases (get_user name st)) [
  | inl e ↦ rw (e, create_api_key) s
  | inr (u, e) ↦
      let found = get_user-found name u st s e in
      rw (e, create_api_key)
        (put_user-IsSound (record u { last_login = now })
          (record st { api_keys = insert api_key u.username st.api_keys })
          (with_key-IsSound api_key u.username st s (ground (arith, found.1, found.3)))
          (ground (arith, found.1, found.3)) (ground (arith, found.3, normalise_idem name)))
]

revoke_api_key-IsSound :
    (api_key : Text) (st : UserStore) → IsSound st → IsSound (revoke_api_key api_key st).1
unfolding revoke_api_key
revoke_api_key-IsSound api_key st s = elim (Bool-cases (has_key api_key st.api_keys)) [
  | inr e ↦ rw e s
  | inl e ↦ rw e (record {
    user_keys = s.user_keys;
    api_key_keys = erase-IsDict api_key st.api_keys s.api_key_keys;
    named = s.named;
    owned = λ k n h. s.owned k n (ground (arith, lookup-erase api_key k st.api_keys));
  })
]

-- Every operation keeps the store sound: users stand under their own normalised names, and no API
-- key outlives its user.
pub Step-IsSound :
    (pbkdf2 : Text → Text → Text) {st st' : UserStore}
    → Step pbkdf2 st st'
    → IsSound st
    → IsSound st'
unfolding set_password update_last_login reactivate_user
Step-IsSound pbkdf2 (create now now' salt name password is_admin metadata) s =
    create_user-IsSound pbkdf2 now now' salt name password is_admin metadata _ s
Step-IsSound pbkdf2 (delete name) s = delete_user-IsSound name _ s
Step-IsSound pbkdf2 {st} (change_password salt name password) s =
    elim (Option-cases (get_user name st)) [
      | inl e ↦ rw (e, set_password) s
      | inr (u, e) ↦ rw (e, set_password) (put_found-IsSound name u _ st s e refl)
    ]
Step-IsSound pbkdf2 {st} (login now name) s = elim (Option-cases (get_user name st)) [
  | inl e ↦ rw (e, update_last_login) s
  | inr (u, e) ↦ rw (e, update_last_login) (put_found-IsSound name u _ st s e refl)
]
Step-IsSound pbkdf2 (suspend name) s = suspend_user-IsSound name _ s
Step-IsSound pbkdf2 {st} (reactivate name) s = elim (Option-cases (get_user name st)) [
  | inl e ↦ rw (e, reactivate_user) s
  | inr (u, e) ↦ rw (e, reactivate_user) (put_found-IsSound name u _ st s e refl)
]
Step-IsSound pbkdf2 (new_key now api_key name) s = create_api_key-IsSound now api_key name _ s
Step-IsSound pbkdf2 (revoke api_key) s = revoke_api_key-IsSound api_key _ s
