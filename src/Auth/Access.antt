-- ===== src/Auth/Access.antt =====
-- Who gets in: suspension, deletion and revocation.
use bantu_os.Prelude.{◌≡◌, ◌≢◌, refl, sym, ap, ◌∙◌, [], true, false, not, none, some, arith}
use bantu_os.Prelude.Text.{Text, ◌==◌, eq_iff, eq_refl}
use bantu_os.Prelude.Dict.{lookup, lookup-erase, lookup-keep_values, lookup-insert}
use bantu_os.Auth.Names.{normalise, normalise_idem}
use bantu_os.Auth.{
  User, UserStore, get_user, put_user, delete_user, suspend_user, revoke_api_key, verify_api_key,
  verify_password, from_dict, to_dict, save,
}
use bantu_os.Auth.Sound.{IsSound, get_user-found}

-- Nobody gets in as a suspended user, neither by a password nor by an API key.
pub suspended_stays_out :
    (pbkdf2 : Text → Text → Text) (name key password : Text) (u : User) (st : UserStore)
    → get_user name st ≡ some u
    → u.suspended ≡ true
    → (verify_password pbkdf2 name password st ≡ false)
      × (lookup key st.api_keys ≡ some name → verify_api_key key st ≡ none)
unfolding verify_password verify_api_key
suspended_stays_out pbkdf2 name key password u st h out = (ground arith, λ e. ground arith)

-- Reading back a user that was written under a normalised name.
pub get_user-put_user :
    (name : Text) (u : User) (st : UserStore)
    → u.username ≡ normalise name
    → get_user name (put_user u st) ≡ some (record u { api_key_hash = []; api_key_salt = [] })
unfolding get_user put_user from_dict
get_user-put_user name u st e = ground (
  arith,
  lookup-insert u.username (normalise name) (to_dict u) st.users,
  eq_iff u.username (normalise name),
)

suspend_user-eq :
    (name : Text) (u : User) (st : UserStore)
    → get_user name st ≡ some u
    → u.is_admin ≡ false
    → suspend_user name st ≡ (true, put_user (record u { suspended = true }) st)
unfolding suspend_user
suspend_user-eq name u st h a = ground arith

put_user-keys : (u : User) (st : UserStore) → (put_user u st).api_keys ≡ st.api_keys
unfolding put_user
put_user-keys u st = refl

-- In a sound store, suspending a user who is no administrator succeeds, and from then on neither a
-- password nor an API key of the user is accepted. An administrator is never suspended, and the
-- store is as it was.
pub suspend_user-works :
    (pbkdf2 : Text → Text → Text) (name : Text) (u : User) (st : UserStore)
    → IsSound st
    → get_user name st ≡ some u
    → (u.is_admin ≡ true → suspend_user name st ≡ (false, st))
      × (u.is_admin ≡ false
          → ((suspend_user name st).0 ≡ true)
            × ((password : Text)
                → verify_password pbkdf2 name password (suspend_user name st).1 ≡ false)
            × ((key : Text)
                → lookup key st.api_keys ≡ some u.username
                → verify_api_key key (suspend_user name st).1 ≡ none))
suspend_user-works pbkdf2 name u st s h =
    let found = get_user-found name u st s h in
    let norm : u.username ≡ normalise u.username =
      found.3 ∙ sym (normalise_idem name) ∙ ap normalise (sym found.3) in
    let gone = record u { suspended = true } in
    (
      λ a. unfold suspend_user in ground arith,
      λ a. rw (suspend_user-eq name u st h a) (
        refl,
        λ password.
            (suspended_stays_out pbkdf2 name [] password _ (put_user gone st)
              (get_user-put_user name gone st found.3) refl).0,
        λ key e.
            (suspended_stays_out pbkdf2 u.username key [] _ (put_user gone st)
                (get_user-put_user u.username gone st norm) refl).1
              (rw (put_user-keys gone st) e),
      ),
    )

-- Deleting a user of a sound store removes the user and ends every API key of the user, and leaves
-- as they were the keys of other users, whose names are in normal form.
pub delete_user-ends_keys :
    (name key owner : Text) (st : UserStore)
    → IsSound st
    → (delete_user name st).0 ≡ true
    → lookup key st.api_keys ≡ some owner
    → (get_user name (delete_user name st).1 ≡ none)
      × (owner ≡ normalise name → verify_api_key key (delete_user name st).1 ≡ none)
      × (owner ≢ normalise name
          → normalise owner ≡ owner
          → verify_api_key key (delete_user name st).1 ≡ verify_api_key key st)
unfolding delete_user get_user verify_api_key save
delete_user-ends_keys name key owner st s done e =
    let mine = normalise name in
    let kept = lookup-keep_values (λ v. not (v == mine)) key st.api_keys s.api_key_keys in
    (
      ground (arith, lookup-erase mine mine st.users, eq_refl mine),
      λ same. ground (arith, kept, eq_iff owner mine),
      λ other norm.
          ground
            (arith, kept, eq_iff owner mine, eq_iff mine owner, lookup-erase mine owner st.users),
    )

-- A revoked key is refused, and every other key is treated as before.
pub revoke_api_key-works :
    (key : Text) (st : UserStore)
    → (verify_api_key key (revoke_api_key key st).1 ≡ none)
      × ((other : Text)
          → other ≢ key
          → verify_api_key other (revoke_api_key key st).1 ≡ verify_api_key other st)
unfolding revoke_api_key verify_api_key get_user
revoke_api_key-works key st = (
  ground (arith, lookup-erase key key st.api_keys, eq_refl key),
  λ other ne. ground (arith, lookup-erase key other st.api_keys, eq_iff key other),
)
