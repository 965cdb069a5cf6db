-- ===== src/Auth/Credentials.antt =====
-- What becomes of a password: it is checked against the digest that `create_user` stored, and it is
-- lost when the user is written back through `User.to_dict`.
use bantu_os.Prelude.{ℕ, ◌≡◌, ◌≢◌, refl, [], Bool, false, some, ok, err, arith}
use bantu_os.Prelude.Text.{Text, ◌==◌, eq_iff}
use bantu_os.Prelude.Dict.{Dict, lookup-insert}
use bantu_os.Auth.Names.{normalise}
use bantu_os.Auth.{
  User, UserStore, get_user, put_user, matches, new_user, create_user, verify_password,
  set_password, update_last_login, reactivate_user, create_api_key, from_dict, save, user_exists,
}
use bantu_os.Auth.Sound.{IsSound, get_user-found}
use bantu_os.Auth.Access.{get_user-put_user}

module _ (pbkdf2 : Text → Text → Text) where
  -- After a user was created, exactly the passwords that have the stored digest are accepted, under
  -- every spelling of the name; creating a user of that name again is refused, whenever and with
  -- whatever salt, password and other data, and changes nothing.
  pub create_user-verifies :
      (now now' : ℕ) (salt name spelling password attempt : Text) (is_admin : Bool)
      (metadata : Dict Text) (u : User) (st st' : UserStore) (later later' : ℕ) (salt' : Text)
      (is_admin' : Bool) (metadata' : Dict Text)
      → create_user pbkdf2 now now' salt name password is_admin metadata st ≡ (ok u, st')
      → normalise spelling ≡ normalise name
      → (verify_password pbkdf2 spelling attempt st'
          ≡ (pbkdf2 attempt salt == pbkdf2 password salt))
        × (create_user pbkdf2 later later' salt' spelling attempt is_admin' metadata' st'
            ≡ (err user_exists, st'))
  unfolding create_user verify_password get_user from_dict matches save
  create_user-verifies now now' salt name spelling password attempt is_admin metadata u st st' later
        later' salt' is_admin' metadata' h same =
      let d = new_user pbkdf2 now now' salt (normalise name) password is_admin metadata in
      let found = lookup-insert (normalise name) (normalise spelling) d st.users in
      let same_key = eq_iff (normalise name) (normalise spelling) in
      (ground (arith, found, same_key), ground (arith, found, same_key))

  -- A digest is never the empty text: it is 64 hexadecimal digits.
  module _ (nonempty : (password salt : Text) → pbkdf2 password salt ≢ []) where
    locked :
        (name attempt : Text) (u : User) (st : UserStore)
        → u.username ≡ normalise name
        → verify_password pbkdf2 name attempt (put_user u st) ≡ false
    unfolding verify_password matches
    locked name attempt u st e =
        ground
          (arith, get_user-put_user name u st e, eq_iff (pbkdf2 attempt []) [], nonempty attempt [])

    -- Changing the password of a user of a sound store locks the user out: the change reports no
    -- error, and afterwards no password is accepted, not even the new one, since the digest is not
    -- among what is written back. A digest is taken to be never the empty text.
    pub set_password_locks_out :
        (salt name password attempt : Text) (u : User) (st : UserStore)
        → IsSound st
        → get_user name st ≡ some u
        → ((set_password pbkdf2 salt name password st).0 ≡ ok tt)
          × (verify_password pbkdf2 name attempt (set_password pbkdf2 salt name password st).1
              ≡ false)
    unfolding set_password
    set_password_locks_out salt name password attempt u st s h =
        let found = get_user-found name u st s h in
        rw (h, set_password) (refl, locked name attempt _ st found.3)

    -- A login, the reactivation of a user and the making of an API key lock the user of a sound
    -- store out: after each of them no password is accepted. A digest is taken to be never the
    -- empty text.
    pub write_back_locks_out :
        (now : ℕ) (api_key name attempt : Text) (u : User) (st : UserStore)
        → IsSound st
        → get_user name st ≡ some u
        → (verify_password pbkdf2 name attempt (update_last_login now name st) ≡ false)
          × (verify_password pbkdf2 name attempt (reactivate_user name st).1 ≡ false)
          × (verify_password pbkdf2 name attempt (create_api_key now api_key name st).1 ≡ false)
    unfolding update_last_login reactivate_user create_api_key
    write_back_locks_out now api_key name attempt u st s h =
        let found = get_user-found name u st s h in
        (
          rw (h, update_last_login) (locked name attempt _ st found.3),
          rw (h, reactivate_user) (locked name attempt _ st found.3),
          rw (h, create_api_key) (locked name attempt _ _ found.3),
        )
