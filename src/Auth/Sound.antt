-- ===== src/Auth/Sound.antt =====
-- The invariant of the user store, kept by every operation of bantu_os/auth/user_store.py.
use bantu_os.Prelude.{ℕ, ◌≡◌, Bool, true, none, some, arith, Option-cases, inl, inr}
use bantu_os.Prelude.Text.{Text, eq_iff}
use bantu_os.Prelude.Dict.{Dict, lookup, has_key, IsDict, lookup-insert, insert-IsDict}
use bantu_os.Auth.Names.{normalise, normalise_idem}
use bantu_os.Auth.{
  User, UserDict, UserStore, load, put_user, to_dict, from_dict, get_user, delete_user,
  update_last_login, suspend_user, reactivate_user, create_api_key, revoke_api_key, create_user,
  set_password,
}

-- Users stand under their own names, which are in normal form; every API key is that of a user.
pub record IsSound (st : UserStore) : Type 0 where
  pub user_keys : IsDict st.users
  pub api_key_keys : IsDict st.api_keys
  pub named :
      (k : Text) (d : UserDict) → lookup k st.users ≡ some d → (d.username ≡ k) × (normalise k ≡ k)
  pub owned : (key name : Text) → lookup key st.api_keys ≡ some name → has_key name st.users ≡ true

pub load-none-IsSound : IsSound (load none)
unfolding load lookup
load-none-IsSound = record {
  user_keys = tt;
  api_key_keys = tt;
  named = λ k d e. absurd (cc);
  owned = λ k n e. absurd (cc);
}

-- A user that `get_user` returns is in the store under the normal form of the name.
pub get_user-found :
    (name : Text) (u : User) (st : UserStore)
    → IsSound st
    → get_user name st ≡ some u
    → (d : UserDict) × (lookup (normalise name) st.users ≡ some d)
      × (u ≡ from_dict d)
      × (u.username ≡ normalise name)
unfolding get_user from_dict
get_user-found name u st s h = elim (Option-cases (lookup (normalise name) st.users)) [
  | inl e ↦ absurd (ground arith)
  | inr (d, e) ↦ (d, e, ground arith, ground (arith, s.named (normalise name) d e))
]

pub put_user-IsSound :
    (u : User) (st : UserStore)
    → IsSound st
    → has_key u.username st.users ≡ true
    → normalise u.username ≡ u.username
    → IsSound (put_user u st)
unfolding put_user
put_user-IsSound u st s there norm = record {
  user_keys = insert-IsDict u.username (to_dict u) st.users s.user_keys;
  api_key_keys = s.api_key_keys;
  named = λ k d e.
      ground
        (arith, lookup-insert u.username k (to_dict u) st.users, eq_iff u.username k, s.named k d);
  owned = λ key name e.
      ground (arith, lookup-insert u.username name (to_dict u) st.users, s.owned key name e);
}

-- The user that was found may be written back, with any fields changed but the name.
pub put_found-IsSound :
    (name : Text) (u v : User) (st : UserStore)
    → IsSound st
    → get_user name st ≡ some u
    → v.username ≡ u.username
    → IsSound (put_user v st)
put_found-IsSound name u v st s h same =
    let found = get_user-found name u st s h in
    put_user-IsSound v st s (ground (arith, found.1, found.3))
      (ground (arith, found.3, normalise_idem name))

-- One operation of the store, with whatever arguments.
pub data Step (pbkdf2 : Text → Text → Text) (st : UserStore) : UserStore → Type 0 where
  create :
      (now now' : ℕ) (salt name password : Text) (is_admin : Bool) (metadata : Dict Text)
      → Step pbkdf2 st (create_user pbkdf2 now now' salt name password is_admin metadata st).1
  delete : (name : Text) → Step pbkdf2 st (delete_user name st).1
  change_password :
      (salt name password : Text) → Step pbkdf2 st (set_password pbkdf2 salt name password st).1
  login : (now : ℕ) (name : Text) → Step pbkdf2 st (update_last_login now name st)
  suspend : (name : Text) → Step pbkdf2 st (suspend_user name st).1
  reactivate : (name : Text) → Step pbkdf2 st (reactivate_user name st).1
  new_key : (now : ℕ) (api_key name : Text) → Step pbkdf2 st (create_api_key now api_key name st).1
  revoke : (api_key : Text) → Step pbkdf2 st (revoke_api_key api_key st).1
