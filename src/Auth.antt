-- ===== src/Auth.antt =====
-- bantu_os/auth/user_store.py and bantu_os/auth/password.py: users, passwords and API keys.
-- `hashlib.pbkdf2_hmac` is the parameter `pbkdf2`, and what `secrets` draws is an argument.
mod Tests
pub mod Names
pub mod Sound
pub mod Steps
pub mod Access
pub mod Credentials
pub mod Reload
use bantu_os.Prelude.{
  ℕ, ◌≡◌, Bool, true, false, not, Option, none, some, List, [], ◌∷◌, arith, ltb, length, Result, ok,
  err, filter, is_some, ◌||◌, if◌then◌else◌,
}
use bantu_os.Prelude.Text.{Text, codes, ◌==◌}
use bantu_os.Prelude.Dict.{Dict, lookup, has_key, insert, erase, values, keep_values}
use bantu_os.Auth.Names.{normalise}

-- `User`; the values of `metadata` are JSON texts.
pub record User : Type 0 where
  pub username : Text
  pub created_at : ℕ
  pub last_login : ℕ
  pub api_key_hash : Text
  pub api_key_salt : Text
  pub is_admin : Bool
  pub is_active : Bool
  pub suspended : Bool
  pub metadata : Dict Text

-- The dict that stands for a user in `_users`. The entries "api_key_hash" and "api_key_salt" come
-- and go together, as `secret`.
pub record UserDict : Type 0 where
  pub username : Text
  pub created_at : ℕ
  pub last_login : ℕ
  pub is_admin : Bool
  pub is_active : Bool
  pub suspended : Bool
  pub metadata : Dict Text
  pub secret : Option (Text × Text)

-- `User.to_dict`: it has no entry for the hash and the salt.
unfoldable pub to_dict : User → UserDict
to_dict u = record {
  username = u.username;
  created_at = u.created_at;
  last_login = u.last_login;
  is_admin = u.is_admin;
  is_active = u.is_active;
  suspended = u.suspended;
  metadata = u.metadata;
  secret = none;
}

abbrev pub hash_of : Option (Text × Text) → Text
hash_of none = []
hash_of (some (h, s)) = h

abbrev pub salt_of : Option (Text × Text) → Text
salt_of none = []
salt_of (some (h, s)) = s

-- `User(**d)`: a missing entry takes the default of the dataclass.
unfoldable pub from_dict : UserDict → User
from_dict d = record {
  username = d.username;
  created_at = d.created_at;
  last_login = d.last_login;
  api_key_hash = hash_of d.secret;
  api_key_salt = salt_of d.secret;
  is_admin = d.is_admin;
  is_active = d.is_active;
  suspended = d.suspended;
  metadata = d.metadata;
}

-- What `_save` writes: the JSON object.
pub record Saved : Type 0 where
  pub version : ℕ
  pub users : List UserDict
  pub api_keys : Dict Text

-- The store and the file behind it, `none` while there is no file.
pub record UserStore : Type 0 where
  pub version : ℕ
  pub users : Dict UserDict
  pub api_keys : Dict Text
  pub file : Option Saved

-- `{u["username"]: u for u in data.get("users", [])}`
abbrev pub by_username : List UserDict → Dict UserDict → Dict UserDict
by_username [] d = d
by_username (u ∷ us) d = by_username us (insert u.username u d)

unfoldable pub load : Option Saved → UserStore
load none = record { version = 1; users = []; api_keys = []; file = none }
load (some data_) = record {
  version = data_.version;
  users = by_username data_.users [];
  api_keys = data_.api_keys;
  file = some data_;
}

unfoldable pub save : UserStore → UserStore
save st = record st {
  file = some (record { version = st.version; users = values st.users; api_keys = st.api_keys });
}

pub data StoreError : Type 0 where
  name_too_short user_exists user_not_found : StoreError

unfoldable pub get_user : Text → UserStore → Option User
get_user name st = elim (lookup (normalise name) st.users) [
  | none ↦ none
  | some d ↦ some (from_dict d)
]

-- `self._users[user.username] = user.to_dict()` and `self._save()`
unfoldable pub put_user : User → UserStore → UserStore
unfolding to_dict save
put_user u st = save (record st { users = insert u.username (to_dict u) st.users })

unfoldable pub list_users : UserStore → List User
list_users st = users_of (values st.users)
  where
    users_of : List UserDict → List User
    users_of [] = []
    users_of (d ∷ ds) = from_dict d ∷ users_of ds

-- `del self._users[key]`, and the keys of other users.
unfoldable pub delete_user : Text → UserStore → Bool × UserStore
unfolding save
delete_user name st =
    let key = normalise name in
    if has_key key st.users
    then (
      true,
      save (record st {
        users = erase key st.users;
        api_keys = keep_values (λ v. not (v == key)) st.api_keys;
      }),
    )
    else (false, st)

-- An unknown user is an error, a known one is written back changed.
unfoldable pub update_last_login : ℕ → Text → UserStore → UserStore
update_last_login now name st = elim (get_user name st) [
  | none ↦ st
  | some u ↦ put_user (record u { last_login = now }) st
]

unfoldable pub suspend_user : Text → UserStore → Bool × UserStore
suspend_user name st = elim (get_user name st) [
  | none ↦ (false, st)
  | some u ↦ if u.is_admin then (false, st) else (true, put_user (record u { suspended = true }) st)
]

unfoldable pub reactivate_user : Text → UserStore → Bool × UserStore
reactivate_user name st = elim (get_user name st) [
  | none ↦ (false, st)
  | some u ↦ (true, put_user (record u { suspended = false }) st)
]

-- `api_key` is what `generate_api_key` draws; the hint that is returned beside it is a constant.
unfoldable pub create_api_key : ℕ → Text → Text → UserStore → Result StoreError Text × UserStore
create_api_key now api_key name st = elim (get_user name st) [
  | none ↦ (err user_not_found, st)
  | some u ↦ (
    ok api_key,
    put_user (record u { last_login = now })
        (record st { api_keys = insert api_key u.username st.api_keys }),
  )
]

unfoldable pub revoke_api_key : Text → UserStore → Bool × UserStore
unfolding save
revoke_api_key api_key st =
    if has_key api_key st.api_keys
    then (true, save (record st { api_keys = erase api_key st.api_keys }))
    else (false, st)

abbrev not_suspended : Option User → Option User
not_suspended none = none
not_suspended (some u) = if u.suspended then none else some u

unfoldable pub verify_api_key : Text → UserStore → Option User
verify_api_key api_key st = elim (lookup api_key st.api_keys) [
  | none ↦ none
  | some name ↦ not_suspended (get_user name st)
]

-- The digest of a password and a salt, in hexadecimal.
module _ (pbkdf2 : Text → Text → Text) where
  -- `verify_password` of password.py
  unfoldable pub matches : Text → Text → Text → Bool
  matches password hash salt = pbkdf2 password salt == hash

  unfoldable pub new_user : ℕ → ℕ → Text → Text → Text → Bool → Dict Text → UserDict
  new_user now now' salt key password is_admin metadata = record {
    username = key;
    created_at = now;
    last_login = now';
    is_admin = is_admin;
    is_active = true;
    suspended = false;
    metadata = metadata;
    secret = some (pbkdf2 password salt, salt);
  }

  -- `now` and `now'` are two readings of the clock, `salt` is drawn by `secrets.token_hex`.
  unfoldable pub create_user :
      ℕ → ℕ → Text → Text → Text → Bool → Dict Text → UserStore → Result StoreError User × UserStore
  unfolding new_user
  create_user now now' salt name password is_admin metadata st =
      let key = normalise name in
      if ltb (length key) 2
      then (err name_too_short, st)
      else if has_key key st.users
      then (err user_exists, st)
      else (let d = new_user now now' salt key password is_admin metadata in
          (ok (from_dict d), save (record st { users = insert key d st.users })))

  unfoldable pub verify_password : Text → Text → UserStore → Bool
  verify_password name password st = elim (get_user name st) [
    | none ↦ false
    | some u ↦ if u.suspended then false else matches password u.api_key_hash u.api_key_salt
  ]

  unfoldable pub set_password :
      Text → Text → Text → UserStore → Result StoreError (Unit {0}) × UserStore
  set_password salt name password st = elim (get_user name st) [
    | none ↦ (err user_not_found, st)
    | some u ↦
        (ok tt, put_user (record u { api_key_hash = pbkdf2 password salt; api_key_salt = salt }) st)
  ]
