-- ===== src/Auth/Tests.antt =====
-- Concrete runs of the user store.
use bantu_os.Auth.Reload.{Step-load}
use bantu_os.Prelude.{ℕ, ◌≡◌, ◌≢◌, refl, Bool, true, false, none, [], ◌∷◌, ◌++◌, arith, err}
use bantu_os.Prelude.Text.{Text, codes, ◌==◌, lower}
use bantu_os.Prelude.Dict.{Dict, lookup, insert}
use bantu_os.Auth.Names.{normalise, rstrip, lstrip, is_space}
use bantu_os.Auth.{
  UserDict, UserStore, load, save, from_dict, to_dict, new_user, get_user, put_user, delete_user,
  verify_password, create_user, create_api_key, user_exists,
}
use bantu_os.Auth.Sound.{IsSound, load-none-IsSound, Step}
use bantu_os.Auth.Steps.{Step-IsSound}
use bantu_os.Auth.Credentials.{create_user-verifies}

-- A digest that is never empty.
abbrev digest : Text → Text → Text
digest password salt = 1 ∷ (password ++ salt)

digest-nonempty : (password salt : Text) → digest password salt ≢ []
digest-nonempty password salt = λ e. absurd (ground (arith, e))

abbrev first_user : UserDict
first_user = new_user digest 1 2 (codes "salt") (codes "ann") (codes "secret") false []

-- One user, without and with an API key.
abbrev one_user : UserStore
one_user =
    (create_user digest 1 2 (codes "salt") (codes "Ann") (codes "secret") false [] (load none)).1

one_user-IsSound : IsSound one_user
one_user-IsSound =
    Step-IsSound digest (Step.create 1 2 (codes "salt") (codes "Ann") (codes "secret") false [])
      load-none-IsSound

abbrev with_key : UserStore
with_key = (create_api_key 3 (codes "key") (codes "ann") one_user).1

with_key-IsSound : IsSound with_key
with_key-IsSound = Step-IsSound digest (Step.new_key 3 (codes "key") (codes "ann")) one_user-IsSound

Step-IsSound_example : let st' : UserStore = (delete_user (codes "ann") one_user).1 in IsSound st'
Step-IsSound_example = Step-IsSound digest (Step.delete (codes "ann")) one_user-IsSound

create_user-verifies_example :
    let pbkdf2 : Text → Text → Text = digest in
    let now : ℕ = 1 in
    let now' : ℕ = 2 in
    let salt : Text = codes "salt" in
    let spelling : Text = codes "ANN" in
    let password : Text = codes "secret" in
    let attempt : Text = codes "guess" in
    let is_admin : Bool = false in
    let metadata : Dict Text = [] in
    let st' : UserStore = one_user in
    (verify_password pbkdf2 spelling attempt st' ≡ (pbkdf2 attempt salt == pbkdf2 password salt))
    × (create_user pbkdf2 8 9 (codes "pepper") spelling attempt true [] st'
        ≡ (err user_exists, st'))
unfolding create_user create_api_key put_user to_dict new_user load save get_user from_dict
    normalise lookup insert ◌==◌ lower rstrip lstrip is_space
create_user-verifies_example =
    create_user-verifies digest 1 2 (codes "salt") (codes "Ann") (codes "ANN") (codes "secret")
      (codes "guess") false [] (from_dict first_user) (load none) one_user 8 9 (codes "pepper") true
      [] refl refl

load-none : load (load none).file ≡ load none
unfolding load
load-none = refl

one_user-reload : load one_user.file ≡ one_user
one_user-reload =
    Step-load digest (load none) one_user load-none-IsSound load-none
      (Step.create 1 2 (codes "salt") (codes "Ann") (codes "secret") false [])

Step-load_example : let st' : UserStore = with_key in load st'.file ≡ st'
Step-load_example =
    Step-load digest one_user with_key one_user-IsSound one_user-reload
      (Step.new_key 3 (codes "key") (codes "ann"))
