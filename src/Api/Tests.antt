-- ===== src/Api/Tests.antt =====
-- Concrete runs of the rate limiter and of the store of API keys.
use bantu_os.Prelude.{ℕ, ◌≡◌, refl, Option, none, some, List, [], ◌∷◌, arith}
use bantu_os.Prelude.Text.{Text, codes}
use bantu_os.Prelude.Dict.{lookup}
use bantu_os.Api.RateLimiter.{Buckets, limit_of, bucket_of}
use bantu_os.Api.RateLimiter.Window.{run_checks, spec_checks, run_checks-eq-spec_checks}
use bantu_os.Api.KeyStore.{KeyStore, load, create_key}

abbrev digest : Text → Text
digest key = 1 ∷ key

abbrev one_key : KeyStore
one_key =
    (create_key digest 5 (codes "id") (codes "key") (codes "pro") 100 (codes "mine") none
      (load none)).1

run_checks-eq-spec_checks_example :
    let key : Text = codes "key" in
    let limit : Option ℕ = some 2 in
    let times : List ℕ = 1 ∷ 2 ∷ 3 ∷ 60002 ∷ [] in
    let bs : Buckets = [] in run_checks key limit times bs ≡ spec_checks (limit_of limit) times []
unfolding bucket_of lookup
run_checks-eq-spec_checks_example =
    run_checks-eq-spec_checks (codes "key") (some 2) 0 (1 ∷ 2 ∷ 3 ∷ 60002 ∷ []) [] refl
      ((omega arith, (omega arith, (omega arith, (omega arith, tt)))))
