-- ===== src/Api/KeyStore.antt =====
-- bantu_os/api/api_key_store.py: API keys by the digest of the key. `sha256` is the parameter
-- `hash`, and what `secrets` draws is an argument.
use bantu_os.Prelude.{
  ℕ, ◌≡◌, ◌≢◌, refl, Bool, true, false, not, ◌&&◌, Option, none, some, List, [], arith, ltb, eqb,
  if◌then◌else◌,
}
use bantu_os.Prelude.Text.{Text, codes, eq_iff, eq_refl}
use bantu_os.Prelude.Dict.{
  Dict, lookup, has_key, insert, erase, values, lookup-insert, lookup-erase,
}

pub record Entry : Type 0 where
  pub key_id : Text
  pub created_at : ℕ
  pub tier : Text
  pub rate_limit : ℕ
  pub label : Text
  pub expires_at : Option ℕ

-- The cache and the file; `none` is no file, or one that cannot be read.
pub record KeyStore : Type 0 where
  pub cache : Dict Entry
  pub file : Option (Dict Entry)

unfoldable pub load : Option (Dict Entry) → KeyStore
load none = record { cache = []; file = none }
load (some d) = record { cache = d; file = some d }

unfoldable pub save : KeyStore → KeyStore
save s = record s { file = some s.cache }

-- `entry.get("expires_at") and entry["expires_at"] < time.time()`: 0 is no time.
unfoldable pub is_expired : ℕ → Option ℕ → Bool
is_expired now none = false
is_expired now (some t) = not (eqb t 0) && ltb t now

pub record KeyInfo : Type 0 where
  pub key_id : Text
  pub tier : Text
  pub rate_limit : ℕ
  pub label : Text
  pub created_at : ℕ

info_of : Option Entry → KeyInfo
info_of none = record {
  key_id = [];
  tier = codes "free";
  rate_limit = 60;
  label = [];
  created_at = 0;
}
info_of (some e) = record {
  key_id = e.key_id;
  tier = e.tier;
  rate_limit = e.rate_limit;
  label = e.label;
  created_at = e.created_at;
}

-- `list_keys`
unfoldable pub list_keys : KeyStore → List Entry
list_keys s = values s.cache

module _ (hash : Text → Text) where
  unfoldable pub verify : ℕ → Text → KeyStore → Bool
  unfolding is_expired
  verify now key s = elim (lookup (hash key) s.cache) [
    | none ↦ false
    | some e ↦ if is_expired now e.expires_at then false else true
  ]

  unfoldable pub get_key_info : Text → KeyStore → KeyInfo
  unfolding info_of
  get_key_info key s = info_of (lookup (hash key) s.cache)

  -- `if expires_at: entry["expires_at"] = expires_at`
  unfoldable pub create_key :
      ℕ → Text → Text → Text → ℕ → Text → Option ℕ → KeyStore → (Text × Entry) × KeyStore
  unfolding save
  create_key now key_id full_key tier rate_limit label expires_at s =
      let entry : Entry = record {
        key_id = key_id;
        created_at = now;
        tier = tier;
        rate_limit = rate_limit;
        label = label;
        expires_at = elim expires_at [ none ↦ none | some t ↦ if eqb t 0 then none else some t ];
      } in
      ((full_key, entry), save (record s { cache = insert (hash full_key) entry s.cache }))

  unfoldable pub revoke : Text → KeyStore → Bool × KeyStore
  unfolding save
  revoke key s =
      if has_key (hash key) s.cache
      then (true, save (record s { cache = erase (hash key) s.cache }))
      else (false, s)

  -- A key that was created is accepted until its time of expiry, and forever if it has none (a time
  -- of 0 is none), and its information is what it was created with; keys with another digest are
  -- treated as before; reading the file back gives the store.
  pub create_key-verifies :
      (now later : ℕ) (key_id key tier : Text) (rate_limit : ℕ) (label : Text)
      (expires_at : Option ℕ) (other : Text) (s : KeyStore)
      → let s' = (create_key now key_id key tier rate_limit label expires_at s).1 in
        (verify later key s' ≡ not (is_expired later expires_at))
        × ((get_key_info key s').rate_limit ≡ rate_limit)
        × ((get_key_info key s').tier ≡ tier)
        × (hash other ≢ hash key → verify later other s' ≡ verify later other s)
        × (load s'.file ≡ s')
  unfolding create_key verify get_key_info load
  create_key-verifies now later key_id key tier rate_limit label expires_at other s =
      let entry = (create_key now key_id key tier rate_limit label expires_at s).0.1 in
      let own = lookup-insert (hash key) (hash key) entry s.cache in
      (
        ground (arith, own, eq_refl (hash key)),
        ground (arith, own, eq_refl (hash key)),
        ground (arith, own, eq_refl (hash key)),
        λ ne. ground (
          arith,
          lookup-insert (hash key) (hash other) entry s.cache,
          eq_iff (hash key) (hash other),
        ),
        refl,
      )

  -- A revoked key is refused at any time, revoking it again does nothing, and keys with another
  -- digest are treated as before.
  pub revoke-refuses :
      (later : ℕ) (key other : Text) (s : KeyStore)
      → (verify later key (revoke key s).1 ≡ false)
        × (revoke key (revoke key s).1 ≡ (false, (revoke key s).1))
        × (hash other ≢ hash key → verify later other (revoke key s).1 ≡ verify later other s)
  unfolding revoke verify
  revoke-refuses later key other s =
      let own = lookup-erase (hash key) (hash key) s.cache in
      (
        ground (arith, own, eq_refl (hash key)),
        ground (arith, own, eq_refl (hash key)),
        λ ne.
            ground
              (arith, lookup-erase (hash key) (hash other) s.cache, eq_iff (hash key) (hash other)),
      )
