-- ===== src/Services/Mpesa/Requests.antt =====
-- What is asked of M-Pesa, and when it ends.
use bantu_os.Prelude.{
  ℕ, zero, suc, ◌+◌, ◌*◌, ◌≤◌, ◌<◌, ◌≡◌, inl, inr, refl, Bool, true, false, ◌&&◌, Option, none,
  Result, some, ok, err, ltb, Bool-cases, arith,
}
use mathlib.Core.Path.{subst}
use bantu_os.Prelude.Text.{Text}
use bantu_os.Prelude.Int.{ℤ}
use bantu_os.Services.Mpesa.{
  Api, TokenReply, Code, missing, number, text, Query, FintechService, FintechError, is_set,
  is_positive, is_msisdn, normalize_msisdn, get_token, token_of, Polled, answered, poll_loop, poll,
  request_mpesa,
}

second : (a b : Bool) → a ≡ true → (a && b) ≡ false → b ≡ false
second a b h k = ground arith

module _ {W : Type 0} (api : Api W) where
  -- The poll ended: with a status, or with an exception of a query.
  abbrev pub IsAnswer : Option (Result Text Text) → Type 0
  IsAnswer none = ⊥
  IsAnswer (some (ok status)) = Unit
  IsAnswer (some (err e)) =
      (token : Text) × (q : Query) × (w : W) × ((api.query token q w).0 ≡ err e)

  answered-IsAnswer :
      (token : Text) (q : Query) (v : W) (code : Result Text Code) (again : Polled api) (w : W)
      → (api.query token q v).0 ≡ code
      → IsAnswer again.0
      → IsAnswer (answered api code again w).0
  unfolding answered
  answered-IsAnswer token q v (err e) again w h k = (token, q, v, h)
  answered-IsAnswer token q v (ok missing) again w h k = k
  answered-IsAnswer token q v (ok (number zero)) again w h k = tt
  answered-IsAnswer token q v (ok (number (suc n))) again w h k = tt
  answered-IsAnswer token q v (ok (text s)) again w h k = tt

  -- A query takes no time back, and a sleep takes its time.
  module _
      (forward : (token : Text) (q : Query) (w : W) → api.time w ≤ api.time (api.query token q w).1)
      (sleeps : (n : ℕ) (w : W) → api.time w + n ≤ api.time (api.sleep n w)) where
    poll_loop-IsAnswer :
        (f deadline : ℕ) (token : Text) (q : Query) (w : W)
        → deadline ≤ api.time w + 2000 * f
        → IsAnswer (poll_loop api (suc f) deadline token q w).0
    unfolding poll_loop
    poll_loop-IsAnswer zero deadline token q w h = elim (Bool-cases (ltb (api.time w) deadline)) [
      | inr late ↦ rw (poll_loop, late) tt
      | inl early ↦ absurd (ground arith)
    ]
    poll_loop-IsAnswer (suc f) deadline token q w h =
        let w' = (api.query token q w).1 in
        let next = api.sleep 2000 w' in
        let rest =
          poll_loop-IsAnswer f deadline token q next
            (omega (arith, forward token q w, sleeps 2000 w')) in
        elim (Bool-cases (ltb (api.time w) deadline)) [
          | inr late ↦ rw (poll_loop, late) tt
          | inl early ↦
              rw (poll_loop, early)
                (answered-IsAnswer token q w (api.query token q w).0 _ w' refl rest)
        ]

    -- On a clock that goes forward, by a sleep at least as far as it lasts, the poll for a payment
    -- ends within its rounds, with a status or with an exception that a query raises: the clock
    -- passes the deadline of 60 seconds at the latest after 30 sleeps.
    pub poll-ends :
        (token checkout_id : Text) (s : FintechService) (w : W)
        → IsAnswer (poll api token checkout_id s w).0
    unfolding poll
    poll-ends token checkout_id s w =
        poll_loop-IsAnswer 30 (api.time w + 60000) token _ w (omega arith)

  -- A request whose amount is not positive, or whose number has not twelve digits in normal form,
  -- is refused: nothing is sent, no token is fetched and nothing changes.
  pub request_mpesa-refuses :
      (phone : Text) (amount : ℤ) (reference : Text) (s : FintechService) (w : W)
      → (is_positive amount && is_msisdn (normalize_msisdn phone)) ≡ false
      → (e : FintechError) × (request_mpesa api phone amount reference s w ≡ (err e, s, w))
  unfolding request_mpesa
  request_mpesa-refuses phone amount reference s w h =
      elim (Bool-cases (is_set s.consumer_key && is_set s.consumer_secret && is_set s.shortcode)) [
        | inr e ↦ (FintechError.environment_error, rw e refl)
        | inl e ↦ elim (Bool-cases (is_set s.passkey)) [
          | inr f ↦ (FintechError.environment_error, rw (e, f) refl)
          | inl f ↦ elim (Bool-cases (is_positive amount)) [
            | inr g ↦ (FintechError.value_error, rw (e, f, g) refl)
            | inl g ↦ (
              FintechError.value_error,
              rw (e, f, g, second (is_positive amount) (is_msisdn (normalize_msisdn phone)) g h)
                  refl,
            )
          ]
        ]
      ]

  token_of-holds :
      (now : ℕ) (reply : TokenReply) (s : FintechService) (token : Text)
      → (token_of api now reply s).0 ≡ ok token
      → (is_set token ≡ true) × ((token_of api now reply s).1.token ≡ token)
  unfolding token_of
  token_of-holds now reply s token h = ground arith

  get_token-holds :
      (s : FintechService) (w : W) (token : Text)
      → (get_token api s w).0 ≡ ok token
      → (is_set token ≡ true) × ((get_token api s w).1.token ≡ token)
  unfolding get_token
  get_token-holds s w token h =
      elim (Bool-cases (is_set s.token && ltb (api.time w) s.token_expires_at)) [
        | inl e ↦ ground arith
        | inr e ↦ ground (
          arith,
          token_of-holds (api.time w) (api.generate s.consumer_key s.consumer_secret w).0 s token,
        )
      ]

  get_token-used :
      (s : FintechService) (v : W)
      → is_set s.token ≡ true
      → api.time v < s.token_expires_at
      → get_token api s v ≡ (ok s.token, s, v)
  unfolding get_token
  get_token-used s v h early = ground arith

  -- A token that was fetched is used again until a minute before it expires: a second call before
  -- that gives the same token, sends nothing and changes nothing.
  pub get_token-cached :
      (s : FintechService) (w v : W) (token : Text)
      → let (r, s', w') = get_token api s w in
        r ≡ ok token → api.time v < s'.token_expires_at → get_token api s' v ≡ (ok token, s', v)
  get_token-cached s w v token h early =
      let (set, same) = get_token-holds s w token h in
      subst (λ t. get_token api (get_token api s w).1 v ≡ (ok t, (get_token api s w).1, v)) same
        (get_token-used (get_token api s w).1 v (rw same set) early)
