-- ===== src/Services/Mpesa.antt =====
-- The M-Pesa part of `FintechService` in bantu_os/services/fintech/fintech_service.py. Safaricom's
-- API, base64 and the clock are a parameter, on a world `W`; times are milliseconds. An exception of the
-- connection leaves every method as it is, and is left out.
pub mod Numbers
pub mod Requests
use bantu_os.Prelude.{
  ℕ, zero, suc, ◌+◌, ◌-◌, ◌*◌, ◌≡◌, Bool, true, false, not, ◌&&◌, ◌||◌, List, [], ◌∷◌, ◌++◌, Option,
  none, some, Result, ok, err, filter, length, leb, ltb, eqb, if◌then◌else◌,
}
use bantu_os.Prelude.Text.{Text, codes, concat, starts_with, ◌==◌}
use bantu_os.Prelude.Decimal.{decimal}
use bantu_os.Prelude.Int.{ℤ, pos, negsuc}

-- A code in a JSON answer.
pub data Code : Type 0 where
  missing : Code
  number : ℕ → Code
  text : Text → Code

-- `access_token` is `none` if it is no text, `expires_in` if it is no number.
pub record TokenReply : Type 0 where
  pub status : ℕ
  pub access_token : Option Text
  pub expires_in : Option ℕ

pub record PushReply : Type 0 where
  pub status : ℕ
  pub response_code : Code
  pub error_message : Text
  pub checkout_id : Text

pub record Payload : Type 0 where
  pub short_code : Text
  pub password : Text
  pub timestamp : Text
  pub amount : Text
  pub phone : Text
  pub callback_url : Text
  pub reference : Text
  pub description : Text

pub record Query : Type 0 where
  pub short_code : Text
  pub password : Text
  pub timestamp : Text
  pub checkout_id : Text

pub record Api (W : Type 0) : Type 0 where
  pub time : W → ℕ
  pub timestamp : W → Text
  pub b64encode : Text → Text
  pub sleep : ℕ → W → W
  pub generate : Text → Text → W → TokenReply × W
  pub processrequest : Text → Payload → W → PushReply × W
  pub query : Text → Query → W → Result Text Code × W

-- An unset variable is the empty text; so is a token that was never fetched.
pub record FintechService : Type 0 where
  pub consumer_key : Text
  pub consumer_secret : Text
  pub shortcode : Text
  pub passkey : Text
  pub callback_url : Text
  pub token : Text
  pub token_expires_at : ℕ

pub data FintechError : Type 0 where
  environment_error value_error auth_error no_access_token no_checkout_id out_of_fuel : FintechError
  mpesa_error raised : Text → FintechError

abbrev pub is_set : Text → Bool
is_set [] = false
is_set (c ∷ s) = true

unfoldable pub is_digit : ℕ → Bool
is_digit c = leb 48 c && leb c 57

-- `digits[1:]`
unfoldable pub tail : Text → Text
tail [] = []
tail (c ∷ s) = s

unfoldable pub normalize_msisdn : Text → Text
unfolding is_digit tail
normalize_msisdn phone =
    let digits = filter is_digit phone in
    if starts_with digits (codes "0")
    then codes "254" ++ tail digits
    else if not (starts_with digits (codes "254"))
    then codes "254" ++ digits
    else digits

-- 3600 seconds if there is no number above 60.
unfoldable pub lifetime : Option ℕ → ℕ
lifetime none = 3600
lifetime (some n) = if leb n 60 then 3600 else n

unfoldable pub is_accepted : Code → Bool
is_accepted missing = true
is_accepted (number n) = eqb n 0
is_accepted (text s) = s == codes "0"

-- `amount <= 0` is a `ValueError`.
unfoldable pub is_positive : ℤ → Bool
is_positive (pos n) = not (eqb n 0)
is_positive (negsuc n) = false

unfoldable pub amount_text : ℤ → Text
amount_text (pos n) = decimal n
amount_text (negsuc n) = codes "-" ++ decimal (n + 1)

unfoldable pub is_msisdn : Text → Bool
is_msisdn phone = eqb (length phone) 12 && starts_with phone (codes "254")

module _ {W : Type 0} (api : Api W) where
  password_of : FintechService → W → Text
  password_of s w = api.b64encode (concat (s.shortcode ∷ s.passkey ∷ api.timestamp w ∷ []))

  token_of : ℕ → TokenReply → FintechService → Result FintechError Text × FintechService
  token_of now reply s =
      if leb 400 reply.status then (err auth_error, s) else elim reply.access_token [
        | none ↦ (err no_access_token, s)
        | some token ↦ if not (is_set token) then (err no_access_token, s) else (
          ok token,
          record s {
            token = token;
            token_expires_at = now + lifetime reply.expires_in * 1000 - 60000;
          },
        )
      ]

  unfoldable pub get_token : FintechService → W → Result FintechError Text × FintechService × W
  unfolding token_of
  get_token s w =
      let now = api.time w in
      let (reply, w') = api.generate s.consumer_key s.consumer_secret w in
      let (r, s') = token_of now reply s in
      if is_set s.token && ltb now s.token_expires_at then (ok s.token, s, w) else (r, s', w')

  -- What follows an answer; without a result code it is asked again.
  -- A status or an exception, `none` where the fuel is not enough.
  abbrev pub Polled : Type 0
  Polled = Option (Result Text Text) × W

  -- The text of an exception is not caught: that of an answer that is no JSON or no dict.
  answered : Result Text Code → Polled → W → Polled
  answered (err e) again w = (some (err e), w)
  answered (ok missing) again w = again
  answered (ok (number zero)) again w = (some (ok (codes "completed")), w)
  answered (ok (number n)) again w = (some (ok (codes "failed:code_" ++ decimal n)), w)
  answered (ok (text s)) again w = (some (ok (codes "failed:code_" ++ s)), w)

  -- `while time.time() < deadline`
  unfoldable pub poll_loop : ℕ → ℕ → Text → Query → W → Polled
  unfolding answered
  poll_loop zero deadline token q w = (none, w)
  poll_loop (suc f) deadline token q w =
      let (code, w') = api.query token q w in
      let again = poll_loop f deadline token q (api.sleep 2000 w') in
      if ltb (api.time w) deadline then answered code again w' else (some (ok (codes "timeout")), w)

  -- 60 seconds of at least two for a round; one more round sees the deadline.
  abbrev pub poll_fuel : ℕ
  poll_fuel = 31

  unfoldable pub poll : Text → Text → FintechService → W → Polled
  unfolding password_of
  poll token checkout_id s w =
      let q : Query = record {
        short_code = s.shortcode;
        password = password_of s w;
        timestamp = api.timestamp w;
        checkout_id = checkout_id;
      } in
      poll_loop poll_fuel (api.time w + 60000) token q w

  unfoldable pub payload_of : Text → ℤ → Text → FintechService → W → Payload
  unfolding password_of
  payload_of phone amount reference s w = record {
    short_code = s.shortcode;
    password = password_of s w;
    timestamp = api.timestamp w;
    amount = amount_text amount;
    phone = phone;
    callback_url =
        if is_set s.callback_url
        then s.callback_url
        else codes "https://bantu-os.local/mpesa/callback";
    reference = reference;
    description = codes "Payment " ++ reference;
  }

  polled : Text → Polled → FintechService → Result FintechError (Text × Text) × FintechService × W
  polled checkout_id (none, w) s = (err out_of_fuel, s, w)
  polled checkout_id (some (err e), w) s = (err (raised e), s, w)
  polled checkout_id (some (ok status), w) s = (ok (checkout_id, status), s, w)

  pushed :
      Text → PushReply → FintechService → W → Result FintechError (Text × Text) × FintechService × W
  unfolding polled
  pushed token reply s w =
      if leb 400 reply.status || not (is_accepted reply.response_code)
      then (err (mpesa_error reply.error_message), s, w)
      else if not (is_set reply.checkout_id)
      then (err no_checkout_id, s, w)
      else polled reply.checkout_id (poll token reply.checkout_id s w) s

  push :
      Text
      → ℤ
      → Text
      → Result FintechError Text
      → FintechService
      → W
      → Result FintechError (Text × Text) × FintechService × W
  unfolding pushed
  push phone amount reference (err e) s w = (err e, s, w)
  push phone amount reference (ok token) s w =
      let (reply, w') = api.processrequest token (payload_of phone amount reference s w) w in
      pushed token reply s w'

  -- The checkout id and the status.
  unfoldable pub request_mpesa :
      Text → ℤ → Text → FintechService → W → Result FintechError (Text × Text) × FintechService × W
  unfolding push
  request_mpesa phone amount reference s w =
      let (token, s', w') = get_token s w in
      let msisdn = normalize_msisdn phone in
      let sent = push msisdn amount reference token s' w' in
      if not (is_set s.consumer_key && is_set s.consumer_secret && is_set s.shortcode)
      then (err environment_error, s, w)
      else if not (is_set s.passkey)
      then (err environment_error, s, w)
      else if not (is_positive amount)
      then (err value_error, s, w)
      else if not (is_msisdn msisdn)
      then (err value_error, s, w)
      else sent
