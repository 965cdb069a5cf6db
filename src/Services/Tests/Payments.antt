-- ===== src/Services/Tests/Payments.antt =====
-- Concrete runs of M-Pesa payments.
use bantu_os.Services.Mpesa.{Api, Code, FintechService, poll}
use bantu_os.Services.Mpesa.Requests.{IsAnswer, poll-ends}
use bantu_os.Prelude.{ℕ, ◌+◌, none, some, ok, [], arith}
use bantu_os.Prelude.Text.{Text, codes}

-- An API that never knows the result; the world is the time.
abbrev api : Api ℕ
api = record {
  time = λ w. w;
  timestamp = λ w. codes "20240101000000";
  b64encode = λ s. s;
  sleep = λ n w. w + n;
  generate = λ key secret w.
      (record { status = 200; access_token = some (codes "t"); expires_in = none }, w);
  processrequest = λ token payload w. (
    record {
      status = 200;
      response_code = Code.missing;
      error_message = [];
      checkout_id = codes "c";
    },
    w,
  );
  query = λ token q w. (ok Code.missing, w);
}

abbrev fintech : FintechService
fintech = record {
  consumer_key = codes "k";
  consumer_secret = codes "s";
  shortcode = codes "600";
  passkey = codes "p";
  callback_url = [];
  token = [];
  token_expires_at = 0;
}

poll-ends_example :
    let token : Text = codes "t" in
    let checkout_id : Text = codes "c" in
    let s : FintechService = fintech in
    let w : ℕ = 100 in IsAnswer api (poll api token checkout_id s w).0
poll-ends_example =
    poll-ends api (λ token q w. omega arith) (λ n w. omega arith) (codes "t") (codes "c") fintech
      100
