-- ===== src/Session/Budget.antt =====
-- `TokenBudget` of bantu_os/core/session_manager.py.
use bantu_os.Prelude.{
  ℕ, ◌+◌, ◌-◌, ◌*◌, ◌≤◌, ◌<◌, ◌≡◌, Bool, true, false, ◌&&◌, arith, ltb, leb, eqb, Result, ok, err,
  if◌then◌else◌,
}

-- `ZeroDivisionError` is Python's own, of `self._spent / self.max_tokens_per_session`.
pub data BudgetError : Type 0 where
  budget_exceeded zero_division : BudgetError

-- The fraction `warn_threshold` is a number of hundredths.
pub record TokenBudget : Type 0 where
  pub max_tokens_per_session : ℕ
  pub max_tokens_per_request : ℕ
  pub warn_percent : ℕ
  pub spent : ℕ
  pub last_warning_at : ℕ

abbrev pub default_budget : TokenBudget
default_budget = record {
  max_tokens_per_session = 100000;
  max_tokens_per_request = 8192;
  warn_percent = 80;
  spent = 0;
  last_warning_at = 0;
}

-- `remaining`: `max(0, a - b)` is the difference that stops at 0.
unfoldable pub remaining : TokenBudget → ℕ
remaining b = b.max_tokens_per_session - b.spent

unfoldable pub can_spend : TokenBudget → ℕ → Bool
can_spend b tokens =
    leb tokens b.max_tokens_per_request && leb (b.spent + tokens) b.max_tokens_per_session

-- `usage >= self.warn_threshold and (time.time() - self._last_warning_at) > 60`
unfoldable pub is_warning_due : TokenBudget → ℕ → Bool
is_warning_due b now =
    leb (b.warn_percent * b.max_tokens_per_session) (b.spent * 100)
    && ltb (b.last_warning_at + 60000) now

-- What was spent stays spent when the call raises.
unfoldable pub record_tokens : ℕ → ℕ → TokenBudget → Result BudgetError Bool × TokenBudget
unfolding is_warning_due
record_tokens now tokens b =
    let b' = record b { spent = b.spent + tokens } in
    if eqb b.max_tokens_per_session 0
    then (err zero_division, b')
    else if is_warning_due b' now
    then (ok true, record b' { last_warning_at = now })
    else if leb b.max_tokens_per_session b'.spent
    then (err budget_exceeded, b')
    else (ok true, b')

unfoldable pub reset : TokenBudget → TokenBudget
reset b = record b { spent = 0; last_warning_at = 0 }

-- Whatever the outcome of `record`, what was spent goes up by exactly the tokens, the limits stay,
-- and the remaining tokens and the spent ones together never fall below the limit.
pub record_tokens-charges :
    (now tokens : ℕ) (b : TokenBudget)
    → let b' = (record_tokens now tokens b).1 in
      (b'.spent ≡ b.spent + tokens)
      × (b'.max_tokens_per_session ≡ b.max_tokens_per_session)
      × (b'.max_tokens_per_request ≡ b.max_tokens_per_request)
      × (b.max_tokens_per_session ≤ remaining b' + b'.spent)
unfolding record_tokens remaining
record_tokens-charges now tokens b = ground arith

-- A request that `can_spend` accepts and that stays below the limit of the session is recorded
-- without an exception, and the budget stays below its limit.
pub record_tokens-within :
    (now tokens : ℕ) (b : TokenBudget)
    → 0 < b.max_tokens_per_session
    → can_spend b tokens ≡ true
    → b.spent + tokens < b.max_tokens_per_session
    → ((record_tokens now tokens b).0 ≡ ok true)
      × ((record_tokens now tokens b).1.spent < b.max_tokens_per_session)
unfolding record_tokens can_spend
record_tokens-within now tokens b pos h lt = ground arith

-- `record` raises "exhausted" exactly when the limit is met and no warning is due. A warning that
-- is due hides the exhaustion: the call then returns `True` over the limit.
pub record_tokens-exceeded_iff :
    (now tokens : ℕ) (b : TokenBudget)
    → 0 < b.max_tokens_per_session
    → ((record_tokens now tokens b).0 ≡ err budget_exceeded
        → (b.max_tokens_per_session ≤ b.spent + tokens)
          × (is_warning_due (record b { spent = b.spent + tokens }) now ≡ false))
      × (b.max_tokens_per_session ≤ b.spent + tokens
          → is_warning_due (record b { spent = b.spent + tokens }) now ≡ false
          → (record_tokens now tokens b).0 ≡ err budget_exceeded)
unfolding record_tokens
record_tokens-exceeded_iff now tokens b pos = ground arith

percent_le : (w m : ℕ) → w ≤ 100 → w * m ≤ m * 100
percent_le w m h = grind arith

-- A budget with a limit, whose warning threshold is at most the whole session and that has not
-- warned within the last minute, accepts a request of any size: a call that goes over the limit
-- returns `True`, and leaves more spent than the limit allows.
pub record_tokens_masks_exhaustion :
    (now tokens : ℕ) (b : TokenBudget)
    → 0 < b.max_tokens_per_session
    → b.warn_percent ≤ 100
    → b.last_warning_at + 60000 < now
    → b.max_tokens_per_session < b.spent + tokens
    → ((record_tokens now tokens b).0 ≡ ok true)
      × (b.max_tokens_per_session < (record_tokens now tokens b).1.spent)
unfolding record_tokens
record_tokens_masks_exhaustion now tokens b pos w t h =
    ground (arith, percent_le b.warn_percent b.max_tokens_per_session w)
