-- ===== src/Api/RateLimiter.antt =====
-- bantu_os/api/rate_limiter.py: a sliding window of request times for each key. Times are
-- milliseconds, and `now` is what `time.time()` returns.
pub mod Window
use bantu_os.Prelude.{
  ℕ, zero, ◌+◌, ◌≡◌, ◌≢◌, Bool, true, false, Option, none, some, List, [], ◌∷◌, ◌++◌, arith, ltb,
  leb, eqb, length, filter, if◌then◌else◌,
}
use bantu_os.Prelude.Text.{Text}
use bantu_os.Prelude.Dict.{Dict, lookup, insert, erase}

abbrev pub Buckets : Type 0
Buckets = Dict (List ℕ)

abbrev pub default_limit : ℕ
default_limit = 60

-- 60 seconds.
abbrev pub window : ℕ
window = 60000

-- `ts >= now - window`
abbrev pub is_active : ℕ → ℕ → Bool
is_active now ts = leb now (ts + window)

-- `self._buckets[key]` of a `defaultdict(list)`.
unfoldable pub bucket_of : Text → Buckets → List ℕ
bucket_of key bs = elim (lookup key bs) [ none ↦ [] | some b ↦ b ]

-- `while bucket and bucket[0] < cutoff: bucket.pop(0)`
unfoldable pub trim : ℕ → List ℕ → List ℕ
trim now [] = []
trim now (ts ∷ rest) = let more = trim now rest in if is_active now ts then ts ∷ rest else more

-- `limit or self._DEFAULT_LIMIT`
unfoldable pub limit_of : Option ℕ → ℕ
limit_of none = default_limit
limit_of (some n) = if eqb n 0 then default_limit else n

-- A refused request leaves the trimmed bucket.
unfoldable pub check : ℕ → Text → Option ℕ → Buckets → Bool × Buckets
check now key limit bs =
    let bucket = trim now (bucket_of key bs) in
    if leb (limit_of limit) (length bucket)
    then (false, insert key bucket bs)
    else (true, insert key (bucket ++ now ∷ []) bs)

unfoldable pub reset : Text → Buckets → Buckets
reset key bs = erase key bs

-- The field "requests_in_window".
unfoldable pub get_usage : ℕ → Text → Buckets → ℕ
unfolding bucket_of
get_usage now key bs = length (filter (is_active now) (bucket_of key bs))
