-- ===== src/Api/RateLimiter/Window.antt =====
-- The limiter against a specification that forgets nothing: a request is allowed exactly if fewer
-- than `limit` of all the requests allowed so far lie in the window.
use bantu_os.Prelude.{
  ℕ, ◌≤◌, ◌≡◌, ◌≢◌, refl, sym, ap, ◌∙◌, Bool, true, false, Option, List, [], ◌∷◌, ◌++◌, arith, ltb,
  leb, length, filter, All, All-append, Bool-cases, inl, inr, if◌then◌else◌,
}
use bantu_os.Prelude.Text.{Text, ◌==◌, eq_iff, eq_refl}
use bantu_os.Prelude.Dict.{insert, lookup-insert}
use bantu_os.Api.RateLimiter.{Buckets, is_active, bucket_of, trim, limit_of, check, get_usage}

abbrev pub IsSorted : List ℕ → Type 0
IsSorted [] = Unit
IsSorted (x ∷ xs) = All (λ y. x ≤ y) xs × IsSorted xs

abbrev pub active : ℕ → List ℕ → List ℕ
active now = filter (is_active now)

filter-All :
    (now x : ℕ) (xs : List ℕ) → All (λ y. x ≤ y) xs → is_active now x ≡ true → active now xs ≡ xs
unfolding filter
filter-All now x [] h a = refl
filter-All now x (y ∷ ys) h a = ground (arith, filter-All now x ys h.1 a)

-- On a sorted bucket the loop leaves just the times in the window.
pub trim-eq-active : (now : ℕ) (xs : List ℕ) → IsSorted xs → trim now xs ≡ active now xs
unfolding trim filter
trim-eq-active now [] h = refl
trim-eq-active now (x ∷ xs) h = ground (arith, trim-eq-active now xs h.1, filter-All now x xs h.0)

-- What has left the window does not come back.
active-active :
    (now later : ℕ) (xs : List ℕ) → now ≤ later → active later (active now xs) ≡ active later xs
unfolding filter
active-active now later [] h = refl
active-active now later (x ∷ xs) h = ground (arith, active-active now later xs h)

All-active : (P : ℕ → Type 0) (now : ℕ) (xs : List ℕ) → All P xs → All P (active now xs)
unfolding filter
All-active P now [] h = tt
All-active P now (x ∷ xs) h = ground (arith, All-active P now xs h.1)

active-IsSorted : (now : ℕ) (xs : List ℕ) → IsSorted xs → IsSorted (active now xs)
unfolding filter
active-IsSorted now [] h = tt
active-IsSorted now (x ∷ xs) h =
    ground (arith, active-IsSorted now xs h.1, All-active (λ y. x ≤ y) now xs h.0)

append-IsSorted :
    (xs : List ℕ) (n : ℕ) → IsSorted xs → All (λ y. y ≤ n) xs → IsSorted (xs ++ n ∷ [])
append-IsSorted [] n h k = (tt, tt)
append-IsSorted (x ∷ xs) n h k =
    (All-append (λ y. x ≤ y) xs (n ∷ []) h.0 (k.0, tt), append-IsSorted xs n h.1 k.1)

active-append : (now : ℕ) (xs ys : List ℕ) → active now (xs ++ ys) ≡ active now xs ++ active now ys
unfolding filter
active-append now [] ys = refl
active-append now (x ∷ xs) ys = ground (arith, active-append now xs ys)

-- The limiter over requests of one key at the given times.
pub run_checks : Text → Option ℕ → List ℕ → Buckets → List Bool
run_checks key limit [] bs = []
run_checks key limit (now ∷ times) bs =
    let (allowed, bs') = check now key limit bs in allowed ∷ run_checks key limit times bs'

-- The specification over the same requests, with all the requests allowed so far.
pub allows : ℕ → ℕ → List ℕ → Bool
allows limit now history = ltb (length (active now history)) limit

pub spec_checks : ℕ → List ℕ → List ℕ → List Bool
unfolding allows
spec_checks limit [] history = []
spec_checks limit (now ∷ times) history =
    allows limit now history
    ∷ spec_checks limit times (if allows limit now history then history ++ now ∷ [] else history)

-- The times do not go back.
abbrev pub IsClock : ℕ → List ℕ → Type 0
IsClock last [] = Unit
IsClock last (t ∷ ts) = (last ≤ t) × IsClock t ts

-- The bucket shows of the history what a window from `last` on can show.
record Tracks (last : ℕ) (bucket history : List ℕ) : Type 0 where
  sorted : IsSorted bucket
  past : All (λ t. t ≤ last) bucket
  same : (now : ℕ) → last ≤ now → active now bucket ≡ active now history

weaken : (last now : ℕ) (xs : List ℕ) → last ≤ now → All (λ t. t ≤ last) xs → All (λ t. t ≤ now) xs
weaken last now [] le h = tt
weaken last now (x ∷ xs) le h = (omega arith, weaken last now xs le h.1)

Tracks-trim :
    (last now : ℕ) (b h : List ℕ) → last ≤ now → Tracks last b h → Tracks now (active now b) h
Tracks-trim last now b h le t = record {
  sorted = active-IsSorted now b t.sorted;
  past = All-active (λ x. x ≤ now) now b (weaken last now b le t.past);
  same = λ later l. active-active now later b l ∙ t.same later (omega arith);
}

Tracks-add : (now : ℕ) (b h : List ℕ) → Tracks now b h → Tracks now (b ++ now ∷ []) (h ++ now ∷ [])
Tracks-add now b h t = record {
  sorted = append-IsSorted b now t.sorted t.past;
  past = All-append (λ x. x ≤ now) b (now ∷ []) t.past (omega arith, tt);
  same = λ later l.
      active-append later b (now ∷ [])
      ∙ ap (λ z. z ++ active later (now ∷ [])) (t.same later l)
      ∙ sym (active-append later h (now ∷ []));
}

bucket_of-insert :
    (key other : Text) (b : List ℕ) (bs : Buckets)
    → bucket_of other (insert key b bs) ≡ (if key == other then b else bucket_of other bs)
unfolding bucket_of
bucket_of-insert key other b bs = ground (arith, lookup-insert key other b bs)

-- One request, on the trimmed bucket `b`.
check_trimmed :
    (now limit : ℕ) (key : Text) (bs : Buckets) (b h : List ℕ)
    → b ≡ active now h
    → Tracks now b h
    → let r : Bool × Buckets =
        (if leb limit (length b)
          then (false, insert key b bs)
          else (true, insert key (b ++ now ∷ []) bs)) in
      (r.0 ≡ allows limit now h)
      × Tracks now (bucket_of key r.1) (if allows limit now h then h ++ now ∷ [] else h)
check_trimmed now limit key bs b h e t = elim (Bool-cases (leb limit (length b))) [
  | inl full ↦
      let no : allows limit now h ≡ false = unfold allows in ground (arith, ap length e) in
      rw (full, no, bucket_of-insert, eq_refl) (refl, t)
  | inr room ↦
      let fits : allows limit now h ≡ true = unfold allows in ground (arith, ap length e) in
      rw (room, fits, bucket_of-insert, eq_refl) (refl, Tracks-add now b h t)
]

-- One request: the answer is the specification's, and the bucket goes on tracking the history.
check_step :
    (last now : ℕ) (key : Text) (limit : Option ℕ) (bs : Buckets) (h : List ℕ)
    → last ≤ now
    → Tracks last (bucket_of key bs) h
    → ((check now key limit bs).0 ≡ allows (limit_of limit) now h)
      × Tracks now
          (bucket_of key (check now key limit bs).1)
          (if allows (limit_of limit) now h then h ++ now ∷ [] else h)
unfolding check
check_step last now key limit bs h le t =
    let b = bucket_of key bs in
    let trimmed = trim-eq-active now b t.sorted in
    check_trimmed now (limit_of limit) key bs (trim now b) h (trimmed ∙ t.same now le)
      (rw trimmed (Tracks-trim last now b h le t))

run_checks-eq_from :
    (key : Text) (limit : Option ℕ) (last : ℕ) (times : List ℕ) (bs : Buckets) (h : List ℕ)
    → IsClock last times
    → Tracks last (bucket_of key bs) h
    → run_checks key limit times bs ≡ spec_checks (limit_of limit) times h
unfolding run_checks spec_checks
run_checks-eq_from key limit last [] bs h c t = refl
run_checks-eq_from key limit last (now ∷ times) bs h c t =
    let step = check_step last now key limit bs h c.0 t in
    cc (step.0, run_checks-eq_from key limit now times (check now key limit bs).1 _ c.1 step.1)

-- For a key without requests so far, and a clock that does not go back, the limiter gives exactly
-- the answers of the specification: a request is allowed if and only if fewer than the limit of
-- all requests allowed before lie within the last 60 seconds. A limit of 0 or none is 60.
pub run_checks-eq-spec_checks :
    (key : Text) (limit : Option ℕ) (start : ℕ) (times : List ℕ) (bs : Buckets)
    → bucket_of key bs ≡ []
    → IsClock start times
    → run_checks key limit times bs ≡ spec_checks (limit_of limit) times []
run_checks-eq-spec_checks key limit start times bs e c =
    run_checks-eq_from key limit start times bs [] c
      (rw e (record { sorted = tt; past = tt; same = λ now le. refl }))

bucket_of-check_ne :
    (now : ℕ) (key other : Text) (limit : Option ℕ) (bs : Buckets)
    → other ≢ key
    → bucket_of other (check now key limit bs).1 ≡ bucket_of other bs
unfolding check
bucket_of-check_ne now key other limit bs ne =
    let b = trim now (bucket_of key bs) in
    ground (
      arith,
      bucket_of-insert key other b bs,
      bucket_of-insert key other (b ++ now ∷ []) bs,
      eq_iff key other,
    )

answer_of : ℕ → ℕ → List ℕ → Bool
answer_of now limit bucket = if leb limit (length (trim now bucket)) then false else true

check-answer :
    (now : ℕ) (key : Text) (limit : Option ℕ) (bs : Buckets)
    → (check now key limit bs).0 ≡ answer_of now (limit_of limit) (bucket_of key bs)
unfolding check answer_of
check-answer now key limit bs = ground arith

-- A request under one key changes neither the answer to a later request under another key nor that
-- key's usage.
pub check-others :
    (now later : ℕ) (key other : Text) (limit limit' : Option ℕ) (bs : Buckets)
    → other ≢ key
    → ((check later other limit' (check now key limit bs).1).0 ≡ (check later other limit' bs).0)
      × (get_usage later other (check now key limit bs).1 ≡ get_usage later other bs)
unfolding get_usage
check-others now later key other limit limit' bs ne =
    let same = bucket_of-check_ne now key other limit bs ne in
    (
      check-answer later other limit' _
          ∙ ap (answer_of later (limit_of limit')) same
          ∙ sym (check-answer later other limit' bs),
      ap (λ b. length (active later b)) same,
    )
