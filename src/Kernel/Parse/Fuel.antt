-- ===== src/Kernel/Parse/Fuel.antt =====
-- The search for tool calls always ends: each round leaves a shorter text.
use bantu_os.Prelude.{
  ℕ, zero, suc, ◌+◌, ◌-◌, ◌≤◌, ◌<◌, ◌≡◌, refl, sym, ◌∙◌, Bool, true, false, Option, none, some, [],
  ◌∷◌, arith, eqb, length, Bool-cases, Option-cases, inl, inr, ◌⊎◌, ok, err, if◌then◌else◌,
}
use mathlib.Core.Path.{subst}
use bantu_os.Prelude.Text.{Text, codes}
use bantu_os.Kernel.Parse.{
  after, is_blank, is_name_char, span, after_gap, after_name, start_match, search, push, scan,
  object_at, find_end, cursor_after, Loaded, object, no_object, raised, Parsed, args_of, and_call,
  parse_from, parse_tool_calls,
}

-- What is left of a text is at most so long.
abbrev Leaves : ℕ → Option Text → Type 0
Leaves n none = Unit
Leaves n (some s) = length s ≤ n

abbrev LeavesPair : ℕ → Option (Text × Text) → Type 0
LeavesPair n none = Unit
LeavesPair n (some r) = length r.1 ≤ n

after-Leaves : (p s : Text) (n : ℕ) → length s ≤ n → Leaves n (after p s)
unfolding after
after-Leaves [] s n h = h
after-Leaves (c ∷ p) [] n h = tt
after-Leaves (c ∷ p) (d ∷ s) n h = elim (Bool-cases (eqb c d)) [
  | inl e ↦ rw e (after-Leaves p s n (omega arith))
  | inr e ↦ rw e tt
]

after_cons-Leaves :
    (c : ℕ) (p : Text) (d : ℕ) (s : Text) (n : ℕ) → length s ≤ n → Leaves n (after (c ∷ p) (d ∷ s))
unfolding after
after_cons-Leaves c p d s n h = elim (Bool-cases (eqb c d)) [
  | inl e ↦ rw e (after-Leaves p s n h)
  | inr e ↦ rw e tt
]

span-length : (test : ℕ → Bool) (s : Text) → length (span test s).1 ≤ length s
unfolding span
span-length test [] = omega arith
span-length test (c ∷ s) = ground (arith, span-length test s)

push-Leaves :
    (n : ℕ) (c : ℕ) (o : Option (Text × Text)) → LeavesPair n o → LeavesPair (suc n) (push c o)
unfolding push
push-Leaves n c none h = tt
push-Leaves n c (some (raw, rest)) h = omega arith

if-holds :
    (n : ℕ) (b : Bool) (o o' : Option (Text × Text))
    → LeavesPair n o
    → LeavesPair n o'
    → LeavesPair n (if b then o else o')
if-holds n true o o' h h' = h
if-holds n false o o' h h' = h'

scan-Leaves :
    (depth : ℕ) (in_string escaped : Bool) (s : Text)
    → LeavesPair (length s) (scan depth in_string escaped s)
unfolding scan
scan-Leaves depth in_string escaped [] = tt
scan-Leaves depth true true (c ∷ s) = push-Leaves _ c _ (scan-Leaves depth true false s)
scan-Leaves depth true false (c ∷ s) =
    let in_escape = push-Leaves _ c _ (scan-Leaves depth true true s) in
    let out = push-Leaves _ c _ (scan-Leaves depth false false s) in
    let on = push-Leaves _ c _ (scan-Leaves depth true false s) in
    if-holds _ (eqb c 92) _ _ in_escape (if-holds _ (eqb c 34) _ _ out on)
scan-Leaves depth false escaped (c ∷ s) =
    let quoted = push-Leaves _ c _ (scan-Leaves depth true escaped s) in
    let deeper = push-Leaves _ c _ (scan-Leaves (depth + 1) false escaped s) in
    let closed = push-Leaves _ c _ (scan-Leaves (depth - 1) false escaped s) in
    let on = push-Leaves _ c _ (scan-Leaves depth false escaped s) in
    let ended : LeavesPair (suc (length s)) (some (c ∷ [], s)) = omega arith in
    let brace = if-holds _ (eqb depth 1) _ _ ended closed in
    if-holds _ (eqb c 34) _ _ quoted
      (if-holds _ (eqb c 123) _ _ deeper (if-holds _ (eqb c 125) _ _ brace on))

object_at-length : (s : Text) → length (object_at s).1 ≤ length s
unfolding object_at
object_at-length [] = omega arith
object_at-length (c ∷ s) = elim (Bool-cases (eqb c 123)) [
  | inr e ↦ rw e (omega arith)
  | inl e ↦ rw e (elim (Option-cases (scan 0 false false (c ∷ s))) [
    | inl n ↦ rw n (omega arith)
    | inr (r, f) ↦ rw f (subst (LeavesPair (length (c ∷ s))) f (scan-Leaves 0 false false (c ∷ s)))
  ])
]

weaken : (n : ℕ) (o : Option Text) → Leaves n o → Leaves (suc n) o
weaken n none h = tt
weaken n (some s) h = omega arith

find_end-Leaves : (s : Text) → Leaves (length s) (find_end s)
unfolding find_end
find_end-Leaves [] = tt
find_end-Leaves (c ∷ s) = elim (Option-cases (after (codes "[/TOOL_CALL]") (c ∷ s))) [
  | inl e ↦ rw (e, find_end) (weaken _ _ (find_end-Leaves s))
  | inr (r, e) ↦
      rw (e, find_end)
        (subst (Leaves (suc (length s))) e
          (after-Leaves (codes "[/TOOL_CALL]") (c ∷ s) _ (omega arith)))
]

cursor_after-length : (s : Text) → length (cursor_after s) ≤ length s
unfolding cursor_after
cursor_after-length s = elim (Option-cases (find_end s)) [
  | inl e ↦ rw (e, cursor_after) (omega arith)
  | inr (r, e) ↦ rw (e, cursor_after) (subst (Leaves (length s)) e (find_end-Leaves s))
]

args-Leaves :
    (c : ℕ) (name rest : Text) (r : Text × Text)
    → length r.1 ≤ length rest
    → LeavesPair (length rest) (after_gap (c ∷ name) r)
unfolding after_gap
args-Leaves c name rest ([], tail) h = tt
args-Leaves c name rest (b ∷ gap, tail) h = elim (Option-cases (after (codes "args:") tail)) [
  | inl e ↦ rw (e, after_gap) tt
  | inr (r, e) ↦
      let short : length r ≤ length rest =
        subst (Leaves (length rest)) e (after-Leaves (codes "args:") tail _ h) in
      let blank = span-length is_blank r in rw (e, after_gap) (omega arith)
]

after_name-Leaves : (r : Text × Text) → LeavesPair (length r.1) (after_name r)
unfolding after_name
after_name-Leaves ([], rest) = tt
after_name-Leaves (c ∷ name, rest) =
    args-Leaves c name rest (span is_blank rest) (span-length is_blank rest)

shorter : (n m : ℕ) (o : Option (Text × Text)) → LeavesPair n o → n ≤ m → LeavesPair m o
shorter n m none h k = tt
shorter n m (some r) h k = omega arith

start_match-Leaves : (c : ℕ) (s : Text) → LeavesPair (length s) (start_match (c ∷ s))
unfolding start_match
start_match-Leaves c s = elim (Option-cases (after (codes "[TOOL_CALL]") (c ∷ s))) [
  | inl e ↦ rw (e, start_match) tt
  | inr (r, e) ↦
      let short : length r ≤ length s =
        subst (Leaves (length s)) e (after_cons-Leaves 91 _ c s _ (omega arith)) in
      let blank = span-length is_blank r in
      let name = span-length is_name_char (span is_blank r).1 in
      rw (e, start_match)
        (shorter _ _ _ (after_name-Leaves (span is_name_char (span is_blank r).1)) (omega arith))
]

search-shorter : (s : Text) (m : Text × Text) → search s ≡ some m → length m.1 < length s
unfolding search
search-shorter [] m h = absurd (ground (arith, h))
search-shorter (c ∷ s) m h = elim (Option-cases (start_match (c ∷ s))) [
  | inl e ↦
      let found : search s ≡ some m = sym (rw (e, search) refl) ∙ h in
      let k = search-shorter s m found in omega arith
  | inr (r, e) ↦
      let same : r ≡ m = ground (arith, e, h) in
      let short : length r.1 ≤ length s =
        subst (LeavesPair (length s)) e (start_match-Leaves c s) in
      subst (λ m. length m.1 < length (c ∷ s)) same (omega arith)
]

module _ {A : Type 0} (loads : Text → Loaded A) (no_args : A) where
  -- A list of calls, or an exception of `json.loads`.
  abbrev pub IsParsed : Parsed loads no_args → Type 0
  IsParsed none = ⊥
  IsParsed (some (ok calls)) = Unit
  IsParsed (some (err e)) = (raw : Text) × (loads raw ≡ raised e)

  and_call-IsParsed :
      (c : Text × A) (r : Parsed loads no_args) → IsParsed r → IsParsed (and_call loads no_args c r)
  unfolding and_call
  and_call-IsParsed c none h = h
  and_call-IsParsed c (some (ok cs)) h = tt
  and_call-IsParsed c (some (err e)) h = h

  args_of-cases :
      (raw : Text)
      → ((args : A) × (args_of loads no_args raw ≡ ok args))
        ⊎ ((e : Text) × (args_of loads no_args raw ≡ err e) × (loads raw ≡ raised e))
  unfolding args_of
  args_of-cases raw = by_loaded (loads raw) refl
    where
      by_loaded :
          (l : Loaded A)
          → loads raw ≡ l
          → ((args : A) × (args_of loads no_args raw ≡ ok args))
            ⊎ ((e : Text) × (args_of loads no_args raw ≡ err e) × (loads raw ≡ raised e))
      by_loaded (object a) h = inl (a, rw (args_of, h) refl)
      by_loaded no_object h = inl (no_args, rw (args_of, h) refl)
      by_loaded (raised e) h = inr (e, rw (args_of, h) refl, h)

  parse_from-IsParsed :
      (fuel : ℕ) (text : Text) → length text < fuel → IsParsed (parse_from loads no_args fuel text)
  unfolding parse_from
  parse_from-IsParsed zero text h = absurd (omega arith)
  parse_from-IsParsed (suc fuel) text h = elim (Option-cases (search text)) [
    | inl e ↦ rw (e, parse_from) tt
    | inr (m, e) ↦
        let found = object_at m.1 in
        let k = search-shorter text m e in
        let k' = object_at-length m.1 in
        let k'' = cursor_after-length found.1 in
        let rest = parse_from-IsParsed fuel (cursor_after found.1) (omega arith) in
        elim (args_of-cases found.0) [
          | inl (args, f) ↦ rw (e, parse_from, f) (and_call-IsParsed (m.0, args) _ rest)
          | inr (x, f, raises) ↦ rw (e, parse_from, f) (found.0, raises)
        ]
  ]

  -- The search for tool calls in a reply always ends: with a list of calls, or with an exception of
  -- `json.loads` that is none of the two that are caught, for the text of some arguments.
  pub parse_tool_calls-total : (text : Text) → IsParsed (parse_tool_calls loads no_args text)
  unfolding parse_tool_calls
  parse_tool_calls-total text = parse_from-IsParsed (length text + 1) text (omega arith)
