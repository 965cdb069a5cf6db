-- ===== src/Kernel/Parse.antt =====
-- bantu_os/core/kernel/kernel.py, `_parse_tool_calls`. A position in the text is the text from there
-- on. `\s` is ASCII white space; `json.loads` is a parameter.
pub mod Fuel
use bantu_os.Prelude.{
  ℕ, zero, suc, ◌+◌, ◌-◌, ◌≤◌, ◌<◌, ◌≡◌, ◌≢◌, refl, sym, ap, ◌∙◌, Bool, true, false, ◌&&◌, ◌||◌,
  Option, none, some, Result, ok, err, List, [], ◌∷◌, ◌++◌, arith, leb, eqb, length, Bool-cases,
  Option-cases, inl, inr, if◌then◌else◌,
}
use bantu_os.Prelude.Text.{Text, codes}

-- What stands after a literal at the head of the text.
unfoldable pub after : Text → Text → Option Text
after [] s = some s
after (c ∷ p) [] = none
after (c ∷ p) (d ∷ s) = if eqb c d then after p s else none

unfoldable pub is_blank : ℕ → Bool
is_blank c = eqb c 32 || (leb 9 c && leb c 13) || (leb 28 c && leb c 31)

-- `[A-Za-z0-9_.-]`
unfoldable pub is_name_char : ℕ → Bool
is_name_char c =
    (leb 65 c && leb c 90)
    || (leb 97 c && leb c 122)
    || (leb 48 c && leb c 57)
    || eqb c 95
    || eqb c 46
    || eqb c 45

-- The longest run of characters of a class, and the text after it.
unfoldable pub span : (ℕ → Bool) → Text → Text × Text
span test [] = ([], [])
span test (c ∷ s) = let (run, rest) = span test s in if test c then (c ∷ run, rest) else ([], c ∷ s)

-- `_TOOL_CALL_START_RE` at the head of the text: the name, and the text after the match. No class
-- shares a character with what follows it, so the longest runs decide.
unfoldable pub after_gap : Text → Text × Text → Option (Text × Text)
unfolding is_blank
after_gap name ([], tail) = none
after_gap name (b ∷ gap, tail) = elim (after (codes "args:") tail) [
  | none ↦ none
  | some more ↦ some (name, (span is_blank more).1)
]

unfoldable pub after_name : Text × Text → Option (Text × Text)
unfolding is_blank
after_name ([], rest) = none
after_name (c ∷ name, rest) = after_gap (c ∷ name) (span is_blank rest)

unfoldable pub start_match : Text → Option (Text × Text)
unfolding after_name is_name_char is_blank
start_match s = elim (after (codes "[TOOL_CALL]") s) [
  | none ↦ none
  | some rest ↦ after_name (span is_name_char (span is_blank rest).1)
]

-- `search`: the first match.
unfoldable pub search : Text → Option (Text × Text)
search [] = none
search (c ∷ s) = elim (start_match (c ∷ s)) [ none ↦ search s | some m ↦ some m ]

-- The scan of the object: none where it does not end, else the text to its end and that after it.
unfoldable pub push : ℕ → Option (Text × Text) → Option (Text × Text)
push c none = none
push c (some (raw, rest)) = some (c ∷ raw, rest)

unfoldable pub scan : ℕ → Bool → Bool → Text → Option (Text × Text)
unfolding push
scan depth in_string escaped [] = none
scan depth true true (c ∷ s) = push c (scan depth true false s)
scan depth true false (c ∷ s) =
    let in_escape = scan depth true true s in
    let out = scan depth false false s in
    let on = scan depth true false s in
    if eqb c 92 then push c in_escape else if eqb c 34 then push c out else push c on
scan depth false escaped (c ∷ s) =
    let quoted = scan depth true escaped s in
    let deeper = scan (depth + 1) false escaped s in
    let closed = scan (depth - 1) false escaped s in
    let on = scan depth false escaped s in
    if eqb c 34
    then push c quoted
    else if eqb c 123
    then push c deeper
    else if eqb c 125
    then if eqb depth 1 then some (c ∷ [], s) else push c closed
    else push c on

-- `raw_args`, and the text from `end` on; from `start` on where there is no object.
unfoldable pub object_at : Text → Text × Text
object_at [] = ([], [])
object_at (c ∷ s) =
    if eqb c 123
    then elim (scan 0 false false (c ∷ s)) [ none ↦ ([], c ∷ s) | some r ↦ r ]
    else ([], c ∷ s)

-- The text after the first `[/TOOL_CALL]`.
unfoldable pub find_end : Text → Option Text
find_end [] = none
find_end (c ∷ s) =
    let later = find_end s in
    elim (after (codes "[/TOOL_CALL]") (c ∷ s)) [ none ↦ later | some rest ↦ some rest ]

-- Where the next search begins.
unfoldable pub cursor_after : Text → Text
cursor_after s = elim (find_end s) [ none ↦ s | some rest ↦ rest ]

-- What `json.loads` gives: a dict; any other value, or one of the two errors that are caught; or
-- another exception, such as those for a number of too many digits or for too deep a nesting.
pub data Loaded (A : Type 0) : Type 0 where
  object : A → Loaded A
  no_object : Loaded A
  raised : Text → Loaded A

module _ {A : Type 0} (loads : Text → Loaded A) (no_args : A) where
  unfoldable pub args_of : Text → Result Text A
  args_of raw = elim (loads raw) [ object a ↦ ok a | no_object ↦ ok no_args | raised e ↦ err e ]

  -- What a round returns or raises, with none for want of fuel.
  abbrev pub Parsed : Type 0
  Parsed = Option (Result Text (List (Text × A)))

  unfoldable pub and_call : Text × A → Parsed → Parsed
  and_call c none = none
  and_call c (some (err e)) = some (err e)
  and_call c (some (ok cs)) = some (ok (c ∷ cs))

  -- The loop; an exception ends it.
  unfoldable pub parse_from : ℕ → Text → Parsed
  unfolding args_of and_call
  parse_from zero text = none
  parse_from (suc fuel) text = elim (search text) [
    | none ↦ some (ok [])
    | some m ↦
        let found = object_at m.1 in
        let rest = parse_from fuel (cursor_after found.1) in
        elim (args_of found.0) [ err e ↦ some (err e) | ok args ↦ and_call (m.0, args) rest ]
  ]

  -- `_parse_tool_calls`: each round goes on after a match, so the length is fuel enough.
  unfoldable pub parse_tool_calls : Text → Parsed
  parse_tool_calls text = parse_from (length text + 1) text
