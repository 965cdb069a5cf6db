-- ===== src/Ai/Calls.antt =====
-- The tool calls in the answer of a model: `_extract_tool_calls` and `_normalise_call` of
-- bantu_os/ai/engine.py. Of a number only whether it is zero is read, so it is a natural number.
use bantu_os.Prelude.{ℕ, Bool, true, false, not, List, [], ◌∷◌, Result, ok, err, eqb, if◌then◌else◌}
use bantu_os.Prelude.Text.{Text, codes, ◌==◌}

mutual
  pub data Json : Type 0 where
    null : Json
    bool : Bool → Json
    num : ℕ → Json
    str : Text → Json
    arr : Items → Json
    obj : Fields → Json

  pub data Items : Type 0 where
    nil : Items
    cons : Json → Items → Items

  pub data Fields : Type 0 where
    end : Fields
    field : Text → Json → Fields → Fields

-- Python's truth of a value.
unfoldable pub truthy : Json → Bool
truthy null = false
truthy (bool b) = b
truthy (num n) = not (eqb n 0)
truthy (str []) = false
truthy (str (c ∷ s)) = true
truthy (arr nil) = false
truthy (arr (cons j js)) = true
truthy (obj end) = false
truthy (obj (field k j fs)) = true

unfoldable pub field_of : Text → Json → Fields → Json
field_of key other end = other
field_of key other (field k j fs) = if k == key then j else field_of key other fs

pub data EngineError : Type 0 where
  attribute_error unhashable : EngineError
  failed : Text → EngineError

-- `value.get(key)`, which only a dict has.
unfoldable pub get : Text → Json → Result EngineError Json
unfolding field_of
get key (obj fs) = ok (field_of key null fs)
get key j = err attribute_error

pub record Call : Type 0 where
  pub name : Json
  pub arguments : Json
  pub id : Json

abbrev pub empty_dict : Json
empty_dict = obj end

-- `fields.get(key) or fields.get("function", {}).get(key)`
unfoldable pub own_or_function : Text → Fields → Result EngineError Json
unfolding get field_of truthy
own_or_function key fs =
    let own = field_of key null fs in
    if truthy own then ok own else get key (field_of (codes "function") empty_dict fs)

-- `value or other`
unfoldable pub or_value : Json → Json → Json
unfolding truthy
or_value a b = if truthy a then a else b

-- What `json.loads` gives: a value, its `JSONDecodeError`, or another exception.
pub data Loaded : Type 0 where
  value : Json → Loaded
  no_json : Loaded
  raised : Text → Loaded

-- `loads` reads a JSON text, `to_str` is `str` of a value, and `in_text` the calls that the pattern of
-- `_extract_from_text` finds in code blocks and `json.loads` reads; the pattern asks for a name.
pub record Reader : Type 0 where
  pub loads : Text → Loaded
  pub to_str : Json → Text
  pub in_text : Text → List Call

module _ (reader : Reader) where
  -- Arguments given as a text are read; one that is no JSON is kept as it is.
  unfoldable pub arguments_of : Json → Result EngineError Json
  arguments_of (str s) = elim (reader.loads s) [
    | value j ↦ ok j
    | no_json ↦ ok (obj (field (codes "_raw") (str s) end))
    | raised e ↦ err (failed e)
  ]
  arguments_of j = ok j

  unfoldable pub name_of : Fields → Result EngineError Json
  unfolding own_or_function or_value field_of
  name_of fs = elim (own_or_function (codes "name") fs) [
    | err e ↦ err e
    | ok j ↦ ok (or_value (or_value j (field_of (codes "function_name") null fs)) (str []))
  ]

  unfoldable pub normalise_call : Json → Result EngineError Call
  unfolding name_of arguments_of
  normalise_call (obj fs) = elim (name_of fs) [
    | err e ↦ err e
    | ok name ↦ elim (own_or_function (codes "arguments") fs) [
      | err e ↦ err e
      | ok given ↦ elim (arguments_of (or_value given (str (codes "{}")))) [
        | err e ↦ err e
        | ok arguments ↦
            ok (record {
              name = name;
              arguments = arguments;
              id = field_of (codes "id") (str []) fs;
            })
      ]
    ]
  ]
  normalise_call j =
      ok (record { name = str (reader.to_str j); arguments = empty_dict; id = str [] })

  unfoldable pub normalise_all : Items → Result EngineError (List Call)
  unfolding normalise_call
  normalise_all nil = ok []
  normalise_all (cons j js) =
      let rest = normalise_all js in
      elim (normalise_call j) [
        | err e ↦ err e
        | ok c ↦ elim rest [ err e ↦ err e | ok cs ↦ ok (c ∷ cs) ]
      ]

  -- `raw.get("tool_calls") or raw.get("function_call")`, a list or a dict.
  unfoldable pub calls_in : Json → Result EngineError (List Call)
  unfolding normalise_all
  calls_in (arr items) = normalise_all items
  calls_in (obj end) = ok []
  calls_in (obj (field k j fs)) = elim (normalise_call (obj (field k j fs))) [
    | err e ↦ err e
    | ok c ↦ ok (c ∷ [])
  ]
  calls_in j = ok []

  unfoldable pub calls_of_raw : Json → Result EngineError (List Call)
  unfolding calls_in or_value field_of
  calls_of_raw (obj fs) =
      calls_in (
        or_value (field_of (codes "tool_calls") null fs) (field_of (codes "function_call") null fs))
  calls_of_raw j = ok []

  -- The text is searched where the raw answer has no calls.
  unfoldable pub extract_tool_calls : Json → Text → Result EngineError (List Call)
  unfolding calls_of_raw
  extract_tool_calls raw text = elim (calls_of_raw raw) [
    | err e ↦ err e
    | ok (c ∷ cs) ↦ ok (c ∷ cs)
    | ok [] ↦ elim text [ [] ↦ ok [] | c ∷ s ↦ ok (reader.in_text (c ∷ s)) ]
  ]
