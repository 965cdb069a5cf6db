-- ===== src/Intent/Gate.antt =====
-- bantu_os/core/intent/confirmation_gate.py, and `_is_destructive` of goal_planner.py.
use bantu_os.Prelude.{
  ℕ, Bool, true, ◌||◌, Option, none, some, List, [], ◌∷◌, ◌++◌, any, if◌then◌else◌,
}
use bantu_os.Prelude.Text.{Text, codes, contains, lower}
use bantu_os.Intent.Tree.{Goal}

-- `f"{text} {tool or ''}".lower()`
unfoldable pub haystack : Text → Option Text → Text
haystack text tool = lower (text ++ (32 ∷ elim tool [ none ↦ [] | some t ↦ t ]))

-- `_DANGEROUS`
abbrev pub dangerous : List Text
dangerous =
    codes "delete"
    ∷ codes "remove"
    ∷ codes "destroy"
    ∷ codes "kill"
    ∷ codes "rm -rf"
    ∷ codes "payment"
    ∷ codes "send"
    ∷ codes "network"
    ∷ []

-- The list of `_is_destructive`.
abbrev pub destructive_tokens : List Text
destructive_tokens =
    codes "delete"
    ∷ codes "remove"
    ∷ codes "destroy"
    ∷ codes "kill"
    ∷ codes "rm -rf"
    ∷ codes "payment"
    ∷ codes "send message"
    ∷ codes "network send"
    ∷ []

-- `any(token in haystack for token in tokens)`
unfoldable pub mentions : List Text → Text → Bool
mentions tokens s = any (λ token. contains token s) tokens

unfoldable pub requires_confirmation : Goal → Bool
unfolding mentions
requires_confirmation g =
    if g.destructive then true else mentions dangerous (haystack g.text g.tool)

unfoldable pub is_destructive : Text → Option Text → Bool
unfolding mentions
is_destructive text tool = mentions destructive_tokens (haystack text tool)

pub data Impact : Type 0 where
  may_delete may_stop may_pay may_send may_destroy : Impact

-- `_describe_impact`, by the text that it picks.
unfoldable pub describe_impact : Goal → Impact
describe_impact g =
    let s = haystack g.text g.tool in
    if contains (codes "delete") s || contains (codes "remove") s || contains (codes "rm -rf") s
    then may_delete
    else if contains (codes "kill") s
    then may_stop
    else if contains (codes "payment") s
    then may_pay
    else if contains (codes "send") s || contains (codes "network") s
    then may_send
    else may_destroy

-- The options are the same four in each request.
pub record ConfirmationRequest : Type 0 where
  pub node_id : ℕ
  pub description : Text
  pub impact : Impact

-- `build_request(node, step_id=node.id)`
unfoldable pub build_request : Goal → ConfirmationRequest
build_request g = record { node_id = g.id; description = g.text; impact = describe_impact g }
