-- ===== src/Server/Process/Confirm.antt =====
-- `_resolve_confirmation` of ShellProtocol in bantu_os/core/socket_server.py: the question to the
-- client, the requests that arrive meanwhile, and the answer that the intent kernel gets.
pub mod Answers
use bantu_os.Prelude.{
  ℕ, ◌≡◌, inl, inr, refl, ap, Bool, true, false, Option, none, some, List, [], ◌∷◌, ◌&&◌, arith,
  Option-cases, Bool-cases, Result, ok, err, if◌then◌else◌,
}
use bantu_os.Prelude.Text.{Text, codes, lower, ◌==◌, eq_iff, eq_refl}
use bantu_os.Prelude.Dict.{Dict, lookup, insert, erase, lookup-insert, lookup-erase}
use bantu_os.Auth.Names.{strip}
use bantu_os.Session.Manager.{SessionError}
use bantu_os.Server.State.{Request, Connection, State, Host, Reply, is_empty, get, find}
use bantu_os.Server.Process.{
  confirm, intent, login, logout, whoami, clear_history, session_stats, session_of, ai, tool,
  handle, logged, run_text, run_session, run_guest, may_use,
}

-- The future of a question stands under the step's id until it is answered or times out.
unfoldable pub ask : Text → Connection → Connection
ask step_id c = record c { pending = insert step_id none c.pending }

-- The answer in a future that may be missing or open.
decision_in : Option (Option Text) → Text
decision_in (some (some decision)) = decision
decision_in _ = codes "skip"

-- The end of the wait: the answer, or "skip" after the time-out. The future is taken out.
unfoldable pub settle : Text → Connection → Text × Connection
unfolding decision_in
settle step_id c =
    (decision_in (lookup step_id c.pending), record c { pending = erase step_id c.pending })

-- The answer that a request gives to the question of a step.
unfoldable pub answer_to : {Args : Type 0} → Text → Request Args → Option Text
answer_to step_id r =
    let decision = lower (get (codes "decision") r) in
    if get (codes "cmd") r == codes "confirm" && get (codes "step_id") r == step_id
    then some (if is_empty decision then codes "skip" else decision)
    else none

-- The first answer among the requests, or "skip".
unfoldable pub first_answer : {Args : Type 0} → Text → List (Request Args) → Text
first_answer step_id [] = codes "skip"
first_answer step_id (r ∷ rest) = elim (answer_to step_id r) [
  | some decision ↦ decision
  | none ↦ first_answer step_id rest
]

pub no_answer :
    {Args : Type 0} (step_id : Text) (r : Request Args)
    → (get (codes "cmd") r == codes "confirm") ≡ false
    → answer_to step_id r ≡ none
unfolding answer_to
no_answer step_id r e = rw e refl

-- The requests without their times.
unfoldable pub requests : {Args : Type 0} → List (ℕ × ℕ × Request Args) → List (Request Args)
requests [] = []
requests ((now, later, r) ∷ rest) = r ∷ requests rest

module _ {W Args Frame : Type 0} (host : Host W Args Frame) where
  -- Requests of the connection, one after the other, each at its time.
  unfoldable pub handle_all : List (ℕ × ℕ × Request Args) → State W → State W
  handle_all [] st = st
  handle_all ((now, later, r) ∷ rest) st = handle_all rest (handle host now later r st).1
