-- ===== src/Server/Tools.antt =====
-- `_execute_tool` of bantu_os/core/socket_server.py. A tool class is what `hasattr` and a call of a
-- method on a new instance do; `W` is what the tools change, `Args` what JSON gives for `args`.
pub mod Calls
use bantu_os.Prelude.{
  ◌≡◌, Bool, true, false, Option, none, some, [], ◌∷◌, ◌&&◌, Result, ok, err, is_some,
  if◌then◌else◌,
}
use bantu_os.Prelude.Text.{Text, codes, concat, ◌==◌}
use bantu_os.Prelude.Dict.{Dict, lookup}
use bantu_os.Session.Manager.{UserSession}

-- What leaves a call: a `TypeError`, or another exception.
pub data CallError : Type 0 where
  type_error raised : Text → CallError

pub record Tool (W Args : Type 0) : Type 0 where
  pub has_method : Text → Bool
  pub call : Text → Args → W → Result CallError Text × W

-- `kernel.tools`, the sandboxed file service of a directory, and `Path(base) / username`.
pub record Toolbox (W Args : Type 0) : Type 0 where
  pub tools : Dict (Tool W Args)
  pub sandboxed : Text → Tool W Args
  pub join : Text → Text → Text

abbrev pub sandbox_base : Text
sandbox_base = codes "/home/workspace/bantu_users"

module _ {W Args : Type 0} (box : Toolbox W Args) where
  -- The property `sandbox_path` of a session.
  unfoldable pub sandbox_path : UserSession → Text
  sandbox_path s = box.join sandbox_base s.username

  -- The instance that gets the call: a file tool is replaced in a session.
  unfoldable pub instance_of : Option UserSession → Text → Tool W Args → Tool W Args
  unfolding sandbox_path
  instance_of none name tool = tool
  instance_of (some s) name tool =
      if name == codes "file" then box.sandboxed (sandbox_path s) else tool

  reply_of_call : Text → Text → Result CallError Text → Result Text Text
  reply_of_call name method (ok result) = ok result
  reply_of_call name method (err (type_error e)) =
      err (concat (codes "Bad args for " ∷ name ∷ codes "." ∷ method ∷ codes ": " ∷ e ∷ []))
  reply_of_call name method (err (raised e)) =
      err (concat (name ∷ codes "." ∷ method ∷ codes " failed: " ∷ e ∷ []))

  call_tool : Option UserSession → Text → Text → Args → Tool W Args → W → Result Text Text × W
  unfolding reply_of_call instance_of
  call_tool session name [] args tool w =
      (err (concat (codes "No method specified for tool '" ∷ name ∷ codes "'" ∷ [])), w)
  call_tool session name (c ∷ method) args tool w =
      let (result, after) = (instance_of session name tool).call (c ∷ method) args w in
      if tool.has_method (c ∷ method)
      then (reply_of_call name (c ∷ method) result, after)
      else (err (concat (codes "Method '" ∷ (c ∷ method) ∷ codes "' not found on " ∷ name ∷ [])), w)

  unfoldable pub execute_tool : Option UserSession → Text → Text → Args → W → Result Text Text × W
  unfolding call_tool
  execute_tool session name method args w = elim (lookup name box.tools) [
    | none ↦ (err (concat (codes "Tool not found: " ∷ name ∷ [])), w)
    | some tool ↦ call_tool session name method args tool w
  ]
