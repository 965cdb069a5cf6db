-- ===== src/Server/Tools/Calls.antt =====
-- What the execution of a tool may do: nothing, or one call.
use bantu_os.Prelude.{
  ℕ, ◌≡◌, ◌⊎◌, inl, inr, refl, true, Option, none, some, [], ◌∷◌, Option-cases, Bool-cases,
}
use bantu_os.Prelude.Text.{Text}
use bantu_os.Prelude.Dict.{lookup}
use bantu_os.Session.Manager.{UserSession}
use bantu_os.Server.Tools.{Tool, Toolbox, instance_of, call_tool, execute_tool}

module _ {W Args : Type 0} (box : Toolbox W Args) where
  call_tool-Contained :
      (session : Option UserSession) (name method : Text) (args : Args) (tool : Tool W Args) (w : W)
      → ((call_tool box session name method args tool w).1 ≡ w)
        ⊎ ((call_tool box session name method args tool w).1
            ≡ ((instance_of box session name tool).call method args w).1)
  unfolding call_tool
  call_tool-Contained session name [] args tool w = inl refl
  call_tool-Contained session name (c ∷ method) args tool w =
      elim (Bool-cases (tool.has_method (c ∷ method))) [
        | inl e ↦ inr (rw e refl)
        | inr e ↦ inl (rw e refl)
      ]

  -- The world stays, or a registered tool of the name is called once.
  pub execute_tool-Contained :
      (session : Option UserSession) (name method : Text) (args : Args) (w : W)
      → ((execute_tool box session name method args w).1 ≡ w)
        ⊎ ((t : Tool W Args) × (lookup name box.tools ≡ some t)
            × ((execute_tool box session name method args w).1
                ≡ ((instance_of box session name t).call method args w).1))
  unfolding execute_tool
  execute_tool-Contained session name method args w = elim (Option-cases (lookup name box.tools)) [
    | inl e ↦ inl (rw (e, execute_tool) refl)
    | inr (t, e) ↦ elim (call_tool-Contained session name method args t w) [
      | inl k ↦ inl (rw (e, execute_tool) k)
      | inr k ↦ inr (t, e, rw (e, execute_tool) k)
    ]
  ]

  -- Without a session the registered class itself is called.
  pub execute_tool-guest :
      (name method : Text) (c : ℕ) (args : Args) (t : Tool W Args) (w : W)
      → lookup name box.tools ≡ some t
      → t.has_method (c ∷ method) ≡ true
      → (execute_tool box none name (c ∷ method) args w).1 ≡ (t.call (c ∷ method) args w).1
  unfolding execute_tool call_tool instance_of
  execute_tool-guest name method c args t w at has = rw (execute_tool, at, has) refl
