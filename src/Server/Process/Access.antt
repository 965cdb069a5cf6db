-- ===== src/Server/Process/Access.antt =====
-- What a tool request may do: in a session, and without one.
use bantu_os.Prelude.{
  ℕ, ◌≡◌, ◌⊎◌, inl, inr, refl, true, false, none, some, [], ◌∷◌, ◌++◌, Bool-cases, if◌then◌else◌,
}
use bantu_os.Prelude.Text.{Text, codes, ◌==◌}
use bantu_os.Prelude.Dict.{lookup}
use bantu_os.Session.Permissions.{can_use}
use bantu_os.Session.Manager.{UserSession}
use bantu_os.Server.Tools.{Tool, sandbox_base, sandbox_path, instance_of}
use bantu_os.Server.Tools.Calls.{execute_tool-Contained, execute_tool-guest}
use bantu_os.Server.State.{Request, State, Host, failure, get}
use bantu_os.Server.Process.{session_of, tool}

module _ {W Args Frame : Type 0} (host : Host W Args Frame) (r : Request Args) (st : State W) where
  -- In a session, a tool request changes nothing at all, or the session's permissions allow the
  -- tool, the tool is registered, and the request does what one call of the named method does. That
  -- call is one of the registered class, but for the file tool: there it is one of the file service
  -- that is confined to the user's own directory.
  pub tool-Contained :
      (s : UserSession)
      → session_of host st ≡ some s
      → ((tool host r st).1 ≡ st)
        ⊎ ((can_use (get (codes "tool") r) s.permissions ≡ true)
            × (t : Tool W Args) × (lookup (get (codes "tool") r) host.toolbox.tools ≡ some t)
            × ((tool host r st).1 ≡ record st {
              world =
                  ((if get (codes "tool") r == codes "file"
                      then host.toolbox.sandboxed (host.toolbox.join sandbox_base s.username)
                      else t).call
                    (get (codes "method") r)
                    r.args
                    st.world).1;
            }))
  unfolding tool instance_of sandbox_path
  tool-Contained s e =
      let name = get (codes "tool") r in
      let method = get (codes "method") r in
      elim (Bool-cases (can_use name s.permissions)) [
        | inr denied ↦ inl (rw (tool, e, denied) refl)
        | inl allowed ↦
            elim (execute_tool-Contained host.toolbox (some s) name method r.args st.world) [
              | inl k ↦ inl (rw (tool, e, allowed, k) refl)
              | inr (t, at, k) ↦ inr (allowed, t, at, rw (tool, e, allowed, k) refl)
            ]
      ]

  -- A session whose permissions do not allow the tool gets an error, and nothing changes.
  pub tool_refused :
      (s : UserSession)
      → session_of host st ≡ some s
      → can_use (get (codes "tool") r) s.permissions ≡ false
      → tool host r st
        ≡ (failure (codes "Permission denied for tool: " ++ get (codes "tool") r) ∷ [], st)
  unfolding tool
  tool_refused s e denied = rw (tool, e, denied) refl

  -- Without a session nothing restricts a tool request: the named method of any registered tool
  -- is called, with no permission asked and, for the file tool too, outside of any sandbox.
  pub tool_unchecked :
      (c : ℕ) (method : Text) (t : Tool W Args)
      → session_of host st ≡ none
      → lookup (get (codes "tool") r) host.toolbox.tools ≡ some t
      → get (codes "method") r ≡ c ∷ method
      → t.has_method (c ∷ method) ≡ true
      → (tool host r st).1 ≡ record st { world = (t.call (c ∷ method) r.args st.world).1 }
  unfolding tool
  tool_unchecked c method t guest at named has =
      rw
        (
          tool,
          guest,
          named,
          execute_tool-guest host.toolbox (get (codes "tool") r) method c r.args t st.world at has,
        )
        refl
