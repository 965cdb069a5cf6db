-- ===== src/Server/State.antt =====
-- The state of a connection and of the server in bantu_os/core/socket_server.py, and its requests and
-- replies. A session is an object that the connections and the manager share: it stands under its key
-- in the manager's dict, or among the `orphans` once the manager dropped it.
-- Two objects made under one key, for one user in one millisecond, are one here.
use bantu_os.Prelude.{Bool, true, false, Option, none, some, List, [], ◌∷◌, Result, if◌then◌else◌}
use bantu_os.Prelude.Text.{Text}
use bantu_os.Prelude.Dict.{Dict, lookup, has_key, insert}
use bantu_os.Session.Manager.{UserSession, Backend, SessionManager, destroy_session}
use bantu_os.Session.Manager.Listing.{SessionDict}
use bantu_os.Server.Tools.{Toolbox}

-- A JSON object whose fields but `stream` and `args` are texts.
pub record Request (Args : Type 0) : Type 0 where
  pub fields : Dict Text
  pub stream : Bool
  pub args : Args

-- A payload of `_send`; `frame` is one that the intent kernel made.
pub data Reply (Frame : Type 0) : Type 0 where
  success failure : Text → Reply Frame
  logged_in : Text → Text → Reply Frame
  identity : Text → Option (Text × Text) → Reply Frame
  stats : Text → List SessionDict → Reply Frame
  frame : Frame → Reply Frame

pub record Server : Type 0 where
  pub manager : SessionManager
  pub orphans : Dict UserSession

-- `session_id` and `_session` are set together. A future that is not done is `none`.
pub record Connection : Type 0 where
  pub session_id : Option Text
  pub pending : Dict (Option Text)

-- `W` is what tools, kernels and memories change.
pub record State (W : Type 0) : Type 0 where
  pub connection : Connection
  pub server : Server
  pub world : W

-- What the protocol calls: the JSON reader, the kernel of a session and that of a guest, the memory
-- of a session, the intent kernel with and without streaming, and the tools. A stream ends with the
-- text of the exception that it raised, if any.
pub record Host (W Args Frame : Type 0) : Type 0 where
  pub loads : Text → Result Text (Request Args)
  pub backend : Text → W → Backend
  pub after_run : Text → Text → W → W
  pub process_input : Text → W → Result Text Text × W
  pub clear_memory : Text → W → W
  pub receive : Text → Option Text → W → Result Text Frame × W
  pub receive_streaming : Text → Option Text → W → List Frame × Option Text × W
  pub toolbox : Toolbox W Args

-- The object of a session.
unfoldable pub find : Text → Server → Option UserSession
find sid v = elim (lookup sid v.manager.sessions) [ some s ↦ some s | none ↦ lookup sid v.orphans ]

-- The object changes where it stands.
unfoldable pub replace : Text → UserSession → Server → Server
replace sid s v =
    if has_key sid v.manager.sessions
    then record v { manager = record v.manager { sessions = insert sid s v.manager.sessions } }
    else record v { orphans = insert sid s v.orphans }

-- `destroy_session`: a connection that holds the object still has it.
unfoldable pub destroy : Text → Server → Server
destroy sid v = elim (lookup sid v.manager.sessions) [
  | none ↦ v
  | some s ↦ record { manager = destroy_session sid v.manager; orphans = insert sid s v.orphans }
]

-- `request.get(name, "")`
unfoldable pub get : {Args : Type 0} → Text → Request Args → Text
get name r = elim (lookup name r.fields) [ none ↦ [] | some text ↦ text ]

abbrev pub is_empty : Text → Bool
is_empty [] = true
is_empty (c ∷ s) = false
