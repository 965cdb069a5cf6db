-- ===== src/Kernel/Services.antt =====
-- `ServiceManager` of bantu_os/core/kernel/services.py. Service objects, health checks and event
-- hooks are values of the parameter `Host`, over a world `W`; they do not call the manager back,
-- and no other task runs between the steps of a call. Times are milliseconds.
pub mod Degraded
pub mod Discover
pub mod Frame
pub mod Health
pub mod Limits
pub mod Lifecycle
pub mod Monitor
pub mod Restarts
use bantu_os.Prelude.{
  ℕ, ◌+◌, ◌≡◌, Bool, true, false, ◌&&◌, ◌||◌, not, List, [], ◌∷◌, ◌++◌, Option, none, some, Result,
  ok, err, if◌then◌else◌,
}
use bantu_os.Prelude.Text.{Text, codes, ◌==◌}
use bantu_os.Prelude.Dict.{Dict, lookup, insert, keys}

pub data ServiceStatus : Type 0 where
  stopped starting healthy degraded failed stopping : ServiceStatus

-- `ServiceStatus.value`
unfoldable pub value : ServiceStatus → Text
value stopped = codes "stopped"
value starting = codes "starting"
value healthy = codes "healthy"
value degraded = codes "degraded"
value failed = codes "failed"
value stopping = codes "stopping"

unfoldable pub is_healthy : ServiceStatus → Bool
is_healthy healthy = true
is_healthy s = false

unfoldable pub is_stopped : ServiceStatus → Bool
is_stopped stopped = true
is_stopped s = false

-- `status in (HEALTHY, DEGRADED)`
unfoldable pub is_up : ServiceStatus → Bool
is_up healthy = true
is_up degraded = true
is_up s = false

unfoldable pub is_failed : ServiceStatus → Bool
is_failed failed = true
is_failed s = false

-- The description is `none` where the object has no docstring.
pub record ServiceDescriptor : Type 0 where
  pub name : Text
  pub description : Option Text
  pub version : Text

pub record ManagedService (I H : Type 0) : Type 0 where
  pub descriptor : ServiceDescriptor
  pub instance_object : Option I
  pub status : ServiceStatus
  pub health_check_fn : Option H
  pub restart_policy : Text
  pub restart_count : ℕ
  pub max_restarts : ℕ
  pub last_health_check : Option ℕ
  pub last_error : Option Text
  pub started_at : Option ℕ

-- `health_task` is whether there is a task. The interval between two rounds is left out.
pub record ServiceManager (I H K : Type 0) : Type 0 where
  pub services : Dict (ManagedService I H)
  pub startup_timeout : ℕ
  pub health_task : Bool
  pub running : Bool
  pub on_started : List K
  pub on_stopped : List K
  pub on_failed : List K

-- What a health check returns: a dict, its values as texts, a truth value, or anything else.
pub data HealthResult : Type 0 where
  report : Dict Text → HealthResult
  flag : Bool → HealthResult
  other : HealthResult

-- The methods of an object are `none` where it has no such attribute. `start` gets the timeout,
-- after which a coroutine is an error; an error is the text of the exception.
pub record Host (I H K W : Type 0) : Type 0 where
  pub start : I → Option (ℕ → W → Result Text (Unit {0}) × W)
  pub stop : I → Option (W → Result Text (Unit {0}) × W)
  pub health_check : I → Option H
  pub doc : I → Option Text
  pub check : H → W → Result Text HealthResult × W
  pub call : K → List Text → W → Result Text (Unit {0}) × W
  pub now : W → ℕ

-- The given check, or that of the object.
abbrev pub or_else {ℓ} : {A : Type ℓ} → Option A → Option A → Option A
or_else (some a) b = some a
or_else none b = b

abbrev pub put :
    {I H K : Type 0} → Text → ManagedService I H → ServiceManager I H K → ServiceManager I H K
put name svc m = record m { services = insert name svc m.services }

module _ {I H K W : Type 0} (host : Host I H K W) where
  -- `description or instance.__doc__`
  unfoldable pub description_of : Text → I → Option Text
  description_of [] i = host.doc i
  description_of (c ∷ text) i = some (c ∷ text)

  unfoldable pub register :
      Text → I → Text → Text → Option H → Text → ℕ → ServiceManager I H K → ServiceManager I H K
  unfolding description_of
  register name i description version check policy max_restarts m =
      let desc : ServiceDescriptor = record {
        name = name;
        description = description_of description i;
        version = version;
      } in
      put name
        (record {
          descriptor = desc;
          instance_object = some i;
          status = stopped;
          health_check_fn = or_else check (host.health_check i);
          restart_policy = policy;
          restart_count = 0;
          max_restarts = max_restarts;
          last_health_check = none;
          last_error = none;
          started_at = none;
        })
        m

  -- The hooks in turn; the first that raises ends the call.
  unfoldable pub fire : List K → List Text → W → Result Text (Unit {0}) × W
  fire [] args w = (ok tt, w)
  fire (k ∷ hooks) args w =
      let (r, w') = host.call k args w in elim r [ ok _ ↦ fire hooks args w' | err e ↦ (err e, w') ]

  unfoldable pub start_object : ℕ → Option I → W → Result Text (Unit {0}) × W
  start_object timeout none w = (ok tt, w)
  start_object timeout (some i) w = elim (host.start i) [ none ↦ (ok tt, w) | some f ↦ f timeout w ]

  unfoldable pub stop_object : Option I → W → Result Text (Unit {0}) × W
  stop_object none w = (ok tt, w)
  stop_object (some i) w = elim (host.stop i) [ none ↦ (ok tt, w) | some f ↦ f w ]

  -- The handler of `start_service`; a hook that raises there is not caught.
  unfoldable pub start_failed :
      Text
      → ManagedService I H
      → Text
      → ServiceManager I H K
      → W
      → Result Text Bool × ServiceManager I H K × W
  start_failed name svc e m w =
      let m' = put name (record svc { status = failed; last_error = some e }) m in
      let (r, w') = fire m.on_failed (name ∷ e ∷ []) w in
      elim r [ ok _ ↦ (ok false, m', w') | err x ↦ (err x, m', w') ]

  unfoldable pub started :
      Text
      → ManagedService I H
      → ServiceManager I H K
      → W
      → Result Text Bool × ServiceManager I H K × W
  unfolding start_failed
  started name svc m w =
      let svc' = record svc {
        status = healthy;
        started_at = some (host.now w);
        last_error = none;
      } in
      let (r, w') = fire m.on_started (name ∷ []) w in
      elim r [ ok _ ↦ (ok true, put name svc' m, w') | err e ↦ start_failed name svc' e m w' ]

  unfoldable pub start_service :
      Text → ServiceManager I H K → W → Result Text Bool × ServiceManager I H K × W
  unfolding start_failed started
  start_service name m w = elim (lookup name m.services) [
    | none ↦ (ok false, m, w)
    | some svc ↦
        let (r, w') = start_object m.startup_timeout svc.instance_object w in
        if is_healthy svc.status
        then (ok true, m, w)
        else elim r [ ok _ ↦ started name svc m w' | err e ↦ start_failed name svc e m w' ]
  ]

  -- An object that has stopped is forgotten, also if a hook raises.
  unfoldable pub stop_service : Text → ServiceManager I H K → W → Bool × ServiceManager I H K × W
  stop_service name m w = elim (lookup name m.services) [
    | none ↦ (true, m, w)
    | some svc ↦
        let (r, w') = stop_object svc.instance_object w in
        let (fired, w'') = fire m.on_stopped (name ∷ []) w' in
        let svc' = record svc { instance_object = none } in
        if is_stopped svc.status then (true, m, w) else elim r [
          | err e ↦ (false, put name (record svc { status = failed }) m, w')
          | ok _ ↦ elim fired [
            | ok _ ↦ (true, put name (record svc' { status = stopped }) m, w'')
            | err e ↦ (false, put name (record svc' { status = failed }) m, w'')
          ]
        ]
  ]

  unfoldable pub start_each :
      List Text
      → ServiceManager I H K
      → W
      → Dict Bool
      → Result Text (Dict Bool) × ServiceManager I H K × W
  start_each [] m w results = (ok results, m, w)
  start_each (name ∷ names) m w results =
      let (r, m', w') = start_service name m w in
      elim r [ ok b ↦ start_each names m' w' (insert name b results) | err e ↦ (err e, m', w') ]

  unfoldable pub start_all :
      ServiceManager I H K → W → Result Text (Dict Bool) × ServiceManager I H K × W
  unfolding start_each
  start_all m w = start_each (keys m.services) m w []

  unfoldable pub stop_each : List Text → ServiceManager I H K → W → ServiceManager I H K × W
  stop_each [] m w = (m, w)
  stop_each (name ∷ names) m w = let (b, m', w') = stop_service name m w in stop_each names m' w'

  unfoldable pub stop_all : ServiceManager I H K → W → ServiceManager I H K × W
  unfolding stop_each
  stop_all m w = stop_each (keys m.services) m w

module _ {I H K : Type 0} where
  unfoldable pub on_service_started : K → ServiceManager I H K → ServiceManager I H K
  on_service_started hook m = record m { on_started = m.on_started ++ hook ∷ [] }

  unfoldable pub on_service_stopped : K → ServiceManager I H K → ServiceManager I H K
  on_service_stopped hook m = record m { on_stopped = m.on_stopped ++ hook ∷ [] }

  unfoldable pub on_service_failed : K → ServiceManager I H K → ServiceManager I H K
  on_service_failed hook m = record m { on_failed = m.on_failed ++ hook ∷ [] }
