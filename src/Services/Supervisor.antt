-- ===== src/Services/Supervisor.antt =====
-- bantu_os/services/supervisor.py. What `os`, `signal` and `asyncio` do with processes is the
-- parameter `Os`, over a world `W`; a `Process` object is its process id. Times are milliseconds.
pub mod Limits
pub mod Restarts
use bantu_os.Prelude.{
  ℕ, ◌+◌, ◌≤◌, ◌<◌, ◌≡◌, ◌≢◌, refl, Bool, true, false, not, ◌&&◌, Option, none, some, List, [], ◌∷◌,
  ◌++◌, arith, ltb, leb, eqb, Result, ok, err, is_some, Bool-cases, Option-cases, inl, inr,
  if◌then◌else◌,
}
use bantu_os.Prelude.Text.{Text, codes, eq_iff, eq_refl}
use bantu_os.Prelude.Dict.{Dict, lookup, has_key, insert, lookup-insert}

-- `pid_file` is what the file holds, `none` where there is none. `env` is handed on to the process
-- and `restarts` is never used; both are left out.
pub record ServiceDefinition : Type 0 where
  pub name : Text
  pub command : List Text
  pub log_file : Text
  pub socket_path : Option Text
  pub restart_delay : ℕ
  pub max_restarts : ℕ
  pub restart_window : ℕ
  pub pid : Option ℕ
  pub proc : Option ℕ
  pub pid_file : Option ℕ
  pub first_start_time : ℕ
  pub last_crash_time : ℕ

pub record Supervisor : Type 0 where
  pub services : Dict ServiceDefinition
  pub shutdown_requested : Bool

-- What `create_subprocess_exec`, or the opening of the log file, raises.
pub data SpawnError : Type 0 where
  file_not_found : SpawnError
  raised : Text → SpawnError

-- `os.kill(pid, 0)`; `create_subprocess_exec`; SIGTERM, `false` for
-- ProcessLookupError; `wait_for`, `false` for the timeout; SIGKILL; and `returncode`,
-- as its size, since only whether it is zero is read.
pub record Os (W : Type 0) : Type 0 where
  pub is_running : ℕ → W → Bool
  pub spawn : List Text → Text → W → Result SpawnError ℕ × W
  pub terminate : ℕ → W → Bool × W
  pub wait_exit : ℕ → W → Bool × W
  pub kill : ℕ → W → W
  pub returncode : ℕ → W → Option ℕ
  pub sleep : ℕ → W → W

abbrev pub service_kernel : Text
service_kernel = codes "kernel"

-- `ALL_SERVICES`
abbrev pub all_services : List Text
all_services = service_kernel ∷ codes "shell" ∷ codes "api" ∷ []

unfoldable pub new_service : ℕ → Text → List Text → Text → Option Text → ServiceDefinition
new_service now name command log_file socket_path = record {
  name = name;
  command = command;
  log_file = log_file;
  socket_path = socket_path;
  restart_delay = 3000;
  max_restarts = 5;
  restart_window = 60000;
  pid = none;
  proc = none;
  pid_file = none;
  first_start_time = now;
  last_crash_time = 0;
}

abbrev pub put_service : Text → ServiceDefinition → Supervisor → Supervisor
put_service name svc s = record s { services = insert name svc s.services }

abbrev pub unknown : Text → Text
unknown name = codes "Unknown service: " ++ name

-- What an operation returns or raises, with the supervisor and the world after it.
abbrev pub Done : Type 0 → Type 0
Done W = Result Text Bool × Supervisor × W

module _ {W : Type 0} (os : Os W) where
  -- `svc.pid is not None and await self._is_running(svc.pid)`, with the pid.
  unfoldable pub running_pid : ServiceDefinition → W → Option ℕ
  running_pid svc w = elim svc.pid [
    | none ↦ none
    | some p ↦ if os.is_running p w then some p else none
  ]

  unfoldable pub launch : Text → ServiceDefinition → Supervisor → W → Done W
  launch name svc s w =
      let (started, w') = os.spawn svc.command svc.log_file w in
      elim started [
        | err file_not_found ↦ (ok false, s, w')
        | err (raised e) ↦ (err e, s, w')
        | ok p ↦ (
          ok true,
          put_service name (record svc { pid = some p; proc = some p; pid_file = some p }) s,
          w',
        )
      ]

  unfoldable pub start_service : Text → Supervisor → W → Done W
  start_service name s w = elim (lookup name s.services) [
    | none ↦ (err (unknown name), s, w)
    | some svc ↦ elim (running_pid svc w) [ some p ↦ (ok true, s, w) | none ↦ launch name svc s w ]
  ]

  -- After SIGTERM: a process that was gone leaves its pid file.
  unfoldable pub finish_stop : Text → ServiceDefinition → ℕ → Supervisor → Bool × W → Done W
  finish_stop name svc p s (false, w) = (ok true, put_service name (record svc { pid = none }) s, w)
  finish_stop name svc p s (true, w) =
      let (exited, w') = os.wait_exit p w in
      (
        ok true,
        put_service name (record svc { pid = none; proc = none; pid_file = none }) s,
        if exited then w' else os.kill p w',
      )

  unfoldable pub stop_service : Text → Supervisor → W → Done W
  stop_service name s w = elim (lookup name s.services) [
    | none ↦ (err (unknown name), s, w)
    | some svc ↦ elim (running_pid svc w) [
      | none ↦ (ok true, put_service name (record svc { pid = none; pid_file = none }) s, w)
      | some p ↦ finish_stop name svc p s (os.terminate p w)
    ]
  ]

  unfoldable pub restart_service : Text → Supervisor → W → Done W
  restart_service name s w =
      let (r, s', w') = stop_service name s w in
      elim r [ err e ↦ (err e, s', w') | ok b ↦ start_service name s' w' ]

  -- The loop over the names that are registered, which an exception ends.
  unfoldable pub each_service :
      (Text → Supervisor → W → Done W) → List Text → Supervisor → W → Done W
  each_service act [] s w = (ok true, s, w)
  each_service act (name ∷ names) s w =
      let (r, s', w') = act name s w in
      if has_key name s.services
      then elim r [ err e ↦ (err e, s', w') | ok b ↦ each_service act names s' w' ]
      else each_service act names s w

  unfoldable pub start_all : Supervisor → W → Done W
  start_all s w = each_service start_service all_services s w

  unfoldable pub stop_all : Supervisor → W → Done W
  stop_all s w = each_service stop_service (codes "api" ∷ codes "shell" ∷ service_kernel ∷ []) s w

  -- `proc is not None and proc.returncode is not None and proc.returncode != 0`
  unfoldable pub has_crashed : ServiceDefinition → W → Bool
  has_crashed svc w = elim svc.proc [
    | none ↦ false
    | some p ↦ elim (os.returncode p w) [ none ↦ false | some c ↦ not (eqb c 0) ]
  ]

  -- The restart count and the start of the window at a crash.
  unfoldable pub counted : ℕ → ServiceDefinition → ℕ → ℕ × ℕ
  counted now svc count =
      if ltb (svc.first_start_time + svc.restart_window) now
      then (1, now)
      else (count + 1, svc.first_start_time)

  abbrev pub crashed : ℕ → ServiceDefinition → ℕ → ServiceDefinition
  crashed now svc start = record svc {
    pid = none;
    proc = none;
    pid_file = none;
    first_start_time = start;
    last_crash_time = now;
  }

  -- The restart of a crashed service, or its giving up, by the new count.
  unfoldable pub after_crash : ℕ → Text → ServiceDefinition → ℕ × ℕ → Supervisor → W → ℕ × Done W
  after_crash now name svc (count, start) s w =
      let s' = put_service name (crashed now svc start) s in
      if leb count svc.max_restarts
      then (count, start_service name s' (os.sleep svc.restart_delay w))
      else (0, (ok false, s', w))

  -- One round of the loop of `_monitor_loop` over the services, with the service's restart count.
  unfoldable pub check_service : ℕ → Text → ServiceDefinition → ℕ → Supervisor → W → ℕ × Done W
  check_service now name svc count s w =
      if is_some svc.pid && has_crashed svc w
      then after_crash now name svc (counted now svc count) s w
      else (count, (ok true, s, w))

  -- `status()`: for each service, whether it runs and its pid.
  unfoldable pub status : Supervisor → W → Dict (Bool × Option ℕ)
  status s w = status_of s.services
    where
      status_of : Dict ServiceDefinition → Dict (Bool × Option ℕ)
      status_of [] = []
      status_of ((name, svc) ∷ rest) =
          (name, (is_some (running_pid svc w), svc.pid)) ∷ status_of rest
