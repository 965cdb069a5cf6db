-- ===== src/Services/Process.antt =====
-- `ProcessService` of bantu_os/services/process_service.py. What `subprocess` and `psutil` do is a
-- parameter, on a world `W`; a time-stamped entry of the log is its operation, pid and details.
pub mod Managed
pub mod Limits
use bantu_os.Prelude.{
  ℕ, ◌+◌, ◌≡◌, Bool, true, false, not, ◌&&◌, List, [], ◌∷◌, ◌++◌, Option, none, some, Result, ok,
  err, any, filter, length, leb, eqb, if◌then◌else◌,
}
use bantu_os.Prelude.Text.{Text, codes, concat, contains, lower, ◌==◌}
use bantu_os.Prelude.Dict.{Dict}
use bantu_os.Prelude.Decimal.{decimal}
use bantu_os.Auth.Names.{is_space}

pub data Command : Type 0 where
  line : Text → Command
  words : List Text → Command

-- The keyword arguments of `Popen`; `pipe` is whether `stdin` is one.
pub record Options : Type 0 where
  pub cwd : Option Text
  pub env : Option (Dict Text)
  pub pipe : Bool

-- The exceptions of psutil that the service meets.
pub data PsError : Type 0 where
  no_such_process access_denied timeout_expired : PsError

pub record Os (W : Type 0) : Type 0 where
  pub popen : Command → Bool → Options → W → Result Text ℕ × W
  pub process_name : ℕ → W → Result PsError Text
  pub process_status : ℕ → W → Result PsError Text
  pub send_signal : ℕ → Bool → W → Result PsError (Unit {0}) × W
  pub wait : ℕ → ℕ → W → Result PsError (Unit {0}) × W
  pub pid_exists : ℕ → W → Bool

pub data ProcessError : Type 0 where
  too_many dangerous_command not_found timed_out denied : ProcessError
  failed : Text → ProcessError

pub record Entry : Type 0 where
  pub operation : Text
  pub pid : ℕ
  pub details : Text

-- `managed` is the keys of `_managed_processes`.
pub record ProcessService : Type 0 where
  pub max_concurrent : ℕ
  pub managed : List ℕ
  pub operation_log : List Entry
  pub running : Bool

abbrev pub init : ProcessService
init = record { max_concurrent = 50; managed = []; operation_log = []; running = false }

-- `d[pid] = proc` and `d.pop(pid, None)`
unfoldable pub add_pid : ℕ → List ℕ → List ℕ
add_pid pid pids = if any (eqb pid) pids then pids else pids ++ pid ∷ []

unfoldable pub drop_pid : ℕ → List ℕ → List ℕ
drop_pid pid pids = filter (λ p. not (eqb pid p)) pids

unfoldable pub log_operation : Text → ℕ → Text → ProcessService → ProcessService
log_operation operation pid details s = record s {
  operation_log =
      s.operation_log ++ (record { operation = operation; pid = pid; details = details }) ∷ [];
}

-- `command.split()`: `word` is the word that is being read.
split_from : Text → Text → List Text
split_from [] [] = []
split_from (c ∷ word) [] = (c ∷ word) ∷ []
split_from [] (d ∷ s) =
    let rest = split_from [] s in
    let more = split_from (d ∷ []) s in if is_space d then rest else more
split_from (c ∷ word) (d ∷ s) =
    let rest = split_from [] s in
    let more = split_from (c ∷ word ++ d ∷ []) s in if is_space d then (c ∷ word) ∷ rest else more

unfoldable pub split : Text → List Text
unfolding split_from
split s = split_from [] s

abbrev pub dangerous : List Text
dangerous = codes "rm -rf" ∷ codes ":(){:|:&};:" ∷ codes "fork bomb" ∷ []

-- Only a command line is looked at.
unfoldable pub is_blocked : Command → Bool
is_blocked (line s) = any (λ d. contains d s) dangerous
is_blocked (words ws) = false

unfoldable pub argument_of : Command → Bool → Command
argument_of (line s) false = words (split s)
argument_of (line s) true = line s
argument_of (words ws) shell = words ws

-- `" ".join(words)`
join_words : List Text → Text
join_words [] = []
join_words (w ∷ []) = w
join_words (w ∷ v ∷ rest) = w ++ 32 ∷ join_words (v ∷ rest)

unfoldable pub command_text : Command → Text
unfolding join_words
command_text (line s) = s
command_text (words ws) = join_words ws

-- `repr` is Python's `str` of a list of words, which the log gets.
unfoldable pub details_of : (List Text → Text) → Command → Text
details_of repr (line s) = s
details_of repr (words ws) = repr ws

module _ {W : Type 0} (os : Os W) where
  started :
      (List Text → Text)
      → Command
      → Result Text ℕ × W
      → ProcessService
      → Result ProcessError (ℕ × Text) × ProcessService × W
  started repr command (err e, w) s = (err (failed e), s, w)
  started repr command (ok pid, w) s = (
    ok (pid, command_text command),
    log_operation (codes "start") pid (details_of repr command)
        (record s { managed = add_pid pid s.managed }),
    w,
  )

  unfoldable pub start_process :
      (List Text → Text)
      → Command
      → Bool
      → Options
      → ProcessService
      → W
      → Result ProcessError (ℕ × Text) × ProcessService × W
  unfolding started
  start_process repr command shell options s w =
      let launched =
        started repr command (os.popen (argument_of command shell) shell options w) s in
      if leb s.max_concurrent (length s.managed)
      then (err too_many, s, w)
      else if is_blocked command
      then (err dangerous_command, s, w)
      else launched

  -- The handlers of `stop_process`.
  handle : ℕ → PsError → ProcessService → W → Result ProcessError Text × ProcessService × W
  handle pid no_such_process s w = (err not_found, record s { managed = drop_pid pid s.managed }, w)
  handle pid timeout_expired s w = (err timed_out, s, w)
  handle pid access_denied s w = (err denied, s, w)

  unfoldable pub status_of : Bool → Text
  status_of true = codes "killed"
  status_of false = codes "terminated"

  stopped : Bool → ℕ → Text → ProcessService → W → Result ProcessError Text × ProcessService × W
  stopped force pid name s w =
      let s' = log_operation (status_of force) pid name s in
      (ok (status_of force), record s' { managed = drop_pid pid s'.managed }, w)

  waited :
      Bool
      → ℕ
      → Text
      → Result PsError (Unit {0})
      → ProcessService
      → W
      → Result ProcessError Text × ProcessService × W
  unfolding handle stopped
  waited force pid name (ok _) s w = stopped force pid name s w
  waited force pid name (err no_such_process) s w = stopped force pid name s w
  waited force pid name (err e) s w = handle pid e s w

  unfoldable pub stop_process :
      Bool → ℕ → ProcessService → W → Result ProcessError Text × ProcessService × W
  unfolding handle waited
  stop_process force pid s w = elim (os.process_name pid w) [
    | err e ↦ handle pid e s w
    | ok name ↦
        let (sent, w') = os.send_signal pid force w in
        elim sent [
          | err e ↦ handle pid e s w'
          | ok _ ↦
              let (r, w'') = os.wait pid (if force then 2 else 10) w' in
              waited force pid name r s w''
        ]
  ]

  unfoldable pub kill_process :
      ℕ → ProcessService → W → Result ProcessError Text × ProcessService × W
  kill_process = stop_process true

  -- The handler in `stop` takes the three exceptions of `stop_process` but psutil's own.
  caught : ℕ → ProcessError → ProcessService → Result ProcessError (Unit {0}) × ProcessService
  caught pid denied s = (err denied, s)
  caught pid e s = (ok tt, record s { managed = drop_pid pid s.managed })

  unfoldable pub stop_each :
      List ℕ → ProcessService → W → Result ProcessError (Unit {0}) × ProcessService × W
  unfolding caught
  stop_each [] s w = (ok tt, s, w)
  stop_each (pid ∷ pids) s w =
      let (r, s', w') = stop_process false pid s w in
      elim r [
        | ok status ↦ stop_each pids s' w'
        | err e ↦
            let (c, s'') = caught pid e s' in
            elim c [ ok _ ↦ stop_each pids s'' w' | err f ↦ (err f, s'', w') ]
      ]

  unfoldable pub stop : ProcessService → W → Result ProcessError (Unit {0}) × ProcessService × W
  unfolding stop_each
  stop s w =
      let (r, s', w') = stop_each s.managed s w in
      elim r [ ok _ ↦ (ok tt, record s' { running = false }, w') | err e ↦ (err e, s', w') ]

  unfoldable pub start : ProcessService → ProcessService
  start s = record s { running = true }

  -- The name and the status of a process.
  describe : ℕ → W → Result PsError (Text × Text)
  describe pid w = elim (os.process_name pid w) [
    | err e ↦ err e
    | ok name ↦ elim (os.process_status pid w) [ err e ↦ err e | ok status ↦ ok (name, status) ]
  ]

  in_front :
      ℕ × Text × Text
      → Result PsError (List (ℕ × Text × Text)) × ProcessService
      → Result PsError (List (ℕ × Text × Text)) × ProcessService
  in_front info (ok infos, s) = (ok (info ∷ infos), s)
  in_front info (err e, s) = (err e, s)

  -- A process that ended meanwhile is left out; one that the system does not have is dropped.
  managed_from :
      List ℕ → ProcessService → W → Result PsError (List (ℕ × Text × Text)) × ProcessService
  unfolding describe in_front
  managed_from [] s w = (ok [], s)
  managed_from (pid ∷ pids) s w = elim (os.pid_exists pid w) [
    | false ↦ managed_from pids (record s { managed = drop_pid pid s.managed }) w
    | true ↦ elim (describe pid w) [
      | err no_such_process ↦ managed_from pids s w
      | err e ↦ (err e, s)
      | ok (name, status) ↦ in_front (pid, name, status) (managed_from pids s w)
    ]
  ]

  unfoldable pub get_managed_processes :
      ProcessService → W → Result PsError (List (ℕ × Text × Text)) × ProcessService
  unfolding managed_from
  get_managed_processes s w = managed_from s.managed s w
