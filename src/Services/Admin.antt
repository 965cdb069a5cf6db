-- ===== src/Services/Admin.antt =====
-- `_process` of AdminProtocol in bantu_os/services/service_manager.py: the commands of the admin
-- socket on the supervisor. Its lines are cut as in Server.Framing.
use bantu_os.Prelude.{
  ℕ, zero, suc, ◌-◌, ◌≡◌, refl, Bool, true, false, Option, none, some, List, [], ◌∷◌, ◌++◌, length,
  Result, ok, err, if◌then◌else◌,
}
use bantu_os.Prelude.Text.{Text, codes, ◌==◌}
use bantu_os.Prelude.Dict.{Dict, lookup}
use bantu_os.Services.Supervisor.{
  Supervisor, Os, Done, start_service, stop_service, restart_service, status,
}

-- A payload of `_send`: `answer` has "ok" and "result".
pub data Reply : Type 0 where
  answer : Bool → Text → Reply
  statuses : Dict (Bool × Option ℕ) → Reply
  failure : Text → Reply

-- `FileNotFoundError`, or another exception.
pub data LogError : Type 0 where
  missing : LogError
  other : Text → LogError

-- The JSON reader gives the text entries of the object; a log is read as its lines.
pub record Host (W : Type 0) : Type 0 where
  pub loads : Text → Result Text (Dict Text)
  pub read_lines : Text → W → Result LogError (List Text)

abbrev pub tail_lines : ℕ
tail_lines = 100

drop_lines : ℕ → List Text → List Text
drop_lines zero lines = lines
drop_lines (suc n) [] = []
drop_lines (suc n) (line ∷ lines) = drop_lines n lines

-- `lines[-TAIL_LINES:]`
unfoldable pub last_lines : List Text → List Text
unfolding drop_lines
last_lines lines = drop_lines (length lines - tail_lines) lines

-- `"\n".join(lines)`
join_lines : List Text → Text
join_lines [] = []
join_lines (line ∷ []) = line
join_lines (line ∷ next ∷ rest) = line ++ 10 ∷ join_lines (next ∷ rest)

log_reply : Text → Result LogError (List Text) → Reply
unfolding last_lines join_lines
log_reply log_file (ok lines) = answer true (join_lines (last_lines lines))
log_reply log_file (err missing) = failure (codes "log not found: " ++ log_file)
log_reply log_file (err (other e)) = failure e

-- `req.get("service")`, `none` for the empty text too.
unfoldable pub named : Option Text → Option Text
named none = none
named (some []) = none
named (some (c ∷ s)) = some (c ∷ s)

module _ {W : Type 0} (host : Host W) (os : Os W) where
  -- An exception of the supervisor is an error of the request.
  answered : Text → Done W → Reply × Supervisor × W
  answered text (ok b, s, w) = (answer b text, s, w)
  answered text (err e, s, w) = (failure e, s, w)

  for_service :
      Option Text → (Text → Reply × Supervisor × W) → Supervisor → W → Reply × Supervisor × W
  for_service none f s w = (failure (codes "service name required"), s, w)
  for_service (some name) f s w = f name

  logs : Supervisor → W → Text → Reply × Supervisor × W
  unfolding log_reply
  logs s w name = elim (lookup name s.services) [
    | none ↦ (failure (codes "unknown service: " ++ name), s, w)
    | some svc ↦ (log_reply svc.log_file (host.read_lines svc.log_file w), s, w)
  ]

  unfoldable pub handle : Dict Text → Supervisor → W → Reply × Supervisor × W
  unfolding answered for_service logs
  handle r s w =
      let cmd : Text = elim (lookup (codes "cmd") r) [ none ↦ [] | some c ↦ c ] in
      let service = named (lookup (codes "service") r) in
      if cmd == codes "ping"
      then (answer true (codes "pong"), s, w)
      else if cmd == codes "status"
      then (statuses (status os s w), s, w)
      else if cmd == codes "start"
      then for_service service (λ n. answered (n ++ codes " started") (start_service os n s w)) s w
      else if cmd == codes "stop"
      then for_service service (λ n. answered (n ++ codes " stopped") (stop_service os n s w)) s w
      else if cmd == codes "restart"
      then for_service service (λ n. answered (n ++ codes " restarted") (restart_service os n s w))
          s w
      else if cmd == codes "logs"
      then for_service service (logs s w) s w
      else if cmd == codes "shutdown"
      then (answer true (codes "shutting down"), record s { shutdown_requested = true }, w)
      else (failure (codes "Unknown cmd: " ++ cmd), s, w)

  unfoldable pub process : Text → Supervisor → W → Reply × Supervisor × W
  process line s w = elim (host.loads line) [
    | err e ↦ (failure (codes "Invalid JSON: " ++ e), s, w)
    | ok r ↦ handle r s w
  ]

  module _ (s : Supervisor) (w : W) where
    Frozen : Reply × Supervisor × W → Type 0
    Frozen x = (x.1.services ≡ s.services) × (x.2 ≡ w)

    either :
        (b : Bool) (x y : Reply × Supervisor × W)
        → Frozen x
        → Frozen y
        → Frozen (if b then x else y)
    either true x y p q = p
    either false x y p q = q

    same : (reply : Reply) → Frozen (reply, s, w)
    unfolding Frozen
    same reply = (refl, refl)

    flagged : (reply : Reply) → Frozen (reply, record s { shutdown_requested = true }, w)
    unfolding Frozen
    flagged reply = (refl, refl)

    unnamed :
        (o : Option Text) (f : Text → Reply × Supervisor × W)
        → o ≡ none
        → Frozen (for_service o f s w)
    unfolding for_service Frozen
    unnamed none f h = (refl, refl)
    unnamed (some n) f h = absurd (cc)

    handle-Frozen :
        (r : Dict Text) → named (lookup (codes "service") r) ≡ none → Frozen (handle r s w)
    unfolding handle
    handle-Frozen r h =
        let n = named (lookup (codes "service") r) in
        let c : Text = elim (lookup (codes "cmd") r) [ none ↦ [] | some t ↦ t ] in
        either (c == codes "ping") _ _ (same _) (
          either (c == codes "status") _ _ (same _) (
            either (c == codes "start") _ _ (unnamed n _ h) (
              either (c == codes "stop") _ _ (unnamed n _ h) (
                either (c == codes "restart") _ _ (unnamed n _ h) (
                  either (c == codes "logs") _ _ (unnamed n _ h)
                    (either (c == codes "shutdown") _ _ (flagged _) (same _)))))))

    -- Without the name of a service no request changes a service, or starts or stops a process.
    pub handle-unnamed :
        (r : Dict Text)
        → named (lookup (codes "service") r) ≡ none
        → ((handle r s w).1.services ≡ s.services) × ((handle r s w).2 ≡ w)
    unfolding Frozen
    handle-unnamed r h = handle-Frozen r h
