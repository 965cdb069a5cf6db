-- ===== src/Kernel/Services/Monitor.antt =====
-- The background task of bantu_os/core/kernel/services.py: `_run_health_monitor`, a round at a time.
use bantu_os.Prelude.{
  ℕ, zero, suc, ◌+◌, Bool, true, false, ◌||◌, List, [], ◌∷◌, none, some, Result, ok, err, ltb,
  if◌then◌else◌,
}
use bantu_os.Prelude.Text.{Text, codes, ◌==◌}
use bantu_os.Prelude.Dict.{lookup, keys}
use bantu_os.Kernel.Services.{
  ManagedService, ServiceManager, Host, is_failed, put, fire, start_service,
}
use bantu_os.Kernel.Services.Health.{health_check_service}

-- `restart_policy in ("on-failure", "always")`
unfoldable pub is_restarted : Text → Bool
is_restarted policy = (policy == codes "on-failure") || (policy == codes "always")

module _ {I H K W : Type 0} (host : Host I H K W) where
  -- A round, or a part of one, that returns or raises.
  abbrev pub Round : Type 0
  Round = Result Text (Unit {0}) × ServiceManager I H K × W

  abbrev pub forget : Result Text Bool × ServiceManager I H K × W → Round
  forget (ok b, m, w) = (ok tt, m, w)
  forget (err e, m, w) = (err e, m, w)

  unfoldable pub restart : Text → ManagedService I H → ServiceManager I H K → W → Round
  restart name svc m w =
      let m' = put name (record svc { restart_count = svc.restart_count + 1 }) m in
      let again = forget (start_service host name m' w) in
      let (r, w') = fire host m.on_failed (name ∷ codes "max restarts exceeded" ∷ []) w in
      if ltb svc.restart_count svc.max_restarts then again else (r, m, w')

  unfoldable pub monitor_one : Text → ServiceManager I H K → W → Round
  unfolding restart
  monitor_one name m w =
      let (rep, m', w') = health_check_service host name m w in
      elim (lookup name m'.services) [
        | none ↦ (ok tt, m', w')
        | some svc ↦
            if is_failed svc.status
            then (if is_restarted svc.restart_policy
                then restart name svc m' w'
                else (ok tt, m', w'))
            else (ok tt, m', w')
      ]

  -- A hook that raises ends the task.
  unfoldable pub monitor_each : List Text → ServiceManager I H K → W → Round
  monitor_each [] m w = (ok tt, m, w)
  monitor_each (name ∷ names) m w =
      let (r, m', w') = monitor_one name m w in
      elim r [ ok _ ↦ monitor_each names m' w' | err e ↦ (err e, m', w') ]

  unfoldable pub monitor_round : ServiceManager I H K → W → Round
  unfolding monitor_each
  monitor_round m w = monitor_each (keys m.services) m w

  -- The loop, for a number of rounds; `running` is tested after each sleep.
  unfoldable pub run_health_monitor : ℕ → (W → W) → ServiceManager I H K → W → Round
  run_health_monitor zero sleep m w = (ok tt, m, w)
  run_health_monitor (suc n) sleep m w =
      let (r, m', w') = monitor_round m (sleep w) in
      let more = run_health_monitor n sleep m' w' in
      let after : Round = elim r [ ok _ ↦ more | err e ↦ (err e, m', w') ] in
      if m.running then after else (ok tt, m, w)

  unfoldable pub start_monitoring : ServiceManager I H K → ServiceManager I H K
  start_monitoring m = if m.health_task then m else record m { running = true; health_task = true }

  unfoldable pub stop_monitoring : ServiceManager I H K → ServiceManager I H K
  stop_monitoring m = record m { running = false; health_task = false }
