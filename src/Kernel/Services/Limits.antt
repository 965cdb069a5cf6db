-- ===== src/Kernel/Services/Limits.antt =====
-- The limit of restarts of the service orchestrator, and what its monitor never does.
use bantu_os.Prelude.{
  ℕ, zero, suc, ◌+◌, ◌≤◌, ◌≡◌, inl, inr, refl, Bool, List, [], ◌∷◌, Option, none, some, Result, ok,
  err, ltb, if_both, Bool-cases, Option-cases, Result-cases, arith,
}
use bantu_os.Prelude.Text.{Text}
use bantu_os.Prelude.Dict.{lookup, keys, lookup-insert}
use bantu_os.Kernel.Services.{
  ManagedService, ServiceManager, Host, put, register, start_service, stop_service, is_failed,
}
use bantu_os.Kernel.Services.Health.{health_check_service}
use bantu_os.Kernel.Services.Monitor.{
  Round, forget, is_restarted, restart, monitor_one, monitor_each, monitor_round,
  run_health_monitor,
}
use bantu_os.Kernel.Services.Discover.{ServiceInfo, known, discover_each, discover_services}
use bantu_os.Kernel.Services.Frame.{
  Kept, same, changed, start_service-Kept, stop_service-Kept, health_check_service-Kept,
}

module _ {I H K : Type 0} where
  -- No service has a restart count above its limit.
  abbrev pub IsLimited : ServiceManager I H K → Type 0
  IsLimited m =
      (n : Text) (svc : ManagedService I H)
      → lookup n m.services ≡ some svc
      → svc.restart_count ≤ svc.max_restarts

module _ {I H K W : Type 0} (host : Host I H K W) where
  put-IsLimited :
      (name : Text) (svc : ManagedService I H) (m : ServiceManager I H K)
      → svc.restart_count ≤ svc.max_restarts
      → IsLimited m
      → IsLimited (put name svc m)
  put-IsLimited name svc m h k n s at = ground (arith, lookup-insert name n svc m.services, k n s)

  Kept-IsLimited :
      (name : Text) (svc : ManagedService I H) (m m' : ServiceManager I H K)
      → Kept host name svc m m'
      → lookup name m.services ≡ some svc
      → IsLimited m
      → IsLimited m'
  Kept-IsLimited name svc m m' (same e) at k = rw e k
  Kept-IsLimited name svc m m' (changed s e a) at k =
      rw e (put-IsLimited name s m (omega (arith, a.0, a.1, k name svc at)) k)

  -- An operation on a name that is not registered, or one that keeps the counters.
  by_lookup :
      (f : ServiceManager I H K → ServiceManager I H K) (name : Text) (m : ServiceManager I H K)
      → (lookup name m.services ≡ none → f m ≡ m)
      → ((svc : ManagedService I H)
          → lookup name m.services ≡ some svc
          → Kept host name svc m (f m))
      → IsLimited m
      → IsLimited (f m)
  by_lookup f name m absent there k = elim (Option-cases (lookup name m.services)) [
    | inl e ↦ rw (absent e) k
    | inr (svc, e) ↦ Kept-IsLimited name svc m (f m) (there svc e) e k
  ]

  start_service-IsLimited :
      (name : Text) (m : ServiceManager I H K) (w : W)
      → IsLimited m
      → IsLimited (start_service host name m w).1
  unfolding start_service
  start_service-IsLimited name m w =
      by_lookup (λ (x : ServiceManager I H K). (start_service host name x w).1) name m
        (λ e. rw (start_service, e) refl) (λ svc e. start_service-Kept host name svc m w e)

  stop_service-IsLimited :
      (name : Text) (m : ServiceManager I H K) (w : W)
      → IsLimited m
      → IsLimited (stop_service host name m w).1
  unfolding stop_service
  stop_service-IsLimited name m w =
      by_lookup (λ (x : ServiceManager I H K). (stop_service host name x w).1) name m
        (λ e. rw (stop_service, e) refl) (λ svc e. stop_service-Kept host name svc m w e)

  health_check_service-IsLimited :
      (name : Text) (m : ServiceManager I H K) (w : W)
      → IsLimited m
      → IsLimited (health_check_service host name m w).1
  unfolding health_check_service
  health_check_service-IsLimited name m w =
      by_lookup (λ (x : ServiceManager I H K). (health_check_service host name x w).1) name m
        (λ e. rw (health_check_service, e) refl)
        (λ svc e. health_check_service-Kept host name svc m w e)

  pub forget-manager : (x : Result Text Bool × ServiceManager I H K × W) → (forget host x).1 ≡ x.1
  forget-manager (ok b, m, w) = refl
  forget-manager (err e, m, w) = refl

  restart-IsLimited :
      (name : Text) (svc : ManagedService I H) (m : ServiceManager I H K) (w : W)
      → IsLimited m
      → IsLimited (restart host name svc m w).1
  unfolding restart
  restart-IsLimited name svc m w k = elim (Bool-cases (ltb svc.restart_count svc.max_restarts)) [
    | inr full ↦ rw full k
    | inl room ↦
        let s = record svc { restart_count = svc.restart_count + 1 } in
        rw (room, forget-manager (start_service host name (put name s m) w))
          (start_service-IsLimited name (put name s m) w (put-IsLimited name s m (ground arith) k))
  ]

  monitor_one-IsLimited :
      (name : Text) (m : ServiceManager I H K) (w : W)
      → IsLimited m
      → IsLimited (monitor_one host name m w).1
  unfolding monitor_one
  monitor_one-IsLimited name m w k =
      let m' = (health_check_service host name m w).1 in
      let w' = (health_check_service host name m w).2 in
      let k' = health_check_service-IsLimited name m w k in
      elim (Option-cases (lookup name m'.services)) [
        | inl e ↦ rw (monitor_one, e) k'
        | inr (svc, e) ↦ elim (Bool-cases (is_failed svc.status)) [
          | inr well ↦ rw (monitor_one, e, well) k'
          | inl ill ↦ elim (Bool-cases (is_restarted svc.restart_policy)) [
            | inr never ↦ rw (monitor_one, e, ill, never) k'
            | inl again ↦ rw (monitor_one, e, ill, again) (restart-IsLimited name svc m' w' k')
          ]
        ]
      ]

  monitor_each-IsLimited :
      (names : List Text) (m : ServiceManager I H K) (w : W)
      → IsLimited m
      → IsLimited (monitor_each host names m w).1
  unfolding monitor_each
  monitor_each-IsLimited [] m w k = k
  monitor_each-IsLimited (name ∷ names) m w k =
      let k' = monitor_one-IsLimited name m w k in
      elim (Result-cases (monitor_one host name m w).0) [
        | inl (u, e) ↦ rw (monitor_each, e) (monitor_each-IsLimited names _ _ k')
        | inr (x, e) ↦ rw (monitor_each, e) k'
      ]

  run_health_monitor-IsLimited :
      (n : ℕ) (sleep : W → W) (m : ServiceManager I H K) (w : W)
      → IsLimited m
      → IsLimited (run_health_monitor host n sleep m w).1
  unfolding run_health_monitor monitor_round
  run_health_monitor-IsLimited zero sleep m w k = k
  run_health_monitor-IsLimited (suc n) sleep m w k =
      let k' = monitor_each-IsLimited (keys m.services) m (sleep w) k in
      if_both (λ (r : Round host). IsLimited r.1) m.running _ _
        (elim (Result-cases (monitor_each host (keys m.services) m (sleep w)).0) [
          | inl (u, e) ↦ rw e (run_health_monitor-IsLimited n sleep _ _ k')
          | inr (x, e) ↦ rw e k'
        ])
        k

  discover_each-IsLimited :
      (load : Text → Text → Option I) (infos : List ServiceInfo) (m : ServiceManager I H K)
      → IsLimited m
      → IsLimited (discover_each host load infos m)
  unfolding discover_each register
  discover_each-IsLimited load [] m k = k
  discover_each-IsLimited load (s ∷ infos) m k = elim (Option-cases (load s.path s.cls_name)) [
    | inl e ↦ rw (discover_each, e) (discover_each-IsLimited load infos m k)
    | inr (i, e) ↦
        rw (discover_each, e)
          (discover_each-IsLimited load infos _ (put-IsLimited s.name _ m (omega arith) k))
  ]

  -- If no service has a restart count above its limit, then so it is after any operation:
  -- after the registration of an object under a new or an old name, the discovery of the known
  -- services, a start or a stop of a service, a health check, and any number of rounds of the
  -- health monitor.
  pub operations-IsLimited :
      (name : Text) (i : I) (description version : Text) (check : Option H) (policy : Text)
      (max_restarts n : ℕ) (load : Text → Text → Option I) (sleep : W → W)
      (m : ServiceManager I H K) (w : W)
      → IsLimited m
      → IsLimited (register host name i description version check policy max_restarts m)
        × IsLimited (discover_services host load m)
        × IsLimited (start_service host name m w).1
        × IsLimited (stop_service host name m w).1
        × IsLimited (health_check_service host name m w).1
        × IsLimited (run_health_monitor host n sleep m w).1
  unfolding register discover_services
  operations-IsLimited name i description version check policy max_restarts n load sleep m w k = (
    put-IsLimited name _ m (omega arith) k,
    discover_each-IsLimited load known m k,
    start_service-IsLimited name m w k,
    stop_service-IsLimited name m w k,
    health_check_service-IsLimited name m w k,
    run_health_monitor-IsLimited n sleep m w k,
  )
