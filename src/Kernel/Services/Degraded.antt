-- ===== src/Kernel/Services/Degraded.antt =====
-- The health monitor and a service that is up: whatever its checks say, it is not started again.
use bantu_os.Prelude.{
  ℕ, zero, suc, ◌+◌, ◌≡◌, inl, inr, refl, ◌∙◌, true, false, List, [], ◌∷◌, Option, some, Result, ok,
  err, ltb, if_both, Bool-cases, Option-cases, Result-cases, arith,
}
use bantu_os.Prelude.Text.{Text, ◌==◌, eq_iff}
use bantu_os.Prelude.Dict.{lookup, keys, lookup-insert}
use bantu_os.Kernel.Services
use bantu_os.Kernel.Services.{
  ManagedService, ServiceManager, ServiceStatus, Host, HealthResult, put, fire, start_service,
  is_up, is_failed,
}
use bantu_os.Kernel.Services.Health.{health_check_service, after_check}
use bantu_os.Kernel.Services.Monitor.{
  Round, is_restarted, restart, monitor_one, monitor_each, monitor_round, run_health_monitor,
}
use bantu_os.Kernel.Services.Frame.{Kept-others, start_service-Kept, health_check_service-Kept}
use bantu_os.Kernel.Services.Limits.{forget-manager}
use bantu_os.Kernel.Services.Lifecycle.{lookup-put}

up-not_failed : (s : ServiceStatus) → is_up s ≡ true → is_failed s ≡ false
unfolding is_up is_failed
up-not_failed Services.healthy h = refl
up-not_failed s h = ground arith

module _ {I H K : Type 0} where
  -- The service is healthy or degraded, with this object and this number of restarts.
  pub record IsUp (name : Text) (i : Option I) (count : ℕ) (m : ServiceManager I H K) : Type 0 where
    pub service : ManagedService I H
    pub found : lookup name m.services ≡ some service
    pub up : is_up service.status ≡ true
    pub object : service.instance_object ≡ i
    pub counted : service.restart_count ≡ count

module _ {I H K W : Type 0} (host : Host I H K W) where
  after_check-up :
      (name : Text) (svc : ManagedService I H) (r : Result Text HealthResult) (now : ℕ)
      → is_up (after_check host name svc r now).1.status ≡ true
  unfolding after_check is_up
  after_check-up name svc (ok result) now = ground arith
  after_check-up name svc (err e) now = refl

  after_check-object :
      (name : Text) (svc : ManagedService I H) (r : Result Text HealthResult) (now : ℕ)
      → ((after_check host name svc r now).1.instance_object ≡ svc.instance_object)
        × ((after_check host name svc r now).1.restart_count ≡ svc.restart_count)
  unfolding after_check
  after_check-object name svc (ok result) now = (refl, refl)
  after_check-object name svc (err e) now = (refl, refl)

  health_check_service-IsUp :
      (name : Text) (i : Option I) (count : ℕ) (m : ServiceManager I H K) (w : W)
      → IsUp name i count m
      → IsUp name i count (health_check_service host name m w).1
  unfolding health_check_service
  health_check_service-IsUp name i count m w u = elim (Option-cases u.service.health_check_fn) [
    | inl e ↦ simp (health_check_service, u.found, u.up, e) u
    | inr (hc, e) ↦
        let svc = u.service in
        let r = (host.check hc w).0 in
        let now = host.now (host.check hc w).1 in
        let s = (after_check host name svc r now).1 in
        simp (health_check_service, u.found, u.up, e)
          (record {
            service = s;
            found = lookup-put host name s m;
            up = after_check-up name svc r now;
            object = (after_check-object name svc r now).0 ∙ u.object;
            counted = (after_check-object name svc r now).1 ∙ u.counted;
          })
  ]

  health_check_service-others :
      (name n : Text) (m : ServiceManager I H K) (w : W)
      → (name == n) ≡ false
      → lookup n (health_check_service host name m w).1.services ≡ lookup n m.services
  unfolding health_check_service
  health_check_service-others name n m w h = elim (Option-cases (lookup name m.services)) [
    | inl e ↦ rw (health_check_service, e) refl
    | inr (svc, e) ↦
        Kept-others host name svc m _ n (health_check_service-Kept host name svc m w e) h
  ]

  restart-others :
      (name n : Text) (svc : ManagedService I H) (m : ServiceManager I H K) (w : W)
      → (name == n) ≡ false
      → lookup n (restart host name svc m w).1.services ≡ lookup n m.services
  unfolding restart
  restart-others name n svc m w h = elim (Bool-cases (ltb svc.restart_count svc.max_restarts)) [
    | inr full ↦ rw full refl
    | inl room ↦
        let s = record svc { restart_count = svc.restart_count + 1 } in
        let m' = put name s m in
        rw (room, forget-manager host (start_service host name m' w))
          (Kept-others host name s m' _ n
              (start_service-Kept host name s m' w (lookup-put host name s m)) h
            ∙ ground (arith, lookup-insert name n s m.services))
  ]

  monitor_one-others :
      (name n : Text) (m : ServiceManager I H K) (w : W)
      → (name == n) ≡ false
      → lookup n (monitor_one host name m w).1.services ≡ lookup n m.services
  unfolding monitor_one
  monitor_one-others name n m w h =
      let m' = (health_check_service host name m w).1 in
      let w' = (health_check_service host name m w).2 in
      let kept = health_check_service-others name n m w h in
      elim (Option-cases (lookup name m'.services)) [
        | inl e ↦ rw (monitor_one, e) kept
        | inr (svc, e) ↦ elim (Bool-cases (is_failed svc.status)) [
          | inr well ↦ rw (monitor_one, e, well) kept
          | inl ill ↦ elim (Bool-cases (is_restarted svc.restart_policy)) [
            | inr never ↦ rw (monitor_one, e, ill, never) kept
            | inl again ↦ rw (monitor_one, e, ill, again) (restart-others name n svc m' w' h ∙ kept)
          ]
        ]
      ]

  monitor_one_self-IsUp :
      (name : Text) (i : Option I) (count : ℕ) (m : ServiceManager I H K) (w : W)
      → IsUp name i count m
      → IsUp name i count (monitor_one host name m w).1
  unfolding monitor_one
  monitor_one_self-IsUp name i count m w u =
      let v = health_check_service-IsUp name i count m w u in
      rw (monitor_one, v.found, up-not_failed v.service.status v.up) v

  monitor_one-IsUp :
      (name n : Text) (i : Option I) (count : ℕ) (m : ServiceManager I H K) (w : W)
      → IsUp n i count m
      → IsUp n i count (monitor_one host name m w).1
  unfolding monitor_one
  monitor_one-IsUp name n i count m w u = elim (Bool-cases (name == n)) [
    | inr other ↦ record {
      service = u.service;
      found = monitor_one-others name n m w other ∙ u.found;
      up = u.up;
      object = u.object;
      counted = u.counted;
    }
    | inl e ↦ rw ((eq_iff name n).0 e) (monitor_one_self-IsUp n i count m w u)
  ]

  monitor_each-IsUp :
      (names : List Text) (n : Text) (i : Option I) (count : ℕ) (m : ServiceManager I H K) (w : W)
      → IsUp n i count m
      → IsUp n i count (monitor_each host names m w).1
  unfolding monitor_each
  monitor_each-IsUp [] n i count m w u = u
  monitor_each-IsUp (name ∷ names) n i count m w u =
      let u' = monitor_one-IsUp name n i count m w u in
      elim (Result-cases (monitor_one host name m w).0) [
        | inl (r, e) ↦ rw (monitor_each, e) (monitor_each-IsUp names n i count _ _ u')
        | inr (x, e) ↦ rw (monitor_each, e) u'
      ]

  -- A service that is healthy or degraded stays so through any number of rounds of the health
  -- monitor, with the same object and the same number of restarts: whatever its policy is, and
  -- also if all its health checks fail or raise, the monitor never starts it again.
  pub run_health_monitor-IsUp :
      (rounds : ℕ) (sleep : W → W) (name : Text) (i : Option I) (count : ℕ)
      (m : ServiceManager I H K) (w : W)
      → IsUp name i count m
      → IsUp name i count (run_health_monitor host rounds sleep m w).1
  unfolding run_health_monitor monitor_round
  run_health_monitor-IsUp zero sleep name i count m w u = u
  run_health_monitor-IsUp (suc n) sleep name i count m w u =
      let u' = monitor_each-IsUp (keys m.services) name i count m (sleep w) u in
      if_both (λ (r : Round host). IsUp name i count r.1) m.running _ _
        (elim (Result-cases (monitor_each host (keys m.services) m (sleep w)).0) [
          | inl (r, e) ↦ rw e (run_health_monitor-IsUp n sleep name i count _ _ u')
          | inr (x, e) ↦ rw e u'
        ])
        u
