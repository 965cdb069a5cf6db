-- ===== src/Kernel/Services/Restarts.antt =====
-- How often the health monitor starts services: never more often than their limits leave.
use bantu_os.Prelude.{
  ℕ, zero, suc, ◌+◌, ◌-◌, ◌≤◌, ◌≡◌, inl, inr, refl, ◌∙◌, Bool, List, [], ◌∷◌, Option, none, some,
  Result, ok, err, ltb, if_both, Bool-cases, Option-cases, Result-cases, arith,
}
use bantu_os.Prelude.Text.{Text, codes, eq_refl}
use bantu_os.Prelude.Dict.{Dict, lookup, insert, keys, lookup-insert}
use bantu_os.Kernel.Services
use bantu_os.Kernel.Services.{
  ManagedService, ServiceManager, Host, put, fire, start_object, start_failed, started,
  start_service, is_healthy, is_up, is_failed,
}
use bantu_os.Kernel.Services.Health.{health_check_service}
use bantu_os.Kernel.Services.Monitor.{
  Round, forget, is_restarted, restart, monitor_one, monitor_each, monitor_round,
  run_health_monitor,
}
use bantu_os.Kernel.Services.Frame.{
  Kept, same, changed, start_service-Kept, health_check_service-Kept,
}
use bantu_os.Kernel.Services.Limits.{forget-manager}

module _ {I H : Type 0} where
  -- The restarts that a service has left.
  abbrev pub left : ManagedService I H → ℕ
  left svc = svc.max_restarts - svc.restart_count

  -- The restarts that all services have left.
  unfoldable pub budget : Dict (ManagedService I H) → ℕ
  budget [] = 0
  budget ((name, svc) ∷ d) = left svc + budget d

  budget-insert :
      (name : Text) (s svc : ManagedService I H) (d : Dict (ManagedService I H))
      → lookup name d ≡ some svc
      → budget (insert name s d) + left svc ≡ budget d + left s
  unfolding budget insert lookup
  budget-insert name s svc [] at = absurd (ground arith)
  budget-insert name s svc ((k, t) ∷ d) at = ground (arith, budget-insert name s svc d)

module _ {I H K W : Type 0} (host : Host I H K W) (starts : W → ℕ)
    (starting : (i : I) (f : ℕ → W → Result Text (Unit {0}) × W)
      → host.start i ≡ some f
      → (timeout : ℕ) (w : W) → starts (f timeout w).1 ≤ starts w + 1)
    (checking : (h : H) (w : W) → starts (host.check h w).1 ≡ starts w)
    (calling : (k : K) (args : List Text) (w : W) → starts (host.call k args w).1 ≡ starts w) where
  Kept-budget :
      (name : Text) (svc : ManagedService I H) (m m' : ServiceManager I H K)
      → Kept host name svc m m'
      → lookup name m.services ≡ some svc
      → budget m'.services ≡ budget m.services
  Kept-budget name svc m m' (same e) at = rw e refl
  Kept-budget name svc m m' (changed s e a) at =
      rw e (omega (arith, budget-insert name s svc m.services at, a.0, a.1))

  fire-starts :
      (hooks : List K) (args : List Text) (w : W) → starts (fire host hooks args w).1 ≡ starts w
  unfolding fire
  fire-starts [] args w = refl
  fire-starts (k ∷ hooks) args w = elim (Result-cases (host.call k args w).0) [
    | inl (u, e) ↦ rw (fire, e) (fire-starts hooks args _ ∙ calling k args w)
    | inr (x, e) ↦ rw (fire, e) (calling k args w)
  ]

  start_object-starts :
      (timeout : ℕ) (o : Option I) (w : W) → starts (start_object host timeout o w).1 ≤ starts w + 1
  unfolding start_object
  start_object-starts timeout none w = omega arith
  start_object-starts timeout (some i) w = elim (Option-cases (host.start i)) [
    | inl e ↦ rw (start_object, e) (omega arith)
    | inr (f, e) ↦ rw (start_object, e) (starting i f e timeout w)
  ]

  start_failed-starts :
      (name : Text) (svc : ManagedService I H) (e : Text) (m : ServiceManager I H K) (w : W)
      → starts (start_failed host name svc e m w).2 ≡ starts w
  unfolding start_failed
  start_failed-starts name svc e m w =
      let fired = fire-starts m.on_failed (name ∷ e ∷ []) w in
      elim (Result-cases (fire host m.on_failed (name ∷ e ∷ []) w).0) [
        | inl (u, f) ↦ rw (start_failed, f) fired
        | inr (x, f) ↦ rw (start_failed, f) fired
      ]

  started-starts :
      (name : Text) (svc : ManagedService I H) (m : ServiceManager I H K) (w : W)
      → starts (started host name svc m w).2 ≡ starts w
  unfolding started
  started-starts name svc m w =
      let fired = fire-starts m.on_started (name ∷ []) w in
      elim (Result-cases (fire host m.on_started (name ∷ []) w).0) [
        | inl (u, f) ↦ rw (started, f) fired
        | inr (x, f) ↦
            let s = record svc {
              status = Services.healthy;
              started_at = some (host.now w);
              last_error = none;
            } in
            rw (started, f) (start_failed-starts name s x m _ ∙ fired)
      ]

  start_service-starts :
      (name : Text) (m : ServiceManager I H K) (w : W)
      → starts (start_service host name m w).2 ≤ starts w + 1
  unfolding start_service
  start_service-starts name m w = elim (Option-cases (lookup name m.services)) [
    | inl e ↦ rw (start_service, e) (omega arith)
    | inr (svc, e) ↦
        let object = start_object host m.startup_timeout svc.instance_object w in
        let once = start_object-starts m.startup_timeout svc.instance_object w in
        elim (Bool-cases (is_healthy svc.status)) [
          | inl up ↦ rw (start_service, e, up) (omega arith)
          | inr down ↦ elim (Result-cases object.0) [
            | inl (u, f) ↦
                rw (start_service, e, down, f)
                  (omega (arith, once, started-starts name svc m object.1))
            | inr (x, f) ↦
                rw (start_service, e, down, f)
                  (omega (arith, once, start_failed-starts name svc x m object.1))
          ]
        ]
  ]

  health_check_service-starts :
      (name : Text) (m : ServiceManager I H K) (w : W)
      → (starts (health_check_service host name m w).2 ≡ starts w)
        × (budget (health_check_service host name m w).1.services ≡ budget m.services)
  unfolding health_check_service
  health_check_service-starts name m w = elim (Option-cases (lookup name m.services)) [
    | inl e ↦ rw (health_check_service, e) (refl, refl)
    | inr (svc, e) ↦ (
      elim (Bool-cases (is_up svc.status)) [
        | inr down ↦ rw (health_check_service, e, down) refl
        | inl up ↦ elim (Option-cases svc.health_check_fn) [
          | inl f ↦ rw (health_check_service, e, up, f) refl
          | inr (hc, f) ↦ simp (health_check_service, e, up, f) (checking hc w)
        ]
      ],
      Kept-budget name svc m _ (health_check_service-Kept host name svc m w e) e,
    )
  ]

  -- A start that the monitor makes uses up one of the restarts that are left.
  abbrev Spends : ServiceManager I H K → W → Round host → Type 0
  Spends m w r = starts r.2 + budget r.1.services ≤ starts w + budget m.services

  forget_world : (x : Result Text Bool × ServiceManager I H K × W) → (forget host x).2 ≡ x.2
  forget_world (ok b, m, w) = refl
  forget_world (err e, m, w) = refl

  restart-Spends :
      (name : Text) (svc : ManagedService I H) (m : ServiceManager I H K) (w : W)
      → lookup name m.services ≡ some svc
      → Spends m w (restart host name svc m w)
  unfolding restart
  restart-Spends name svc m w at = elim (Bool-cases (ltb svc.restart_count svc.max_restarts)) [
    | inr full ↦
        let fired = fire-starts m.on_failed (name ∷ codes "max restarts exceeded" ∷ []) w in
        rw full (omega (arith, fired))
    | inl room ↦
        let s = record svc { restart_count = svc.restart_count + 1 } in
        let m' = put name s m in
        let there : lookup name m'.services ≡ some s =
          ground (arith, eq_refl name, lookup-insert name name s m.services) in
        let kept = Kept-budget name s m' _ (start_service-Kept host name s m' w there) there in
        let spent = budget-insert name s svc m.services at in
        let less : svc.restart_count + 1 ≤ svc.max_restarts = ground (arith, room) in
        rw
          (
            room,
            forget-manager host (start_service host name m' w),
            forget_world (start_service host name m' w),
          )
          (omega (arith, kept, spent, less, start_service-starts name m' w))
  ]

  monitor_one-Spends :
      (name : Text) (m : ServiceManager I H K) (w : W) → Spends m w (monitor_one host name m w)
  unfolding monitor_one
  monitor_one-Spends name m w =
      let m' = (health_check_service host name m w).1 in
      let w' = (health_check_service host name m w).2 in
      let (one, two) = health_check_service-starts name m w in
      elim (Option-cases (lookup name m'.services)) [
        | inl e ↦ rw (monitor_one, e) (omega (arith, one, two))
        | inr (svc, e) ↦ elim (Bool-cases (is_failed svc.status)) [
          | inr well ↦ rw (monitor_one, e, well) (omega (arith, one, two))
          | inl ill ↦ elim (Bool-cases (is_restarted svc.restart_policy)) [
            | inr never ↦ rw (monitor_one, e, ill, never) (omega (arith, one, two))
            | inl again ↦
                rw (monitor_one, e, ill, again)
                  (omega (arith, one, two, restart-Spends name svc m' w' e))
          ]
        ]
      ]

  monitor_each-Spends :
      (names : List Text) (m : ServiceManager I H K) (w : W)
      → Spends m w (monitor_each host names m w)
  unfolding monitor_each
  monitor_each-Spends [] m w = omega arith
  monitor_each-Spends (name ∷ names) m w =
      let one = monitor_one-Spends name m w in
      let r = monitor_one host name m w in
      elim (Result-cases r.0) [
        | inl (u, e) ↦ rw (monitor_each, e) (omega (arith, one, monitor_each-Spends names r.1 r.2))
        | inr (x, e) ↦ rw (monitor_each, e) one
      ]

  -- If a call of an object's `start` counts as one start at most, and no health check, no hook and
  -- no sleep as any, then in any number of rounds the health monitor makes no more starts than the
  -- services have restarts left, in sum, and the restarts that are left go down by as many at least.
  pub run_health_monitor-bounded :
      (n : ℕ) (sleep : W → W) (m : ServiceManager I H K) (w : W)
      → ((v : W) → starts (sleep v) ≡ starts v)
      → let r = run_health_monitor host n sleep m w in
        starts r.2 + budget r.1.services ≤ starts w + budget m.services
  unfolding run_health_monitor monitor_round
  run_health_monitor-bounded zero sleep m w still = omega arith
  run_health_monitor-bounded (suc n) sleep m w still =
      let one = monitor_each-Spends (keys m.services) m (sleep w) in
      let r = monitor_each host (keys m.services) m (sleep w) in
      if_both (Spends m w) m.running _ _
        (elim (Result-cases r.0) [
          | inl (u, e) ↦
              rw e (omega (arith, one, still w, run_health_monitor-bounded n sleep r.1 r.2 still))
          | inr (x, e) ↦ rw e (omega (arith, one, still w))
        ])
        (omega arith)
