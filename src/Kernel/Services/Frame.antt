-- ===== src/Kernel/Services/Frame.antt =====
-- What an operation of the service orchestrator leaves alone.
use bantu_os.Prelude.{
  ℕ, ◌≡◌, inl, inr, refl, false, [], ◌∷◌, none, some, Result, ok, err, Bool-cases, Option-cases,
  Result-cases, arith,
}
use bantu_os.Prelude.Text.{Text, ◌==◌, eq_refl}
use bantu_os.Prelude.Dict.{lookup, lookup-insert}
use bantu_os.Kernel.Services
use bantu_os.Kernel.Services.{
  ManagedService, ServiceManager, Host, HealthResult, put, register, fire, start_object,
  stop_object, start_failed, started, start_service, stop_service, is_healthy, is_stopped, is_up,
  is_failed,
}
use bantu_os.Kernel.Services.Health.{after_check, health_check_service}

module _ {I H : Type 0} where
  -- The counters and the policy of a service, which only the monitor changes.
  abbrev pub Alike : ManagedService I H → ManagedService I H → Type 0
  Alike s t =
      (t.restart_count ≡ s.restart_count)
      × (t.max_restarts ≡ s.max_restarts)
      × (t.restart_policy ≡ s.restart_policy)

module _ {I H K W : Type 0} (host : Host I H K W) where
  -- At most one service was changed, and not its counters.
  pub data Kept (name : Text) (svc : ManagedService I H) (m m' : ServiceManager I H K)
      : Type 0 where
    same : m' ≡ m → Kept name svc m m'
    changed : (s : ManagedService I H) → m' ≡ put name s m → Alike svc s → Kept name svc m m'

  start_failed-Kept :
      (name : Text) (svc s : ManagedService I H) (e : Text) (m : ServiceManager I H K) (w : W)
      → Alike svc s
      → Kept name svc m (start_failed host name s e m w).1
  unfolding start_failed
  start_failed-Kept name svc s e m w a =
      changed (record s { status = Services.failed; last_error = some e }) (ground arith)
        (a.0, a.1, a.2)

  started-Kept :
      (name : Text) (svc : ManagedService I H) (m : ServiceManager I H K) (w : W)
      → Kept name svc m (started host name svc m w).1
  unfolding started
  started-Kept name svc m w = elim (Result-cases (fire host m.on_started (name ∷ []) w).0) [
    | inl (u, e) ↦ rw (started, e) (changed _ refl (refl, refl, refl))
    | inr (x, e) ↦
        let s = record svc {
          status = Services.healthy;
          started_at = some (host.now w);
          last_error = none;
        } in
        rw (started, e) (start_failed-Kept name svc s x m _ (refl, refl, refl))
  ]

  pub start_service-Kept :
      (name : Text) (svc : ManagedService I H) (m : ServiceManager I H K) (w : W)
      → lookup name m.services ≡ some svc
      → Kept name svc m (start_service host name m w).1
  unfolding start_service
  start_service-Kept name svc m w at = elim (Bool-cases (is_healthy svc.status)) [
    | inl up ↦ rw (start_service, at, up) (same refl)
    | inr down ↦ elim (Result-cases (start_object host m.startup_timeout svc.instance_object w).0) [
      | inl (u, e) ↦ rw (start_service, at, down, e) (started-Kept name svc m _)
      | inr (x, e) ↦
          rw (start_service, at, down, e) (start_failed-Kept name svc svc x m _ (refl, refl, refl))
    ]
  ]

  pub stop_service-Kept :
      (name : Text) (svc : ManagedService I H) (m : ServiceManager I H K) (w : W)
      → lookup name m.services ≡ some svc
      → Kept name svc m (stop_service host name m w).1
  unfolding stop_service
  stop_service-Kept name svc m w at = elim (Bool-cases (is_stopped svc.status)) [
    | inl down ↦ rw (stop_service, at, down) (same refl)
    | inr up ↦
        let (r, w') = stop_object host svc.instance_object w in
        elim (Result-cases r) [
          | inr (x, e) ↦ rw (stop_service, at, up, e) (changed _ refl (refl, refl, refl))
          | inl (u, e) ↦ elim (Result-cases (fire host m.on_stopped (name ∷ []) w').0) [
            | inl (v, f) ↦ rw (stop_service, at, up, e, f) (changed _ refl (refl, refl, refl))
            | inr (x, f) ↦ rw (stop_service, at, up, e, f) (changed _ refl (refl, refl, refl))
          ]
        ]
  ]

  after_check-Alike :
      (name : Text) (svc : ManagedService I H) (r : Result Text HealthResult) (now : ℕ)
      → Alike svc (after_check host name svc r now).1
  unfolding after_check
  after_check-Alike name svc (ok result) now = (refl, refl, refl)
  after_check-Alike name svc (err e) now = (refl, refl, refl)

  pub health_check_service-Kept :
      (name : Text) (svc : ManagedService I H) (m : ServiceManager I H K) (w : W)
      → lookup name m.services ≡ some svc
      → Kept name svc m (health_check_service host name m w).1
  unfolding health_check_service
  health_check_service-Kept name svc m w at = elim (Bool-cases (is_up svc.status)) [
    | inr down ↦ rw (health_check_service, at, down) (same refl)
    | inl up ↦ elim (Option-cases svc.health_check_fn) [
      | inl e ↦ rw (health_check_service, at, up, e) (same refl)
      | inr (hc, e) ↦
          let (r, w') = host.check hc w in
          simp (health_check_service, at, up, e)
            (changed _ refl (after_check-Alike name svc r (host.now w')))
    ]
  ]

  -- The other services are as they were.
  pub Kept-others :
      (name : Text) (svc : ManagedService I H) (m m' : ServiceManager I H K) (n : Text)
      → Kept name svc m m'
      → (name == n) ≡ false
      → lookup n m'.services ≡ lookup n m.services
  Kept-others name svc m m' n (same e) h = ground arith
  Kept-others name svc m m' n (changed s e a) h = ground (arith, lookup-insert name n s m.services)

  -- The service itself has its counters.
  pub Kept-self :
      (name : Text) (svc : ManagedService I H) (m m' : ServiceManager I H K)
      → Kept name svc m m'
      → lookup name m.services ≡ some svc
      → (s : ManagedService I H) × (lookup name m'.services ≡ some s) × Alike svc s
  Kept-self name svc m m' (same e) at = (svc, ground arith, (refl, refl, refl))
  Kept-self name svc m m' (changed s e a) at =
      (s, ground (arith, eq_refl name, lookup-insert name name s m.services), a)
