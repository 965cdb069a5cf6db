-- ===== src/Kernel/Services/Lifecycle.antt =====
-- What a start, a stop and the monitor of the service orchestrator make of a service.
use bantu_os.Prelude.{
  ◌≡◌, inl, inr, refl, Bool, true, false, [], ◌∷◌, none, some, Result, ok, Bool-cases, Result-cases,
  arith,
}
use bantu_os.Prelude.Text.{Text, ◌==◌, eq_refl}
use bantu_os.Prelude.Dict.{lookup, lookup-insert}
use bantu_os.Kernel.Services
use bantu_os.Kernel.Services.{
  ManagedService, ServiceManager, Host, put, fire, start_object, stop_object, start_failed, started,
  start_service, stop_service, is_healthy, is_stopped, is_up, is_failed,
}
use bantu_os.Kernel.Services.Frame.{Kept-others, start_service-Kept}

module _ {I H K W : Type 0} (host : Host I H K W) where
  pub lookup-put :
      (name : Text) (s : ManagedService I H) (m : ServiceManager I H K)
      → lookup name (put name s m).services ≡ some s
  lookup-put name s m = ground (arith, eq_refl name, lookup-insert name name s m.services)

  -- The service after a start that returned `b`.
  pub record Outcome (name : Text) (r : Result Text Bool × ServiceManager I H K × W) : Type 0 where
    pub returned :
        (b : Bool)
        → r.0 ≡ ok b
        → (s : ManagedService I H) × (lookup name r.1.services ≡ some s) × (is_healthy s.status ≡ b)

  start_failed-Outcome :
      (name : Text) (s : ManagedService I H) (e : Text) (m : ServiceManager I H K) (w : W)
      → Outcome name (start_failed host name s e m w)
  unfolding start_failed is_healthy
  start_failed-Outcome name s e m w =
      let s' = record s { status = Services.failed; last_error = some e } in
      elim (Result-cases (fire host m.on_failed (name ∷ e ∷ []) w).0) [
        | inl (u, f) ↦
            rw (start_failed, f)
              (record { returned = λ b h. (s', lookup-put name s' m, ground arith) })
        | inr (x, f) ↦ rw (start_failed, f) (record { returned = λ b h. absurd (cc) })
      ]

  started-Outcome :
      (name : Text) (svc : ManagedService I H) (m : ServiceManager I H K) (w : W)
      → Outcome name (started host name svc m w)
  unfolding started is_healthy
  started-Outcome name svc m w =
      let s = record svc {
        status = Services.healthy;
        started_at = some (host.now w);
        last_error = none;
      } in
      elim (Result-cases (fire host m.on_started (name ∷ []) w).0) [
        | inl (u, f) ↦
            rw (started, f) (record { returned = λ b h. (s, lookup-put name s m, ground arith) })
        | inr (x, f) ↦ rw (started, f) (start_failed-Outcome name s x m _)
      ]

  start_service-Outcome :
      (name : Text) (svc : ManagedService I H) (m : ServiceManager I H K) (w : W)
      → lookup name m.services ≡ some svc
      → Outcome name (start_service host name m w)
  unfolding start_service
  start_service-Outcome name svc m w at = elim (Bool-cases (is_healthy svc.status)) [
    | inl up ↦ rw (start_service, at, up) (record { returned = λ b h. (svc, at, ground arith) })
    | inr down ↦ elim (Result-cases (start_object host m.startup_timeout svc.instance_object w).0) [
      | inl (u, e) ↦ rw (start_service, at, down, e) (started-Outcome name svc m _)
      | inr (x, e) ↦ rw (start_service, at, down, e) (start_failed-Outcome name svc x m _)
    ]
  ]

  -- A start of a registered service that returns a truth value, and does not raise through a hook,
  -- leaves the service healthy exactly when the value is true; all other services are as they were.
  pub start_service-healthy :
      (name n : Text) (svc : ManagedService I H) (b : Bool) (m : ServiceManager I H K) (w : W)
      → lookup name m.services ≡ some svc
      → (start_service host name m w).0 ≡ ok b
      → ((s : ManagedService I H) × (lookup name (start_service host name m w).1.services ≡ some s)
          × (is_healthy s.status ≡ b))
        × ((name == n) ≡ false
            → lookup n (start_service host name m w).1.services ≡ lookup n m.services)
  start_service-healthy name n svc b m w at h = (
    (start_service-Outcome name svc m w at).returned b h,
    Kept-others host name svc m _ n (start_service-Kept host name svc m w at),
  )

  -- What a stop leaves of a service.
  abbrev halted : ManagedService I H → ManagedService I H
  halted svc = record svc { instance_object = none; status = Services.stopped }

  stop_service-put :
      (name : Text) (svc : ManagedService I H) (m : ServiceManager I H K) (w : W)
      → lookup name m.services ≡ some svc
      → is_stopped svc.status ≡ false
      → (stop_service host name m w).0 ≡ true
      → (stop_service host name m w).1 ≡ put name (halted svc) m
  unfolding stop_service
  stop_service-put name svc m w at up =
      let (r, w') = stop_object host svc.instance_object w in
      elim (Result-cases r) [
        | inr (x, e) ↦ rw (stop_service, at, up, e) (λ h. absurd (cc))
        | inl (u, e) ↦ elim (Result-cases (fire host m.on_stopped (name ∷ []) w').0) [
          | inl (v, f) ↦ rw (stop_service, at, up, e, f) (λ h. refl)
          | inr (x, f) ↦ rw (stop_service, at, up, e, f) (λ h. absurd (cc))
        ]
      ]

  start_service-put :
      (name : Text) (svc : ManagedService I H) (m : ServiceManager I H K) (v : W)
      → m.on_started ≡ []
      → let revived = record (halted svc) {
        status = Services.healthy;
        started_at = some (host.now v);
        last_error = none;
      } in
        start_service host name (put name (halted svc) m) v
        ≡ (ok true, put name revived (put name (halted svc) m), v)
  unfolding start_service started start_object fire is_healthy
  start_service-put name svc m v hooks = ground (arith, lookup-put name (halted svc) m)

  -- After a stop that returned true for a service that was not stopped, and where no hook listens
  -- to starts, a start returns true and marks the service as healthy without running anything:
  -- the world is as it was, and the service has no object.
  pub start_service-after_stop :
      (name : Text) (svc : ManagedService I H) (m : ServiceManager I H K) (w v : W)
      → lookup name m.services ≡ some svc
      → is_stopped svc.status ≡ false
      → (stop_service host name m w).0 ≡ true
      → m.on_started ≡ []
      → let m' = (stop_service host name m w).1 in
        ((start_service host name m' v).0 ≡ ok true)
        × ((start_service host name m' v).2 ≡ v)
        × ((s : ManagedService I H) × (lookup name (start_service host name m' v).1.services
              ≡ some s)
            × (is_healthy s.status ≡ true)
            × (s.instance_object ≡ none))
  unfolding is_healthy
  start_service-after_stop name svc m w v at up h hooks =
      let s = record (halted svc) {
        status = Services.healthy;
        started_at = some (host.now v);
        last_error = none;
      } in
      rw (stop_service-put name svc m w at up h, start_service-put name svc m v hooks)
        (refl, refl, (s, lookup-put name s (put name (halted svc) m), refl, refl))
