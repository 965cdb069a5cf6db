-- ===== src/Services/Supervisor/Limits.antt =====
-- What stopping leaves of a service, and how often the monitor restarts one.
use bantu_os.Prelude.{
  ℕ, ◌≤◌, ◌<◌, ◌≡◌, ◌≢◌, refl, Bool, true, false, ◌&&◌, none, some, arith, leb, ok, is_some,
  Bool-cases, Option-cases, inl, inr,
}
use bantu_os.Prelude.Text.{Text, eq_iff, eq_refl}
use bantu_os.Prelude.Dict.{lookup, lookup-insert}
use bantu_os.Services.Supervisor.{
  ServiceDefinition, Supervisor, Os, running_pid, finish_stop, stop_service, has_crashed, counted,
  crashed, after_crash, check_service,
}

module _ {W : Type 0} (os : Os W) where
  finish_stop-stops :
      (name other : Text) (svc : ServiceDefinition) (p : ℕ) (s : Supervisor) (r : Bool × W)
      → ((finish_stop os name svc p s r).0 ≡ ok true)
        × ((svc' : ServiceDefinition) × (lookup name (finish_stop os name svc p s r).1.services
              ≡ some svc')
            × (svc'.pid ≡ none))
        × (other ≢ name
            → lookup other (finish_stop os name svc p s r).1.services ≡ lookup other s.services)
  unfolding finish_stop
  finish_stop-stops name other svc p s (false, w) =
      let svc' : ServiceDefinition = record svc { pid = none } in
      (
        refl,
        (svc', ground (arith, lookup-insert name name svc' s.services, eq_refl name), refl),
        λ ne. ground (arith, lookup-insert name other svc' s.services, eq_iff name other),
      )
  finish_stop-stops name other svc p s (true, w) =
      let svc' : ServiceDefinition = record svc { pid = none; proc = none; pid_file = none } in
      (
        refl,
        (svc', ground (arith, lookup-insert name name svc' s.services, eq_refl name), refl),
        λ ne. ground (arith, lookup-insert name other svc' s.services, eq_iff name other),
      )

  -- Stopping a service that is registered always succeeds: whatever its process did, it has no pid
  -- afterwards, and every other service is as it was.
  pub stop_service-stops :
      (name other : Text) (svc : ServiceDefinition) (s : Supervisor) (w : W)
      → lookup name s.services ≡ some svc
      → ((stop_service os name s w).0 ≡ ok true)
        × ((svc' : ServiceDefinition) × (lookup name (stop_service os name s w).1.services
              ≡ some svc')
            × (svc'.pid ≡ none))
        × (other ≢ name
            → lookup other (stop_service os name s w).1.services ≡ lookup other s.services)
  unfolding stop_service
  stop_service-stops name other svc s w h = elim (Option-cases (running_pid os svc w)) [
    | inr (p, e) ↦ rw (h, stop_service, e) (finish_stop-stops name other svc p s (os.terminate p w))
    | inl e ↦
        let svc' : ServiceDefinition = record svc { pid = none; pid_file = none } in
        rw (h, stop_service, e)
          (
            refl,
            (svc', ground (arith, lookup-insert name name svc' s.services, eq_refl name), refl),
            λ ne. ground (arith, lookup-insert name other svc' s.services, eq_iff name other),
          )
  ]

  counted-positive :
      (now : ℕ) (svc : ServiceDefinition) (count : ℕ) → 0 < (counted os now svc count).0
  unfolding counted
  counted-positive now svc count = ground arith

  after_crash-Bounded :
      (now : ℕ) (name : Text) (svc : ServiceDefinition) (c : ℕ × ℕ) (s : Supervisor) (w : W)
      → 0 < c.0
      → let r = after_crash os now name svc c s w in
        (r.0 ≤ svc.max_restarts)
        × (r.0 ≡ 0
            → (r.1.2 ≡ w)
              × ((svc' : ServiceDefinition) × (lookup name r.1.1.services ≡ some svc')
                  × (svc'.pid ≡ none)))
  unfolding after_crash
  after_crash-Bounded now name svc (c, start) s w h = elim (Bool-cases (leb c svc.max_restarts)) [
    | inl room ↦ rw room (ground (arith, room), λ e. absurd (omega arith))
    | inr full ↦
        let svc' = crashed os now svc start in
        rw full (
          omega arith,
          λ e. (
            refl,
            (svc', ground (arith, lookup-insert name name svc' s.services, eq_refl name), refl),
          ),
        )
  ]

  -- With a count within the limit the monitor leaves it within the limit. A crash that sets the count back to 0 is one that is given up: no process
  -- is started, the world is as it was, and the service has no pid.
  pub check_service-Bounded :
      (now : ℕ) (name : Text) (svc : ServiceDefinition) (count : ℕ) (s : Supervisor) (w : W)
      → count ≤ svc.max_restarts
      → let r = check_service os now name svc count s w in
        (r.0 ≤ svc.max_restarts)
        × ((is_some svc.pid && has_crashed os svc w) ≡ true
            → r.0 ≡ 0
            → (r.1.2 ≡ w)
              × ((svc' : ServiceDefinition) × (lookup name r.1.1.services ≡ some svc')
                  × (svc'.pid ≡ none)))
  unfolding check_service
  check_service-Bounded now name svc count s w h =
      elim (Bool-cases (is_some svc.pid && has_crashed os svc w)) [
        | inl down ↦
            let bounded =
              after_crash-Bounded now name svc (counted os now svc count) s w
                (counted-positive now svc count) in
            rw down (bounded.0, λ e. bounded.1)
        | inr up ↦ rw up (h, λ e. absurd (ground (arith, e)))
      ]
