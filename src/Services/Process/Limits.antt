-- ===== src/Services/Process/Limits.antt =====
-- What the process service promises: its limit, the refused commands, and a stop that stops.
use bantu_os.Prelude.{
  ℕ, ◌+◌, ◌≤◌, ◌≡◌, inl, inr, refl, Bool, true, false, List, [], ◌∷◌, ◌++◌, Result, ok, err, any,
  length, leb, Bool-cases, Result-cases, arith,
}
use bantu_os.Prelude.Text.{Text, contains, contains-append, ◌==◌, eq_iff}
use bantu_os.Services.Process.{
  Command, line, Options, Os, PsError, ProcessError, ProcessService, drop_pid, is_blocked,
  dangerous, started, start_process, stop_process, stop_each, stop, managed_from,
  get_managed_processes, describe, in_front, log_operation, dangerous_command, too_many,
}
use bantu_os.Services.Process.Managed.{
  length-add_pid, none_any, Shrinks, same-Shrinks, trans-Shrinks, drop-Shrinks, stop_process-Stops,
  stop_each-Clears,
}

any-contains :
    (a d b : Text) (ds : List Text)
    → any (λ x. x == d) ds ≡ true
    → any (λ x. contains x (a ++ d ++ b)) ds ≡ true
unfolding any
any-contains a d b [] h = absurd (cc)
any-contains a d b (x ∷ ds) h =
    ground (arith, eq_iff x d, contains-append a d b, any-contains a d b ds)

module _ {W : Type 0} (os : Os W) where
  in_front-Shrinks :
      (info : ℕ × Text × Text) (s : ProcessService)
      (r : Result PsError (List (ℕ × Text × Text)) × ProcessService)
      → Shrinks s r.1
      → Shrinks s (in_front os info r).1
  unfolding in_front
  in_front-Shrinks info s (ok infos, t) h = h
  in_front-Shrinks info s (err e, t) h = h

  managed_from-Shrinks :
      (pids : List ℕ) (s : ProcessService) (w : W) → Shrinks s (managed_from os pids s w).1
  unfolding managed_from
  managed_from-Shrinks [] s w = same-Shrinks s
  managed_from-Shrinks (pid ∷ pids) s w = elim (Bool-cases (os.pid_exists pid w)) [
    | inr gone ↦
        let t = record s { managed = drop_pid pid s.managed } in
        rw (managed_from, gone)
          (trans-Shrinks s t _ (drop-Shrinks pid s) (managed_from-Shrinks pids t w))
    | inl there ↦ elim (Result-cases (describe os pid w)) [
      | inl ((name, status), e) ↦
          rw (managed_from, there, e)
            (in_front-Shrinks (pid, name, status) s _ (managed_from-Shrinks pids s w))
      | inr (PsError.no_such_process, e) ↦
          rw (managed_from, there, e) (managed_from-Shrinks pids s w)
      | inr (PsError.access_denied, e) ↦ rw (managed_from, there, e) (same-Shrinks s)
      | inr (PsError.timeout_expired, e) ↦ rw (managed_from, there, e) (same-Shrinks s)
    ]
  ]

  -- Within the limit stays within the limit.
  started-le :
      (repr : List Text → Text) (command : Command) (r : Result Text ℕ × W) (s : ProcessService)
      → length s.managed + 1 ≤ s.max_concurrent
      → length (started os repr command r s).1.managed ≤ s.max_concurrent
  unfolding started log_operation
  started-le repr command (err e, w) s h = omega arith
  started-le repr command (ok pid, w) s h = omega (arith, length-add_pid pid s.managed)

  start_process-le :
      (repr : List Text → Text) (command : Command) (shell : Bool) (options : Options)
      (s : ProcessService) (w : W)
      → length s.managed ≤ s.max_concurrent
      → length (start_process os repr command shell options s w).1.managed ≤ s.max_concurrent
  unfolding start_process
  start_process-le repr command shell options s w h =
      elim (Bool-cases (leb s.max_concurrent (length s.managed))) [
        | inl full ↦ rw full h
        | inr room ↦ rw room (elim (Bool-cases (is_blocked command)) [
          | inl e ↦ rw e h
          | inr e ↦ rw e (started-le repr command _ s (ground arith))
        ])
      ]

  stop-le :
      (s : ProcessService) (w : W)
      → length s.managed ≤ s.max_concurrent
      → length (stop os s w).1.managed ≤ s.max_concurrent
  unfolding stop
  stop-le s w h =
      let c = stop_each-Clears os s.managed s w in
      elim (Result-cases (stop_each os s.managed s w).0) [
        | inl (u, e) ↦ rw (stop, e) (omega (arith, c.shrinks.smaller))
        | inr (x, e) ↦ rw (stop, e) (omega (arith, c.shrinks.smaller))
      ]

  -- A service with no more processes than its limit has no more after any operation: after a start,
  -- whatever comes of it, a stop or a kill of a process, a listing, and the stop of the service.
  pub operations-Bounded :
      (repr : List Text → Text) (command : Command) (shell force : Bool) (options : Options)
      (pid : ℕ) (s : ProcessService) (w : W)
      → length s.managed ≤ s.max_concurrent
      → (length (start_process os repr command shell options s w).1.managed ≤ s.max_concurrent)
        × (length (stop_process os force pid s w).1.managed ≤ s.max_concurrent)
        × (length (get_managed_processes os s w).1.managed ≤ s.max_concurrent)
        × (length (stop os s w).1.managed ≤ s.max_concurrent)
  unfolding start_process get_managed_processes stop
  operations-Bounded repr command shell force options pid s w h = (
    start_process-le repr command shell options s w h,
    omega (arith, (stop_process-Stops os force pid s w).shrinks.smaller),
    omega (arith, (managed_from-Shrinks s.managed s w).smaller),
    stop-le s w h,
  )

  -- A command line that contains one of the dangerous texts is never started, in a shell or not:
  -- the call raises, and nothing changes.
  pub start_process-blocks :
      (repr : List Text → Text) (a d b : Text) (shell : Bool) (options : Options)
      (s : ProcessService) (w : W)
      → any (λ x. x == d) dangerous ≡ true
      → (e : ProcessError) × (start_process os repr (line (a ++ d ++ b)) shell options s w
          ≡ (err e, s, w))
  unfolding start_process is_blocked
  start_process-blocks repr a d b shell options s w h =
      elim (Bool-cases (leb s.max_concurrent (length s.managed))) [
        | inl full ↦ (too_many, rw full refl)
        | inr room ↦ (dangerous_command, rw (room, any-contains a d b dangerous h) refl)
      ]

  stopped_err :
      (s : ProcessService) (w : W) (x : ProcessError)
      → (stop_each os s.managed s w).0 ≡ err x
      → (stop os s w).0 ≡ err x
  unfolding stop
  stopped_err s w x e = rw (stop, e) refl

  -- A stop of the service that returns leaves no managed process and a service that is not running.
  pub stop-empties :
      (s : ProcessService) (w : W)
      → (stop os s w).0 ≡ ok tt
      → ((stop os s w).1.managed ≡ []) × ((stop os s w).1.running ≡ false)
  unfolding stop
  stop-empties s w h =
      let c = stop_each-Clears os s.managed s w in
      elim (Result-cases (stop_each os s.managed s w).0) [
        | inl (u, e) ↦ (
          rw (stop, e) (none_any _ (λ p at. c.gone e p (c.shrinks.among p at))),
          rw (stop, e) refl,
        )
        | inr (x, e) ↦ absurd (ground (arith, stopped_err s w x e))
      ]
