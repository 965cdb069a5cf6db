-- ===== src/Services/Supervisor/Restarts.antt =====
-- How often the monitor restarts a service within one window.
use bantu_os.Prelude.{ok, err, ℕ, ◌+◌, ◌≤◌, ◌≡◌, List, [], ◌∷◌, none, some, ◌⊎◌}
use bantu_os.Prelude.Text.{Text}
use bantu_os.Prelude.Dict.{lookup}
use bantu_os.Services.Supervisor.{ServiceDefinition, Supervisor, Os, Done, check_service}

module _ {W : Type 0} (os : Os W) where
  -- The rounds that follow one, which an exception ends.
  unfoldable pub go_on : (ℕ → Supervisor → W → Supervisor × W) → ℕ × Done W → Supervisor × W
  go_on more (count, (err e, s, w)) = (s, w)
  go_on more (count, (ok b, s, w)) = more count s w

  -- The rounds of the monitor for one service, at the times given.
  unfoldable pub watch : List ℕ → Text → ℕ → Supervisor → W → Supervisor × W
  unfolding go_on
  watch [] name count s w = (s, w)
  watch (now ∷ times) name count s w = elim (lookup name s.services) [
    | none ↦ watch times name count s w
    | some svc ↦ go_on (watch times name) (check_service os now name svc count s w)
  ]

  -- The service is there, with its limits and the start of its window.
  pub record Has (name : Text) (limit window start : ℕ) (s : Supervisor) : Type 0 where
    pub service : ServiceDefinition
    pub found : lookup name s.services ≡ some service
    pub limit_is : service.max_restarts ≡ limit
    pub window_is : service.restart_window ≡ window
    pub start_is : service.first_start_time ≡ start

  module _ (starts : W → ℕ)
      (spawns : (command : List Text) (log_file : Text) (w : W)
        → starts (os.spawn command log_file w).1 ≡ starts w + 1)
      (sleeps : (delay : ℕ) (w : W) → starts (os.sleep delay w) ≡ starts w) where
    -- What a crash leaves: a restart that counts, or a service that is given up.
    record Crashed (name : Text) (limit window start count : ℕ) (w : W) (r : ℕ × Done W)
        : Type 0 where
      has : Has name limit window start r.1.1
      fate :
          ((r.0 ≡ count + 1) × (count + 1 ≤ limit) × (starts r.1.2 ≡ starts w + 1))
          ⊎ ((has.service.pid ≡ none) × (r.1.2 ≡ w))
