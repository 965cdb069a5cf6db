-- ===== src/Kernel/Services/Health.antt =====
-- The health checks of `ServiceManager` of bantu_os/core/kernel/services.py.
use bantu_os.Prelude.{
  ℕ, Bool, false, not, List, [], ◌∷◌, Option, none, some, Result, ok, err, if◌then◌else◌,
}
use bantu_os.Prelude.Text.{Text, codes, ◌==◌}
use bantu_os.Prelude.Dict.{Dict, lookup, insert, keys}
use bantu_os.Kernel.Services.{
  healthy, degraded, value, is_up, ManagedService, ServiceManager, HealthResult, report, flag,
  other, Host, put,
}

-- The report of `health_check_service`, by its keys.
pub data Report : Type 0 where
  not_found : Text → Report
  idle : Text → Text → Option Text → Report
  unchecked : Text → Report
  checked : Text → Text → HealthResult → Report
  raised : Text → Text → Report

unfoldable pub is_well : HealthResult → Bool
is_well (report d) = elim (lookup (codes "status") d) [ none ↦ false | some s ↦ s == codes "ok" ]
is_well (flag b) = b
is_well other = false

module _ {I H K W : Type 0} (host : Host I H K W) where
  -- What a health check that ran leaves of the service, and its report.
  unfoldable pub after_check :
      Text → ManagedService I H → Result Text HealthResult → ℕ → Report × ManagedService I H
  after_check name svc (ok result) now =
      let status = if is_well result then healthy else degraded in
      (
        checked name (value status) result,
        record svc { status = status; last_health_check = some now },
      )
  after_check name svc (err e) now =
      (raised name e, record svc { status = degraded; last_error = some e })

  unfoldable pub health_check_service :
      Text → ServiceManager I H K → W → Report × ServiceManager I H K × W
  unfolding after_check
  health_check_service name m w = elim (lookup name m.services) [
    | none ↦ (not_found name, m, w)
    | some svc ↦
        if not (is_up svc.status)
        then (idle name (value svc.status) svc.last_error, m, w)
        else elim svc.health_check_fn [
          | none ↦ (unchecked name, m, w)
          | some hc ↦
              let (r, w') = host.check hc w in
              let (rep, svc') = after_check name svc r (host.now w') in (rep, put name svc' m, w')
        ]
  ]

  unfoldable pub health_check_each :
      List Text → ServiceManager I H K → W → Dict Report → Dict Report × ServiceManager I H K × W
  health_check_each [] m w results = (results, m, w)
  health_check_each (name ∷ names) m w results =
      let (rep, m', w') = health_check_service name m w in
      health_check_each names m' w' (insert name rep results)

  unfoldable pub health_check_all :
      ServiceManager I H K → W → Dict Report × ServiceManager I H K × W
  unfolding health_check_each
  health_check_all m w = health_check_each (keys m.services) m w []
