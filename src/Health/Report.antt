-- ===== src/Health/Report.antt =====
-- checker.go: NewHealthChecker, CheckAllBackendsHealth and GenerateHealthReport.
use staravail.Common.{ℕ, List, [], ◌∷◌, Option, none, some, Bool}
use staravail.Health.Analysis.{HealthStatus, Floats, HealthCheckerConfig}
use staravail.Health.Backends.{BackendHealth, analyze_backend_health, compile_health_report}
use staravail.Health.Checks.{TabletManager, HealthCheckerImpl, cache_backend_health, check_tables}

unfoldable pub new_health_checker : Bool → ℕ → ℕ → HealthCheckerImpl
new_health_checker enabled ttl now = record {
  cache_enabled = enabled;
  cache_ttl = ttl;
  backend_cache = [];
  tablet_cache = [];
  partition_cache = [];
  table_cache = [];
  last_cache_cleanup = now;
}

module _ {F : Type 0} (f : Floats F) (config : HealthCheckerConfig F) (now : ℕ) where
  -- The loop over the monitor's backends.
  unfoldable pub analyze_backends :
      List (BackendHealth F) → HealthCheckerImpl → HealthCheckerImpl × List HealthStatus
  analyze_backends [] c = (c, [])
  analyze_backends (b ∷ bs) c =
      let s = analyze_backend_health f now b in
      let rest = analyze_backends bs (cache_backend_health now b.backend_id s c) in
      (rest.0, s ∷ rest.1)

  -- `none` for the monitor's error.
  unfoldable pub check_all_backends_health :
      Option (List (BackendHealth F))
      → HealthCheckerImpl
      → HealthCheckerImpl × Option (List HealthStatus)
  check_all_backends_health none c = (c, none)
  check_all_backends_health (some bs) c = let r = analyze_backends bs c in (r.0, some r.1)

  abbrev report_on :
      TabletManager
      → HealthCheckerImpl × Option (List HealthStatus)
      → HealthCheckerImpl × Option HealthStatus
  report_on m (c, none) = (c, none)
  report_on m (c, some backends) =
      let r = check_tables f config now m 1 (1 ∷ 2 ∷ 3 ∷ []) c [] in
      (r.0, some (compile_health_report f config backends r.1))

  -- The tables are 1, 2 and 3 of the database 1. The overall status of the report is what it gives.
  unfoldable pub generate_health_report :
      TabletManager
      → Option (List (BackendHealth F))
      → HealthCheckerImpl
      → HealthCheckerImpl × Option HealthStatus
  generate_health_report m backends c = report_on m (check_all_backends_health backends c)
