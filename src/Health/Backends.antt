-- ===== src/Health/Backends.antt =====
-- checker.go: analyzeBackendHealth and compileHealthReport.
use staravail.Common.{
  ℕ, ◌+◌, ◌-◌, List, [], ◌∷◌, length, map, Bool, not, ◌||◌, ltb, ◌==◌, if◌then◌else◌,
}
use staravail.Health.Analysis.{
  HealthStatus, healthy, degraded, unhealthy, Floats, HealthCheckerConfig, is_healthy, is_unhealthy,
  TableAccessibility,
}

-- The fields of monitor.go's `BackendHealth` that the checks read.
pub record BackendHealth (F : Type 0) : Type 0 where
  pub backend_id : ℕ
  pub alive : Bool
  pub system_decommissioned : Bool
  pub cluster_decommissioned : Bool
  pub used_pct : F
  pub last_heartbeat : ℕ

abbrev pub five_minutes : ℕ
five_minutes = 300000000000

module _ {F : Type 0} (f : Floats F) where
  -- Each test that holds sets the status anew.
  unfoldable pub analyze_backend_health : ℕ → BackendHealth F → HealthStatus
  analyze_backend_health now b =
      let found = if not b.alive then unhealthy else healthy in
      let found =
        if b.system_decommissioned || b.cluster_decommissioned then unhealthy else found in
      let found = if f.below (f.number 90) b.used_pct then degraded else found in
      if ltb five_minutes (now - b.last_heartbeat) then degraded else found

unfoldable pub count_unhealthy : List HealthStatus → ℕ
count_unhealthy [] = 0
count_unhealthy (s ∷ ss) = let rest = count_unhealthy ss in if is_healthy s then rest else 1 + rest

module _ {F : Type 0} (f : Floats F) (config : HealthCheckerConfig F) where
  -- The share of healthy ones against 50 percent and a threshold.
  unfoldable pub judge_share : List HealthStatus → F → HealthStatus → HealthStatus
  judge_share ss threshold status =
      let share = f.percent (length ss - count_unhealthy ss) (length ss) in
      if length ss == 0
      then status
      else if is_unhealthy status
      then status
      else if f.below share (f.number 50)
      then unhealthy
      else if f.below share threshold
      then degraded
      else status

  -- The overall status, from the statuses of the backends and of the tables.
  unfoldable pub compile_health_report : List HealthStatus → List TableAccessibility → HealthStatus
  compile_health_report backends tables =
      judge_share (map (λ (t : TableAccessibility). t.table_status) tables)
        config.tablet_health_threshold
        (judge_share backends config.backend_health_threshold healthy)
