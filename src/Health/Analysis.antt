-- ===== src/Health/Analysis.antt =====
-- checker.go: what `HealthCheckerImpl` makes of the states of tablets, partitions, tables and
-- backends. The texts of the issues, names, and the times of the reports are left out.
use staravail.Common.{ℕ, ◌+◌, List, [], ◌∷◌, length, Text, text_eq}
use staravail.Common.{Bool, true, false, ◌||◌, ltb, ◌==◌, if◌then◌else◌}

pub data HealthStatus : Type 0 where
  unknown healthy degraded unhealthy : HealthStatus

pub data AccessLevel : Type 0 where
  full read_only partial no_access : AccessLevel

-- What the code does with a float64: `percent n m` is float64(n) / float64(m) * 100, `number n` the
-- literal n, and `below` is <.
pub record Floats (F : Type 0) : Type 0 where
  pub percent : ℕ → ℕ → F
  pub number : ℕ → F
  pub below : F → F → Bool

pub record HealthCheckerConfig (F : Type 0) : Type 0 where
  pub tablet_health_threshold : F
  pub replica_health_threshold : F
  pub backend_health_threshold : F

pub record PartitionAccessibility : Type 0 where
  pub partition_id : ℕ
  pub partition_status : HealthStatus
  pub partition_access : AccessLevel
  pub partition_readable : Bool
  pub partition_writable : Bool
  pub healthy_tablet_count : ℕ
  pub total_tablet_count : ℕ
  pub healthy_replicas : ℕ
  pub total_replicas : ℕ

-- The map of partitions is the list of its values, in an order of which nothing is assumed.
pub record TableAccessibility : Type 0 where
  pub table_id : ℕ
  pub table_status : HealthStatus
  pub table_access : AccessLevel
  pub table_readable : Bool
  pub table_writable : Bool
  pub partition_accessibility : List PartitionAccessibility
  pub healthy_partitions : ℕ
  pub total_partitions : ℕ

-- The texts NORMAL and HEALTHY.
abbrev pub normal_text : Text
normal_text = 78 ∷ 79 ∷ 82 ∷ 77 ∷ 65 ∷ 76 ∷ []

abbrev pub healthy_text : Text
healthy_text = 72 ∷ 69 ∷ 65 ∷ 76 ∷ 84 ∷ 72 ∷ 89 ∷ []

unfoldable pub is_normal : Text → Bool
is_normal state = text_eq state normal_text || text_eq state healthy_text

abbrev pub is_healthy : HealthStatus → Bool
is_healthy healthy = true
is_healthy _ = false

abbrev pub is_unhealthy : HealthStatus → Bool
is_unhealthy unhealthy = true
is_unhealthy _ = false

abbrev pub is_full : AccessLevel → Bool
is_full full = true
is_full _ = false

abbrev pub is_read_only : AccessLevel → Bool
is_read_only read_only = true
is_read_only _ = false

abbrev pub is_partial : AccessLevel → Bool
is_partial partial = true
is_partial _ = false

abbrev pub is_none : AccessLevel → Bool
is_none no_access = true
is_none _ = false

-- The four variables that the analyses of partitions and tables change.
pub record Verdict : Type 0 where
  pub status : HealthStatus
  pub access_level : AccessLevel
  pub read_supported : Bool
  pub write_supported : Bool

abbrev pub all_well : Verdict
all_well = record {
  status = healthy;
  access_level = full;
  read_supported = true;
  write_supported = true;
}

abbrev pub nothing_works : Verdict
nothing_works = record {
  status = unhealthy;
  access_level = no_access;
  read_supported = false;
  write_supported = false;
}

abbrev pub degrade : HealthStatus → HealthStatus
degrade s = if is_unhealthy s then s else degraded

abbrev pub restrict : AccessLevel → AccessLevel
restrict l = if is_full l then partial else l

-- A state that is neither NORMAL nor HEALTHY, of a partition or a table.
unfoldable pub check_state : Text → Verdict → Verdict
check_state state v =
    if is_normal state
    then v
    else record v { status = degrade v.status; access_level = restrict v.access_level }

unfoldable pub count_normal : List Text → ℕ
count_normal [] = 0
count_normal (s ∷ ss) = let rest = count_normal ss in if is_normal s then 1 + rest else rest

module _ {F : Type 0} (f : Floats F) (config : HealthCheckerConfig F) where
  unfoldable pub percentage : ℕ → ℕ → F
  percentage n total = if ltb 0 total then f.percent n total else f.number 0

  -- The states of the tablet and of its replicas.
  unfoldable pub analyze_tablet_health : Text → List Text → HealthStatus
  analyze_tablet_health state replicas =
      let normal = count_normal replicas in
      let by_replicas =
        if f.below (f.percent normal (length replicas)) config.replica_health_threshold
        then (if normal == 0 then unhealthy else degraded)
        else healthy in
      if length replicas == 0
      then unhealthy
      else if is_normal state
      then by_replicas
      else degrade by_replicas

  unfoldable pub judge_partition : ℕ → ℕ → ℕ → ℕ → Verdict
  judge_partition healthy_tablets total_tablets normal_replicas all_replicas =
      let tablets = percentage healthy_tablets total_tablets in
      let replicas = percentage normal_replicas all_replicas in
      if total_tablets == 0
      then nothing_works
      else if f.below tablets (f.number 50) || f.below replicas (f.number 50)
      then nothing_works
      else if f.below tablets config.tablet_health_threshold
          || f.below replicas config.replica_health_threshold
      then record all_well { status = degraded; access_level = read_only; write_supported = false }
      else all_well

  unfoldable pub analyze_partition_health : ℕ → Text → ℕ → ℕ → ℕ → ℕ → PartitionAccessibility
  analyze_partition_health id state healthy_tablets total_tablets normal_replicas all_replicas =
      let v =
        check_state state
          (judge_partition healthy_tablets total_tablets normal_replicas all_replicas) in
      record {
        partition_id = id;
        partition_status = v.status;
        partition_access = v.access_level;
        partition_readable = v.read_supported;
        partition_writable = v.write_supported;
        healthy_tablet_count = healthy_tablets;
        total_tablet_count = total_tablets;
        healthy_replicas = normal_replicas;
        total_replicas = all_replicas;
      }
