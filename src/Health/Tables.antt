-- ===== src/Health/Tables.antt =====
-- checker.go: analyzeTableHealth, as the sequence of its checks.
use staravail.Common.{ℕ, ◌+◌, List, [], ◌∷◌, Text, Bool, false, ltb, ◌==◌, if◌then◌else◌}
use staravail.Health.Analysis.{
  AccessLevel, read_only, partial, degraded, unhealthy, Floats, HealthCheckerConfig,
  PartitionAccessibility, TableAccessibility, is_read_only, is_partial, is_none, Verdict, all_well,
  nothing_works, degrade, restrict, check_state, percentage,
}

-- How many partitions have an access level.
unfoldable pub count_access : (AccessLevel → Bool) → List PartitionAccessibility → ℕ
count_access level [] = 0
count_access level (p ∷ ps) =
    let rest = count_access level ps in if level p.partition_access then 1 + rest else rest

unfoldable pub check_inaccessible : List PartitionAccessibility → ℕ → Verdict → Verdict
check_inaccessible ps total v =
    let n = count_access is_none ps in
    if n == total
    then nothing_works
    else if ltb 0 n
    then record v { status = degraded; access_level = partial }
    else v

unfoldable pub check_read_only : List PartitionAccessibility → Verdict → Verdict
check_read_only ps v =
    if ltb 0 (count_access is_read_only ps)
    then (if is_none v.access_level then record v { status = degrade v.status } else record v {
      status = degrade v.status;
      access_level = read_only;
      write_supported = false;
    })
    else v

unfoldable pub check_partial : List PartitionAccessibility → Verdict → Verdict
check_partial ps v =
    if ltb 0 (count_access is_partial ps)
    then record v { status = degrade v.status; access_level = restrict v.access_level }
    else v

module _ {F : Type 0} (f : Floats F) (config : HealthCheckerConfig F) where
  unfoldable pub check_percentage : ℕ → ℕ → Verdict → Verdict
  check_percentage healthy_ones total v =
      let share = percentage f config healthy_ones total in
      if f.below share (f.number 50)
      then record v {
        status = unhealthy;
        access_level = (if is_none v.access_level then v.access_level else partial);
      }
      else if f.below share config.tablet_health_threshold
      then record v { status = degrade v.status; access_level = restrict v.access_level }
      else v

  unfoldable pub judge_table : List PartitionAccessibility → ℕ → ℕ → Verdict
  judge_table ps healthy_ones total =
      if total == 0
      then nothing_works
      else check_percentage healthy_ones total
          (check_partial ps (check_read_only ps (check_inaccessible ps total all_well)))

  unfoldable pub analyze_table_health :
      ℕ → Text → List PartitionAccessibility → ℕ → ℕ → TableAccessibility
  analyze_table_health id state ps healthy_ones total =
      let v = check_state state (judge_table ps healthy_ones total) in
      record {
        table_id = id;
        table_status = v.status;
        table_access = v.access_level;
        table_readable = v.read_supported;
        table_writable = v.write_supported;
        partition_accessibility = ps;
        healthy_partitions = healthy_ones;
        total_partitions = total;
      }
