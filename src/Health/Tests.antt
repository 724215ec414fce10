-- ===== src/Health/Tests.antt =====
-- Health checks of concrete tables, with whole percents for the floats.
use staravail.Common.{
  ℕ, ◌*◌, ◌/◌, ◌≡◌, refl, [], ◌∷◌, none, some, map, Bool, true, false, ltb, ◌&&◌, ◌==◌,
  if◌then◌else◌,
}
use staravail.Health.Analysis.{
  degraded, read_only, partial, no_access, Floats, HealthCheckerConfig, TableAccessibility,
  analyze_partition_health, judge_partition, percentage, check_state, is_normal, normal_text,
}
use staravail.Health.Tables.{
  analyze_table_health, judge_table, check_inaccessible, check_read_only, check_partial,
  check_percentage, count_access,
}
use staravail.Health.Executability.{analyze_query_executability, analyze_write_executability}
use staravail.Health.Decisions.{
  TableFacts, analyze, Gives, nonempty, all_readable, all_writable, worst_access,
  analyzed_executability,
}
use staravail.Health.Backends.{BackendHealth, analyze_backend_health}
use staravail.Health.Checks.{
  TabletManager, HealthCheckerImpl, from_cache, check_table_health, check_write_executability,
  judge_partitions, check_partitions, cache_table_health, cleanup_cache_if_needed, put_cached,
  drop_cached, find_cached,
}
use staravail.Health.Analysis.{unhealthy}
use staravail.Health.Report.{
  generate_health_report, check_all_backends_health, analyze_backends, new_health_checker,
}
use staravail.Health.Backends.{compile_health_report, judge_share, count_unhealthy}
use staravail.Health.Checks.{cache_backend_health, check_tables}
use staravail.Health.Unchecked.{unreachable_table_writable}
use staravail.Health.Caching.{check_table_again}

abbrev percents : Floats ℕ
percents = record {
  percent = λ n m. if n == 0 then 0 else n * 100 / m;
  number = λ n. n;
  below = ltb;
}

abbrev strict : HealthCheckerConfig ℕ
strict = record {
  tablet_health_threshold = 80;
  replica_health_threshold = 80;
  backend_health_threshold = 80;
}

-- One of two partitions lost most of its replicas, in a table in its normal state.
abbrev two_partitions : TableFacts
two_partitions = record {
  id = 7;
  state = normal_text;
  partitions =
      analyze_partition_health percents strict 1 normal_text 4 4 12 12
      ∷ analyze_partition_health percents strict 2 normal_text 3 4 10 12
      ∷ [];
  healthy_count = 1;
  total_count = 2;
}

two_partitions_limited : (analyze percents strict two_partitions).table_access ≡ read_only
unfolding analyze_table_health judge_table check_inaccessible check_read_only check_partial
    check_percentage count_access percentage check_state is_normal analyze_partition_health
    judge_partition
two_partitions_limited = refl

analyzed_executability_example :
    Gives
      (analyze_query_executability (map (analyze percents strict) (two_partitions ∷ [])))
      (nonempty (map (analyze percents strict) (two_partitions ∷ []))
        && all_readable (map (analyze percents strict) (two_partitions ∷ [])))
      (worst_access (map (analyze percents strict) (two_partitions ∷ [])))
    × Gives
        (analyze_write_executability (map (analyze percents strict) (two_partitions ∷ [])))
        (nonempty (map (analyze percents strict) (two_partitions ∷ []))
          && all_writable (map (analyze percents strict) (two_partitions ∷ [])))
        (if nonempty (map (analyze percents strict) (two_partitions ∷ []))
            && all_writable (map (analyze percents strict) (two_partitions ∷ []))
          then worst_access (map (analyze percents strict) (two_partitions ∷ []))
          else no_access)
analyzed_executability_example = analyzed_executability percents strict (two_partitions ∷ [])

-- A manager that knows the ids alone.
abbrev lost_partitions : TabletManager
lost_partitions = record {
  get_tablet_info = λ id. none;
  get_tablet_replicas = λ id. none;
  get_partition_info = λ db table id. none;
  get_tablets_for_partition = λ db table id. none;
  get_table_info = λ db table. some (table, normal_text);
  get_partitions_for_table = λ db table. some (1 ∷ 2 ∷ []);
}

abbrev checker : Bool → HealthCheckerImpl
checker cached = record {
  cache_enabled = cached;
  cache_ttl = 1000;
  backend_cache = [];
  tablet_cache = [];
  partition_cache = [];
  table_cache = [];
  last_cache_cleanup = 0;
}

unreachable_table_writable_example :
    ((check_write_executability percents strict 10 lost_partitions
        (7 ∷ [])
        (checker false)).1.is_executable
      ≡ true)
    × ((check_write_executability percents strict 10 lost_partitions
          (7 ∷ [])
          (checker false)).1.execution_level
        ≡ partial)
unreachable_table_writable_example =
    unreachable_table_writable percents strict 10 lost_partitions 7 (checker false) refl (λ n. refl)
      (record {
        info = (7, normal_text);
        first = 1;
        others = 2 ∷ [];
        known = refl;
        parts = refl;
        lost = λ p. refl;
      })

-- A manager of empty tables.
abbrev empty_tables : TabletManager
empty_tables = record lost_partitions { get_partitions_for_table = λ db table. some [] }

abbrev empty_table : TableAccessibility
empty_table = analyze_table_health percents strict 7 normal_text [] 0 0

abbrev checked : HealthCheckerImpl
checked = record (checker true) { table_cache = (7, empty_table, 10) ∷ [] }

first_check :
    check_table_health percents strict 10 empty_tables 1 7 (checker true)
    ≡ (checked, some empty_table)
unfolding check_table_health judge_partitions check_partitions cache_table_health
    cleanup_cache_if_needed put_cached drop_cached find_cached
first_check = refl

first_miss : from_cache 10 (checker true) 7 (checker true).table_cache ≡ none
unfolding find_cached
first_miss = refl

check_table_again_example :
    check_table_health percents strict 900 lost_partitions 2 7 checked ≡ (checked, some empty_table)
check_table_again_example =
    check_table_again percents strict 10 empty_tables 1 7 (checker true) checked empty_table refl
      first_miss first_check 900 2 lost_partitions refl

-- A backend that is not alive, without a heartbeat for six minutes.
abbrev dead_backend : BackendHealth ℕ
dead_backend = record {
  backend_id = 1;
  alive = false;
  system_decommissioned = false;
  cluster_decommissioned = false;
  used_pct = 10;
  last_heartbeat = 0;
}

dead_backend_degraded : analyze_backend_health percents 360000000000 dead_backend ≡ degraded
unfolding analyze_backend_health
dead_backend_degraded = refl

abbrev nothing_reachable : TabletManager
nothing_reachable = record lost_partitions { get_table_info = λ db table. none }

-- Three dead backends of three, and no table: the report is unhealthy.
dead_cluster :
    (generate_health_report percents strict 360000000000 nothing_reachable
      (some (dead_backend ∷ dead_backend ∷ dead_backend ∷ []))
      (new_health_checker false 1000 0)).1
    ≡ some unhealthy
unfolding generate_health_report check_all_backends_health analyze_backends analyze_backend_health
    new_health_checker cache_backend_health check_tables check_table_health compile_health_report
    judge_share count_unhealthy find_cached
dead_cluster = refl
