-- ===== src/Health/Checks.antt =====
-- checker.go: the checks of `HealthCheckerImpl` with its caches. The tablet manager answers from a
-- database, and the monitor from a goroutine, so both are interfaces, whose answers stay the same
-- during one check; `now` is what the clock reads in it.
use staravail.Common.{ℕ, ◌+◌, ◌-◌, List, [], ◌∷◌, ◌++◌, length, Text, Option, none, some}
use staravail.Common.{Bool, ltb, ◌==◌, if◌then◌else◌}
use staravail.Health.Analysis.{
  HealthStatus, Floats, HealthCheckerConfig, PartitionAccessibility, TableAccessibility, is_healthy,
  count_normal, analyze_tablet_health, analyze_partition_health,
}
use staravail.Health.Tables.{analyze_table_health}
use staravail.Health.Executability.{
  Executability, analyze_query_executability, analyze_write_executability,
}
use staravail.Health.Backends.{BackendHealth, analyze_backend_health}

-- `none` for an error. A tablet has a state, and so has each of its replicas; a partition and a table
-- have an id and a state.
pub record TabletManager : Type 0 where
  pub get_tablet_info : ℕ → Option Text
  pub get_tablet_replicas : ℕ → Option (List Text)
  pub get_partition_info : ℕ → ℕ → ℕ → Option (ℕ × Text)
  pub get_tablets_for_partition : ℕ → ℕ → ℕ → Option (List ℕ)
  pub get_table_info : ℕ → ℕ → Option (ℕ × Text)
  pub get_partitions_for_table : ℕ → ℕ → Option (List ℕ)

-- A map by id, of results with the time of their update.
abbrev pub Cache : Type 0 → Type 0
Cache A = List (ℕ × A × ℕ)

pub record HealthCheckerImpl : Type 0 where
  pub cache_enabled : Bool
  pub cache_ttl : ℕ
  pub backend_cache : Cache HealthStatus
  pub tablet_cache : Cache HealthStatus
  pub partition_cache : Cache PartitionAccessibility
  pub table_cache : Cache TableAccessibility
  pub last_cache_cleanup : ℕ

abbrev pub one_hour : ℕ
one_hour = 3600000000000

module _ {A : Type 0} where
  unfoldable pub find_cached : ℕ → Cache A → Option (A × ℕ)
  find_cached id [] = none
  find_cached id ((k, a, at) ∷ cache) =
      let rest = find_cached id cache in if k == id then some (a, at) else rest

  -- A result that is younger than `ttl`.
  abbrev pub young_enough : ℕ → ℕ → Option (A × ℕ) → Option A
  young_enough now ttl none = none
  young_enough now ttl (some (a, at)) = if ltb (now - at) ttl then some a else none

  unfoldable pub drop_cached : ℕ → Cache A → Cache A
  drop_cached id [] = []
  drop_cached id ((k, a, at) ∷ cache) =
      let rest = drop_cached id cache in if k == id then rest else (k, a, at) ∷ rest

  unfoldable pub put_cached : ℕ → ℕ → A → Cache A → Cache A
  put_cached now id a cache = (id, a, now) ∷ drop_cached id cache

  unfoldable pub clean : ℕ → ℕ → Cache A → Cache A
  clean now ttl [] = []
  clean now ttl ((k, a, at) ∷ cache) =
      let rest = clean now ttl cache in if ltb ttl (now - at) then rest else (k, a, at) ∷ rest

unfoldable pub cleanup_cache_if_needed : ℕ → HealthCheckerImpl → HealthCheckerImpl
cleanup_cache_if_needed now c = if ltb (now - c.last_cache_cleanup) one_hour then c else record c {
  backend_cache = clean now c.cache_ttl c.backend_cache;
  tablet_cache = clean now c.cache_ttl c.tablet_cache;
  partition_cache = clean now c.cache_ttl c.partition_cache;
  table_cache = clean now c.cache_ttl c.table_cache;
  last_cache_cleanup = now;
}

unfoldable pub clear_cache : ℕ → HealthCheckerImpl → HealthCheckerImpl
clear_cache now c = record c {
  backend_cache = [];
  tablet_cache = [];
  partition_cache = [];
  table_cache = [];
  last_cache_cleanup = now;
}

-- A cached result, unless the cache is off.
abbrev pub from_cache : {A : Type 0} → ℕ → HealthCheckerImpl → ℕ → Cache A → Option A
from_cache now c id cache =
    if c.cache_enabled then young_enough now c.cache_ttl (find_cached id cache) else none

unfoldable pub cache_backend_health : ℕ → ℕ → HealthStatus → HealthCheckerImpl → HealthCheckerImpl
cache_backend_health now id s c =
    if c.cache_enabled
    then cleanup_cache_if_needed now
        (record c { backend_cache = put_cached now id s c.backend_cache })
    else c

unfoldable pub cache_tablet_health : ℕ → ℕ → HealthStatus → HealthCheckerImpl → HealthCheckerImpl
cache_tablet_health now id s c =
    if c.cache_enabled
    then cleanup_cache_if_needed now
        (record c { tablet_cache = put_cached now id s c.tablet_cache })
    else c

unfoldable pub cache_partition_health :
    ℕ → ℕ → PartitionAccessibility → HealthCheckerImpl → HealthCheckerImpl
cache_partition_health now id p c =
    if c.cache_enabled
    then cleanup_cache_if_needed now
        (record c { partition_cache = put_cached now id p c.partition_cache })
    else c

unfoldable pub cache_table_health :
    ℕ → ℕ → TableAccessibility → HealthCheckerImpl → HealthCheckerImpl
cache_table_health now id t c =
    if c.cache_enabled
    then cleanup_cache_if_needed now (record c { table_cache = put_cached now id t c.table_cache })
    else c

-- What is counted over the tablets of a partition.
pub record TabletCounts : Type 0 where
  pub healthy_tablets : ℕ
  pub normal_replicas : ℕ
  pub all_replicas : ℕ

module _ {F : Type 0} (f : Floats F) (config : HealthCheckerConfig F) (now : ℕ) where
  unfoldable pub check_backend_health :
      (ℕ → Option (BackendHealth F))
      → ℕ
      → HealthCheckerImpl
      → HealthCheckerImpl × Option HealthStatus
  check_backend_health monitor id c = elim (from_cache now c id c.backend_cache) [
    | some s ↦ (c, some s)
    | none ↦ elim (monitor id) [
      | none ↦ (c, none)
      | some b ↦ let s = analyze_backend_health f now b in (cache_backend_health now id s c, some s)
    ]
  ]

  module _ (m : TabletManager) where
    unfoldable pub check_tablet_health :
        ℕ → HealthCheckerImpl → HealthCheckerImpl × Option HealthStatus
    check_tablet_health id c = elim (from_cache now c id c.tablet_cache) [
      | some s ↦ (c, some s)
      | none ↦ elim (m.get_tablet_info id) [
        | none ↦ (c, none)
        | some state ↦ elim (m.get_tablet_replicas id) [
          | none ↦ (c, none)
          | some replicas ↦
              let s = analyze_tablet_health f config state replicas in
              (cache_tablet_health now id s c, some s)
        ]
      ]
    ]

    abbrev add_tablet : HealthStatus → List Text → TabletCounts → TabletCounts
    add_tablet s replicas n = record {
      healthy_tablets = (if is_healthy s then n.healthy_tablets + 1 else n.healthy_tablets);
      normal_replicas = n.normal_replicas + count_normal replicas;
      all_replicas = n.all_replicas + length replicas;
    }

    -- What is added for a tablet: nothing when its check or its replicas fail.
    abbrev count_tablet : Option HealthStatus → Option (List Text) → TabletCounts → TabletCounts
    count_tablet (some s) (some replicas) n = add_tablet s replicas n
    count_tablet _ _ n = n

    unfoldable pub check_tablets :
        List ℕ → HealthCheckerImpl → TabletCounts → HealthCheckerImpl × TabletCounts
    check_tablets [] c n = (c, n)
    check_tablets (id ∷ ids) c n =
        let r = check_tablet_health id c in
        check_tablets ids r.0 (count_tablet r.1 (m.get_tablet_replicas id) n)

    unfoldable pub judge_tablets :
        ℕ
        → ℕ × Text
        → List ℕ
        → HealthCheckerImpl
        → HealthCheckerImpl × Option PartitionAccessibility
    judge_tablets partition info ids c =
        let r =
          check_tablets ids c
            (record { healthy_tablets = 0; normal_replicas = 0; all_replicas = 0 }) in
        let p =
          analyze_partition_health f config info.0 info.1 r.1.healthy_tablets (length ids)
            r.1.normal_replicas r.1.all_replicas in
        (cache_partition_health now partition p r.0, some p)

    unfoldable pub check_partition_health :
        ℕ → ℕ → ℕ → HealthCheckerImpl → HealthCheckerImpl × Option PartitionAccessibility
    check_partition_health database table partition c =
        elim (from_cache now c partition c.partition_cache) [
          | some p ↦ (c, some p)
          | none ↦ elim (m.get_partition_info database table partition) [
            | none ↦ (c, none)
            | some info ↦ elim (m.get_tablets_for_partition database table partition) [
              | none ↦ (c, none)
              | some ids ↦ judge_tablets partition info ids c
            ]
          ]
        ]

    -- The map from the partition's id to its result: an id that comes again replaces the old result.
    abbrev pub Found : Type 0
    Found = List (ℕ × PartitionAccessibility)

    unfoldable pub put_found : ℕ → PartitionAccessibility → Found → Found
    put_found id p [] = (id, p) ∷ []
    put_found id p ((k, q) ∷ found) =
        let rest = put_found id p found in if k == id then (id, p) ∷ found else (k, q) ∷ rest

    -- The results, and how many of the partitions were healthy, where a failed check adds nothing.
    unfoldable pub check_partitions :
        ℕ → ℕ → List ℕ → HealthCheckerImpl → Found × ℕ → HealthCheckerImpl × (Found × ℕ)
    check_partitions database table [] c found = (c, found)
    check_partitions database table (id ∷ ids) c (found, n) =
        let r = check_partition_health database table id c in
        check_partitions database table ids r.0 (elim r.1 [
          | none ↦ (found, n)
          | some p ↦ (put_found id p found, if is_healthy p.partition_status then n + 1 else n)
        ])

    abbrev pub values : Found → List PartitionAccessibility
    values [] = []
    values ((_, p) ∷ found) = p ∷ values found

    unfoldable pub judge_partitions :
        ℕ
        → ℕ
        → ℕ × Text
        → List ℕ
        → HealthCheckerImpl
        → HealthCheckerImpl × Option TableAccessibility
    judge_partitions database table info ids c =
        let (c2, (found, n)) = check_partitions database table ids c ([], 0) in
        let t = analyze_table_health f config info.0 info.1 (values found) n (length ids) in
        (cache_table_health now table t c2, some t)

    unfoldable pub check_table_health :
        ℕ → ℕ → HealthCheckerImpl → HealthCheckerImpl × Option TableAccessibility
    check_table_health database table c = elim (from_cache now c table c.table_cache) [
      | some t ↦ (c, some t)
      | none ↦ elim (m.get_table_info database table) [
        | none ↦ (c, none)
        | some info ↦ elim (m.get_partitions_for_table database table) [
          | none ↦ (c, none)
          | some ids ↦ judge_partitions database table info ids c
        ]
      ]
    ]

    -- The tables whose check fails are passed over.
    unfoldable pub check_tables :
        ℕ
        → List ℕ
        → HealthCheckerImpl
        → List TableAccessibility
        → HealthCheckerImpl × List TableAccessibility
    check_tables database [] c found = (c, found)
    check_tables database (id ∷ ids) c found =
        let r = check_table_health database id c in
        check_tables database ids r.0 (elim r.1 [ none ↦ found | some t ↦ found ++ (t ∷ []) ])

    unfoldable pub check_query_executability :
        List ℕ → HealthCheckerImpl → HealthCheckerImpl × Executability
    check_query_executability ids c =
        let r = check_tables 1 ids c [] in (r.0, analyze_query_executability r.1)

    unfoldable pub check_write_executability :
        List ℕ → HealthCheckerImpl → HealthCheckerImpl × Executability
    check_write_executability ids c =
        let r = check_tables 1 ids c [] in (r.0, analyze_write_executability r.1)
