-- ===== src/Health/Executability.antt =====
-- checker.go: analyzeQueryExecutability and analyzeWriteExecutability. The impact is counted in
-- tenths.
use staravail.Common.{ℕ, List, [], ◌∷◌, Bool, true, false, not, ◌&&◌, ltb, if◌then◌else◌}
use staravail.Health.Analysis.{
  HealthStatus, degraded, unhealthy, AccessLevel, full, read_only, partial, no_access,
  TableAccessibility, is_read_only, is_partial, is_none,
}

-- The variables that the two analyses change.
pub record Executability : Type 0 where
  pub is_executable : Bool
  pub execution_level : AccessLevel
  pub estimated_impact : ℕ

abbrev pub executable : Executability
executable = record { is_executable = true; execution_level = full; estimated_impact = 0 }

abbrev pub table_impact : HealthStatus → ℕ
table_impact degraded = 3
table_impact unhealthy = 7
table_impact _ = 0

abbrev pub raise_impact : HealthStatus → ℕ → ℕ
raise_impact s impact = if ltb impact (table_impact s) then table_impact s else impact

abbrev pub refuse : Executability → Executability
refuse e = record e { is_executable = false; execution_level = no_access }

-- The level behind a table that a query can read.
abbrev pub query_level : AccessLevel → AccessLevel → AccessLevel
query_level table level =
    if is_read_only table && not (is_none level)
    then read_only
    else if is_partial table && not (is_none level) && not (is_read_only level)
    then partial
    else level

-- The loop over the tables, which an inaccessible table ends.
unfoldable pub query_tables : List TableAccessibility → Executability → Executability
query_tables [] e = e
query_tables (t ∷ ts) e =
    let rest = query_tables ts (record e {
      execution_level = query_level t.table_access e.execution_level;
      estimated_impact = raise_impact t.table_status e.estimated_impact;
    }) in
    if is_none t.table_access then refuse e else rest

-- The type of the query is always SELECT, so the check for writes behind the loop never runs.
unfoldable pub analyze_query_executability : List TableAccessibility → Executability
analyze_query_executability [] = refuse executable
analyze_query_executability (t ∷ ts) = query_tables (t ∷ ts) executable

unfoldable pub write_tables : List TableAccessibility → Executability → Executability
write_tables [] e = e
write_tables (t ∷ ts) e =
    let rest = write_tables ts (record e {
      execution_level =
          (if is_partial t.table_access && not (is_none e.execution_level)
            then partial
            else e.execution_level);
      estimated_impact = raise_impact t.table_status e.estimated_impact;
    }) in
    if not t.table_writable
    then refuse e
    else if is_none t.table_access
    then refuse e
    else if is_read_only t.table_access
    then refuse e
    else rest

unfoldable pub analyze_write_executability : List TableAccessibility → Executability
analyze_write_executability [] = refuse executable
analyze_write_executability (t ∷ ts) = write_tables (t ∷ ts) executable
