-- ===== src/Health/Unchecked.antt =====
-- checker.go: a table none of whose partitions could be checked.
use staravail.Common.{
  ℕ, suc, ◌≡◌, refl, ap, ◌∙◌, arith, List, [], ◌∷◌, length, Text, none, some, true, false, ltb,
  ◌==◌, if-true, if-false, if-both,
}
use staravail.Health.Analysis.{
  unhealthy, partial, Floats, HealthCheckerConfig, TableAccessibility, Verdict, all_well,
  check_state, is_normal, percentage,
}
use staravail.Health.Tables.{
  count_access, check_inaccessible, check_read_only, check_partial, check_percentage, judge_table,
  analyze_table_health,
}
use staravail.Health.Executability.{analyze_write_executability, write_tables}
use staravail.Health.Checks.{
  TabletManager, HealthCheckerImpl, cache_table_health, check_partition_health, check_partitions,
  Found, judge_partitions, check_table_health, check_tables, check_write_executability,
}

module _ {F : Type 0} (f : Floats F) (config : HealthCheckerConfig F) (now : ℕ)
    (m : TabletManager) where
  -- The manager knows the table and its partitions by id, but nothing of any of them.
  pub record IsUnreachable (database table : ℕ) : Type 0 where
    pub info : ℕ × Text
    pub first : ℕ
    pub others : List ℕ
    pub known : m.get_table_info database table ≡ some info
    pub parts : m.get_partitions_for_table database table ≡ some (first ∷ others)
    pub lost : (p : ℕ) → m.get_partition_info database table p ≡ none

  check_partition-lost :
      (database table p : ℕ) (c : HealthCheckerImpl)
      → c.cache_enabled ≡ false
      → m.get_partition_info database table p ≡ none
      → check_partition_health f config now m database table p c ≡ (c, none)
  unfolding check_partition_health
  check_partition-lost database table p c off h = simp (check_partition_health, off, h)

  check_partitions-lost :
      (database table : ℕ) (ids : List ℕ) (c : HealthCheckerImpl) (found : Found f config now m × ℕ)
      → c.cache_enabled ≡ false
      → ((p : ℕ) → m.get_partition_info database table p ≡ none)
      → check_partitions f config now m database table ids c found ≡ (c, found)
  unfolding check_partitions
  check_partitions-lost database table [] c found off h = refl
  check_partitions-lost database table (id ∷ ids) c found off h =
      rw (check_partition-lost database table id c off (h id))
        (check_partitions-lost database table ids c found off h)

  -- None of the checks of a table before the share of the healthy partitions sees anything.
  inaccessible-nothing : (total : ℕ) → check_inaccessible [] (suc total) all_well ≡ all_well
  unfolding check_inaccessible count_access
  inaccessible-nothing total = if-false (0 == suc total) _ _ (ground arith)

  share-nothing :
      (total : ℕ)
      → f.below (f.percent 0 (suc total)) (f.number 50) ≡ true
      → check_percentage f config 0 (suc total) all_well
        ≡ record all_well { status = unhealthy; access_level = partial }
  unfolding check_percentage percentage
  share-nothing total h = if-true _ _ _ (
      ap (λ (x : F). f.below x (f.number 50))
        (if-true (ltb 0 (suc total)) _ (f.number 0) (ground arith))
      ∙ h)

  judge-nothing :
      (total : ℕ)
      → f.below (f.percent 0 (suc total)) (f.number 50) ≡ true
      → judge_table f config [] 0 (suc total)
        ≡ record all_well { status = unhealthy; access_level = partial }
  unfolding judge_table check_partial check_read_only count_access
  judge-nothing total h =
      if-false (suc total == 0) _ _ (ground arith)
      ∙ ap
          (λ (v : Verdict).
            check_percentage f config 0 (suc total) (check_partial [] (check_read_only [] v)))
          (inaccessible-nothing total)
      ∙ share-nothing total h

  -- With partial access, a write may go on.
  state-nothing :
      (state : Text)
      → check_state state (record all_well { status = unhealthy; access_level = partial })
        ≡ record all_well { status = unhealthy; access_level = partial }
  unfolding check_state
  state-nothing state =
      if-both (λ (v : Verdict). v ≡ record all_well { status = unhealthy; access_level = partial })
        (is_normal state) _ _ refl refl

  verdict-nothing :
      (state : Text) (total : ℕ)
      → f.below (f.percent 0 (suc total)) (f.number 50) ≡ true
      → check_state state (judge_table f config [] 0 (suc total))
        ≡ record all_well { status = unhealthy; access_level = partial }
  verdict-nothing state total h =
      ap (check_state state) (judge-nothing total h) ∙ state-nothing state

  abbrev nothing_known : ℕ × Text → ℕ → TableAccessibility
  nothing_known info total = analyze_table_health f config info.0 info.1 [] 0 (suc total)

  writes-nothing :
      (info : ℕ × Text) (total : ℕ)
      → f.below (f.percent 0 (suc total)) (f.number 50) ≡ true
      → let e = analyze_write_executability (nothing_known info total ∷ []) in
        (e.is_executable ≡ true) × (e.execution_level ≡ partial)
  unfolding analyze_write_executability write_tables analyze_table_health
  writes-nothing info total h = rw (verdict-nothing info.1 total h) (refl, refl)

  -- Without a cache, the check of such a table answers without any partition.
  check_table-unreachable :
      (database table : ℕ) (c : HealthCheckerImpl)
      → c.cache_enabled ≡ false
      → (u : IsUnreachable database table)
      → check_table_health f config now m database table c
        ≡ (c, some (nothing_known u.info (length u.others)))
  unfolding check_table_health judge_partitions cache_table_health
  check_table-unreachable database table c off u =
      simp
        (
          check_table_health,
          off,
          u.known,
          u.parts,
          check_partitions-lost database table (u.first ∷ u.others) c ([], 0) off u.lost,
        )
        refl

  -- Without a cache, and when a share of no healthy partition is below 50 percent, a write to a
  -- table whose partitions are known by id, at least one, but can none of them be checked, is
  -- reported as executable, with partial access.
  pub unreachable_table_writable :
      (table : ℕ) (c : HealthCheckerImpl)
      → c.cache_enabled ≡ false
      → ((n : ℕ) → f.below (f.percent 0 (suc n)) (f.number 50) ≡ true)
      → IsUnreachable 1 table
      → let e = (check_write_executability f config now m (table ∷ []) c).1 in
        (e.is_executable ≡ true) × (e.execution_level ≡ partial)
  unfolding check_write_executability check_tables
  unreachable_table_writable table c off law u =
      rw (check_tables, check_table-unreachable 1 table c off u)
        (writes-nothing u.info (length u.others) (law (length u.others)))
