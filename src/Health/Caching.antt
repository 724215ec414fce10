-- ===== src/Health/Caching.antt =====
-- checker.go: a table that was just checked is answered from the cache.
use staravail.Common.{
  ℕ, ◌-◌, ◌≡◌, refl, sym, ap, ◌∙◌, arith, List, [], ◌∷◌, Text, Option, none, some, true, ltb,
  if-true, if-false, if-both,
}
use staravail.Common.{==_refl}
use mathlib.Core.Path.{subst}
use staravail.Health.Analysis.{
  HealthStatus, Floats, HealthCheckerConfig, PartitionAccessibility, TableAccessibility,
}
use staravail.Health.Checks.{
  TabletManager, HealthCheckerImpl, Cache, young_enough, find_cached, put_cached, clean,
  cleanup_cache_if_needed, from_cache, cache_tablet_health, cache_partition_health,
  cache_table_health, check_tablet_health, check_tablets, judge_tablets, TabletCounts,
  check_partition_health, check_partitions, Found, judge_partitions, check_table_health,
}

-- The cache is as it was set up.
record Keeps (c d : HealthCheckerImpl) : Type 0 where
  enabled : d.cache_enabled ≡ c.cache_enabled
  ttl : d.cache_ttl ≡ c.cache_ttl

Keeps-refl : (c : HealthCheckerImpl) → Keeps c c
Keeps-refl c = record { enabled = refl; ttl = refl }

Keeps-trans : (c d e : HealthCheckerImpl) → Keeps c d → Keeps d e → Keeps c e
Keeps-trans c d e h k = record { enabled = k.enabled ∙ h.enabled; ttl = k.ttl ∙ h.ttl }

option-both :
    {A B : Type 0} (P : B → Type 0) (o : Option A) (x : B) (k : A → B)
    → P x
    → ((a : A) → P (k a))
    → P (elim o [ none ↦ x | some a ↦ k a ])
option-both P none x k h g = h
option-both P (some a) x k h g = g a

cleanup-Keeps : (now : ℕ) (c : HealthCheckerImpl) → Keeps c (cleanup_cache_if_needed now c)
unfolding cleanup_cache_if_needed
cleanup-Keeps now c = if-both (Keeps c) _ _ _ (Keeps-refl c) (record { enabled = refl; ttl = refl })

-- A cache is written, and cleaned.
written-Keeps :
    (now : ℕ) (c d : HealthCheckerImpl)
    → d.cache_enabled ≡ c.cache_enabled
    → d.cache_ttl ≡ c.cache_ttl
    → Keeps c (cleanup_cache_if_needed now d)
written-Keeps now c d h k =
    Keeps-trans c d _ (record { enabled = h; ttl = k }) (cleanup-Keeps now d)

cache_table-Keeps :
    (now id : ℕ) (t : TableAccessibility) (c : HealthCheckerImpl)
    → Keeps c (cache_table_health now id t c)
unfolding cache_table_health
cache_table-Keeps now id t c =
    if-both (Keeps c) c.cache_enabled _ _
      (written-Keeps now c (record c { table_cache = put_cached now id t c.table_cache }) refl refl)
      (Keeps-refl c)

put-found :
    {A : Type 0} (now id : ℕ) (a : A) (cache : Cache A)
    → find_cached id (put_cached now id a cache) ≡ some (a, now)
unfolding put_cached find_cached
put-found now id a cache = if-true _ _ _ (==_refl id)

clean-found :
    {A : Type 0} (now ttl id : ℕ) (a : A) (cache : Cache A)
    → find_cached id (clean now ttl (put_cached now id a cache)) ≡ some (a, now)
unfolding put_cached find_cached clean
clean-found now ttl id a cache =
    ap (find_cached id) (if-false (ltb ttl (now - now)) _ _ (ground arith))
    ∙ if-true _ _ _ (==_refl id)

cache_table-found :
    (now id : ℕ) (t : TableAccessibility) (c : HealthCheckerImpl)
    → c.cache_enabled ≡ true
    → find_cached id (cache_table_health now id t c).table_cache ≡ some (t, now)
unfolding cache_table_health cleanup_cache_if_needed
cache_table-found now id t c on =
    ap (λ (d : HealthCheckerImpl). find_cached id d.table_cache) (if-true _ _ c on)
    ∙ if-both (λ (d : HealthCheckerImpl). find_cached id d.table_cache ≡ some (t, now)) _ _ _
        (put-found now id t c.table_cache) (clean-found now c.cache_ttl id t c.table_cache)

cache_tablet-Keeps :
    (now id : ℕ) (s : HealthStatus) (c : HealthCheckerImpl)
    → Keeps c (cache_tablet_health now id s c)
unfolding cache_tablet_health
cache_tablet-Keeps now id s c =
    if-both (Keeps c) c.cache_enabled _ _
      (written-Keeps now c (record c { tablet_cache = put_cached now id s c.tablet_cache }) refl
        refl)
      (Keeps-refl c)

cache_partition-Keeps :
    (now id : ℕ) (p : PartitionAccessibility) (c : HealthCheckerImpl)
    → Keeps c (cache_partition_health now id p c)
unfolding cache_partition_health
cache_partition-Keeps now id p c =
    if-both (Keeps c) c.cache_enabled _ _
      (written-Keeps now c (record c { partition_cache = put_cached now id p c.partition_cache })
        refl refl)
      (Keeps-refl c)

module _ {F : Type 0} (f : Floats F) (config : HealthCheckerConfig F) (now : ℕ)
    (m : TabletManager) where
  check_tablet-Keeps :
      (id : ℕ) (c : HealthCheckerImpl) → Keeps c (check_tablet_health f config now m id c).0
  unfolding check_tablet_health
  check_tablet-Keeps id c =
      option-both (λ (r : HealthCheckerImpl × Option HealthStatus). Keeps c r.0)
        (from_cache now c id c.tablet_cache) _ _
        (option-both (λ (r : HealthCheckerImpl × Option HealthStatus). Keeps c r.0)
          (m.get_tablet_info id) _ _ (Keeps-refl c)
          (λ (state : Text).
            option-both (λ (r : HealthCheckerImpl × Option HealthStatus). Keeps c r.0)
              (m.get_tablet_replicas id) _ _ (Keeps-refl c)
              (λ (replicas : List Text). cache_tablet-Keeps now id _ c)))
        (λ (s : HealthStatus). Keeps-refl c)

  check_tablets-Keeps :
      (ids : List ℕ) (c : HealthCheckerImpl) (n : TabletCounts)
      → Keeps c (check_tablets f config now m ids c n).0
  unfolding check_tablets
  check_tablets-Keeps [] c n = Keeps-refl c
  check_tablets-Keeps (id ∷ ids) c n =
      Keeps-trans c _ _ (check_tablet-Keeps id c)
        (check_tablets-Keeps ids (check_tablet_health f config now m id c).0 _)

  check_partition-Keeps :
      (database table p : ℕ) (c : HealthCheckerImpl)
      → Keeps c (check_partition_health f config now m database table p c).0
  unfolding check_partition_health judge_tablets
  check_partition-Keeps database table p c =
      option-both (λ (r : HealthCheckerImpl × Option PartitionAccessibility). Keeps c r.0)
        (from_cache now c p c.partition_cache) _ _
        (option-both (λ (r : HealthCheckerImpl × Option PartitionAccessibility). Keeps c r.0)
          (m.get_partition_info database table p) _ _ (Keeps-refl c)
          (λ (info : ℕ × Text).
            option-both (λ (r : HealthCheckerImpl × Option PartitionAccessibility). Keeps c r.0)
              (m.get_tablets_for_partition database table p) _ _ (Keeps-refl c)
              (λ (ids : List ℕ).
                Keeps-trans c _ _ (check_tablets-Keeps ids c _) (cache_partition-Keeps now p _ _))))
        (λ (q : PartitionAccessibility). Keeps-refl c)

  check_partitions-Keeps :
      (database table : ℕ) (ids : List ℕ) (c : HealthCheckerImpl) (found : Found f config now m × ℕ)
      → Keeps c (check_partitions f config now m database table ids c found).0
  unfolding check_partitions
  check_partitions-Keeps database table [] c found = Keeps-refl c
  check_partitions-Keeps database table (id ∷ ids) c found =
      Keeps-trans c _ _ (check_partition-Keeps database table id c) (
        check_partitions-Keeps database table ids
          (check_partition_health f config now m database table id c).0 _)

  -- An answer stands in the cache, with the time of the check.
  abbrev Remembers : ℕ → HealthCheckerImpl → HealthCheckerImpl × Option TableAccessibility → Type 0
  Remembers table c r =
      (t : TableAccessibility)
      → r.1 ≡ some t
      → (find_cached table r.0.table_cache ≡ some (t, now)) × Keeps c r.0

  judge_partitions-Remembers :
      (database table : ℕ) (info : ℕ × Text) (ids : List ℕ) (c : HealthCheckerImpl)
      → c.cache_enabled ≡ true
      → Remembers table c (judge_partitions f config now m database table info ids c)
  unfolding judge_partitions
  judge_partitions-Remembers database table info ids c on t h =
      let (c2, found) = check_partitions f config now m database table ids c ([], 0) in
      let k = check_partitions-Keeps database table ids c ([], 0) in
      let e = ap (λ (o : Option TableAccessibility). elim o [ none ↦ t | some x ↦ x ]) h in
      (
        cache_table-found now table _ c2 (k.enabled ∙ on)
            ∙ ap (λ (x : TableAccessibility). some (x, now)) e,
        Keeps-trans c c2 _ k (cache_table-Keeps now table _ c2),
      )

  check_table-Remembers :
      (database table : ℕ) (c : HealthCheckerImpl)
      → c.cache_enabled ≡ true
      → from_cache now c table c.table_cache ≡ none
      → Remembers table c (check_table_health f config now m database table c)
  unfolding check_table_health
  check_table-Remembers database table c on miss =
      subst
        (λ (o : Option TableAccessibility). Remembers table c (elim o [
          | some t ↦ (c, some t)
          | none ↦ elim (m.get_table_info database table) [
            | none ↦ (c, none)
            | some info ↦ elim (m.get_partitions_for_table database table) [
              | none ↦ (c, none)
              | some ids ↦ judge_partitions f config now m database table info ids c
            ]
          ]
        ]))
        (sym miss)
        (option-both (Remembers table c) (m.get_table_info database table) _ _
          (λ t h. absurd (ground arith))
          (λ (info : ℕ × Text).
            option-both (Remembers table c) (m.get_partitions_for_table database table) _ _
              (λ t h. absurd (ground arith))
              (λ (ids : List ℕ). judge_partitions-Remembers database table info ids c on)))

  -- With the cache on, when a check of a table that misses the cache gives a result, another check
  -- of the same table id within the time to live gives the same result and changes nothing,
  -- whatever the tablet manager says by then, and whichever the database is.
  pub check_table_again :
      (database table : ℕ) (c after : HealthCheckerImpl) (t : TableAccessibility)
      → c.cache_enabled ≡ true
      → from_cache now c table c.table_cache ≡ none
      → check_table_health f config now m database table c ≡ (after, some t)
      → (later elsewhere : ℕ) (changed : TabletManager) → ltb (later - now) c.cache_ttl ≡ true
      → check_table_health f config later changed elsewhere table after ≡ (after, some t)
  unfolding check_table_health
  check_table_again database table c after t on miss e later elsewhere changed young =
      let (found, k) =
        subst (Remembers table c) e (check_table-Remembers database table c on miss) t refl in
      ap
        (λ (o : Option TableAccessibility). elim o [
          | some t ↦ (after, some t)
          | none ↦ elim (changed.get_table_info elsewhere table) [
            | none ↦ (after, none)
            | some info ↦ elim (changed.get_partitions_for_table elsewhere table) [
              | none ↦ (after, none)
              | some ids ↦ judge_partitions f config later changed elsewhere table info ids after
            ]
          ]
        ])
        (if-true _ _ none (k.enabled ∙ on)
          ∙ ap (young_enough later after.cache_ttl) found
          ∙ if-true _ _ none (ap (λ (n : ℕ). ltb (later - now) n) k.ttl ∙ young))
