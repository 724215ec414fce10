-- ===== src/Health/Decisions.antt =====
-- checker.go: which queries and writes are executable, and at which level.
use staravail.Common.{
  ℕ, ◌≡◌, refl, sym, ap, ◌∙◌, arith, List, [], ◌∷◌, All, Bool, true, false, not, ◌&&◌, ◌||◌, ltb,
  if◌then◌else◌,
}
use staravail.Common.{if-true, if-false, Bool-cases, inl, inr}
use staravail.Common.{Text, map}
use mathlib.Core.Path.{subst}
use staravail.Health.Analysis.{Floats, HealthCheckerConfig, PartitionAccessibility}
use staravail.Health.Tables.{analyze_table_health}
use staravail.Health.Coherence.{judge_table-IsCoherent}
use staravail.Health.Analysis.{
  AccessLevel, full, read_only, partial, no_access, TableAccessibility, is_read_only, is_partial,
  is_none,
}
use staravail.Health.Executability.{
  Executability, executable, raise_impact, query_level, query_tables, analyze_query_executability,
  write_tables, analyze_write_executability,
}

-- The levels from full access down.
abbrev pub rank : AccessLevel → ℕ
rank full = 0
rank partial = 1
rank read_only = 2
rank no_access = 3

abbrev pub worse : AccessLevel → AccessLevel → AccessLevel
worse a b = if ltb (rank a) (rank b) then b else a

-- The worst level of the tables, and no access where there is none.
abbrev pub worst_from : AccessLevel → List TableAccessibility → AccessLevel
worst_from l [] = l
worst_from l (t ∷ ts) = worst_from (worse l t.table_access) ts

abbrev pub worst_access : List TableAccessibility → AccessLevel
worst_access [] = no_access
worst_access (t ∷ ts) = worst_from full (t ∷ ts)

abbrev pub all_readable : List TableAccessibility → Bool
all_readable [] = true
all_readable (t ∷ ts) = t.table_readable && all_readable ts

abbrev pub all_writable : List TableAccessibility → Bool
all_writable [] = true
all_writable (t ∷ ts) = t.table_writable && all_writable ts

abbrev pub nonempty : List TableAccessibility → Bool
nonempty [] = false
nonempty (t ∷ ts) = true

-- What the analysis of a table guarantees.
pub record IsSound (t : TableAccessibility) : Type 0 where
  pub reads : t.table_readable ≡ not (is_none t.table_access)
  pub writes :
      t.table_writable ≡ true → (is_none t.table_access || is_read_only t.table_access) ≡ false

worst_from-none : (ts : List TableAccessibility) → worst_from no_access ts ≡ no_access
worst_from-none [] = refl
worst_from-none (t ∷ ts) =
    ap (λ (l : AccessLevel). worst_from l ts) (go t.table_access) ∙ worst_from-none ts
  where
    go : (l : AccessLevel) → worse no_access l ≡ no_access
    go full = refl
    go read_only = refl
    go partial = refl
    go no_access = refl

query_level-worse :
    (table level : AccessLevel)
    → is_none table ≡ false
    → is_none level ≡ false
    → query_level table level ≡ worse level table
query_level-worse full full h k = refl
query_level-worse full read_only h k = refl
query_level-worse full partial h k = refl
query_level-worse read_only full h k = refl
query_level-worse read_only read_only h k = refl
query_level-worse read_only partial h k = refl
query_level-worse partial full h k = refl
query_level-worse partial read_only h k = refl
query_level-worse partial partial h k = refl
query_level-worse no_access level h k = absurd (ground arith)
query_level-worse table no_access h k = absurd (ground arith)

worse-none : (a b : AccessLevel) → is_none b ≡ true → worse a b ≡ no_access
worse-none full no_access h = refl
worse-none read_only no_access h = refl
worse-none partial no_access h = refl
worse-none no_access no_access h = refl
worse-none a full h = absurd (ground arith)
worse-none a read_only h = absurd (ground arith)
worse-none a partial h = absurd (ground arith)

abbrev allows_writes : AccessLevel → Bool
allows_writes l = not (is_none l || is_read_only l)

write_level-worse :
    (table level : AccessLevel)
    → allows_writes table ≡ true
    → allows_writes level ≡ true
    → (if is_partial table && not (is_none level) then partial else level) ≡ worse level table
write_level-worse full full h k = refl
write_level-worse full partial h k = refl
write_level-worse partial full h k = refl
write_level-worse partial partial h k = refl
write_level-worse read_only level h k = absurd (ground arith)
write_level-worse no_access level h k = absurd (ground arith)
write_level-worse table read_only h k = absurd (ground arith)
write_level-worse table no_access h k = absurd (ground arith)

worse_keeps :
    (P : AccessLevel → Bool) (a b : AccessLevel) → P a ≡ true → P b ≡ true → P (worse a b) ≡ true
worse_keeps P a b h k = elim (Bool-cases (ltb (rank a) (rank b))) [
  | inl e ↦ ap P (if-true _ _ _ e) ∙ k
  | inr e ↦ ap P (if-false _ _ _ e) ∙ h
]

abbrev reaches : AccessLevel → Bool
reaches l = not (is_none l)

-- The result of a loop: executable or not, and the level.
abbrev pub Gives : Executability → Bool → AccessLevel → Type 0
Gives e b l = (e.is_executable ≡ b) × (e.execution_level ≡ l)

query_tables-Gives :
    (ts : List TableAccessibility) (e : Executability)
    → All IsSound ts
    → e.is_executable ≡ true
    → reaches e.execution_level ≡ true
    → Gives (query_tables ts e) (all_readable ts) (worst_from e.execution_level ts)
unfolding query_tables
query_tables-Gives [] e s h k = (h, refl)
query_tables-Gives (t ∷ ts) e s h k = elim (Bool-cases (is_none t.table_access)) [
  | inl n ↦
      subst
        (λ (x : Executability).
          Gives x (all_readable (t ∷ ts)) (worst_from e.execution_level (t ∷ ts)))
        (sym (if-true _ _ _ n))
        (
          sym (ap (λ (b : Bool). b && all_readable ts) (s.0.reads ∙ ap not n)),
          sym (
              ap (λ (l : AccessLevel). worst_from l ts)
                (worse-none e.execution_level t.table_access n)
              ∙ worst_from-none ts),
        )
  | inr n ↦
      let level = query_level-worse t.table_access e.execution_level n (ground (arith, k)) in
      let (runs, at) =
        query_tables-Gives ts
          (record e {
            execution_level = query_level t.table_access e.execution_level;
            estimated_impact = raise_impact t.table_status e.estimated_impact;
          })
          s.1 h
          (ap reaches level ∙ worse_keeps reaches e.execution_level t.table_access k (ap not n)) in
      subst
        (λ (x : Executability).
          Gives x (all_readable (t ∷ ts)) (worst_from e.execution_level (t ∷ ts)))
        (sym (if-false _ _ _ n))
        (
          runs ∙ sym (ap (λ (b : Bool). b && all_readable ts) (s.0.reads ∙ ap not n)),
          at ∙ ap (λ (l : AccessLevel). worst_from l ts) level,
        )
]

write_tables-Gives :
    (ts : List TableAccessibility) (e : Executability)
    → All IsSound ts
    → e.is_executable ≡ true
    → allows_writes e.execution_level ≡ true
    → Gives
        (write_tables ts e)
        (all_writable ts)
        (if all_writable ts then worst_from e.execution_level ts else no_access)
unfolding write_tables
write_tables-Gives [] e s h k = (h, refl)
write_tables-Gives (t ∷ ts) e s h k = elim (Bool-cases t.table_writable) [
  | inl w ↦
      let open_access = s.0.writes w in
      let level = write_level-worse t.table_access e.execution_level (ap not open_access) k in
      let (runs, at) =
        write_tables-Gives ts
          (record e {
            execution_level =
                (if is_partial t.table_access && not (is_none e.execution_level)
                  then partial
                  else e.execution_level);
            estimated_impact = raise_impact t.table_status e.estimated_impact;
          })
          s.1 h
          (ap allows_writes level
            ∙ worse_keeps allows_writes e.execution_level t.table_access k (ap not open_access)) in
      subst
        (λ (x : Executability).
          Gives x (all_writable (t ∷ ts))
            (if all_writable (t ∷ ts) then worst_from e.execution_level (t ∷ ts) else no_access))
        (sym (
          if-false _ _ _ (ap not w)
          ∙ if-false (is_none t.table_access) _ _ (ground (arith, open_access))
          ∙ if-false (is_read_only t.table_access) _ _ (ground (arith, open_access))))
        (
          runs ∙ sym (ap (λ (b : Bool). b && all_writable ts) w),
          at
              ∙ ap (λ (l : AccessLevel). if all_writable ts then worst_from l ts else no_access)
                  level
              ∙ sym (
                  ap
                    (λ (b : Bool).
                      if b && all_writable ts
                      then worst_from (worse e.execution_level t.table_access) ts
                      else no_access)
                    w),
        )
  | inr w ↦
      subst
        (λ (x : Executability).
          Gives x (all_writable (t ∷ ts))
            (if all_writable (t ∷ ts) then worst_from e.execution_level (t ∷ ts) else no_access))
        (sym (if-true _ _ _ (ap not w)))
        (
          sym (ap (λ (b : Bool). b && all_writable ts) w),
          sym (if-false _ _ _ (ap (λ (b : Bool). b && all_writable ts) w)),
        )
]

-- What CheckTableHealth hands to the analysis of a table.
pub record TableFacts : Type 0 where
  pub id : ℕ
  pub state : Text
  pub partitions : List PartitionAccessibility
  pub healthy_count : ℕ
  pub total_count : ℕ

module _ {F : Type 0} (f : Floats F) (config : HealthCheckerConfig F) where
  abbrev pub analyze : TableFacts → TableAccessibility
  analyze t = analyze_table_health f config t.id t.state t.partitions t.healthy_count t.total_count

  analyze-IsSound : (t : TableFacts) → IsSound (analyze t)
  unfolding analyze_table_health
  analyze-IsSound t =
      let c = judge_table-IsCoherent f config t.partitions t.healthy_count t.total_count t.state in
      record { reads = c.reads; writes = c.writes }

  map-analyze-IsSound : (ts : List TableFacts) → All IsSound (map analyze ts)
  map-analyze-IsSound [] = tt
  map-analyze-IsSound (t ∷ ts) = (analyze-IsSound t, map-analyze-IsSound ts)

  pub analyzed_queries :
      (facts : List TableFacts)
      → let ts = map analyze facts in
        Gives (analyze_query_executability ts) (nonempty ts && all_readable ts) (worst_access ts)
  unfolding analyze_query_executability
  analyzed_queries [] = (refl, refl)
  analyzed_queries (t ∷ ts) =
      query_tables-Gives (map analyze (t ∷ ts)) executable (map-analyze-IsSound (t ∷ ts)) refl refl

  pub analyzed_writes :
      (facts : List TableFacts)
      → let ts = map analyze facts in
        Gives
          (analyze_write_executability ts)
          (nonempty ts && all_writable ts)
          (if nonempty ts && all_writable ts then worst_access ts else no_access)
  unfolding analyze_write_executability
  analyzed_writes [] = (refl, refl)
  analyzed_writes (t ∷ ts) =
      write_tables-Gives (map analyze (t ∷ ts)) executable (map-analyze-IsSound (t ∷ ts)) refl refl

  -- For tables as the analysis reports them, whatever it was given, a query is executable exactly
  -- when there is a table and all support reading, at the worst of the tables' access levels; and
  -- a write exactly when there is a table and all support writing, at the worst level too, and
  -- otherwise without access.
  pub analyzed_executability :
      (facts : List TableFacts)
      → let ts = map analyze facts in
        Gives (analyze_query_executability ts) (nonempty ts && all_readable ts) (worst_access ts)
        × Gives
            (analyze_write_executability ts)
            (nonempty ts && all_writable ts)
            (if nonempty ts && all_writable ts then worst_access ts else no_access)
  analyzed_executability facts = (analyzed_queries facts, analyzed_writes facts)
