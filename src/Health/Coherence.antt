-- ===== src/Health/Coherence.antt =====
-- checker.go: how the four results of an analysis fit together.
use staravail.Common.{
  ℕ, ◌≡◌, refl, sym, ap, ◌∙◌, arith, List, Text, true, false, not, ◌||◌, ltb, ◌==◌, if◌then◌else◌,
  if-both, if-true, if-false, Bool-cases, inl, inr,
}
use mathlib.Core.Path.{subst}
use staravail.Health.Analysis.{
  HealthStatus, unknown, healthy, degraded, unhealthy, AccessLevel, full, read_only, partial,
  no_access, Floats, HealthCheckerConfig, PartitionAccessibility, is_healthy, is_full, is_read_only,
  is_partial, is_none, Verdict, all_well, nothing_works, degrade, restrict, is_normal, check_state,
  judge_partition,
}
use staravail.Health.Tables.{
  count_access, check_inaccessible, check_read_only, check_partial, check_percentage, judge_table,
}

-- Healthy is full access, everything but no access can be read, and what can be written is neither
-- without access nor only to be read.
pub record IsCoherent (v : Verdict) : Type 0 where
  pub same : is_healthy v.status ≡ is_full v.access_level
  pub reads : v.read_supported ≡ not (is_none v.access_level)
  pub writes :
      v.write_supported ≡ true → (is_none v.access_level || is_read_only v.access_level) ≡ false
  pub full_writes : is_full v.access_level ≡ true → v.write_supported ≡ true

well-IsCoherent : IsCoherent all_well
well-IsCoherent = record { same = refl; reads = refl; writes = λ h. refl; full_writes = λ h. refl }

broken-IsCoherent : IsCoherent nothing_works
broken-IsCoherent = record {
  same = refl;
  reads = refl;
  writes = λ h. absurd (ground arith);
  full_writes = λ h. absurd (ground arith);
}

read_only-IsCoherent :
    IsCoherent
      (record all_well { status = degraded; access_level = read_only; write_supported = false })
read_only-IsCoherent = record {
  same = refl;
  reads = refl;
  writes = λ h. absurd (ground arith);
  full_writes = λ h. absurd (ground arith);
}

is_healthy-degrade : (s : HealthStatus) → is_healthy (degrade s) ≡ false
is_healthy-degrade unknown = refl
is_healthy-degrade healthy = refl
is_healthy-degrade degraded = refl
is_healthy-degrade unhealthy = refl

is_full-restrict : (l : AccessLevel) → is_full (restrict l) ≡ false
is_full-restrict full = refl
is_full-restrict read_only = refl
is_full-restrict partial = refl
is_full-restrict no_access = refl

is_none-restrict : (l : AccessLevel) → is_none (restrict l) ≡ is_none l
is_none-restrict full = refl
is_none-restrict read_only = refl
is_none-restrict partial = refl
is_none-restrict no_access = refl

is_read_only-restrict : (l : AccessLevel) → is_read_only (restrict l) ≡ is_read_only l
is_read_only-restrict full = refl
is_read_only-restrict read_only = refl
is_read_only-restrict partial = refl
is_read_only-restrict no_access = refl

is_full-none : (l : AccessLevel) → is_none l ≡ true → is_full l ≡ false
is_full-none full h = absurd (ground arith)
is_full-none read_only h = refl
is_full-none partial h = refl
is_full-none no_access h = refl

-- Access falls from full to partial, and the status with it.
restrict-IsCoherent :
    (v : Verdict)
    → IsCoherent v
    → IsCoherent (record v { status = degrade v.status; access_level = restrict v.access_level })
restrict-IsCoherent v c = record {
  same = is_healthy-degrade v.status ∙ sym (is_full-restrict v.access_level);
  reads = c.reads ∙ sym (ap not (is_none-restrict v.access_level));
  writes =
      λ h. rw (is_none-restrict v.access_level, is_read_only-restrict v.access_level) (c.writes h);
  full_writes = λ h. absurd (ground (arith, is_full-restrict v.access_level));
}

check_state-IsCoherent :
    (state : Text) (v : Verdict) → IsCoherent v → IsCoherent (check_state state v)
unfolding check_state
check_state-IsCoherent state v c =
    if-both IsCoherent (is_normal state) v _ c (restrict-IsCoherent v c)

-- Partial access, where nothing was lost before.
partial-IsCoherent :
    (v : Verdict)
    → IsCoherent v
    → is_none v.access_level ≡ false
    → (s : HealthStatus) → is_healthy s ≡ false
    → IsCoherent (record v { status = s; access_level = partial })
partial-IsCoherent v c h s k = record {
  same = k;
  reads = c.reads ∙ ap not h;
  writes = λ w. refl;
  full_writes = λ w. absurd (ground arith);
}

-- Only to be read, unless there is no access.
limited-IsCoherent :
    (v : Verdict)
    → IsCoherent v
    → IsCoherent (
        if is_none v.access_level then record v { status = degrade v.status } else record v {
          status = degrade v.status;
          access_level = read_only;
          write_supported = false;
        })
limited-IsCoherent v c = elim (Bool-cases (is_none v.access_level)) [
  | inl e ↦ subst IsCoherent (sym (if-true _ _ _ e)) (record {
    same = is_healthy-degrade v.status ∙ sym (is_full-none v.access_level e);
    reads = c.reads;
    writes = c.writes;
    full_writes = c.full_writes;
  })
  | inr e ↦ subst IsCoherent (sym (if-false _ _ _ e)) (record {
    same = is_healthy-degrade v.status;
    reads = c.reads ∙ ap not e;
    writes = λ h. absurd (ground arith);
    full_writes = λ h. absurd (ground arith);
  })
]

low-IsCoherent :
    (v : Verdict)
    → IsCoherent v
    → IsCoherent (record v {
      status = unhealthy;
      access_level = (if is_none v.access_level then v.access_level else partial);
    })
low-IsCoherent v c = elim (Bool-cases (is_none v.access_level)) [
  | inl e ↦
      subst (λ (l : AccessLevel). IsCoherent (record v { status = unhealthy; access_level = l }))
        (sym (if-true _ _ _ e))
        (record {
          same = sym (is_full-none v.access_level e);
          reads = c.reads;
          writes = c.writes;
          full_writes = c.full_writes;
        })
  | inr e ↦
      subst (λ (l : AccessLevel). IsCoherent (record v { status = unhealthy; access_level = l }))
        (sym (if-false _ _ _ e)) (partial-IsCoherent v c e unhealthy refl)
]

check_inaccessible-IsCoherent :
    (ps : List PartitionAccessibility) (total : ℕ)
    → IsCoherent (check_inaccessible ps total all_well)
unfolding check_inaccessible
check_inaccessible-IsCoherent ps total = if-both IsCoherent _ _ _ broken-IsCoherent (
    if-both IsCoherent _ _ _ (partial-IsCoherent all_well well-IsCoherent refl degraded refl)
      well-IsCoherent)

check_read_only-IsCoherent :
    (ps : List PartitionAccessibility) (v : Verdict)
    → IsCoherent v
    → IsCoherent (check_read_only ps v)
unfolding check_read_only
check_read_only-IsCoherent ps v c =
    if-both IsCoherent (ltb 0 (count_access is_read_only ps)) _ v (limited-IsCoherent v c) c

check_partial-IsCoherent :
    (ps : List PartitionAccessibility) (v : Verdict)
    → IsCoherent v
    → IsCoherent (check_partial ps v)
unfolding check_partial
check_partial-IsCoherent ps v c =
    if-both IsCoherent (ltb 0 (count_access is_partial ps)) _ v (restrict-IsCoherent v c) c

module _ {F : Type 0} (f : Floats F) (config : HealthCheckerConfig F) where
  check_percentage-IsCoherent :
      (n total : ℕ) (v : Verdict) → IsCoherent v → IsCoherent (check_percentage f config n total v)
  unfolding check_percentage
  check_percentage-IsCoherent n total v c =
      if-both IsCoherent _ _ _ (low-IsCoherent v c)
        (if-both IsCoherent _ _ v (restrict-IsCoherent v c) c)

  pub judge_table-IsCoherent :
      (ps : List PartitionAccessibility) (n total : ℕ) (state : Text)
      → IsCoherent (check_state state (judge_table f config ps n total))
  unfolding judge_table
  judge_table-IsCoherent ps n total state = check_state-IsCoherent state _ (
      if-both IsCoherent (total == 0) _ _ broken-IsCoherent (
        check_percentage-IsCoherent n total _ (
          check_partial-IsCoherent ps _
            (check_read_only-IsCoherent ps _ (check_inaccessible-IsCoherent ps total)))))

  pub judge_partition-IsCoherent :
      (tablets total replicas all : ℕ) (state : Text)
      → IsCoherent (check_state state (judge_partition f config tablets total replicas all))
  unfolding judge_partition
  judge_partition-IsCoherent tablets total replicas all state = check_state-IsCoherent state _ (
      if-both IsCoherent (total == 0) _ _ broken-IsCoherent (
        if-both IsCoherent _ _ _ broken-IsCoherent
          (if-both IsCoherent _ _ _ read_only-IsCoherent well-IsCoherent)))
