-- ===== src/Batch/Strategy/Decisions.antt =====
-- strategy.go: what a strategy decides, as a function of the batch and the time alone.
use staravail.Common.{
  ℕ, ◌-◌, ◌<◌, ◌≡◌, refl, ap, ◌∙◌, arith, List, [], ◌∷◌, length, get_elem?, Option, some, zero, suc,
}
use staravail.Common.{
  Bool, true, false, not, ◌&&◌, ◌||◌, ltb, ◌==◌, if◌then◌else◌, Bool-cases, inl, inr, if-true,
  if-false,
}
use staravail.Common.Options.{◌>>=◌}
use staravail.Batch.Strategy.{
  Floats, BatchInfo, BaseStrategy, Adaptation, Strategy, time_interval, batch_size, batch_count,
  hybrid, adaptive, Strategies, none_left, then_also, time_decides, size_decides, count_decides,
  load_level, factor_at, adapt_if_needed, should_create_batch, ask_strategies,
}

-- An adaptive strategy is its underlying one, and a hybrid the conjunction or the disjunction.
unfoldable mutual
  pub wants : {F : Type 0} → ℕ → BatchInfo F → Strategy F → Bool
  wants now i (time_interval b low) = time_decides b low now i
  wants now i (batch_size b low) = size_decides b low now i
  wants now i (batch_count b low) = count_decides b low now i
  wants now i (hybrid b ss require_all) =
      not (i.current_count == 0) && (if require_all then all_want now i ss else any_wants now i ss)
  wants now i (adaptive b a s) = not (i.current_count == 0) && wants now i s

  pub all_want : {F : Type 0} → ℕ → BatchInfo F → Strategies F → Bool
  all_want now i none_left = true
  all_want now i (then_also s ss) = wants now i s && all_want now i ss

  pub any_wants : {F : Type 0} → ℕ → BatchInfo F → Strategies F → Bool
  any_wants now i none_left = false
  any_wants now i (then_also s ss) = wants now i s || any_wants now i ss

-- Every adaptive strategy has factors of each kind.
pub record HasFactors {F : Type 0} (a : Adaptation F) : Type 0 where
  pub sizes : 0 < length a.size_factors
  pub counts : 0 < length a.count_factors
  pub delays : 0 < length a.delay_factors

unfoldable mutual
  pub Adapts : {F : Type 0} → Strategy F → Type 0
  Adapts (time_interval b low) = Unit
  Adapts (batch_size b low) = Unit
  Adapts (batch_count b low) = Unit
  Adapts (hybrid b ss require_all) = AllAdapt ss
  Adapts (adaptive b a s) = HasFactors a × Adapts s

  pub AllAdapt : {F : Type 0} → Strategies F → Type 0
  AllAdapt none_left = Unit
  AllAdapt (then_also s ss) = Adapts s × AllAdapt ss

get-some : {F : Type 0} (fs : List F) (n : ℕ) → n < length fs → (x : F) × (get_elem? fs n ≡ some x)
get-some [] n h = absurd (omega (arith, h))
get-some (x ∷ fs) zero h = (x, refl)
get-some (x ∷ fs) (suc n) h = get-some fs n (omega (arith, h))

factor_at-some :
    {F : Type 0} (level : ℕ) (fs : List F) → 0 < length fs → (x : F) × (factor_at level fs ≡ some x)
factor_at-some level fs h = elim (Bool-cases (ltb level (length fs))) [
  | inl e ↦ let (x, g) = get-some fs level (ground arith) in (x, if-true _ _ _ e ∙ g)
  | inr e ↦ let (x, g) = get-some fs (length fs - 1) (omega arith) in (x, if-false _ _ _ e ∙ g)
]

adapt-some :
    {F : Type 0} (f : Floats F) (now : ℕ) (i : BatchInfo F) (b : BaseStrategy) (a : Adaptation F)
    → HasFactors a
    → (r : BaseStrategy × Adaptation F) × (adapt_if_needed f now i (b, a) ≡ some r) × HasFactors r.1
unfolding adapt_if_needed
adapt-some f now i b a h = elim (Bool-cases (not a.adaptation_enabled)) [
  | inl off ↦ ((b, a), if-true _ _ _ off, h)
  | inr on ↦ elim (Bool-cases (ltb (now - a.last_adapt_time) a.adapt_interval)) [
    | inl early ↦ ((b, a), if-false _ _ _ on ∙ if-true _ _ _ early, h)
    | inr due ↦
        let level = load_level f i.cpu_utilization a.load_thresholds in
        let (size, e) = factor_at-some level a.size_factors h.sizes in
        let (count, e2) = factor_at-some level a.count_factors h.counts in
        let (delay, e3) = factor_at-some level a.delay_factors h.delays in
        (
          (
            record {
              max_batch_size = f.scale a.base_max_batch_size size;
              max_batch_count = f.scale a.base_max_batch_count count;
              max_batch_delay = f.scale a.base_max_batch_delay delay;
            },
            record a { last_adapt_time = now },
          ),
          if-false _ _ _ on ∙ if-false _ _ _ due ∙ rw (e, e2, e3),
          record { sizes = h.sizes; counts = h.counts; delays = h.delays },
        )
  ]
]

-- The decision, and the strategy behind it, which decides as before.
pub record Decides {F : Type 0} (f : Floats F) (now : ℕ) (i : BatchInfo F) (s : Strategy F)
    : Type 0 where
  pub after : Strategy F
  pub answer : should_create_batch f now i s ≡ some (after, wants now i s)
  pub adapts : Adapts after
  pub same : (later : ℕ) (j : BatchInfo F) → wants later j after ≡ wants later j s

record Asks {F : Type 0} (f : Floats F) (now : ℕ) (i : BatchInfo F) (require_all : Bool)
    (ss : Strategies F) : Type 0 where
  after : Strategies F
  answer :
      ask_strategies f now i require_all ss
      ≡ some (after, if require_all then all_want now i ss else any_wants now i ss)
  adapt : AllAdapt after
  same_all : (later : ℕ) (j : BatchInfo F) → all_want later j after ≡ all_want later j ss
  same_any : (later : ℕ) (j : BatchInfo F) → any_wants later j after ≡ any_wants later j ss

hybrid-Decides :
    {F : Type 0} (f : Floats F) (now : ℕ) (i : BatchInfo F) (b : BaseStrategy) (ss : Strategies F)
    (require_all : Bool)
    → AllAdapt ss
    → Asks f now i require_all ss
    → Decides f now i (hybrid b ss require_all)
unfolding should_create_batch wants Adapts
hybrid-Decides {F} f now i b ss require_all h r = elim (Bool-cases (i.current_count == 0)) [
  | inl e ↦ record {
    after = hybrid b ss require_all;
    answer = rw e;
    adapts = h;
    same = λ later j. refl;
  }
  | inr e ↦ record {
    after = hybrid b r.after require_all;
    answer = rw (e, r.answer);
    adapts = r.adapt;
    same = λ later j. rw (r.same_all later j, r.same_any later j);
  }
]

adaptive-Decides :
    {F : Type 0} (f : Floats F) (now : ℕ) (i : BatchInfo F) (b : BaseStrategy) (a : Adaptation F)
    (s : Strategy F)
    → HasFactors a
    → Adapts s
    → Decides f now i s
    → Decides f now i (adaptive b a s)
unfolding should_create_batch wants Adapts
adaptive-Decides f now i b a s h k d = elim (Bool-cases (i.current_count == 0)) [
  | inl e ↦ record {
    after = adaptive b a s;
    answer = rw e;
    adapts = (h, k);
    same = λ later j. refl;
  }
  | inr e ↦
      let (ba, g, k2) = adapt-some f now i b a h in
      record {
        after = adaptive ba.0 ba.1 d.after;
        answer = rw (e, g, d.answer);
        adapts = (k2, d.adapts);
        same = λ later j. ap (λ (x : Bool). not (j.current_count == 0) && x) (d.same later j);
      }
]

none_left_answer :
    {F : Type 0} (f : Floats F) (now : ℕ) (i : BatchInfo F) (require_all : Bool)
    → ask_strategies f now i require_all none_left
      ≡ some
          (none_left, if require_all then all_want now i none_left else any_wants now i none_left)
unfolding should_create_batch wants
none_left_answer f now i true = refl
none_left_answer f now i false = refl

then_also-Asks :
    {F : Type 0} (f : Floats F) (now : ℕ) (i : BatchInfo F) (require_all : Bool) (s : Strategy F)
    (ss : Strategies F)
    → AllAdapt ss
    → Decides f now i s
    → Asks f now i require_all ss
    → Asks f now i require_all (then_also s ss)
unfolding should_create_batch wants Adapts
then_also-Asks f now i true s ss h d r = elim (Bool-cases (wants now i s)) [
  | inl e ↦ record {
    after = then_also d.after r.after;
    answer = rw (d.answer, e, r.answer);
    adapt = (d.adapts, r.adapt);
    same_all = λ later j. rw (d.same later j, r.same_all later j);
    same_any = λ later j. rw (d.same later j, r.same_any later j);
  }
  | inr e ↦ record {
    after = then_also d.after ss;
    answer = rw (d.answer, e);
    adapt = (d.adapts, h);
    same_all = λ later j. rw (d.same later j);
    same_any = λ later j. rw (d.same later j);
  }
]
then_also-Asks f now i false s ss h d r = elim (Bool-cases (wants now i s)) [
  | inl e ↦ record {
    after = then_also d.after ss;
    answer = rw (d.answer, e);
    adapt = (d.adapts, h);
    same_all = λ later j. rw (d.same later j);
    same_any = λ later j. rw (d.same later j);
  }
  | inr e ↦ record {
    after = then_also d.after r.after;
    answer = rw (d.answer, e, r.answer);
    adapt = (d.adapts, r.adapt);
    same_all = λ later j. rw (d.same later j, r.same_all later j);
    same_any = λ later j. rw (d.same later j, r.same_any later j);
  }
]

mutual
  unfolding should_create_batch wants Adapts

  decide-Decides :
      {F : Type 0} (f : Floats F) (now : ℕ) (i : BatchInfo F) (s : Strategy F)
      → Adapts s
      → Decides f now i s
  decide-Decides f now i (time_interval b low) h = record {
    after = time_interval b low;
    answer = refl;
    adapts = h;
    same = λ later j. refl;
  }
  decide-Decides f now i (batch_size b low) h = record {
    after = batch_size b low;
    answer = refl;
    adapts = h;
    same = λ later j. refl;
  }
  decide-Decides f now i (batch_count b low) h = record {
    after = batch_count b low;
    answer = refl;
    adapts = h;
    same = λ later j. refl;
  }
  decide-Decides f now i (hybrid b ss require_all) h =
      hybrid-Decides f now i b ss require_all h (ask-Asks f now i require_all ss h)
  decide-Decides f now i (adaptive b a s) h =
      adaptive-Decides f now i b a s h.0 h.1 (decide-Decides f now i s h.1)

  ask-Asks :
      {F : Type 0} (f : Floats F) (now : ℕ) (i : BatchInfo F) (require_all : Bool)
      (ss : Strategies F)
      → AllAdapt ss
      → Asks f now i require_all ss
  ask-Asks f now i require_all none_left h = record {
    after = none_left;
    answer = none_left_answer f now i require_all;
    adapt = h;
    same_all = λ later j. refl;
    same_any = λ later j. refl;
  }
  ask-Asks f now i require_all (then_also s ss) h =
      then_also-Asks f now i require_all s ss h.1 (decide-Decides f now i s h.0)
        (ask-Asks f now i require_all ss h.1)

-- The decisions of a strategy, one behind the other; `none` when one panics.
unfoldable pub decisions :
    {F : Type 0} → Floats F → List (ℕ × BatchInfo F) → Strategy F → Option (List Bool)
decisions f [] s = some []
decisions f ((now, i) ∷ qs) s =
    should_create_batch f now i s >>= λ r. (decisions f qs r.0 >>= λ bs. some (r.1 ∷ bs))

unfoldable pub wanted : {F : Type 0} → List (ℕ × BatchInfo F) → Strategy F → List Bool
wanted [] s = []
wanted ((now, i) ∷ qs) s = wants now i s ∷ wanted qs s

wanted-same :
    {F : Type 0} (qs : List (ℕ × BatchInfo F)) (s t : Strategy F)
    → ((now : ℕ) (i : BatchInfo F) → wants now i s ≡ wants now i t)
    → wanted qs s ≡ wanted qs t
unfolding wanted
wanted-same [] s t h = refl
wanted-same ((now, i) ∷ qs) s t h = rw (h now i, wanted-same qs s t h)

pub Adapts-decisions :
    {F : Type 0} (f : Floats F) (qs : List (ℕ × BatchInfo F)) (s : Strategy F)
    → Adapts s
    → decisions f qs s ≡ some (wanted qs s)
unfolding decisions wanted
Adapts-decisions f [] s h = refl
Adapts-decisions f ((now, i) ∷ qs) s h =
    let d = decide-Decides f now i s h in
    rw (d.answer, Adapts-decisions f qs d.after d.adapts, wanted-same qs d.after s d.same)
