-- ===== src/Batch/Strategy/Created.antt =====
-- strategy.go: what the strategies that the factory makes decide.
use staravail.Common.{ℕ, ◌<◌, ◌≡◌, refl, sym, arith, List, [], ◌∷◌, length, Option, some}
use staravail.Common.{Bool, not, Bool-cases, inl, inr, if-true, if-false}
use mathlib.Core.Path.{subst}
use staravail.Batch.Strategy.{
  Floats, BatchInfo, Strategy, same_lengths, new_hybrid_strategy, new_adaptive_strategy,
}
use staravail.Batch.Strategy.Factory.{
  Settings, StrategyType, time_interval_type, batch_size_type, batch_count_type, hybrid_type,
  adaptive_type, unknown_type, StrategyConfig, strategy_config, StrategyConfigs, no_configs,
  and_config, Underlying, nil, to_config, Created, created, refused, ConfigError, failed_underlying,
  no_underlying_strategy, different_lengths, ◌>>=◌, wrap_error, or_different, with_default_list,
  default_thresholds, default_factors, default_delay_factors, adapt_strategy,
  create_time_interval_strategy, create_batch_size_strategy, create_batch_count_strategy,
  create_strategy, create_hybrid_strategy, create_strategies, create_underlying,
}
use staravail.Batch.Strategy.Decisions.{Adapts, AllAdapt, decisions, wanted, Adapts-decisions}

-- What holds of the value, when there is one.
abbrev Good : {A : Type 0} → (A → Type 0) → Created A → Type 0
Good P (created a) = P a
Good P (refused e) = Unit

bind-Good :
    {A B : Type 0} (P : A → Type 0) (Q : B → Type 0) (m : Created A) (k : A → Created B)
    → Good P m
    → ((a : A) → P a → Good Q (k a))
    → Good Q (m >>= k)
bind-Good P Q (created a) k h g = g a h
bind-Good P Q (refused e) k h g = tt

wrap_error-Good : {A : Type 0} (P : A → Type 0) (m : Created A) → Good P m → Good P (wrap_error m)
wrap_error-Good P (created a) h = h
wrap_error-Good P (refused e) h = tt

default-pos :
    {F : Type 0} (default fs : List F)
    → 0 < length default
    → 0 < length (with_default_list default fs)
default-pos default [] h = h
default-pos default (x ∷ fs) h = omega arith

adapt_strategy-Good :
    {F : Type 0} (f : Floats F) (now : ℕ) (c : Settings F) (s : Strategy F)
    → Adapts s
    → Good Adapts (adapt_strategy f now c s)
unfolding adapt_strategy new_adaptive_strategy Adapts
adapt_strategy-Good {F} f now c s h =
    let loads = with_default_list (default_thresholds f) c.load_thresholds in
    let sizes = with_default_list (default_factors f) c.size_factors in
    let counts = with_default_list (default_factors f) c.count_factors in
    let delays = with_default_list (default_delay_factors f) c.delay_factors in
    elim (Bool-cases (not (same_lengths loads sizes counts delays))) [
      | inl e ↦
          subst (λ (o : Option (Strategy F)). Good Adapts (or_different o)) (sym (if-true _ _ _ e))
            tt
      | inr e ↦
          subst (λ (o : Option (Strategy F)). Good Adapts (or_different o)) (sym (if-false _ _ _ e))
            (
              record {
                sizes = default-pos (default_factors f) c.size_factors (omega arith);
                counts = default-pos (default_factors f) c.count_factors (omega arith);
                delays = default-pos (default_delay_factors f) c.delay_factors (omega arith);
              },
              h,
            )
    ]

-- The strategies of a configuration, whatever its type is.
create_by_type :
    {F : Type 0} (f : Floats F) (now : ℕ) (c : Settings F) (cs : StrategyConfigs F)
    (u : Underlying F)
    → (t : StrategyType) → c.strategy_type ≡ t
    → Good Adapts (create_hybrid_strategy f now c.require_all cs)
    → Good Adapts (create_underlying f now u)
    → Good Adapts (create_strategy f now (strategy_config c cs u))
unfolding create_strategy Adapts create_time_interval_strategy create_batch_size_strategy
    create_batch_count_strategy adapt_strategy
create_by_type f now c cs u time_interval_type e h g = rw (e) tt
create_by_type f now c cs u batch_size_type e h g = rw (e) tt
create_by_type f now c cs u batch_count_type e h g = rw (e) tt
create_by_type f now c cs u hybrid_type e h g = rw (e) h
create_by_type f now c cs u adaptive_type e h g = rw e (
    bind-Good Adapts Adapts (create_underlying f now u) (adapt_strategy f now c) g
      (adapt_strategy-Good f now c))
create_by_type f now c cs u unknown_type e h g = rw (e) tt

mutual
  unfolding create_strategy Adapts new_hybrid_strategy

  create-Good :
      {F : Type 0} (f : Floats F) (now : ℕ) (c : StrategyConfig F)
      → Good Adapts (create_strategy f now c)
  create-Good f now (strategy_config c cs u) =
      create_by_type f now c cs u c.strategy_type refl (create_hybrid-Good f now c.require_all cs)
        (create_underlying-Good f now u)

  create_hybrid-Good :
      {F : Type 0} (f : Floats F) (now : ℕ) (require_all : Bool) (cs : StrategyConfigs F)
      → Good Adapts (create_hybrid_strategy f now require_all cs)
  create_hybrid-Good f now require_all no_configs = tt
  create_hybrid-Good f now require_all (and_config c cs) =
      bind-Good Adapts Adapts _ _
        (wrap_error-Good Adapts (create_strategy f now c) (create-Good f now c))
        (λ s k.
          bind-Good AllAdapt Adapts (create_strategies f now cs) _ (create_all-Good f now cs)
            (λ ss k2. (k, k2)))

  create_all-Good :
      {F : Type 0} (f : Floats F) (now : ℕ) (cs : StrategyConfigs F)
      → Good AllAdapt (create_strategies f now cs)
  create_all-Good f now no_configs = tt
  create_all-Good f now (and_config c cs) =
      bind-Good Adapts AllAdapt _ _
        (wrap_error-Good Adapts (create_strategy f now c) (create-Good f now c))
        (λ s k.
          bind-Good AllAdapt AllAdapt (create_strategies f now cs) _ (create_all-Good f now cs)
            (λ ss k2. (k, k2)))

  create_underlying-Good :
      {F : Type 0} (f : Floats F) (now : ℕ) (u : Underlying F)
      → Good Adapts (create_underlying f now u)
  create_underlying-Good f now nil = tt
  create_underlying-Good f now (to_config c) =
      wrap_error-Good Adapts (create_strategy f now c) (create-Good f now c)

-- A strategy that the factory makes never panics, and its decisions on any sequence of times and
-- batches, adaptations in between included, are those of the pure reading of the strategy, in
-- which a hybrid is the conjunction or the disjunction of its parts and an adaptive strategy is
-- its underlying one.
pub create_strategy-decisions :
    {F : Type 0} (f : Floats F) (now : ℕ) (c : StrategyConfig F) (s : Strategy F)
    (qs : List (ℕ × BatchInfo F))
    → create_strategy f now c ≡ created s
    → decisions f qs s ≡ some (wanted qs s)
create_strategy-decisions f now c s qs h =
    Adapts-decisions f qs s (subst (Good Adapts) h (create-Good f now c))

-- Neither thresholds nor factors of its own.
pub record IsPlain {F : Type 0} (c : Settings F) : Type 0 where
  pub is_adaptive : c.strategy_type ≡ adaptive_type
  pub no_thresholds : c.load_thresholds ≡ []
  pub no_size_factors : c.size_factors ≡ []

wrap_then :
    {F : Type 0} (m : Created (Strategy F)) (k : Strategy F → Created (Strategy F))
    → ((s : Strategy F) → k s ≡ refused different_lengths)
    → (e : ConfigError) × (wrap_error m >>= k ≡ refused e)
wrap_then (created s) k h = (different_lengths, h s)
wrap_then (refused e) k h = (failed_underlying e, refl)

adapt_strategy-refused :
    {F : Type 0} (f : Floats F) (now : ℕ) (c : Settings F) (s : Strategy F)
    → IsPlain c
    → adapt_strategy f now c s ≡ refused different_lengths
unfolding adapt_strategy new_adaptive_strategy
adapt_strategy-refused f now c s h = rw (h.no_thresholds, h.no_size_factors)

-- The factory refuses with an error every configuration of an adaptive strategy that gives neither
-- load thresholds nor size factors of its own: the default lists have different lengths.
pub plain_adaptive_refused :
    {F : Type 0} (f : Floats F) (now : ℕ) (c : Settings F) (cs : StrategyConfigs F)
    (u : Underlying F)
    → IsPlain c
    → (e : ConfigError) × (create_strategy f now (strategy_config c cs u) ≡ refused e)
unfolding create_strategy adapt_strategy
plain_adaptive_refused f now c cs nil h = (no_underlying_strategy, rw h.is_adaptive)
plain_adaptive_refused f now c cs (to_config d) h = rw h.is_adaptive (
    wrap_then (create_strategy f now d) (adapt_strategy f now c)
      (λ s. adapt_strategy-refused f now c s h))
