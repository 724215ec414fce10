-- ===== src/Batch/Strategy/Factory.antt =====
-- strategy.go: `BatchStrategyFactory`, which makes strategies from configurations. A limit of 0
-- stands for any that is not positive, which a default replaces.
use staravail.Common.{ℕ, ◌*◌, List, [], ◌∷◌, Option, none, some, Bool}
use staravail.Batch.Aggregator.{with_default}
use staravail.Batch.Strategy.{
  Floats, Strategy, Strategies, none_left, then_also, new_time_interval_strategy,
  new_batch_size_strategy, new_batch_count_strategy, new_hybrid_strategy, new_adaptive_strategy,
}

pub data StrategyType : Type 0 where
  time_interval_type batch_size_type batch_count_type hybrid_type adaptive_type unknown_type :
      StrategyType

-- `BatchStrategyConfig` without the two fields that hold configurations, and without
-- `AdaptationEnabled`, which the factory does not read.
pub record Settings (F : Type 0) : Type 0 where
  pub strategy_type : StrategyType
  pub max_batch_size : ℕ
  pub min_batch_size : ℕ
  pub max_batch_count : ℕ
  pub min_batch_count : ℕ
  pub max_batch_delay_ms : ℕ
  pub min_batch_delay_ms : ℕ
  pub require_all : Bool
  pub load_thresholds : List F
  pub size_factors : List F
  pub count_factors : List F
  pub delay_factors : List F
  pub adapt_interval_ms : ℕ

mutual
  pub data StrategyConfig (F : Type 0) : Type 0 where
    strategy_config : Settings F → StrategyConfigs F → Underlying F → StrategyConfig F

  pub data StrategyConfigs (F : Type 0) : Type 0 where
    no_configs : StrategyConfigs F
    and_config : StrategyConfig F → StrategyConfigs F → StrategyConfigs F

  -- The pointer `UnderlyingStrategy`, which can be nil.
  pub data Underlying (F : Type 0) : Type 0 where
    nil : Underlying F
    to_config : StrategyConfig F → Underlying F

pub data ConfigError : Type 0 where
  unknown_strategy_type no_strategies no_underlying_strategy different_lengths : ConfigError
  failed_underlying : ConfigError → ConfigError

pub data Created (A : Type 0) : Type 0 where
  created : A → Created A
  refused : ConfigError → Created A

infixl 5 ◌>>=◌
abbrev pub ◌>>=◌ : {A B : Type 0} → Created A → (A → Created B) → Created B
created a >>= k = k a
refused e >>= k = refused e

-- `errors.Wrap(err, "failed to create underlying strategy")`.
abbrev pub wrap_error : {A : Type 0} → Created A → Created A
wrap_error (created a) = created a
wrap_error (refused e) = refused (failed_underlying e)

abbrev pub with_default_list : {F : Type 0} → List F → List F → List F
with_default_list default [] = default
with_default_list default (x ∷ xs) = x ∷ xs

abbrev pub millisecond : ℕ
millisecond = 1000000

unfoldable pub create_time_interval_strategy : {F : Type 0} → Settings F → Strategy F
create_time_interval_strategy c =
    new_time_interval_strategy (with_default 10000 c.max_batch_delay_ms * millisecond)
      (with_default 1000 c.min_batch_delay_ms * millisecond)

unfoldable pub create_batch_size_strategy : {F : Type 0} → Settings F → Strategy F
create_batch_size_strategy c =
    new_batch_size_strategy (with_default 10485760 c.max_batch_size)
      (with_default 1048576 c.min_batch_size)

unfoldable pub create_batch_count_strategy : {F : Type 0} → Settings F → Strategy F
create_batch_count_strategy c =
    new_batch_count_strategy (with_default 1000 c.max_batch_count)
      (with_default 100 c.min_batch_count)

-- The lists of `DefaultAdaptiveStrategyConfig`.
abbrev pub default_thresholds : {F : Type 0} → Floats F → List F
default_thresholds f = f.tenths 3 ∷ f.tenths 6 ∷ f.tenths 8 ∷ []

abbrev pub default_factors : {F : Type 0} → Floats F → List F
default_factors f = f.tenths 10 ∷ f.tenths 8 ∷ f.tenths 5 ∷ f.tenths 3 ∷ []

abbrev pub default_delay_factors : {F : Type 0} → Floats F → List F
default_delay_factors f = f.tenths 10 ∷ f.tenths 12 ∷ f.tenths 15 ∷ f.tenths 20 ∷ []

abbrev pub or_different : {A : Type 0} → Option A → Created A
or_different none = refused different_lengths
or_different (some a) = created a

unfoldable pub adapt_strategy :
    {F : Type 0} → Floats F → ℕ → Settings F → Strategy F → Created (Strategy F)
unfolding new_adaptive_strategy
adapt_strategy f now c s = or_different (
    new_adaptive_strategy now s (with_default_list (default_thresholds f) c.load_thresholds)
      (with_default_list (default_factors f) c.size_factors)
      (with_default_list (default_factors f) c.count_factors)
      (with_default_list (default_delay_factors f) c.delay_factors)
      (with_default 30000 c.adapt_interval_ms * millisecond))

unfoldable mutual
  pub create_strategy : {F : Type 0} → Floats F → ℕ → StrategyConfig F → Created (Strategy F)
  create_strategy f now (strategy_config c cs u) =
      let inner = create_hybrid_strategy f now c.require_all cs in
      let under = create_underlying f now u in
      elim c.strategy_type [
        | time_interval_type ↦ created (create_time_interval_strategy c)
        | batch_size_type ↦ created (create_batch_size_strategy c)
        | batch_count_type ↦ created (create_batch_count_strategy c)
        | hybrid_type ↦ inner
        | adaptive_type ↦ under >>= adapt_strategy f now c
        | unknown_type ↦ refused unknown_strategy_type
      ]

  pub create_hybrid_strategy :
      {F : Type 0} → Floats F → ℕ → Bool → StrategyConfigs F → Created (Strategy F)
  create_hybrid_strategy f now require_all no_configs = refused no_strategies
  create_hybrid_strategy f now require_all (and_config c cs) =
      let first = create_strategy f now c in
      let rest = create_strategies f now cs in
      wrap_error first >>= λ s.
      rest >>= λ ss. created (new_hybrid_strategy (then_also s ss) require_all)

  pub create_strategies : {F : Type 0} → Floats F → ℕ → StrategyConfigs F → Created (Strategies F)
  create_strategies f now no_configs = created none_left
  create_strategies f now (and_config c cs) =
      let first = create_strategy f now c in
      let rest = create_strategies f now cs in
      wrap_error first >>= λ s. rest >>= λ ss. created (then_also s ss)

  pub create_underlying : {F : Type 0} → Floats F → ℕ → Underlying F → Created (Strategy F)
  create_underlying f now nil = refused no_underlying_strategy
  create_underlying f now (to_config c) = let s = create_strategy f now c in wrap_error s
