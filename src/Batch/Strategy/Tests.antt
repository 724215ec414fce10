-- ===== src/Batch/Strategy/Tests.antt =====
-- Strategies that the factory makes, on concrete batches, with numbers in tenths for the floats.
use staravail.Common.{Bool, ℕ, ◌*◌, ◌/◌, ◌≡◌, refl, arith, [], ◌∷◌, some, true, false, leb}
use staravail.Batch.Strategy.{
  Floats, BatchInfo, Strategy, none_left, new_hybrid_strategy, new_adaptive_strategy,
  should_create_batch, adapt_if_needed, size_decides, count_decides, load_level,
}
use staravail.Common.{none, Option}
use staravail.Batch.Strategy.Evaluator.{
  StrategyEvaluator, new_strategy_evaluator, new_message_rate_calculator, evaluate_message,
  add_time, recent_messages, count_recent, get_batch_info, evaluate,
}
use staravail.Batch.Strategy.Manager.{
  new_batch_strategy_manager, get_strategy, find_strategy, put_strategy,
}
use staravail.Batch.Strategy.Factory.{
  StrategyType, hybrid_type, batch_size_type, batch_count_type, adaptive_type, Settings,
  StrategyConfig, strategy_config, no_configs, and_config, nil, to_config, Created, created,
  refused, ConfigError, create_strategy, adapt_strategy, create_batch_size_strategy,
  create_batch_count_strategy,
}
use staravail.Batch.Aggregator.{with_default}
use staravail.Batch.Strategy.Decisions.{decisions, wanted}
use staravail.Batch.Strategy.Created.{create_strategy-decisions, plain_adaptive_refused}
use staravail.Batch.Strategy.Growth.{decisions_grow}

abbrev tenths_only : Floats ℕ
tenths_only = record { at_most = λ t x. leb t x; scale = λ n x. n * x / 10; tenths = λ n. n }

abbrev of_type : StrategyType → Settings ℕ
of_type t = record {
  strategy_type = t;
  max_batch_size = 100;
  min_batch_size = 10;
  max_batch_count = 5;
  min_batch_count = 2;
  max_batch_delay_ms = 0;
  min_batch_delay_ms = 0;
  require_all = false;
  load_thresholds = [];
  size_factors = [];
  count_factors = [];
  delay_factors = [];
  adapt_interval_ms = 0;
}

abbrev size_or_count : StrategyConfig ℕ
size_or_count =
    strategy_config (of_type hybrid_type)
      (and_config (strategy_config (of_type batch_size_type) no_configs nil)
        (and_config (strategy_config (of_type batch_count_type) no_configs nil) no_configs))
      nil

-- Half the limits from a load of 5 tenths on.
abbrev halving : StrategyConfig ℕ
halving =
    strategy_config
      (record (of_type adaptive_type) {
        load_thresholds = 5 ∷ [];
        size_factors = 5 ∷ [];
        count_factors = 5 ∷ [];
        delay_factors = 5 ∷ [];
      })
      no_configs (to_config size_or_count)

abbrev info : ℕ → ℕ → BatchInfo ℕ
info count size = record {
  current_size = size;
  current_count = count;
  elapsed_time = 0;
  last_message_time = 40000000000;
  cpu_utilization = 9;
}

abbrev made : Created (Strategy ℕ) → Strategy ℕ → Strategy ℕ
made (created s) other = s
made (refused e) other = other

abbrev halved : Strategy ℕ
halved = made (create_strategy tenths_only 0 halving) (new_hybrid_strategy none_left false)

halved_made : create_strategy tenths_only 0 halving ≡ created halved
unfolding create_strategy adapt_strategy new_adaptive_strategy new_hybrid_strategy
    create_batch_size_strategy create_batch_count_strategy with_default
halved_made = refl

-- The strategy adapts: the limit that it reports falls to half, but it decides by the old one.
halved_ignored :
    decisions tenths_only ((40000000000, info 3 60) ∷ (40000000000, info 4 120) ∷ []) halved
    ≡ some (false ∷ true ∷ [])
unfolding decisions create_strategy adapt_strategy new_adaptive_strategy new_hybrid_strategy
    create_batch_size_strategy create_batch_count_strategy with_default should_create_batch
    adapt_if_needed size_decides count_decides load_level
halved_ignored = refl

create_strategy-decisions_example :
    decisions tenths_only ((40000000000, info 3 60) ∷ (40000000000, info 4 120) ∷ []) halved
    ≡ some (wanted ((40000000000, info 3 60) ∷ (40000000000, info 4 120) ∷ []) halved)
create_strategy-decisions_example =
    create_strategy-decisions tenths_only 0 halving halved
      ((40000000000, info 3 60) ∷ (40000000000, info 4 120) ∷ []) halved_made

due :
    decisions tenths_only ((40000000000, info 5 60) ∷ (41000000000, info 5 60) ∷ []) halved
    ≡ some (true ∷ true ∷ [])
unfolding decisions create_strategy adapt_strategy new_adaptive_strategy new_hybrid_strategy
    create_batch_size_strategy create_batch_count_strategy with_default should_create_batch
    adapt_if_needed size_decides count_decides load_level
due = refl

decisions_grow_example : true ≡ true
decisions_grow_example =
    decisions_grow tenths_only 0 40000000000 41000000000 halving halved (info 5 60) (info 5 60) true
      halved_made
      (record {
        size = omega arith;
        count = omega arith;
        elapsed = omega arith;
        quiet = omega arith;
      })
      due

plain_adaptive_refused_example :
    (e : ConfigError) × (create_strategy tenths_only 0
        (strategy_config (of_type adaptive_type) no_configs (to_config size_or_count))
      ≡ refused e)
plain_adaptive_refused_example =
    plain_adaptive_refused tenths_only 0 (of_type adaptive_type) no_configs
      (to_config size_or_count)
      (record { is_adaptive = refl; no_thresholds = refl; no_size_factors = refl })

abbrev three_messages : StrategyEvaluator
three_messages =
    evaluate_message 3000000000 40
      (evaluate_message 2500000000 30 (evaluate_message 1000000000 20 (new_strategy_evaluator 0)))

-- Two of the three messages came within a second.
three_recent : recent_messages 3200000000 three_messages.message_rate_calculator ≡ 2
unfolding recent_messages count_recent evaluate_message new_strategy_evaluator
    new_message_rate_calculator add_time
three_recent = refl

abbrev map_decision : Option (Strategy ℕ × Bool) → Option Bool
map_decision none = none
map_decision (some r) = some r.1

-- Ninety bytes in three messages, a tenth of a second ago, reach no limit, and a second later they do.
three_evaluated :
    map_decision (evaluate tenths_only 0 3100000000 three_messages halved) ≡ some false
    × (map_decision (evaluate tenths_only 0 4100000000 three_messages halved) ≡ some true)
unfolding evaluate get_batch_info evaluate_message new_strategy_evaluator
    new_message_rate_calculator add_time create_strategy adapt_strategy new_adaptive_strategy
    new_hybrid_strategy create_batch_size_strategy create_batch_count_strategy with_default
    should_create_batch adapt_if_needed size_decides count_decides load_level
three_evaluated = (refl, refl)

-- The manager makes a strategy for a target once.
managed : get_strategy tenths_only 0 (1 ∷ []) (new_batch_strategy_manager halving) ≡ (
  record (new_batch_strategy_manager halving) { strategies = (1 ∷ [], halved) ∷ [] },
  created halved,
)
unfolding get_strategy new_batch_strategy_manager find_strategy put_strategy create_strategy
    adapt_strategy new_adaptive_strategy new_hybrid_strategy create_batch_size_strategy
    create_batch_count_strategy with_default
managed = refl
