-- ===== src/Batch/Strategy/Evaluator.antt =====
-- strategy.go: `StrategyEvaluator` and the ring of its message rate. The load comes from a provider,
-- which is the argument `load`; the rate is the number of recent messages, before it is divided by
-- the seconds of the window.
use staravail.Common.{
  ℕ, zero, suc, ◌+◌, ◌-◌, ◌%◌, List, [], ◌∷◌, replicate, Option, none, some, Bool, ltb, leb, ◌==◌,
  if◌then◌else◌,
}
use staravail.Batch.Strategy.{Floats, BatchInfo, Strategy, should_create_batch, one_second}

-- `none` stands for the zero time.
pub record MessageRateCalculator : Type 0 where
  pub message_timestamps : List (Option ℕ)
  pub position : ℕ
  pub window_size : ℕ
  pub window_duration : ℕ

unfoldable pub new_message_rate_calculator : ℕ → ℕ → MessageRateCalculator
new_message_rate_calculator size duration = record {
  message_timestamps = replicate size none;
  position = 0;
  window_size = size;
  window_duration = duration;
}

abbrev set_time : ℕ → ℕ → List (Option ℕ) → List (Option ℕ)
set_time i now [] = []
set_time zero now (t ∷ ts) = some now ∷ ts
set_time (suc i) now (t ∷ ts) = t ∷ set_time i now ts

unfoldable pub add_time : ℕ → MessageRateCalculator → MessageRateCalculator
add_time now c = record c {
  message_timestamps = set_time c.position now c.message_timestamps;
  position = (c.position + 1) % c.window_size;
}

unfoldable pub count_recent : ℕ → ℕ → List (Option ℕ) → ℕ
count_recent now duration [] = 0
count_recent now duration (none ∷ ts) = count_recent now duration ts
count_recent now duration (some t ∷ ts) =
    let rest = count_recent now duration ts in if leb (now - t) duration then rest + 1 else rest

unfoldable pub recent_messages : ℕ → MessageRateCalculator → ℕ
recent_messages now c = count_recent now c.window_duration c.message_timestamps

pub record StrategyEvaluator : Type 0 where
  pub start_time : ℕ
  pub first_message_time : Option ℕ
  pub last_message_time : ℕ
  pub current_size : ℕ
  pub current_count : ℕ
  pub batch_count : ℕ
  pub message_rate_calculator : MessageRateCalculator

unfoldable pub new_strategy_evaluator : ℕ → StrategyEvaluator
unfolding new_message_rate_calculator
new_strategy_evaluator now = record {
  start_time = now;
  first_message_time = none;
  last_message_time = now;
  current_size = 0;
  current_count = 0;
  batch_count = 0;
  message_rate_calculator = new_message_rate_calculator 10 one_second;
}

unfoldable pub evaluate_message : ℕ → ℕ → StrategyEvaluator → StrategyEvaluator
evaluate_message now size e = record e {
  first_message_time = (if e.current_count == 0 then some now else e.first_message_time);
  last_message_time = now;
  current_size = e.current_size + size;
  current_count = e.current_count + 1;
  message_rate_calculator = add_time now e.message_rate_calculator;
}

unfoldable pub get_batch_info : {F : Type 0} → F → ℕ → StrategyEvaluator → BatchInfo F
get_batch_info load now e = record {
  current_size = e.current_size;
  current_count = e.current_count;
  elapsed_time = (if ltb 0 e.current_count then now - e.start_time else 0);
  last_message_time = e.last_message_time;
  cpu_utilization = load;
}

unfoldable pub evaluate :
    {F : Type 0} → Floats F → F → ℕ → StrategyEvaluator → Strategy F → Option (Strategy F × Bool)
evaluate f load now e s = should_create_batch f now (get_batch_info load now e) s

unfoldable pub reset_evaluator : ℕ → StrategyEvaluator → StrategyEvaluator
reset_evaluator now e = record e {
  start_time = now;
  first_message_time = none;
  last_message_time = now;
  current_size = 0;
  current_count = 0;
  batch_count = e.batch_count + 1;
}
