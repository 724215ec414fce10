-- ===== src/Batch/Aggregator.antt =====
-- aggregator.go: `DefaultBatchAggregator`. Every call holds its mutex, so each is one step; `now` is
-- what the clock reads in it. The batch's id, target and metadata, which are set once, the averages
-- and the age of the statistics, which are floats, and the metrics are left out.
pub mod Conservation
pub mod Prompt
pub mod Limits
pub mod Timer
use staravail.Common.{ℕ, ◌+◌, ◌*◌, List, [], ◌∷◌, ◌++◌, length, Text, Option, none, some}
use staravail.Common.{Bool, true, false, not, ◌&&◌, ◌||◌, ltb, leb, ◌==◌, if◌then◌else◌}

-- `BatchStrategy`, the enumeration of aggregator.go.
pub data BatchMode : Type 0 where
  by_time by_size by_count mixed : BatchMode

pub data BatchStatus : Type 0 where
  building ready processing completed failed cancelled expired : BatchStatus

-- The texts of `FlushReason`, with `unflushed` for the empty one.
pub data FlushReason : Type 0 where
  unflushed time_limit size_limit count_limit forced shutdown expiry : FlushReason

pub record Message : Type 0 where
  pub key : Text
  pub value : Text

pub record Batch : Type 0 where
  pub messages : List Message
  pub created_at : ℕ
  pub ready_at : ℕ
  pub processed_at : ℕ
  pub status : BatchStatus
  pub size : ℕ
  pub count : ℕ
  pub error : Option Text
  pub flush_reason : FlushReason

pub record BatchConfig : Type 0 where
  pub strategy : BatchMode
  pub max_batch_size : ℕ
  pub max_batch_count : ℕ
  pub max_batch_time_ms : ℕ
  pub expire_after_ms : ℕ

pub record BatchAggregatorStats : Type 0 where
  pub total_messages : ℕ
  pub total_batches : ℕ
  pub time_batches : ℕ
  pub size_batches : ℕ
  pub count_batches : ℕ
  pub forced_batches : ℕ
  pub current_batch_size : ℕ
  pub current_batch_count : ℕ

-- `timer_armed`: the batch timer was set and has neither fired nor been stopped. The current batch is
-- never nil behind the constructor.
pub record BatchAggregator : Type 0 where
  pub config : BatchConfig
  pub current_batch : Batch
  pub stats : BatchAggregatorStats
  pub closed : Bool
  pub timer_armed : Bool

-- A limit of 0 stands for any that is not positive, which the constructor replaces.
unfoldable pub with_default : ℕ → ℕ → ℕ
with_default default n = if n == 0 then default else n

unfoldable pub fill_config : BatchConfig → BatchConfig
fill_config c = record c {
  max_batch_size = with_default 10485760 c.max_batch_size;
  max_batch_count = with_default 1000 c.max_batch_count;
  max_batch_time_ms = with_default 10000 c.max_batch_time_ms;
  expire_after_ms = with_default 300000 c.expire_after_ms;
}

abbrev pub empty_batch : ℕ → Batch
empty_batch now = record {
  messages = [];
  created_at = now;
  ready_at = 0;
  processed_at = 0;
  status = building;
  size = 0;
  count = 0;
  error = none;
  flush_reason = unflushed;
}

-- The old batch is dropped where no caller holds it.
unfoldable pub create_new_batch : ℕ → BatchAggregator → BatchAggregator
create_new_batch now a = record a {
  current_batch = empty_batch now;
  stats = record a.stats { current_batch_size = 0; current_batch_count = 0 };
  timer_armed = true;
}

unfoldable pub new_batch_aggregator : ℕ → BatchConfig → BatchAggregator
unfolding create_new_batch
new_batch_aggregator now config = create_new_batch now (record {
  config = fill_config config;
  current_batch = empty_batch now;
  stats = record {
    total_messages = 0;
    total_batches = 0;
    time_batches = 0;
    size_batches = 0;
    count_batches = 0;
    forced_batches = 0;
    current_batch_size = 0;
    current_batch_count = 0;
  };
  closed = false;
  timer_armed = true;
})

abbrev pub is_building : BatchStatus → Bool
is_building building = true
is_building _ = false

abbrev pub is_ready : BatchStatus → Bool
is_ready ready = true
is_ready _ = false

unfoldable pub message_size : Message → ℕ
message_size m = length m.value + length m.key

-- The batch becomes ready for a reason.
abbrev pub mark_ready : FlushReason → ℕ → Batch → Batch
mark_ready reason now b = record b { flush_reason = reason; status = ready; ready_at = now }

abbrev pub limits_size : BatchMode → Bool
limits_size by_size = true
limits_size mixed = true
limits_size _ = false

abbrev pub limits_count : BatchMode → Bool
limits_count by_count = true
limits_count mixed = true
limits_count _ = false

unfoldable pub append_message : Message → BatchAggregator → BatchAggregator
append_message m a = record a {
  current_batch = record a.current_batch {
    messages = a.current_batch.messages ++ (m ∷ []);
    size = a.current_batch.size + message_size m;
    count = a.current_batch.count + 1;
  };
  stats = record a.stats {
    total_messages = a.stats.total_messages + 1;
    current_batch_size = a.stats.current_batch_size + message_size m;
    current_batch_count = a.stats.current_batch_count + 1;
  };
}

unfoldable pub check_size : ℕ → BatchAggregator → BatchAggregator
check_size now a =
    if limits_size a.config.strategy && leb a.config.max_batch_size a.current_batch.size
    then record a {
      current_batch = mark_ready size_limit now a.current_batch;
      stats = record a.stats { size_batches = a.stats.size_batches + 1 };
    }
    else a

unfoldable pub check_count : ℕ → BatchAggregator → BatchAggregator
check_count now a =
    if limits_count a.config.strategy && leb a.config.max_batch_count a.current_batch.count
    then record a {
      current_batch = mark_ready count_limit now a.current_batch;
      stats = record a.stats { count_batches = a.stats.count_batches + 1 };
    }
    else a

-- `false` for the error "aggregator closed".
unfoldable pub add_message : ℕ → Message → BatchAggregator → BatchAggregator × Bool
add_message now m a = if a.closed then (a, false) else (
  check_count now (
      check_size now (
        append_message m
          (if is_building a.current_batch.status then a else create_new_batch now a))),
  true,
)

-- What a call that may give a batch answers.
pub data Answer : Type 0 where
  aggregator_closed no_batch_ready no_messages : Answer
  given : Batch → Answer

-- The current batch goes to the caller, and a new one takes its place.
unfoldable pub take_batch : ℕ → BatchAggregator → BatchAggregator × Answer
unfolding create_new_batch
take_batch now a = (
  create_new_batch now
      (record a { stats = record a.stats { total_batches = a.stats.total_batches + 1 } }),
  given (record a.current_batch { status = processing }),
)

unfoldable pub get_batch : ℕ → BatchAggregator → BatchAggregator × Answer
unfolding take_batch
get_batch now a =
    if a.closed
    then (a, aggregator_closed)
    else if is_ready a.current_batch.status
    then take_batch now a
    else (a, no_batch_ready)

unfoldable pub is_batch_ready : BatchAggregator → Bool
is_batch_ready a = not a.closed && is_ready a.current_batch.status

abbrev pub mark_forced : ℕ → BatchAggregator → BatchAggregator
mark_forced now a = record a {
  current_batch = mark_ready forced now a.current_batch;
  stats = record a.stats { forced_batches = a.stats.forced_batches + 1 };
}

unfoldable pub force_batch : ℕ → BatchAggregator → BatchAggregator × Answer
unfolding take_batch
force_batch now a =
    if a.closed
    then (a, aggregator_closed)
    else if ltb 0 a.current_batch.count
    then take_batch now (mark_forced now a)
    else (a, no_messages)

-- What the goroutine of the batch timer does when the timer fires.
unfoldable pub timer_fires : ℕ → BatchAggregator → BatchAggregator
timer_fires now a =
    if not a.timer_armed
    then a
    else if is_building a.current_batch.status && ltb 0 a.current_batch.count
    then record a {
      current_batch = mark_ready time_limit now a.current_batch;
      stats = record a.stats { time_batches = a.stats.time_batches + 1 };
      timer_armed = false;
    }
    else record a { timer_armed = false }

-- Times are nanoseconds.
unfoldable pub is_expired : ℕ → BatchAggregator → Bool
is_expired now a =
    not a.closed
    && ltb (a.current_batch.created_at + a.config.expire_after_ms * 1000000) now
    && is_building a.current_batch.status
    && ltb 0 a.current_batch.count

unfoldable pub check_expired_batch : ℕ → BatchAggregator → BatchAggregator
unfolding create_new_batch is_expired
check_expired_batch now a = if is_expired now a then create_new_batch now a else a

unfoldable pub close : ℕ → BatchAggregator → BatchAggregator
close now a =
    if a.closed
    then a
    else if ltb 0 a.current_batch.count && is_building a.current_batch.status
    then record a {
      current_batch = mark_ready shutdown now a.current_batch;
      stats = record a.stats { forced_batches = a.stats.forced_batches + 1 };
      closed = true;
      timer_armed = false;
    }
    else record a { closed = true; timer_armed = false }

unfoldable pub set_batch_completed : ℕ → Batch → Batch
set_batch_completed now b = record b { status = completed; processed_at = now }

unfoldable pub set_batch_failed : ℕ → Text → Batch → Batch
set_batch_failed now err b = record b { status = failed; error = some err; processed_at = now }
