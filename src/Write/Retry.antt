-- ===== src/Write/Retry.antt =====
-- internal/domain/write/retry.go: `RetryManagerImpl`, its queue of retries over the write buffer.
-- A `RetryManager` holds the buffer that the manager shares with its callers. The parts of a call
-- that run under one mutex are one step, so that calls can interleave between them. The metrics
-- and the log are left out. A time of 0 is the zero time. `StartedAt` of a retry that is not
-- known is never read.
pub mod Execute
pub mod Batches
pub mod Backoff
pub mod Store
pub mod Scheduling
pub mod Cancellation
pub mod Outcomes
pub mod Interleaved
use staravail.Common.{ℕ, zero, suc, ◌+◌, ◌-◌, ◌*◌, ◌^◌, List, [], ◌∷◌, length, Text, text_eq}
use staravail.Common.{
  Bool, true, false, not, ◌&&◌, ◌||◌, ltb, leb, ◌==◌, if◌then◌else◌, Option, none, some,
}
use staravail.Write.Types.{
  BufferedWriteStatus, pending, retrying, BufferedWrite, WriteBuffer, key_of,
}
use staravail.Write.Sort.{SortSlice}
use staravail.Write.Buffer.{
  HealthChecker, is_tablet_healthy, get_buffered_writes, update_buffered_write_status,
  remove_buffered_write, count_total_writes, is_retrying,
}

-- A strategy of another name is treated as `exponential`.
pub data RetryStrategy : Type 0 where
  linear exponential jittered : RetryStrategy

pub data RetryTrigger : Type 0 where
  scheduled manual health_recovered periodic : RetryTrigger

pub data RetryStatus : Type 0 where
  waiting in_progress succeeded failed cancelled : RetryStatus

pub record RetryInfo : Type 0 where
  pub id : Text
  pub write_id : Text
  pub status : RetryStatus
  pub scheduled_at : ℕ
  pub started_at : ℕ
  pub completed_at : ℕ
  pub trigger : RetryTrigger
  pub attempt_number : ℕ
  pub error : Text
  pub database_name : Text
  pub table_name : Text
  pub partition_name : Text
  pub bucket_id : ℕ

pub record RetryManagerConfig : Type 0 where
  pub max_retry_attempts : ℕ
  pub base_retry_interval_seconds : ℕ
  pub max_retry_interval_seconds : ℕ
  pub retry_strategy : RetryStrategy
  pub retry_batch_size : ℕ

pub record RetryManager : Type 0 where
  pub config : RetryManagerConfig
  pub write_buffer : WriteBuffer
  pub retry_info : List RetryInfo

pub data RetryError : Type 0 where
  not_found attempts_reached health_unknown unhealthy not_cancellable : RetryError

-- What the manager is built with: the sort of the buffer's listing, the health checker, the
-- executor (`none` for success, or an error's text), and `fmt.Sprintf("retry_%s_%d", …)`, and the texts of the errors.
pub record Services : Type 0 where
  pub sorting : SortSlice
  pub health_checker : HealthChecker
  pub execute_write : BufferedWrite → Option Text
  pub retry_id : Text → ℕ → Text
  pub message : RetryError → Text

-- The map of retries, by id.
unfoldable pub lookup : Text → List RetryInfo → Option RetryInfo
lookup id [] = none
lookup id (r ∷ rs) = let rest = lookup id rs in if text_eq r.id id then some r else rest

unfoldable pub store : RetryInfo → List RetryInfo → List RetryInfo
store info [] = info ∷ []
store info (r ∷ rs) =
    let rest = store info rs in if text_eq r.id info.id then info ∷ rs else r ∷ rest

unfoldable pub find_write : Text → List BufferedWrite → Option BufferedWrite
find_write id [] = none
find_write id (w ∷ ws) = let rest = find_write id ws in if text_eq w.id id then some w else rest

pub data Outcome (A : Type 0) : Type 0 where
  done : A → Outcome A
  refused : RetryError → Outcome A

-- "Check if the tablet is healthy", with the error apart.
unfoldable pub check_health : HealthChecker → BufferedWrite → Outcome Unit
check_health h w = elim (is_tablet_healthy h (key_of w)) [
  | none ↦ refused health_unknown
  | some healthy ↦ if healthy then done tt else refused unhealthy
]

-- What `ScheduleRetry` finds before it stores anything: both it and `executeRetry` ask the buffer for one
-- write from offset 0.
unfoldable pub buffered_write : Services → Text → WriteBuffer → Option BufferedWrite
buffered_write s write_id b = find_write write_id (get_buffered_writes s.sorting none 1 0 b)

-- "Check if the write can be retried based on retry count", then the tablet.
unfoldable pub may_retry : Services → RetryManagerConfig → BufferedWrite → Outcome Unit
may_retry s config w =
    if leb config.max_retry_attempts w.retry_count
    then refused attempts_reached
    else check_health s.health_checker w

unfoldable pub retry_info_of : Services → ℕ → RetryTrigger → BufferedWrite → RetryInfo
retry_info_of s now trigger w = record {
  id = s.retry_id w.id now;
  write_id = w.id;
  status = waiting;
  scheduled_at = now;
  started_at = 0;
  completed_at = 0;
  trigger = trigger;
  attempt_number = w.retry_count + 1;
  error = [];
  database_name = w.database_name;
  table_name = w.table_name;
  partition_name = w.partition_name;
  bucket_id = w.bucket_id;
}

-- "Store retry info", then "Update write status".
unfoldable pub store_retry : ℕ → RetryInfo → RetryManager → RetryManager × Outcome Text
store_retry now info m =
    let (b, known) = update_buffered_write_status now info.write_id retrying none m.write_buffer in
    (
      record m { write_buffer = b; retry_info = store info m.retry_info },
      if known then done info.id else refused not_found,
    )

-- `execute_retry` then runs on its own, once the result is `done`.
unfoldable pub schedule_retry :
    Services → ℕ → Text → RetryTrigger → RetryManager → RetryManager × Outcome Text
schedule_retry s now write_id trigger m = elim (buffered_write s write_id m.write_buffer) [
  | none ↦ (m, refused not_found)
  | some w ↦ elim (may_retry s m.config w) [
    | refused e ↦ (m, refused e)
    | done _ ↦ store_retry now (retry_info_of s now trigger w) m
  ]
]

abbrev pub cancellable : RetryStatus → Bool
cancellable waiting = true
cancellable in_progress = true
cancellable _ = false

unfoldable pub cancel_retry : ℕ → Text → RetryManager → RetryManager × Outcome Unit
cancel_retry now retry_id m = elim (lookup retry_id m.retry_info) [
  | none ↦ (m, refused not_found)
  | some info ↦
      if cancellable info.status
      then (
        record m {
          retry_info = store (record info { status = cancelled; completed_at = now }) m.retry_info;
        },
        done tt,
      )
      else (m, refused not_cancellable)
]

unfoldable pub get_retry_status : Text → RetryManager → Outcome RetryInfo
get_retry_status retry_id m = elim (lookup retry_id m.retry_info) [
  | none ↦ refused not_found
  | some info ↦ done info
]

unfoldable pub update_retry_status :
    ℕ → Text → RetryStatus → Option Text → RetryManager → RetryManager
update_retry_status now retry_id status err m = elim (lookup retry_id m.retry_info) [
  | none ↦ m
  | some info ↦ record m {
    retry_info =
        store
          (record info {
            status = status;
            completed_at = now;
            error = elim err [ none ↦ info.error | some e ↦ e ];
          })
          m.retry_info;
  }
]
