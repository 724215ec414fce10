-- ===== src/Write/Tests/Retries.antt =====
-- Runs of the retries, and their theorems at concrete inputs.
use staravail.Common.{ℕ, ◌+◌, ◌*◌, ◌^◌, ◌≤◌, ◌≡◌, refl, arith, min, [], ◌∷◌, map}
use staravail.Common.{true, false, none, some}
use staravail.Write.Types.{BufferedWrite, key_of, Entry}
use staravail.Write.Sort.Insertion.{insertion}
use staravail.Write.Buffer.{
  is_tablet_healthy, newer, paginate, get_buffered_writes, find_id, update_buffered_write_status,
  remove_buffered_write,
}
use staravail.Write.Retry.{
  manual, waiting, succeeded, RetryInfo, jittered, RetryManagerConfig, RetryManager, Services, done,
  lookup, store, find_write, check_health, buffered_write, may_retry, retry_info_of, store_retry,
  schedule_retry, cancel_retry, update_retry_status,
}
use staravail.Write.Retry.Execute.{
  executed, try_write, record_attempt, settle_attempt, finish_retry, delay, Timing, begin_retry,
  resume_retry, await_retry, execute_retry,
}
use staravail.Write.Retry.Scheduling.{Scheduled, IsNewest, schedule_retry_lem}
use staravail.Write.Retry.Cancellation.{cancel_retry_unnoticed}
use staravail.Write.Retry.Outcomes.{started, marked, begin_known, execute_retry_succeeded}
use staravail.Write.Retry.Batches.{retry_writes, retry_chosen, chosen_writes, retry_chosen_lem}
use staravail.Write.Retry.Backoff.{
  second, sign, Arithmetic, Int63n, power, jitter, raw_backoff, cap, calculate_backoff,
  calculate_backoff_lem,
}
use staravail.Write.Retry.Interleaved.{
  System, passes, calls, cancels, begins, wakes, tries, records, settles, Run, start, later,
}
use staravail.Write.Retry.Interleaved.Completed.{CameTo, run-CameTo}
use staravail.Write.Retry.Interleaved.Sequential.{before}
use staravail.Write.Tests.{write_at, two_writes, all_healthy}

abbrev services : Services
services = record {
  sorting = insertion;
  health_checker = all_healthy;
  execute_write = λ w. none;
  retry_id = λ id now. now ∷ id;
  message = λ e. 101 ∷ [];
}

abbrev retry_config : RetryManagerConfig
retry_config = record {
  max_retry_attempts = 3;
  base_retry_interval_seconds = 1;
  max_retry_interval_seconds = 60;
  retry_strategy = jittered;
  retry_batch_size = 1;
}

-- The newer of the two writes is waiting for its retry.
abbrev info : RetryInfo
info = record {
  id = 30 ∷ 2 ∷ [];
  write_id = 2 ∷ [];
  status = waiting;
  scheduled_at = 30;
  started_at = 0;
  completed_at = 0;
  trigger = manual;
  attempt_number = 1;
  error = [];
  database_name = 100 ∷ [];
  table_name = 116 ∷ [];
  partition_name = 112 ∷ [];
  bucket_id = 1;
}

abbrev idle : RetryManager
idle = record { config = retry_config; write_buffer = two_writes; retry_info = [] }

abbrev busy : RetryManager
busy = record idle { retry_info = info ∷ [] }

schedules_newest : (schedule_retry services 30 (2 ∷ []) manual idle).1 ≡ done (30 ∷ 2 ∷ [])
unfolding schedule_retry buffered_write get_buffered_writes paginate newer find_write may_retry
    check_health is_tablet_healthy store_retry retry_info_of update_buffered_write_status find_id
schedules_newest = refl

schedule_retry_lem_example :
    (w : BufferedWrite) × Scheduled services 30
      (2 ∷ [])
      manual
      idle
      (30 ∷ 2 ∷ [])
      (schedule_retry services 30 (2 ∷ []) manual idle).0
      w
schedule_retry_lem_example =
    schedule_retry_lem services 30 (2 ∷ []) (30 ∷ 2 ∷ []) manual idle schedules_newest

cancel_retry_unnoticed_example :
    finish_retry services 50 60
      (30 ∷ 2 ∷ [])
      (executed (write_at 2 20) none)
      (cancel_retry 40 (30 ∷ 2 ∷ []) busy).0
    ≡ finish_retry services 50 60 (30 ∷ 2 ∷ []) (executed (write_at 2 20) none) busy
cancel_retry_unnoticed_example =
    cancel_retry_unnoticed services 40 50 60 (30 ∷ 2 ∷ []) (executed (write_at 2 20) none) busy

busy_known : lookup (30 ∷ 2 ∷ []) busy.retry_info ≡ some info
unfolding lookup
busy_known = refl

-- A generator that always gives the least value.
abbrev least : Arithmetic
least = record { int63n = λ k. 0; out_of_range = sign }

least-Int63n : Int63n least
least-Int63n = record { below = λ k h. omega arith }

-- The wait lasts a second.
abbrev timing : Timing
timing = record { started = 50; working = 7; settling = 2 }

abbrev final : RetryInfo
final = record info { status = succeeded; started_at = 50; completed_at = 1000000057 }

abbrev after : RetryManager
after = record busy {
  write_buffer = (remove_buffered_write (2 ∷ []) two_writes).0;
  retry_info = final ∷ [];
}

executes : execute_retry services least timing false [] (30 ∷ 2 ∷ []) busy ≡ some after
unfolding execute_retry await_retry resume_retry begin_retry lookup store try_write buffered_write
    get_buffered_writes paginate newer find_write check_health is_tablet_healthy finish_retry
    record_attempt settle_attempt update_retry_status calculate_backoff raw_backoff jitter power cap
    delay
executes = refl

after_known : lookup (30 ∷ 2 ∷ []) after.retry_info ≡ some final
unfolding lookup
after_known = refl

execute_retry_succeeded_example :
    (w : BufferedWrite) × IsNewest w two_writes
    × (w.id ≡ 2 ∷ [])
    × (is_tablet_healthy all_healthy (key_of w) ≡ some true)
    × (services.execute_write w ≡ none)
    × (after.write_buffer ≡ (remove_buffered_write w.id two_writes).0)
execute_retry_succeeded_example =
    execute_retry_succeeded services least timing [] (30 ∷ 2 ∷ []) busy after info final busy_known
      executes after_known refl

a_second : calculate_backoff least retry_config 1 ≡ some second
unfolding calculate_backoff raw_backoff jitter power cap
a_second = refl

second-delay : delay second ≡ second
unfolding delay
second-delay = refl

-- The retry is cancelled while it waits.
abbrev cancelled_run : (y : System) × Run services least (30 ∷ 2 ∷ []) (before 50 busy) y
cancelled_run = (
  _,
  later
      (later
        (later
          (later
            (later
              (later
                (later
                  (later start
                    (begins refl (begin_known 50 (30 ∷ 2 ∷ []) busy info busy_known) a_second))
                  (passes second))
                (calls (cancels (30 ∷ 2 ∷ []))))
              (wakes refl (omega (arith, second-delay))))
            (tries refl))
          (passes 7))
        (records refl))
      (settles refl),
)

run-CameTo_example :
    (d : ℕ) × (calculate_backoff least retry_config 1 ≡ some d)
    × (end : RetryInfo) × (lookup (30 ∷ 2 ∷ []) cancelled_run.0.manager.retry_info ≡ some end)
    × (50 ≤ end.started_at)
    × (end.started_at + delay d ≤ end.completed_at)
    × (end.completed_at ≤ cancelled_run.0.clock)
    × CameTo services info end
run-CameTo_example =
    run-CameTo services least (30 ∷ 2 ∷ []) info (before 50 busy) cancelled_run.0
      (try_write services (started 50 info)
        (cancel_retry 1000000050 (30 ∷ 2 ∷ []) (marked 50 info busy)).0.write_buffer)
      refl busy_known cancelled_run.1 refl

retry_chosen_lem_example :
    retry_chosen services 30 (λ w. true) manual idle
    ≡ retry_writes services 30 manual
        (chosen_writes (λ w. true) (map Entry.write (insertion.sort newer two_writes.entries)))
        (idle, 0)
retry_chosen_lem_example = retry_chosen_lem services 30 (λ w. true) manual idle

calculate_backoff_lem_example :
    (d : ℕ) × (calculate_backoff least retry_config 4 ≡ some d)
    × (min (1 * second) (60 * second) ≤ d)
    × (d ≤ min (1 * second * 2 ^ 3) (60 * second))
calculate_backoff_lem_example =
    calculate_backoff_lem least retry_config 3 least-Int63n (omega arith) (omega arith)
      (omega arith)
