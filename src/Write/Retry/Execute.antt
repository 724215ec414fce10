-- ===== src/Write/Retry/Execute.antt =====
-- retry.go: `executeRetry`, in the parts between which other calls can run: it marks the retry,
-- waits for its backoff, tries the write, and records what came of it. The clock counts nanoseconds.
use staravail.Common.{ℕ, ◌+◌, Text, Bool, if◌then◌else◌, Option, none, some}
use staravail.Write.Types.{pending, BufferedWrite, WriteBuffer}
use staravail.Write.Buffer.{update_buffered_write_status, remove_buffered_write}
use staravail.Write.Retry.{
  in_progress, succeeded, failed, cancelled, RetryInfo, RetryManager, Services, RetryError,
  not_found, done, refused, lookup, store, buffered_write, check_health, update_retry_status,
}
use staravail.Write.Retry.Backoff.{Arithmetic, calculate_backoff, exceeds}

-- Marks the retry and hands on what is known of it.
unfoldable pub begin_retry : ℕ → Text → RetryManager → RetryManager × Option RetryInfo
begin_retry now retry_id m = elim (lookup retry_id m.retry_info) [
  | none ↦ (m, none)
  | some info ↦
      let started = record info { status = in_progress; started_at = now } in
      (record m { retry_info = store started m.retry_info }, some started)
]

-- What an attempt comes to: it stops short of the executor, or the executor has answered.
pub data Attempt : Type 0 where
  stopped : RetryError → Attempt
  executed : BufferedWrite → Option Text → Attempt

-- The attempt, from the write's lookup to the call of the executor.
unfoldable pub try_write : Services → RetryInfo → WriteBuffer → Attempt
try_write s info b = elim (buffered_write s info.write_id b) [
  | none ↦ stopped not_found
  | some w ↦ elim (check_health s.health_checker w) [
    | refused e ↦ stopped e
    | done _ ↦ executed w (s.execute_write w)
  ]
]

-- `updateRetryStatus` with what the attempt came to, at one reading of the clock.
unfoldable pub record_attempt : Services → ℕ → Text → Attempt → RetryManager → RetryManager
record_attempt s now retry_id (stopped e) m =
    update_retry_status now retry_id failed (some (s.message e)) m
record_attempt s now retry_id (executed w (some err)) m =
    update_retry_status now retry_id failed (some err) m
record_attempt s now retry_id (executed w none) m =
    update_retry_status now retry_id succeeded none m

-- What the buffer is then told, at a later reading. Its errors are only logged.
unfoldable pub settle_attempt : ℕ → Attempt → RetryManager → RetryManager
settle_attempt now (stopped e) m = m
settle_attempt now (executed w (some err)) m = record m {
  write_buffer = (update_buffered_write_status now w.id pending (some err) m.write_buffer).0;
}
settle_attempt now (executed w none) m = record m {
  write_buffer = (remove_buffered_write w.id m.write_buffer).0;
}

unfoldable pub finish_retry : Services → ℕ → ℕ → Text → Attempt → RetryManager → RetryManager
finish_retry s recorded settled retry_id a m =
    settle_attempt settled a (record_attempt s recorded retry_id a m)

-- How long `time.After` waits: a duration that is not above 0 is over at once.
unfoldable pub delay : ℕ → ℕ
delay backoff = if exceeds backoff 0 then backoff else 0

-- When an execution reads the clock: where it starts, and how much later than the end of its wait
-- it records the attempt, and than that it settles it. When the context ends first, `working` is
-- the time until then.
pub record Timing : Type 0 where
  pub started : ℕ
  pub working : ℕ
  pub settling : ℕ

-- The rest of the execution, with the backoff known. `context_done` says whether the context ends
-- the wait, and `retry_cancelled` is the text of that error.
unfoldable pub resume_retry :
    Services → Timing → ℕ → Bool → Text → Text → RetryInfo → RetryManager → RetryManager
resume_retry s t backoff context_done retry_cancelled retry_id info m =
    if context_done
    then update_retry_status (t.started + t.working) retry_id cancelled (some retry_cancelled) m
    else finish_retry s (t.started + delay backoff + t.working)
        (t.started + delay backoff + t.working + t.settling) retry_id
        (try_write s info m.write_buffer) m

-- "Calculate backoff duration", and the rest: `none` for its panic.
unfoldable pub await_retry :
    Services
    → Arithmetic
    → Timing
    → Bool
    → Text
    → Text
    → RetryManager × Option RetryInfo
    → Option RetryManager
await_retry s a t context_done retry_cancelled retry_id (m, none) = some m
await_retry s a t context_done retry_cancelled retry_id (m, some info) =
    elim (calculate_backoff a m.config info.attempt_number) [
      | none ↦ none
      | some backoff ↦ some (resume_retry s t backoff context_done retry_cancelled retry_id info m)
    ]

-- The parts in a row, with no other call in between.
unfoldable pub execute_retry :
    Services → Arithmetic → Timing → Bool → Text → Text → RetryManager → Option RetryManager
execute_retry s a t context_done retry_cancelled retry_id m =
    await_retry s a t context_done retry_cancelled retry_id (begin_retry t.started retry_id m)
