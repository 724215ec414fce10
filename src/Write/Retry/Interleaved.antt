-- ===== src/Write/Retry/Interleaved.antt =====
-- retry.go: `executeRetry` among the other calls, as steps of one clock.
pub mod Rely
pub mod Progress
pub mod Completed
pub mod Sequential
use staravail.Common.{ℕ, ◌+◌, ◌≤◌, ◌≡◌, Bool, false, List, Text, text_eq, Option, none, some}
use staravail.Write.Types.{WriteBuffer}
use staravail.Write.Retry.{
  RetryStatus, cancelled, RetryInfo, RetryManager, Services, store_retry, cancel_retry,
  update_retry_status,
}
use staravail.Write.Retry.Backoff.{Arithmetic, calculate_backoff}
use staravail.Write.Retry.Execute.{
  begin_retry, Attempt, try_write, record_attempt, settle_attempt, delay,
}

-- Where an execution stands: before its first step, in its wait of a backoff, behind the wait,
-- with an answer, with the answer recorded, and with the buffer told of it. It also ends when its
-- retry is not known or its context ends, and when the computation of its backoff panics.
pub data Phase : Type 0 where
  idle : Phase
  resting : RetryInfo → ℕ → Phase
  awake : RetryInfo → Phase
  tried recorded settled : Attempt → Phase
  returned panicked : Phase

pub record System : Type 0 where
  pub clock : ℕ
  pub phase : Phase
  pub manager : RetryManager

-- The steps that others take meanwhile: a cancellation of any retry, this one included, whatever
-- changes the shared buffer, and what `ScheduleRetry` and `executeRetry` store for a retry of
-- another id.
pub data OtherCall (id : Text) (now : ℕ) (m : RetryManager) : RetryManager → Type 0 where
  cancels : (other : Text) → OtherCall id now m (cancel_retry now other m).0
  changes_buffer : (b : WriteBuffer) → OtherCall id now m (record m { write_buffer = b })
  schedules :
      (info : RetryInfo)
      → text_eq info.id id ≡ false
      → OtherCall id now m (store_retry now info m).0
  begins_other :
      (other : Text) → text_eq other id ≡ false → OtherCall id now m (begin_retry now other m).0
  updates_other :
      (other : Text) (status : RetryStatus) (err : Option Text)
      → text_eq other id ≡ false
      → OtherCall id now m (update_retry_status now other status err m)

-- The steps of the execution of `id`, and what goes on beside it: time passes, and others call.
pub data Step (s : Services) (a : Arithmetic) (id : Text) (x : System) : System → Type 0 where
  passes : (n : ℕ) → Step s a id x (record x { clock = x.clock + n })
  calls :
      {m : RetryManager}
      → OtherCall id x.clock x.manager m
      → Step s a id x (record x { manager = m })
  misses :
      {m : RetryManager}
      → x.phase ≡ idle
      → begin_retry x.clock id x.manager ≡ (m, none)
      → Step s a id x (record x { phase = returned; manager = m })
  begins :
      {m : RetryManager} {info : RetryInfo} {backoff : ℕ}
      → x.phase ≡ idle
      → begin_retry x.clock id x.manager ≡ (m, some info)
      → calculate_backoff a m.config info.attempt_number ≡ some backoff
      → Step s a id x (record x { phase = resting info backoff; manager = m })
  panics :
      {m : RetryManager} {info : RetryInfo}
      → x.phase ≡ idle
      → begin_retry x.clock id x.manager ≡ (m, some info)
      → calculate_backoff a m.config info.attempt_number ≡ none
      → Step s a id x (record x { phase = panicked; manager = m })
  wakes :
      {info : RetryInfo} {backoff : ℕ}
      → x.phase ≡ resting info backoff
      → info.started_at + delay backoff ≤ x.clock
      → Step s a id x (record x { phase = awake info })
  context_ends :
      {info : RetryInfo} {backoff : ℕ} (retry_cancelled : Text)
      → x.phase ≡ resting info backoff
      → Step s a id x (record x {
        phase = returned;
        manager = update_retry_status x.clock id cancelled (some retry_cancelled) x.manager;
      })
  tries :
      {info : RetryInfo}
      → x.phase ≡ awake info
      → Step s a id x (record x { phase = tried (try_write s info x.manager.write_buffer) })
  records :
      {attempt : Attempt}
      → x.phase ≡ tried attempt
      → Step s a id x (record x {
        phase = recorded attempt;
        manager = record_attempt s x.clock id attempt x.manager;
      })
  settles :
      {attempt : Attempt}
      → x.phase ≡ recorded attempt
      → Step s a id x
          (record x { phase = settled attempt; manager = settle_attempt x.clock attempt x.manager })

-- The steps from a system, in which the execution has not begun.
pub data Run (s : Services) (a : Arithmetic) (id : Text) (x : System) : System → Type 0 where
  start : Run s a id x x
  later : {y z : System} → Run s a id x y → Step s a id y z → Run s a id x z
