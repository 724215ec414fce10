-- ===== src/Batch/Aggregator/Timer.antt =====
-- aggregator.go: the batch timer, which is only set when a batch is created.
use staravail.Common.{ℕ, ◌≡◌, refl, sym, ap, ◌∙◌, List, [], ◌∷◌, ◌++◌}
use staravail.Common.{Bool, false, not, ◌&&◌, if-true, if-false, leb, All}
use mathlib.Core.Path.{subst}
use staravail.Batch.Aggregator.{
  BatchMode, building, by_time, Message, BatchConfig, BatchAggregator, new_batch_aggregator,
  is_building, is_ready, create_new_batch, limits_size, limits_count, fill_config, append_message,
  check_size, check_count, add_message, Answer, no_batch_ready, get_batch, is_batch_ready,
  timer_fires,
}
use staravail.Batch.Aggregator.Conservation.{
  add_message-building, Call, adds, gets, forces, fires, checks, closes, step, answered, events,
  messages_of, run, trace,
}

-- The timer has fired, and the batch is still being built.
record IsDead (a : BatchAggregator) : Type 0 where
  unclosed : a.closed ≡ false
  builds : a.current_batch.status ≡ building
  fired : a.timer_armed ≡ false
  timed : a.config.strategy ≡ by_time

check_size-by_time :
    (now : ℕ) (a : BatchAggregator) → a.config.strategy ≡ by_time → check_size now a ≡ a
unfolding check_size
check_size-by_time now a h =
    if-false _ _ a
      (ap (λ (s : BatchMode). limits_size s && leb a.config.max_batch_size a.current_batch.size) h)

check_count-by_time :
    (now : ℕ) (a : BatchAggregator) → a.config.strategy ≡ by_time → check_count now a ≡ a
unfolding check_count
check_count-by_time now a h =
    if-false _ _ a (
      ap (λ (s : BatchMode). limits_count s && leb a.config.max_batch_count a.current_batch.count)
        h)

add-IsDead :
    (now : ℕ) (m : Message) (a : BatchAggregator) → IsDead a → IsDead (add_message now m a).0
unfolding append_message
add-IsDead now m a d =
    let b = append_message m a in
    subst (λ (x : BatchAggregator × Bool). IsDead x.0)
      (sym (add_message-building now m a d.unclosed (ap is_building d.builds)))
      (subst IsDead
        (sym (
          ap (check_count now) (check_size-by_time now b d.timed)
          ∙ check_count-by_time now b d.timed))
        (record { unclosed = d.unclosed; builds = d.builds; fired = d.fired; timed = d.timed }))

get-dead : (now : ℕ) (a : BatchAggregator) → IsDead a → get_batch now a ≡ (a, no_batch_ready)
unfolding get_batch
get-dead now a d =
    if-false a.closed _ _ d.unclosed
    ∙ if-false (is_ready a.current_batch.status) _ _ (ap is_ready d.builds)

timer-dead : (now : ℕ) (a : BatchAggregator) → IsDead a → timer_fires now a ≡ a
unfolding timer_fires
timer-dead now a d = if-true (not a.timer_armed) _ _ (ap not d.fired)

-- Messages come in, the client asks, and time passes.
abbrev pub Waits : Call → Type 0
Waits (adds now m) = Unit
Waits (gets now) = Unit
Waits (fires now) = Unit
Waits _ = ⊥

dead_run :
    (cs : List Call) (a : BatchAggregator)
    → IsDead a
    → All Waits cs
    → is_batch_ready (run cs a) ≡ false × (messages_of (trace cs a) ≡ [])
unfolding run trace step events is_batch_ready
dead_run [] a d w = (rw d.unclosed (ap is_ready d.builds), refl)
dead_run (adds now m ∷ cs) a d w =
    let (quiet, nothing) = dead_run cs (add_message now m a).0 (add-IsDead now m a d) w.1 in
    (quiet, simp (d.unclosed, ap is_building d.builds) nothing)
dead_run (gets now ∷ cs) a d w =
    let (quiet, nothing) = dead_run cs a d w.1 in
    (
      ap (λ (x : BatchAggregator × Answer). is_batch_ready (run cs x.0)) (get-dead now a d) ∙ quiet,
      ap (λ (x : BatchAggregator × Answer). messages_of (answered x.1 ++ trace cs x.0))
            (get-dead now a d)
          ∙ nothing,
    )
dead_run (fires now ∷ cs) a d w =
    let (quiet, nothing) = dead_run cs a d w.1 in
    (
      ap (λ (x : BatchAggregator). is_batch_ready (run cs x)) (timer-dead now a d) ∙ quiet,
      ap (λ (x : BatchAggregator). messages_of (trace cs x)) (timer-dead now a d) ∙ nothing,
    )
dead_run (forces now ∷ cs) a d w = absurd w.0
dead_run (checks now ∷ cs) a d w = absurd w.0
dead_run (closes now ∷ cs) a d w = absurd w.0

-- With the strategy by time, when the timer of a new aggregator fires before a message comes, no
-- message that comes later, no timer event and no request makes a batch ready or gives one.
pub timer_never_again :
    (now later : ℕ) (config : BatchConfig) (cs : List Call)
    → config.strategy ≡ by_time
    → All Waits cs
    → let a = timer_fires later (new_batch_aggregator now config) in
      (is_batch_ready (run cs a) ≡ false) × (messages_of (trace cs a) ≡ [])
unfolding new_batch_aggregator create_new_batch fill_config timer_fires
timer_never_again now later config cs h w =
    dead_run cs (timer_fires later (new_batch_aggregator now config))
      (record { unclosed = refl; builds = refl; fired = refl; timed = h }) w
