-- ===== src/Write/Retry/Batches.antt =====
-- retry.go: `RetryAll`, `RetryForTable` and `RetryForPartition`, which go through the buffered writes
-- in batches, and `handleHealthEvent`, which chooses among them. Nothing else runs between the
-- schedulings here, and the clock stands still: an id of a retry is made from its write's.
use staravail.Common.{
  ℕ, zero, suc, ◌+◌, ◌≤◌, ◌≡◌, refl, sym, ap, ◌∙◌, arith, List, [], ◌∷◌, ◌++◌, length, take, drop,
  map,
}
use staravail.Common.{take-append-drop, length-drop, Text, text_eq, Bool, true, not, ◌&&◌, ◌==◌}
use staravail.Common.{if◌then◌else◌, none}
use staravail.Write.Types.{BufferedWrite, Entry}
use staravail.Write.Buffer.{get_buffered_writes, is_retrying, newer}
use staravail.Write.Buffer.Stats.{get_buffer_stats}
use staravail.Write.Buffer.Stats.Totals.{get_buffer_stats_lem}
use staravail.Write.Buffer.Queries.{all_listed}
use staravail.Write.Retry.{
  RetryTrigger, health_recovered, RetryManagerConfig, RetryManager, Services, done, refused,
  may_retry, schedule_retry,
}

-- The body of the loop over a batch, with the number of retries scheduled.
unfoldable pub retry_write :
    Services → ℕ → RetryTrigger → BufferedWrite → RetryManager × ℕ → RetryManager × ℕ
retry_write s now trigger w (m, scheduled_count) =
    if is_retrying w.status then (m, scheduled_count) else elim (may_retry s m.config w) [
      | refused _ ↦ (m, scheduled_count)
      | done _ ↦
          let (m', result) = schedule_retry s now w.id trigger m in
          elim result [ refused _ ↦ (m', scheduled_count) | done _ ↦ (m', scheduled_count + 1) ]
    ]

-- The loop over a batch.
unfoldable pub retry_writes :
    Services → ℕ → RetryTrigger → List BufferedWrite → RetryManager × ℕ → RetryManager × ℕ
retry_writes s now trigger [] state = state
retry_writes s now trigger (w ∷ ws) state =
    retry_writes s now trigger ws (retry_write s now trigger w state)

-- A size of 0 stands for any that is not positive.
unfoldable pub batch_size : RetryManagerConfig → ℕ
batch_size config = if config.retry_batch_size == 0 then 50 else config.retry_batch_size

-- "Process writes in batches", on fuel.
unfoldable pub retry_batches :
    Services → ℕ → RetryTrigger → ℕ → ℕ → List BufferedWrite → RetryManager × ℕ → RetryManager × ℕ
retry_batches s now trigger size fuel [] state = state
retry_batches s now trigger size zero (w ∷ ws) state = state
retry_batches s now trigger size (suc fuel) (w ∷ ws) state =
    retry_batches s now trigger size fuel (drop size (w ∷ ws))
      (retry_writes s now trigger (take size (w ∷ ws)) state)

-- The writes that pass a filter, in the listing of the whole buffer.
unfoldable pub chosen_writes : (BufferedWrite → Bool) → List BufferedWrite → List BufferedWrite
chosen_writes test [] = []
chosen_writes test (w ∷ ws) = let rest = chosen_writes test ws in if test w then w ∷ rest else rest

unfoldable pub retry_chosen :
    Services → ℕ → (BufferedWrite → Bool) → RetryTrigger → RetryManager → RetryManager × ℕ
retry_chosen s now test trigger m =
    let writes = chosen_writes test (
      get_buffered_writes s.sorting none (get_buffer_stats m.write_buffer).total_buffered_writes 0
        m.write_buffer) in
    retry_batches s now trigger (batch_size m.config) (length writes) writes (m, 0)

unfoldable pub retry_all : Services → ℕ → RetryTrigger → RetryManager → RetryManager × ℕ
retry_all s now = retry_chosen s now (λ w. true)

abbrev pub of_table : Text → Text → BufferedWrite → Bool
of_table database_name table_name w =
    text_eq w.database_name database_name && text_eq w.table_name table_name

unfoldable pub retry_for_table :
    Services → ℕ → Text → Text → RetryTrigger → RetryManager → RetryManager × ℕ
retry_for_table s now database_name table_name =
    retry_chosen s now (of_table database_name table_name)

abbrev pub of_partition : Text → Text → Text → BufferedWrite → Bool
of_partition database_name table_name partition_name w =
    of_table database_name table_name w && text_eq w.partition_name partition_name

unfoldable pub retry_for_partition :
    Services → ℕ → Text → Text → Text → RetryTrigger → RetryManager → RetryManager × ℕ
retry_for_partition s now database_name table_name partition_name =
    retry_chosen s now (of_partition database_name table_name partition_name)

pub record HealthEvent : Type 0 where
  pub is_recovery : Bool
  pub database_name : Text
  pub table_name : Text
  pub partition_name : Text

unfoldable pub handle_health_event : Services → ℕ → HealthEvent → RetryManager → RetryManager × ℕ
handle_health_event s now event m =
    if not event.is_recovery
    then (m, 0)
    else if not (text_eq event.partition_name [])
    then retry_for_partition s now event.database_name event.table_name event.partition_name
        health_recovered m
    else if not (text_eq event.table_name [])
    then retry_for_table s now event.database_name event.table_name health_recovered m
    else retry_all s now health_recovered m

retry_writes-append :
    (s : Services) (now : ℕ) (trigger : RetryTrigger) (vs ws : List BufferedWrite)
    (state : RetryManager × ℕ)
    → retry_writes s now trigger (vs ++ ws) state
      ≡ retry_writes s now trigger ws (retry_writes s now trigger vs state)
unfolding retry_writes
retry_writes-append s now trigger [] ws state = refl
retry_writes-append s now trigger (v ∷ vs) ws state =
    retry_writes-append s now trigger vs ws (retry_write s now trigger v state)

retry_batches_lem :
    (s : Services) (now : ℕ) (trigger : RetryTrigger) (size fuel : ℕ) (ws : List BufferedWrite)
    (state : RetryManager × ℕ)
    → length ws ≤ fuel
    → retry_batches s now trigger (suc size) fuel ws state ≡ retry_writes s now trigger ws state
unfolding retry_batches retry_writes
retry_batches_lem s now trigger size fuel [] state h = refl
retry_batches_lem s now trigger size zero (w ∷ ws) state h = absurd (omega arith)
retry_batches_lem s now trigger size (suc fuel) (w ∷ ws) state h =
    retry_batches_lem s now trigger size fuel (drop size ws) _ (omega (arith, length-drop size ws))
    ∙ sym (retry_writes-append s now trigger (take (suc size) (w ∷ ws)) (drop size ws) state)
    ∙ ap (λ (l : List BufferedWrite). retry_writes s now trigger l state)
        (take-append-drop (suc size) (w ∷ ws))

positive : (n : ℕ) → (k : ℕ) × ((if n == 0 then 50 else n) ≡ suc k)
positive zero = (49, refl)
positive (suc n) = (n, ground arith)

batch_size-pos : (config : RetryManagerConfig) → (n : ℕ) × (batch_size config ≡ suc n)
unfolding batch_size
batch_size-pos config = positive config.retry_batch_size

-- Going through the chosen writes in batches, on as much fuel as there are writes, is going
-- through all chosen writes of the sorted buffer one by one, for any batch size.
pub retry_chosen_lem :
    (s : Services) (now : ℕ) (test : BufferedWrite → Bool) (trigger : RetryTrigger)
    (m : RetryManager)
    → retry_chosen s now test trigger m
      ≡ retry_writes s now trigger
          (chosen_writes test (map Entry.write (s.sorting.sort newer m.write_buffer.entries)))
          (m, 0)
unfolding retry_chosen
retry_chosen_lem s now test trigger m =
    let (n, p) = batch_size-pos m.config in
    let total = (get_buffer_stats_lem m.write_buffer).0 in
    let listed = all_listed s.sorting m.write_buffer in
    rw (p, total, listed) (retry_batches_lem s now trigger n _ _ (m, 0) (omega arith))
