-- ===== src/Batch/Tests.antt =====
-- Runs of the aggregator, and its theorems at concrete inputs.
use staravail.Common.{ℕ, ◌≡◌, refl, List, [], ◌∷◌, ◌++◌, All, false}
use staravail.Batch.Aggregator.{
  Message, BatchConfig, mixed, by_time, new_batch_aggregator, fill_config, with_default,
  create_new_batch, add_message, append_message, check_size, check_count, message_size, timer_fires,
  is_batch_ready,
}
use staravail.Batch.Aggregator.Conservation.{
  adds, gets, forces, fires, closes, lost, step, events, messages_of, trace, run, all_accepted,
  trace-accepted,
}
use staravail.Batch.Aggregator.Prompt.{
  ClientCall, puts, waits, promptly, put_messages, Gave, promptly-Gave,
}
use staravail.Batch.Aggregator.Limits.{IsConsistent, run-IsConsistent}
use staravail.Batch.Aggregator.Timer.{timer_never_again}

-- At most two messages in a batch, and the default limit on the bytes.
abbrev pairs : BatchConfig
pairs = record {
  strategy = mixed;
  max_batch_size = 0;
  max_batch_count = 2;
  max_batch_time_ms = 10;
  expire_after_ms = 20;
}

abbrev of_byte : ℕ → Message
of_byte b = record { key = []; value = b ∷ [] }

abbrev three_puts : List ClientCall
three_puts = puts 1 (of_byte 1) ∷ puts 2 (of_byte 2) ∷ waits 3 ∷ puts 4 (of_byte 3) ∷ []

-- A third message behind a batch that nobody took: the batch is lost.
overrun :
    trace
      (adds 1 (of_byte 1) ∷ adds 2 (of_byte 2) ∷ adds 3 (of_byte 3) ∷ [])
      (new_batch_aggregator 0 pairs)
    ≡ lost (of_byte 1 ∷ of_byte 2 ∷ []) ∷ []
unfolding trace step events new_batch_aggregator fill_config with_default create_new_batch
    add_message append_message check_size check_count message_size
overrun = refl

trace-accepted_example :
    messages_of
        (trace (adds 1 (of_byte 1) ∷ forces 2 ∷ closes 3 ∷ []) (new_batch_aggregator 0 pairs))
      ++ (run
          (adds 1 (of_byte 1) ∷ forces 2 ∷ closes 3 ∷ [])
          (new_batch_aggregator 0 pairs)).current_batch.messages
    ≡ all_accepted (adds 1 (of_byte 1) ∷ forces 2 ∷ closes 3 ∷ []) (new_batch_aggregator 0 pairs)
trace-accepted_example = trace-accepted 0 pairs (adds 1 (of_byte 1) ∷ forces 2 ∷ closes 3 ∷ [])

promptly-Gave_example :
    All Gave (trace (promptly three_puts) (new_batch_aggregator 0 pairs))
    × (all_accepted (promptly three_puts) (new_batch_aggregator 0 pairs) ≡ put_messages three_puts)
promptly-Gave_example = promptly-Gave 0 pairs three_puts

run-IsConsistent_example :
    IsConsistent
      (run (adds 1 (of_byte 1) ∷ adds 2 (of_byte 2) ∷ gets 3 ∷ []) (new_batch_aggregator 0 pairs))
run-IsConsistent_example =
    run-IsConsistent 0 pairs (adds 1 (of_byte 1) ∷ adds 2 (of_byte 2) ∷ gets 3 ∷ [])

abbrev timed : BatchConfig
timed = record pairs { strategy = by_time }

timer_never_again_example :
    (is_batch_ready (
        run
          (adds 30 (of_byte 1) ∷ fires 99 ∷ gets 100 ∷ [])
          (timer_fires 20 (new_batch_aggregator 0 timed)))
      ≡ false)
    × (messages_of (
          trace
            (adds 30 (of_byte 1) ∷ fires 99 ∷ gets 100 ∷ [])
            (timer_fires 20 (new_batch_aggregator 0 timed)))
        ≡ [])
timer_never_again_example =
    timer_never_again 0 20 timed (adds 30 (of_byte 1) ∷ fires 99 ∷ gets 100 ∷ []) refl
      (tt, (tt, (tt, tt)))
