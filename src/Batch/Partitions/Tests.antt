-- ===== src/Batch/Partitions/Tests.antt =====
-- Two partitions of a table, and two tables that share a key.
use staravail.Common.{ℕ, ◌≡◌, refl, List, [], ◌∷◌, some, false}
use staravail.Batch.Aggregator.{Message, BatchConfig, mixed, BatchAggregator, new_batch_aggregator}
use staravail.Batch.Aggregator.Conservation.{run}
use staravail.Batch.Partitions.{TablePartitionAggregator, key_for, find_aggregator}
use staravail.Batch.Partitions.Separation.{
  PartitionCall, puts, takes, flushes, project, run_partitions, Has, run_partitions-Has,
}

-- The table a with the partition b:c, and the table a:b with the partition c.
same_key : key_for (97 ∷ []) (98 ∷ 58 ∷ 99 ∷ []) ≡ key_for (97 ∷ 58 ∷ 98 ∷ []) (99 ∷ [])
same_key = refl

abbrev config : BatchConfig
config = record {
  strategy = mixed;
  max_batch_size = 0;
  max_batch_count = 2;
  max_batch_time_ms = 10;
  expire_after_ms = 20;
}

abbrev fresh_aggregator : BatchAggregator
fresh_aggregator = new_batch_aggregator 0 config

abbrev one_key : TablePartitionAggregator
one_key = record { aggregators = (97 ∷ 58 ∷ 98 ∷ [], fresh_aggregator) ∷ []; closed = false }

abbrev of_byte : ℕ → Message
of_byte b = record { key = []; value = b ∷ [] }

abbrev calls : List PartitionCall
calls =
    puts 1 (97 ∷ []) (98 ∷ []) (of_byte 1)
    ∷ puts 2 (97 ∷ []) (99 ∷ []) (of_byte 2)
    ∷ puts 3 (97 ∷ []) (98 ∷ []) (of_byte 3)
    ∷ takes 4
    ∷ flushes 5
    ∷ []

one_key-Has :
    Has (λ table partition. some fresh_aggregator) (97 ∷ 58 ∷ 98 ∷ []) fresh_aggregator one_key
unfolding find_aggregator
one_key-Has = record { unclosed = refl; holds = refl }

run_partitions-Has_example :
    Has
      (λ table partition. some fresh_aggregator)
      (97 ∷ 58 ∷ 98 ∷ [])
      (run (project (97 ∷ 58 ∷ 98 ∷ []) calls) fresh_aggregator)
      (run_partitions (λ table partition. some fresh_aggregator) calls one_key)
run_partitions-Has_example =
    run_partitions-Has (λ table partition. some fresh_aggregator) (97 ∷ 58 ∷ 98 ∷ []) calls
      fresh_aggregator one_key one_key-Has
