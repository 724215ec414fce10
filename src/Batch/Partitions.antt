-- ===== src/Batch/Partitions.antt =====
-- aggregator.go: `TablePartitionAggregator`, which keeps an aggregator for each table and partition.
-- A call that meets no other is one step. The factory is its argument, as in the code; the map is the
-- list of its entries, in an order of which nothing is assumed.
pub mod Separation
mod Tests
use staravail.Common.{
  ℕ, List, [], ◌∷◌, ◌++◌, Text, text_eq, Option, none, some, Bool, true, false, if◌then◌else◌,
}
use staravail.Batch.Aggregator.{
  Message, Batch, BatchAggregator, add_message, Answer, given, get_batch, is_batch_ready,
  force_batch, close,
}

pub record TablePartitionAggregator : Type 0 where
  pub aggregators : List (Text × BatchAggregator)
  pub closed : Bool

unfoldable pub new_table_partition_aggregator : TablePartitionAggregator
new_table_partition_aggregator = record { aggregators = []; closed = false }

-- The table, and a colon and the partition behind it unless that is empty.
abbrev pub key_for : Text → Text → Text
key_for table [] = table
key_for table (b ∷ bs) = table ++ (58 ∷ b ∷ bs)

unfoldable pub find_aggregator : Text → List (Text × BatchAggregator) → Option BatchAggregator
find_aggregator key [] = none
find_aggregator key ((k, a) ∷ es) =
    let rest = find_aggregator key es in if text_eq k key then some a else rest

unfoldable pub put_aggregator :
    Text → BatchAggregator → List (Text × BatchAggregator) → List (Text × BatchAggregator)
put_aggregator key a [] = (key, a) ∷ []
put_aggregator key a ((k, b) ∷ es) =
    let rest = put_aggregator key a es in if text_eq k key then (key, a) ∷ es else (k, b) ∷ rest

abbrev pub found_or : Option BatchAggregator → Option BatchAggregator → Option BatchAggregator
found_or (some a) other = some a
found_or none other = other

-- The aggregator of the key, which the message may change, goes back under it.
abbrev pub give_message :
    ℕ
    → Text
    → Message
    → Option BatchAggregator
    → TablePartitionAggregator
    → TablePartitionAggregator × Bool
give_message now key m none t = (t, false)
give_message now key m (some a) t =
    let r = add_message now m a in
    (record t { aggregators = put_aggregator key r.0 t.aggregators }, r.1)

-- `false` for an error: the aggregator is closed, or the factory fails.
unfoldable pub add_to_partition :
    (Text → Text → Option BatchAggregator)
    → ℕ
    → Text
    → Text
    → Message
    → TablePartitionAggregator
    → TablePartitionAggregator × Bool
add_to_partition factory now table partition m t =
    let key = key_for table partition in
    if t.closed
    then (t, false)
    else give_message now key m
        (found_or (find_aggregator key t.aggregators) (factory table partition)) t

abbrev batch_of : Answer → List Batch
batch_of (given b) = b ∷ []
batch_of _ = []

unfoldable pub take_ready :
    ℕ → List (Text × BatchAggregator) → List (Text × BatchAggregator) × List Batch
take_ready now [] = ([], [])
take_ready now ((k, a) ∷ es) =
    let rest = take_ready now es in
    let r = get_batch now a in
    if is_batch_ready a
    then ((k, r.0) ∷ rest.0, batch_of r.1 ++ rest.1)
    else ((k, a) ∷ rest.0, rest.1)

-- `none` for the error "aggregator closed".
unfoldable pub get_ready_batches :
    ℕ → TablePartitionAggregator → TablePartitionAggregator × Option (List Batch)
get_ready_batches now t =
    let r = take_ready now t.aggregators in
    if t.closed then (t, none) else (record t { aggregators = r.0 }, some r.1)

unfoldable pub force_all :
    ℕ → List (Text × BatchAggregator) → List (Text × BatchAggregator) × List Batch
force_all now [] = ([], [])
force_all now ((k, a) ∷ es) =
    let rest = force_all now es in
    let r = force_batch now a in ((k, r.0) ∷ rest.0, batch_of r.1 ++ rest.1)

unfoldable pub force_batches :
    ℕ → TablePartitionAggregator → TablePartitionAggregator × Option (List Batch)
force_batches now t =
    let r = force_all now t.aggregators in
    if t.closed then (t, none) else (record t { aggregators = r.0 }, some r.1)

unfoldable pub close_each : ℕ → List (Text × BatchAggregator) → List (Text × BatchAggregator)
close_each now [] = []
close_each now ((k, a) ∷ es) = (k, close now a) ∷ close_each now es

unfoldable pub close_all : ℕ → TablePartitionAggregator → TablePartitionAggregator
close_all now t =
    if t.closed then t else record { aggregators = close_each now t.aggregators; closed = true }
