-- ===== src/Write/Tests.antt =====
-- Runs of the write buffer and its retries, and their theorems at concrete inputs.
mod Retries
use staravail.Common.{
  ℕ, zero, suc, ◌+◌, ◌*◌, ◌^◌, ◌-◌, ◌≤◌, ◌<◌, ◌≡◌, refl, arith, inl, inr, ◌⊎◌, min,
}
use staravail.Common.{
  List, [], ◌∷◌, ◌++◌, length, map, Text, text_eq, Bool, true, false, Option, none, some,
}
use staravail.Write.Types.{
  BufferedWriteStatus, pending, retrying, BufferedWrite, BufferKey, key_of, key_eq, write_size,
  EvictionPolicy, oldest, WriteBufferConfig, Entry, WriteBuffer,
}
use staravail.Write.Entries.{Distinct, stored, reject, has, matches}
use staravail.Write.Entries.Sizes.{find}
use staravail.Write.Evict.{evict_writes, evict_loop, evict_one, less}
use staravail.Write.Evict.Order.{Drops, evict_writes-Drops}
use staravail.Write.Evict.Amount.{evict_bytes}
use staravail.Write.Sort.Insertion.{insertion}
use staravail.Write.Buffer.{
  HealthChecker, is_tablet_healthy, new_write_buffer, buffer_write, fill_defaults, flush_buffer,
  get_buffered_writes, newer, get_write_priority, priority_among, add_write, limit_bytes,
  limit_writes, count_total_writes,
}
use staravail.Write.Buffer.Accounting.{IsCovered, IsExact}
use staravail.Write.Buffer.Accounting.Steps.{
  Operation, buffers, flushes, cleans, removes, updates, run, run-IsCovered, buffer_write-IsExact,
  HasRoom, buffer_write_again,
}
use staravail.Write.Buffer.Capacity.{buffer_write_count, buffer_write_bytes}
use staravail.Write.Buffer.Flush.{TakesOut, flushed, flush_buffer_lem}
use staravail.Common.{All, ◌==◌}
use staravail.Write.Entries.Permutations.{any}
use staravail.Write.Buffer.Stats.{get_buffer_stats}
use staravail.Write.Buffer.Stats.Totals.{sum, get_buffer_stats_lem}

-- A limit of two writes and ten bytes.
abbrev pub small : WriteBufferConfig
small = record {
  max_buffer_size_bytes = 10;
  max_buffered_writes = 2;
  eviction_policy = oldest;
  write_expiration_hours = 1;
  default_write_priority = 5;
  high_priority_tables = [];
}

abbrev pub write_at : ℕ → ℕ → BufferedWrite
write_at id time = record {
  id = id ∷ [];
  database_name = 100 ∷ [];
  table_name = 116 ∷ [];
  partition_name = 112 ∷ [];
  bucket_id = 1;
  sql = 1 ∷ 2 ∷ 3 ∷ [];
  status = pending;
  created_at = time;
  last_retry_at = 0;
  retry_count = 0;
  error = [];
  priority = 5;
  expires_at = 100;
  payload = 4 ∷ [];
}

abbrev pub entry_at : ℕ → ℕ → Entry
entry_at id time = record { key = key_of (write_at id time); write = write_at id time }

abbrev pub two_writes : WriteBuffer
two_writes = record {
  config = small;
  entries = entry_at 1 10 ∷ entry_at 2 20 ∷ [];
  current_buffer_size_bytes = 8;
}

abbrev one_write : WriteBuffer
one_write = record two_writes { entries = entry_at 1 10 ∷ []; current_buffer_size_bytes = 4 }

-- Names are compared as they are.
abbrev equal_fold : Text → Text → Bool
equal_fold = text_eq

abbrev pub all_healthy : HealthChecker
all_healthy = record {
  partition_health = λ database table partition. some true;
  bucket_health = λ database table bucket. some true;
}

-- Fresh writes get the defaults, and a third one drops the oldest.
evicts_oldest :
    map Entry.write (buffer_write insertion equal_fold 30 [] (write_at 3 30) two_writes).entries
    ≡ write_at 2 20 ∷ write_at 3 30 ∷ []
unfolding buffer_write add_write fill_defaults limit_bytes limit_writes evict_writes evict_loop
    evict_one less matches key_eq key_of write_size count_total_writes
evicts_oldest = refl

two_writes-Distinct : Distinct two_writes.entries
unfolding matches key_eq key_of
two_writes-Distinct = (refl, (refl, tt))

two_writes-IsCovered : IsCovered two_writes
unfolding write_size
two_writes-IsCovered = record { distinct = two_writes-Distinct; covered = omega arith }

one_write-IsExact : IsExact one_write
unfolding write_size
one_write-IsExact = record { distinct = (refl, tt); exact = refl }

evict_writes-Drops_example :
    (gone : List Entry) × Drops 1 0 two_writes (evict_writes insertion 1 0 two_writes) gone
evict_writes-Drops_example = evict_writes-Drops insertion 1 0 two_writes two_writes-Distinct

run-IsCovered_example : IsCovered (
    run insertion equal_fold
      (buffers 10 [] (write_at 1 10) ∷ flushes all_healthy none ∷ cleans 50 ∷ removes (1 ∷ []) ∷ [])
      (new_write_buffer small))
run-IsCovered_example =
    run-IsCovered insertion equal_fold small
      (buffers 10 [] (write_at 1 10) ∷ flushes all_healthy none ∷ cleans 50 ∷ removes (1 ∷ []) ∷ [])

absent :
    has (key_of (fill_defaults equal_fold 20 [] small (write_at 2 20))) (2 ∷ []) one_write.entries
    ≡ false
unfolding fill_defaults matches key_eq key_of
absent = refl

one_write-HasRoom :
    HasRoom (write_size (fill_defaults equal_fold 20 [] small (write_at 1 20))) one_write
unfolding write_size fill_defaults
one_write-HasRoom = (inr (omega arith), inr (omega arith))

one_write_held :
    find (key_of (fill_defaults equal_fold 20 [] small (write_at 1 20))) (1 ∷ []) one_write.entries
    ≡ some (write_at 1 10)
unfolding fill_defaults matches key_eq key_of
one_write_held = refl

buffer_write-IsExact_example :
    IsExact (buffer_write insertion equal_fold 20 [] (write_at 2 20) one_write)
unfolding fill_defaults
buffer_write-IsExact_example =
    buffer_write-IsExact insertion equal_fold 20 [] (write_at 2 20) one_write absent
      one_write-IsExact

buffer_write_again_example :
    (buffer_write insertion equal_fold 20 [] (write_at 1 20) one_write).current_buffer_size_bytes
    ≡ stored (buffer_write insertion equal_fold 20 [] (write_at 1 20) one_write).entries
      + write_size (write_at 1 10)
unfolding fill_defaults
buffer_write_again_example =
    buffer_write_again insertion equal_fold 20 [] (write_at 1 20) (write_at 1 10) one_write
      one_write-HasRoom one_write-IsExact one_write_held

buffer_write_count_example :
    length (buffer_write insertion equal_fold 30 [] (write_at 3 30) two_writes).entries ≤ 2
buffer_write_count_example =
    buffer_write_count insertion equal_fold 30 [] (write_at 3 30) two_writes two_writes-IsCovered
      (omega arith) (omega arith)

buffer_write_bytes_example :
    ((buffer_write insertion equal_fold 30 [] (write_at 3 30) two_writes).current_buffer_size_bytes
      ≤ 10)
    ⊎ ((buffer_write insertion equal_fold 30 [] (write_at 3 30) two_writes).entries
        ≡ record {
          key = key_of (fill_defaults equal_fold 30 [] small (write_at 3 30));
          write = fill_defaults equal_fold 30 [] small (write_at 3 30);
        }
          ∷ [])
buffer_write_bytes_example =
    buffer_write_bytes insertion equal_fold 30 [] (write_at 3 30) two_writes two_writes-IsCovered
      (omega arith)

flush_buffer_lem_example :
    TakesOut (flushed all_healthy none) two_writes 0 (flush_buffer all_healthy none two_writes)
flush_buffer_lem_example = flush_buffer_lem all_healthy none two_writes

get_buffer_stats_lem_example :
    let s = get_buffer_stats two_writes in
    (s.total_buffered_writes ≡ length two_writes.entries)
    × (sum s.partition_stats ≡ length two_writes.entries)
    × (sum s.table_stats ≡ length two_writes.entries)
    × (s.pending_writes + s.retrying_writes + s.failed_writes ≤ length two_writes.entries)
    × ((two_writes.entries ≡ [])
        ⊎ (All (λ e. s.oldest_write_time ≤ e.write.created_at) two_writes.entries
            × (any (λ e. e.write.created_at == s.oldest_write_time) two_writes.entries ≡ true)))
get_buffer_stats_lem_example = get_buffer_stats_lem two_writes
