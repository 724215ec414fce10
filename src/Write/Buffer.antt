-- ===== src/Write/Buffer.antt =====
-- buffer.go: the operations of `WriteBufferImpl`. The caller holds the mutex, so each is one step.
-- `now` is what the clock reads in the call, and `fresh_id` the id that is made from it.
pub mod Accounting
pub mod Capacity
pub mod Flush
pub mod Queries
pub mod Stats
use staravail.Common.{
  ℕ, zero, suc, ◌+◌, ◌-◌, ◌*◌, List, [], ◌∷◌, ◌++◌, length, take, drop, map, Text, text_eq,
}
use staravail.Common.{
  Bool, true, false, not, ◌&&◌, ◌||◌, ltb, leb, ◌==◌, if◌then◌else◌, Option, none, some,
}
use staravail.Write.Types.{
  BufferedWriteStatus, unset, pending, retrying, failed, BufferedWrite, BufferKey, key_eq, key_of,
  write_size, WriteBufferConfig, Entry, WriteBuffer,
}
use staravail.Write.Entries.{reject, delete_entry, put_entry, stored}
use staravail.Write.Entries.Sizes.{accept}
use staravail.Write.Sort.{SortSlice}
use staravail.Write.Evict.{evict_writes}

-- The interface to the health checker, which the repository calls and does not define: `none` for
-- an error.
pub record HealthChecker : Type 0 where
  pub partition_health : Text → Text → Text → Option Bool
  pub bucket_health : Text → Text → ℕ → Option Bool

unfoldable pub new_write_buffer : WriteBufferConfig → WriteBuffer
new_write_buffer config = record { config = config; entries = []; current_buffer_size_bytes = 0 }

-- The loop over the high priority tables. `equal_fold` is `strings.EqualFold`.
unfoldable pub priority_among : (Text → Text → Bool) → ℕ → Text → List Text → ℕ
priority_among equal_fold default_priority table [] = default_priority
priority_among equal_fold default_priority table (t ∷ ts) =
    let rest = priority_among equal_fold default_priority table ts in
    if equal_fold table t then default_priority + 100 else rest

unfoldable pub get_write_priority : (Text → Text → Bool) → WriteBufferConfig → Text → ℕ
get_write_priority equal_fold config table =
    priority_among equal_fold config.default_write_priority table config.high_priority_tables

abbrev pub is_unset : BufferedWriteStatus → Bool
is_unset unset = true
is_unset _ = false

-- `time.Hour` in nanoseconds
abbrev pub hour : ℕ
hour = 3600000000000

-- "Set default values if not provided"
unfoldable pub fill_defaults :
    (Text → Text → Bool) → ℕ → Text → WriteBufferConfig → BufferedWrite → BufferedWrite
fill_defaults equal_fold now fresh_id config w = record w {
  id = if text_eq w.id [] then fresh_id else w.id;
  created_at = if w.created_at == 0 then now else w.created_at;
  status = if is_unset w.status then pending else w.status;
  priority =
      if w.priority == 0 then get_write_priority equal_fold config w.table_name else w.priority;
  expires_at =
      if w.expires_at == 0 then now + config.write_expiration_hours * hour else w.expires_at;
}

unfoldable pub count_total_writes : WriteBuffer → ℕ
count_total_writes b = length b.entries

-- "Check if we've exceeded the maximum number of writes"
unfoldable pub limit_writes : SortSlice → ℕ → WriteBuffer → WriteBuffer
unfolding count_total_writes
limit_writes s size b =
    if ltb 0 b.config.max_buffered_writes && leb b.config.max_buffered_writes (count_total_writes b)
    then evict_writes s 1 size b
    else b

-- "Check if we've exceeded the maximum buffer size"
unfoldable pub limit_bytes : SortSlice → ℕ → WriteBuffer → WriteBuffer
limit_bytes s size b =
    if ltb 0 b.config.max_buffer_size_bytes
      && ltb b.config.max_buffer_size_bytes (b.current_buffer_size_bytes + size)
    then evict_writes s 0 (b.current_buffer_size_bytes + size - b.config.max_buffer_size_bytes) b
    else b

-- "Add the write to the buffer", and its size to the account.
unfoldable pub add_write : BufferedWrite → WriteBuffer → WriteBuffer
add_write w b = record b {
  entries = put_entry (key_of w) w b.entries;
  current_buffer_size_bytes = b.current_buffer_size_bytes + write_size w;
}

-- The error of the Go function is nil on every path, since that of the eviction is.
unfoldable pub buffer_write :
    SortSlice → (Text → Text → Bool) → ℕ → Text → BufferedWrite → WriteBuffer → WriteBuffer
buffer_write s equal_fold now fresh_id write b =
    let w = fill_defaults equal_fold now fresh_id b.config write in
    add_write w (limit_bytes s (write_size w) (limit_writes s (write_size w) b))

unfoldable pub is_tablet_healthy : HealthChecker → BufferKey → Option Bool
is_tablet_healthy h k = elim (h.partition_health k.database_name k.table_name k.partition_name) [
  | none ↦ none
  | some partition ↦ elim (h.bucket_health k.database_name k.table_name k.bucket_id) [
    | none ↦ none
    | some bucket ↦ some (partition && bucket)
  ]
]

-- An error counts as unhealthy: both `continue`.
abbrev pub flushable : Option Bool → Bool
flushable (some true) = true
flushable _ = false

abbrev pub under : BufferKey → Entry → Bool
under key e = key_eq e.key key

-- Drops the entries that pass the test, each with its size, and counts them: the loops of the
-- flush and of the expiry over the writes of a key.
unfoldable pub drop_where : (Entry → Bool) → WriteBuffer × ℕ → WriteBuffer × ℕ
drop_where test (b, count) = (
  record b {
    entries = reject test b.entries;
    current_buffer_size_bytes = b.current_buffer_size_bytes - stored (accept test b.entries);
  },
  count + length (accept test b.entries),
)

-- "Process each key"
unfoldable pub flush_keys : HealthChecker → List BufferKey → WriteBuffer × ℕ → WriteBuffer × ℕ
flush_keys h [] state = state
flush_keys h (k ∷ ks) state =
    flush_keys h ks
      (if flushable (is_tablet_healthy h k) then drop_where (under k) state else state)

abbrev pub in_keys : BufferKey → List BufferKey → Bool
in_keys key [] = false
in_keys key (k ∷ ks) = key_eq key k || in_keys key ks

-- The keys of the map.
unfoldable pub keys_of : List Entry → List BufferKey
keys_of [] = []
keys_of (e ∷ es) = let rest = keys_of es in if in_keys e.key rest then rest else e.key ∷ rest

abbrev pub keys_to_flush : Option BufferKey → List Entry → List BufferKey
keys_to_flush none es = keys_of es
keys_to_flush (some k) es = if in_keys k (keys_of es) then k ∷ [] else []

-- The number of writes flushed. The error of the Go function is nil.
unfoldable pub flush_buffer : HealthChecker → Option BufferKey → WriteBuffer → WriteBuffer × ℕ
flush_buffer h key b = flush_keys h (keys_to_flush key b.entries) (b, 0)

-- `now.After(write.ExpiresAt)`
unfoldable pub clean_expired_writes : ℕ → WriteBuffer → WriteBuffer × ℕ
unfolding drop_where
clean_expired_writes now b = drop_where (λ e. ltb e.write.expires_at now) (b, 0)

-- The first entry with the id, in the order of the range over the keys.
unfoldable pub find_id : Text → List Entry → Option Entry
find_id id [] = none
find_id id (e ∷ es) = let rest = find_id id es in if text_eq e.write.id id then some e else rest

-- `false` for the error "not found".
unfoldable pub remove_buffered_write : Text → WriteBuffer → WriteBuffer × Bool
remove_buffered_write id b = elim (find_id id b.entries) [
  | none ↦ (b, false)
  | some e ↦ (
    record b {
      entries = delete_entry e.key id b.entries;
      current_buffer_size_bytes = b.current_buffer_size_bytes - write_size e.write;
    },
    true,
  )
]

abbrev pub is_retrying : BufferedWriteStatus → Bool
is_retrying retrying = true
is_retrying _ = false

-- The assignments through the pointer to the write.
unfoldable pub with_status : ℕ → BufferedWriteStatus → Option Text → BufferedWrite → BufferedWrite
with_status now status err w =
    let w' = record w { status = status; error = elim err [ none ↦ w.error | some e ↦ e ] } in
    if is_retrying status
    then record w' { last_retry_at = now; retry_count = w.retry_count + 1 }
    else w'

unfoldable pub update_id : Text → (BufferedWrite → BufferedWrite) → List Entry → List Entry
update_id id f [] = []
update_id id f (e ∷ es) =
    let rest = update_id id f es in
    if text_eq e.write.id id then record e { write = f e.write } ∷ es else e ∷ rest

abbrev pub is_found : Option Entry → Bool
is_found none = false
is_found (some e) = true

-- `false` for the error "not found", which leaves everything as it was.
unfoldable pub update_buffered_write_status :
    ℕ → Text → BufferedWriteStatus → Option Text → WriteBuffer → WriteBuffer × Bool
update_buffered_write_status now id status err b = (
  record b { entries = update_id id (with_status now status err) b.entries },
  is_found (find_id id b.entries),
)

-- "Sort by creation time (newest first)"
unfoldable pub newer : Entry → Entry → Bool
newer c d = ltb d.write.created_at c.write.created_at

-- The writes under a key, or all.
abbrev pub selected : Option BufferKey → List Entry → List Entry
selected none es = es
selected (some k) es = accept (under k) es

-- "Apply pagination". A limit of 0 stands for any that is not positive.
unfoldable pub paginate : ℕ → ℕ → List Entry → List BufferedWrite
paginate limit offset all_writes =
    let total = length all_writes in
    if leb total offset
    then []
    else (let end = if ltb total (offset + limit) || limit == 0 then total else offset + limit in
        map Entry.write (take (end - offset) (drop offset all_writes)))

-- One listing. Go goes through its maps in another order each time, and its sort is not stable, so
-- `s` and the order of the entries are those of one call: another call may list equal times in
-- another order.
unfoldable pub get_buffered_writes :
    SortSlice → Option BufferKey → ℕ → ℕ → WriteBuffer → List BufferedWrite
get_buffered_writes s key limit offset b =
    paginate limit offset (s.sort newer (selected key b.entries))
