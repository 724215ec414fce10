-- ===== src/Write/Buffer/Accounting/Steps.antt =====
-- The account over any sequence of operations, and where it is exact.
use staravail.Common.{ℕ, ◌+◌, ◌≤◌, ◌<◌, ◌≡◌, refl, sym, ap, ◌∙◌, arith}
use staravail.Common.{List, [], ◌∷◌, ◌++◌, length, Text, Bool, false, ◌&&◌, ltb, leb}
use staravail.Common.{Option, some, ◌⊎◌}
use staravail.Write.Types.{
  WriteBuffer, WriteBufferConfig, Entry, BufferedWrite, BufferedWriteStatus, BufferKey, write_size,
  key_of,
}
use staravail.Write.Entries.{stored, has}
use staravail.Write.Entries.Permutations.{has-perm}
use staravail.Write.Entries.Sizes.{find, stored-put_old}
use staravail.Write.Sort.{SortSlice}
use staravail.Write.Evict.{evict_writes}
use staravail.Write.Evict.Order.{evict_writes-Drops}
use staravail.Write.Buffer.{
  HealthChecker, new_write_buffer, limit_writes, limit_bytes, add_write, fill_defaults,
  buffer_write, flush_buffer, clean_expired_writes, remove_buffered_write,
  update_buffered_write_status,
}
use staravail.Write.Buffer.Accounting.{
  IsCovered, IsExact, evict_writes-IsExact, limits_keep, add_write-IsExact, buffer_write-IsCovered,
}
use staravail.Write.Buffer.Accounting.Removals.{
  flush_buffer-IsCovered, clean_expired_writes-IsCovered, remove_buffered_write-IsCovered,
  update_buffered_write_status-IsCovered,
}

-- The calls that change the buffer, with what the clock and the health checker answer in them.
pub data Operation : Type 0 where
  buffers : ℕ → Text → BufferedWrite → Operation
  flushes : HealthChecker → Option BufferKey → Operation
  cleans : ℕ → Operation
  removes : Text → Operation
  updates : ℕ → Text → BufferedWriteStatus → Option Text → Operation

module _ (s : SortSlice) (equal_fold : Text → Text → Bool) where
  unfoldable pub step : Operation → WriteBuffer → WriteBuffer
  step (buffers now fresh_id w) b = buffer_write s equal_fold now fresh_id w b
  step (flushes h key) b = (flush_buffer h key b).0
  step (cleans now) b = (clean_expired_writes now b).0
  step (removes id) b = (remove_buffered_write id b).0
  step (updates now id status err) b = (update_buffered_write_status now id status err b).0

  unfoldable pub run : List Operation → WriteBuffer → WriteBuffer
  unfolding step
  run [] b = b
  run (o ∷ os) b = run os (step o b)

  step-IsCovered : (o : Operation) (b : WriteBuffer) → IsCovered b → IsCovered (step o b)
  unfolding step
  step-IsCovered (buffers now fresh_id w) b v =
      buffer_write-IsCovered s equal_fold now fresh_id w b v
  step-IsCovered (flushes h key) b v = flush_buffer-IsCovered h key b v
  step-IsCovered (cleans now) b v = clean_expired_writes-IsCovered now b v
  step-IsCovered (removes id) b v = remove_buffered_write-IsCovered id b v
  step-IsCovered (updates now id status err) b v =
      update_buffered_write_status-IsCovered now id status err b v

  run_from-IsCovered : (os : List Operation) (b : WriteBuffer) → IsCovered b → IsCovered (run os b)
  unfolding run
  run_from-IsCovered [] b v = v
  run_from-IsCovered (o ∷ os) b v = run_from-IsCovered os (step o b) (step-IsCovered o b v)

  -- After any sequence of calls on a new buffer, no key and id has two writes, and the account is
  -- at least the size of the writes that the buffer holds.
  pub run-IsCovered :
      (config : WriteBufferConfig) (os : List Operation)
      → IsCovered (run os (new_write_buffer config))
  unfolding new_write_buffer
  run-IsCovered config os =
      run_from-IsCovered os (new_write_buffer config)
        (record { distinct = tt; covered = omega arith })

has-append_right :
    (key : BufferKey) (id : Text) (es fs : List Entry)
    → has key id (es ++ fs) ≡ false
    → has key id fs ≡ false
has-append_right key id [] fs h = h
has-append_right key id (e ∷ es) fs h = has-append_right key id es fs (ground arith)

-- Exact, and without a write under this key and id.
record IsNew (key : BufferKey) (id : Text) (b : WriteBuffer) : Type 0 where
  exact : IsExact b
  absent : has key id b.entries ≡ false

evict_writes-IsNew :
    (s : SortSlice) (key : BufferKey) (id : Text) (count bytes : ℕ) (b : WriteBuffer)
    → IsNew key id b
    → IsNew key id (evict_writes s count bytes b)
evict_writes-IsNew s key id count bytes b v =
    let b' = evict_writes s count bytes b in
    let (gone, d) = evict_writes-Drops s count bytes b v.exact.distinct in
    record {
      exact = evict_writes-IsExact s count bytes b v.exact;
      absent =
          has-append_right key id gone b'.entries
            (sym (has-perm key id d.all_accounted) ∙ v.absent);
    }

-- When the account is exactly the size of the stored writes, and the write, with its defaults
-- filled in, is not in the buffer under its key and id, the account is exact again behind the
-- call.
pub buffer_write-IsExact :
    (s : SortSlice) (equal_fold : Text → Text → Bool) (now : ℕ) (fresh_id : Text)
    (write : BufferedWrite) (b : WriteBuffer)
    → let w = fill_defaults equal_fold now fresh_id b.config write in
      has (key_of w) w.id b.entries ≡ false
      → IsExact b
      → IsExact (buffer_write s equal_fold now fresh_id write b)
unfolding buffer_write
buffer_write-IsExact s equal_fold now fresh_id write b absent v =
    let w = fill_defaults equal_fold now fresh_id b.config write in
    let room =
      limits_keep (IsNew (key_of w) w.id) s (write_size w) (evict_writes-IsNew s (key_of w) w.id) b
        (record { exact = v; absent = absent }) in
    add_write-IsExact w _ room.absent room.exact

-- Neither limit asks for an eviction before a write of this size.
abbrev pub HasRoom : ℕ → WriteBuffer → Type 0
HasRoom size b =
    ((b.config.max_buffered_writes ≡ 0) ⊎ (length b.entries < b.config.max_buffered_writes))
    × ((b.config.max_buffer_size_bytes ≡ 0)
        ⊎ (b.current_buffer_size_bytes + size ≤ b.config.max_buffer_size_bytes))

room_kept :
    (s : SortSlice) (size : ℕ) (b : WriteBuffer)
    → HasRoom size b
    → limit_bytes s size (limit_writes s size b) ≡ b
room_kept s size b h = ap (limit_bytes s size) count_fits ∙ bytes_fit
  where
    count_off :
        (ltb 0 b.config.max_buffered_writes && leb b.config.max_buffered_writes (length b.entries))
        ≡ false
    count_off = ground (arith, h.0)

    count_fits : limit_writes s size b ≡ b
    count_fits = unfold limit_writes in rw count_off refl

    bytes_off :
        (ltb 0 b.config.max_buffer_size_bytes
          && ltb b.config.max_buffer_size_bytes (b.current_buffer_size_bytes + size))
        ≡ false
    bytes_off = ground (arith, h.1)

    bytes_fit : limit_bytes s size b ≡ b
    bytes_fit = unfold limit_bytes in rw bytes_off refl

-- When the account is exact, and the write replaces an old one under its key and id, in a buffer
-- with room for one more, the account is afterwards too large by the size of the old write.
pub buffer_write_again :
    (s : SortSlice) (equal_fold : Text → Text → Bool) (now : ℕ) (fresh_id : Text)
    (write old : BufferedWrite) (b : WriteBuffer)
    → let w = fill_defaults equal_fold now fresh_id b.config write in
      HasRoom (write_size w) b
      → IsExact b
      → find (key_of w) w.id b.entries ≡ some old
      → let b' = buffer_write s equal_fold now fresh_id write b in
        b'.current_buffer_size_bytes ≡ stored b'.entries + write_size old
unfolding buffer_write
buffer_write_again s equal_fold now fresh_id write old b room v held =
    let w = fill_defaults equal_fold now fresh_id b.config write in
    rw (room_kept s (write_size w) b room)
      (unfold add_write in omega (arith, stored-put_old (key_of w) w old b.entries held, v.exact))
