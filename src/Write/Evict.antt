-- ===== src/Write/Evict.antt =====
-- buffer.go, `evictWritesLocked`: makes room by dropping writes in the order of the policy.
pub mod Loop
pub mod Order
pub mod Amount
use staravail.Common.{ℕ, ◌+◌, ◌-◌, ◌<◌, List, [], ◌∷◌, length, Bool, true, false, ◌&&◌, ◌||◌}
use staravail.Common.{ltb, leb, ◌==◌, if◌then◌else◌, ◌≡◌, ◌≢◌}
use staravail.Write.Types.{
  BufferedWrite, EvictionPolicy, oldest, least_retried, lowest_priority, other, Entry, WriteBuffer,
  write_size,
}
use staravail.Write.Entries.{delete_entry}
use staravail.Write.Sort.{SortSlice}

-- The order of eviction.
unfoldable pub less : EvictionPolicy → Entry → Entry → Bool
less oldest c d = ltb c.write.created_at d.write.created_at
less least_retried c d = ltb c.write.retry_count d.write.retry_count
less lowest_priority c d =
    if c.write.priority == d.write.priority
    then ltb c.write.created_at d.write.created_at
    else ltb c.write.priority d.write.priority
less other c d = ltb c.write.created_at d.write.created_at

-- One round of the loop: the write leaves the buffer, and its size the account.
unfoldable pub evict_one : Entry → WriteBuffer → WriteBuffer
evict_one c b = record b {
  entries = delete_entry c.key c.write.id b.entries;
  current_buffer_size_bytes = b.current_buffer_size_bytes - write_size c.write;
}

-- "Check if we've evicted enough"
abbrev pub enough : ℕ → ℕ → ℕ → ℕ → Bool
enough count_to_evict bytes_to_free evicted freed =
    ltb 0 count_to_evict && leb count_to_evict evicted
    || ltb 0 bytes_to_free && leb bytes_to_free freed

-- The loop over the candidates, with `evictedCount` and `freedBytes`.
unfoldable pub evict_loop : ℕ → ℕ → ℕ → ℕ → List Entry → WriteBuffer → WriteBuffer
evict_loop count_to_evict bytes_to_free evicted freed [] b = b
evict_loop count_to_evict bytes_to_free evicted freed (c ∷ cs) b =
    let b' = evict_one c b in
    let rest =
      evict_loop count_to_evict bytes_to_free (evicted + 1) (freed + write_size c.write) cs b' in
    if enough count_to_evict bytes_to_free (evicted + 1) (freed + write_size c.write)
    then b'
    else rest

-- The error of the Go function is nil on every path.
unfoldable pub evict_writes : SortSlice → ℕ → ℕ → WriteBuffer → WriteBuffer
evict_writes s count_to_evict bytes_to_free b =
    if count_to_evict == 0 && bytes_to_free == 0
    then b
    else evict_loop count_to_evict bytes_to_free 0 0
        (s.sort (less b.config.eviction_policy) b.entries) b
