-- ===== src/Write/Buffer/Capacity.antt =====
-- The limits on the number and on the size of the writes.
use staravail.Common.{ℕ, ◌+◌, ◌-◌, ◌≤◌, ◌<◌, ◌≡◌, ◌⊎◌, refl, ap, arith}
use staravail.Common.{[], ◌∷◌, length, length-append, Text, Bool, ◌&&◌, ltb, leb}
use staravail.Common.{Bool-cases, inl, inr}
use staravail.Write.Types.{WriteBuffer, WriteBufferConfig, BufferedWrite, write_size, key_of}
use staravail.Write.Entries.Permutations.{stored-perm, length-perm}
use staravail.Write.Entries.Sizes.{length-put_entry}
use staravail.Write.Sort.{SortSlice}
use staravail.Write.Evict.{evict_writes}
use staravail.Write.Evict.Order.{evict_writes-Drops}
use staravail.Write.Evict.Amount.{evict_one_write, evict_bytes}
use staravail.Write.Buffer.{limit_writes, limit_bytes, add_write, fill_defaults, buffer_write}
use staravail.Write.Buffer.Accounting.{IsCovered, evict_writes-IsCovered, stored-append}

module _ (s : SortSlice) where
  evict_shrinks :
      (count bytes : ℕ) (b : WriteBuffer)
      → IsCovered b
      → (length (evict_writes s count bytes b).entries ≤ length b.entries)
        × ((evict_writes s count bytes b).config ≡ b.config)
  evict_shrinks count bytes b v =
      let (gone, d) = evict_writes-Drops s count bytes b v.distinct in
      (
        omega (
          arith,
          length-perm d.all_accounted,
          length-append gone (evict_writes s count bytes b).entries,
        ),
        d.config_kept,
      )

  -- Behind the first test there is room for one more write, where the limit was kept before.
  limit_writes_room :
      (size : ℕ) (b : WriteBuffer)
      → IsCovered b
      → 0 < b.config.max_buffered_writes
      → length b.entries ≤ b.config.max_buffered_writes
      → let b' = limit_writes s size b in
        (length b'.entries < b.config.max_buffered_writes) × (b'.config ≡ b.config) × IsCovered b'
  unfolding limit_writes
  limit_writes_room size b v pos h =
      elim (Bool-cases (
        ltb 0 b.config.max_buffered_writes
        && leb b.config.max_buffered_writes (length b.entries))) [
          | inl full ↦ rw full (
            omega (arith, evict_one_write s b v.distinct size (ground (arith, full)), h),
            (evict_shrinks 1 size b v).1,
            evict_writes-IsCovered s 1 size b v,
          )
          | inr free ↦ rw free (ground (arith, free), refl, v)
        ]

  limit_bytes_shrinks :
      (size : ℕ) (b : WriteBuffer)
      → IsCovered b
      → length (limit_bytes s size b).entries ≤ length b.entries
  unfolding limit_bytes
  limit_bytes_shrinks size b v = ground (
    arith,
    evict_shrinks 0 (b.current_buffer_size_bytes + size - b.config.max_buffer_size_bytes) b v,
  )

  -- A buffer with one write for a key and id, whose account covers its writes, that keeps a
  -- positive limit on the number of writes keeps it behind another write.
  pub buffer_write_count :
      (equal_fold : Text → Text → Bool) (now : ℕ) (fresh_id : Text) (write : BufferedWrite)
      (b : WriteBuffer)
      → IsCovered b
      → 0 < b.config.max_buffered_writes
      → length b.entries ≤ b.config.max_buffered_writes
      → length (buffer_write s equal_fold now fresh_id write b).entries
        ≤ b.config.max_buffered_writes
  unfolding buffer_write add_write
  buffer_write_count equal_fold now fresh_id write b v pos h =
      let w = fill_defaults equal_fold now fresh_id b.config write in
      let (room, kept, v') = limit_writes_room (write_size w) b v pos h in
      let b' = limit_bytes s (write_size w) (limit_writes s (write_size w) b) in
      omega (
        arith,
        room,
        limit_bytes_shrinks (write_size w) (limit_writes s (write_size w) b) v',
        length-put_entry (key_of w) w b'.entries,
      )

  -- Behind the second test the write fits, or nothing is left.
  limit_bytes_room :
      (size : ℕ) (b : WriteBuffer)
      → IsCovered b
      → 0 < b.config.max_buffer_size_bytes
      → let b' = limit_bytes s size b in
        (b'.current_buffer_size_bytes + size ≤ b.config.max_buffer_size_bytes) ⊎ (b'.entries ≡ [])
  unfolding limit_bytes
  limit_bytes_room size b v pos =
      elim (Bool-cases (
        ltb 0 b.config.max_buffer_size_bytes
        && ltb b.config.max_buffer_size_bytes (b.current_buffer_size_bytes + size))) [
          | inl over ↦
              let excess = b.current_buffer_size_bytes + size - b.config.max_buffer_size_bytes in
              let b' = evict_writes s 0 excess b in
              let (gone, d) = evict_writes-Drops s 0 excess b v.distinct in
              let more : 0 < excess = ground (arith, over) in
              rw over (elim (evict_bytes s b v.distinct excess more) [
                | inl frees ↦ inl (
                    omega (
                      arith,
                      frees,
                      d.account,
                      stored-perm d.all_accounted,
                      stored-append gone b'.entries,
                      v.covered,
                    ))
                | inr empty ↦ inr empty
              ])
          | inr fits ↦ rw fits (inl (ground (arith, fits)))
        ]

  limit_writes_keeps :
      (size : ℕ) (b : WriteBuffer)
      → IsCovered b
      → ((limit_writes s size b).config ≡ b.config) × IsCovered (limit_writes s size b)
  unfolding limit_writes
  limit_writes_keeps size b v =
      elim (Bool-cases (
        ltb 0 b.config.max_buffered_writes
        && leb b.config.max_buffered_writes (length b.entries))) [
          | inl full ↦ rw full ((evict_shrinks 1 size b v).1, evict_writes-IsCovered s 1 size b v)
          | inr free ↦ rw free (refl, v)
        ]

  -- In a buffer with one write for a key and id, whose account covers its writes, and with a
  -- positive limit on the bytes, the account keeps the limit behind another write, or that write
  -- stands alone in the buffer.
  pub buffer_write_bytes :
      (equal_fold : Text → Text → Bool) (now : ℕ) (fresh_id : Text) (write : BufferedWrite)
      (b : WriteBuffer)
      → IsCovered b
      → 0 < b.config.max_buffer_size_bytes
      → let w = fill_defaults equal_fold now fresh_id b.config write in
        let b' = buffer_write s equal_fold now fresh_id write b in
        (b'.current_buffer_size_bytes ≤ b.config.max_buffer_size_bytes)
        ⊎ (b'.entries ≡ record { key = key_of w; write = w } ∷ [])
  unfolding buffer_write add_write
  buffer_write_bytes equal_fold now fresh_id write b v pos =
      let w = fill_defaults equal_fold now fresh_id b.config write in
      let b₁ = limit_writes s (write_size w) b in
      let (kept, v₁) = limit_writes_keeps (write_size w) b v in
      let limit : b₁.config.max_buffer_size_bytes ≡ b.config.max_buffer_size_bytes =
        ap (λ (c : WriteBufferConfig). c.max_buffer_size_bytes) kept in
      elim (limit_bytes_room (write_size w) b₁ v₁ (omega (arith, limit))) [
        | inl fits ↦ inl (omega (arith, fits, limit))
        | inr empty ↦ inr (rw empty refl)
      ]
