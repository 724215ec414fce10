-- ===== src/Protocol/Packet/Framing.antt =====
-- One packet: what `writePacket` sends for a chunk, and how `readPacket` takes it.
use staravail.Common.{ℕ, suc, ◌+◌, ◌*◌, ◌/◌, ◌%◌, ◌^◌, ◌≤◌, ◌<◌, ◌≡◌, arith}
use staravail.Common.{List, [], ◌∷◌, ◌++◌, length, length-append, take-append, drop-append}
use staravail.Common.{true, ◌==◌, ==_refl, none}
use staravail.Protocol.Base.{ok, bytes_le}
use staravail.Protocol.Packet.{
  MySqlProtocol, next_sequence, check_header, read_header, conn_write, write_chunk,
}
use mathlib.Core.List.{append_assoc}

-- A packet on the wire: length, sequence number, payload.
unfoldable pub packet : ℕ → List ℕ → List ℕ
packet seq chunk = bytes_le 3 (length chunk) ++ (seq ∷ chunk)

pub length-packet : (seq : ℕ) (chunk : List ℕ) → length (packet seq chunk) ≡ length chunk + 4
unfolding packet
length-packet seq chunk = omega arith

-- The state behind a packet that was written whole.
unfoldable pub written : ℕ → List ℕ → MySqlProtocol → MySqlProtocol
written n w p = record p {
  outgoing = p.outgoing ++ w;
  writes = p.writes + n;
  sequence = next_sequence p.sequence;
}

conn_write-eq :
    (p : MySqlProtocol) (bytes : List ℕ)
    → p.outcome p.writes ≡ none
    → conn_write p bytes
      ≡ (record p { outgoing = p.outgoing ++ bytes; writes = suc p.writes }, true)
unfolding conn_write
conn_write-eq p bytes e = ground arith

-- Over a connection that takes every write a chunk is sent as one packet.
pub write_chunk-eq :
    (chunk : List ℕ) (p : MySqlProtocol)
    → ((i : ℕ) → p.outcome i ≡ none)
    → write_chunk (length chunk) chunk p ≡ (written 2 (packet p.sequence chunk) p, ok tt)
unfolding write_chunk written packet
write_chunk-eq chunk p sent = ground (
  arith,
  conn_write-eq (record p { sequence = next_sequence p.sequence }) header (sent p.writes),
  conn_write-eq
      (record p {
        sequence = next_sequence p.sequence;
        outgoing = p.outgoing ++ header;
        writes = suc p.writes;
      })
      chunk (sent (suc p.writes)),
  append_assoc p.outgoing header chunk,
)
  where
    header : List ℕ
    header = bytes_le 3 (length chunk) ++ (p.sequence ∷ [])

-- The reader takes a packet with the expected sequence number as it was sent, and stops behind it.
pub read_header-packet :
    (full : ℕ) (chunk rest : List ℕ) (p : MySqlProtocol)
    → 0 < length chunk
    → length chunk < 2 ^ 24
    → length chunk ≤ p.max_packet_size
    → read_header full (packet p.sequence chunk ++ rest) p ≡ (
      record p { incoming = rest; sequence = next_sequence p.sequence },
      ok (chunk, length chunk == full),
    )
unfolding packet read_header
read_header-packet full chunk rest p filled fits allowed =
    let e : length chunk % 256
          + length chunk / 256 % 256 * 256
          + length chunk / 256 / 256 % 256 * 65536
        ≡ length chunk =
      omega arith in
    rw (e, check_header)
      (ground (
        arith,
        ==_refl p.sequence,
        length-append chunk rest,
        take-append chunk rest,
        drop-append chunk rest,
      ))
