-- ===== src/Protocol/Packet.antt =====
-- protocol.go: packets over a connection. `MySQLProtocol` holds the connection and the sequence
-- number; a method that changes them returns the new record with its result.
pub mod Framing
pub mod Loop
pub mod RoundTrip
pub mod FullPackets
use staravail.Common.{
  ℕ, zero, suc, ◌+◌, ◌-◌, ◌*◌, ◌%◌, ◌^◌, List, [], ◌∷◌, ◌++◌, length, take, drop,
}
use staravail.Common.{Bool, true, false, not, ltb, leb, ◌==◌, if◌then◌else◌, Option, none, some}
use staravail.Protocol.Base.{
  Result, ok, err, panic, stuck, malformed_packet, connection_closed, header_read, data_read,
  header_write, data_write, packet_too_large, invalid_sequence, bytes_le, ◌>>=◌,
}

-- `incoming` is what the peer sends until it closes. `outcome i` is the answer of the connection to
-- the i-th Write: `none` when the whole slice is written, `some k` for an error behind k bytes.
pub record MySqlProtocol : Type 0 where
  pub incoming : List ℕ
  pub outgoing : List ℕ
  pub writes : ℕ
  pub outcome : ℕ → Option ℕ
  pub sequence : ℕ  -- uint8
  pub max_packet_size : ℕ

-- The largest payload of one packet.
abbrev pub full_packet : ℕ
full_packet = 0xffffff

-- `16 * 1024 * 1024`
abbrev pub default_max_packet_size : ℕ
default_max_packet_size = 16777216

-- `NewMySQLProtocol`, over a connection given by what it sends and how it takes writes.
pub new_mysql_protocol : List ℕ → (ℕ → Option ℕ) → MySqlProtocol
new_mysql_protocol incoming outcome = record {
  incoming = incoming;
  outgoing = [];
  writes = 0;
  outcome = outcome;
  sequence = 0;
  max_packet_size = default_max_packet_size;
}

-- `p.sequence++` on a uint8
abbrev pub next_sequence : ℕ → ℕ
next_sequence s = (s + 1) % 256

-- `io.ReadFull(p.conn, data)` and the test for a packet that another one continues. The payload
-- comes with `true` when one more packet belongs to it. `full` is 0xffffff in the source.
unfoldable pub read_body : ℕ → ℕ → MySqlProtocol → MySqlProtocol × Result (List ℕ × Bool)
read_body full len p =
    if ltb (length p.incoming) len
    then (record p { incoming = [] }, err data_read)
    else (record p { incoming = drop len p.incoming }, ok (take len p.incoming, len == full))

-- The checks on a header with payload length `len` and sequence number `seq`.
unfoldable pub check_header : ℕ → ℕ → ℕ → MySqlProtocol → MySqlProtocol × Result (List ℕ × Bool)
unfolding read_body
check_header full len seq p =
    if len == 0
    then (p, ok ([], false))
    else if ltb p.max_packet_size len
    then (p, err packet_too_large)
    else if not (seq == p.sequence)
    then (p, err invalid_sequence)
    else read_body full len (record p { sequence = next_sequence p.sequence })

-- `io.ReadFull(p.conn, headerBuf)`: four bytes, EOF on none, another error on fewer.
unfoldable pub read_header : ℕ → List ℕ → MySqlProtocol → MySqlProtocol × Result (List ℕ × Bool)
unfolding check_header
read_header full [] p = (p, err connection_closed)
read_header full (b₀ ∷ b₁ ∷ b₂ ∷ seq ∷ rest) p =
    check_header full (b₀ + b₁ * 256 + b₂ * 65536) seq (record p { incoming = rest })
read_header full _ p = (record p { incoming = [] }, err header_read)

-- The recursive call of `readPacket`, and `data = append(data, nextData...)`.
unfoldable pub read_packet_loop : ℕ → ℕ → MySqlProtocol → MySqlProtocol × Result (List ℕ)
read_packet_loop full zero p = (p, stuck)
read_packet_loop full (suc fuel) p =
    let (p', r) = read_header full p.incoming p in
    elim r [
      | ok (bytes, true) ↦
          let (p'', next) = read_packet_loop full fuel p' in
          (p'', (do more ← next; ok (bytes ++ more)))
      | ok (bytes, false) ↦ (p', ok bytes)
      | err e ↦ (p', err e)
      | panic ↦ (p', panic)
      | stuck ↦ (p', stuck)
    ]

-- Every packet takes four bytes at least, so the bytes that are left bound the packets.
unfoldable pub read_packet : MySqlProtocol → MySqlProtocol × Result (List ℕ)
read_packet p = read_packet_loop full_packet (suc (length p.incoming)) p

-- `p.conn.Write(bytes)`: the new state, and whether it succeeded.
unfoldable pub conn_write : MySqlProtocol → List ℕ → MySqlProtocol × Bool
conn_write p bytes = elim (p.outcome p.writes) [
  | none ↦ (record p { outgoing = p.outgoing ++ bytes; writes = suc p.writes }, true)
  | some k ↦ (record p { outgoing = p.outgoing ++ take k bytes; writes = suc p.writes }, false)
]

-- One round of the loop of `writePacket`: the chunk of `size` bytes behind its header.
unfoldable pub write_chunk : ℕ → List ℕ → MySqlProtocol → MySqlProtocol × Result (Unit {0})
unfolding conn_write
write_chunk size chunk p =
    let header = bytes_le 3 size ++ (p.sequence ∷ []) in
    let (p', done) = conn_write (record p { sequence = next_sequence p.sequence }) header in
    elim done [
      | false ↦ (p', err header_write)
      | true ↦
          let (p'', done') = conn_write p' chunk in
          elim done' [ false ↦ (p'', err data_write) | true ↦ (p'', ok tt) ]
    ]

-- The list is `data[pos:]`. The loop ends when nothing of it is left behind the chunk.
unfoldable pub write_packet_loop :
    ℕ → ℕ → List ℕ → MySqlProtocol → MySqlProtocol × Result (Unit {0})
write_packet_loop full zero left p = (p, stuck)
write_packet_loop full (suc fuel) left p =
    let size = if ltb full (length left) then full else length left in
    let (p', r) = write_chunk size (take size left) p in
    elim r [
      | ok u ↦ elim (leb (length left) size) [
        | true ↦ (p', ok tt)
        | false ↦ write_packet_loop full fuel (drop size left) p'
      ]
      | err e ↦ (p', err e)
      | panic ↦ (p', panic)
      | stuck ↦ (p', stuck)
    ]

-- Every round but the last takes a byte at least.
unfoldable pub write_packet : List ℕ → MySqlProtocol → MySqlProtocol × Result (Unit {0})
write_packet bytes p = write_packet_loop full_packet (suc (length bytes)) bytes p

unfoldable pub reset_sequence : MySqlProtocol → MySqlProtocol
reset_sequence p = record p { sequence = 0 }

-- The command byte and the bytes behind it.
unfoldable pub split_command : List ℕ → Result (ℕ × List ℕ)
split_command [] = err malformed_packet
split_command (cmd ∷ rest) = ok (cmd, rest)

unfoldable pub read_command_packet : MySqlProtocol → MySqlProtocol × Result (ℕ × List ℕ)
read_command_packet p =
    let (p', r) = read_packet (reset_sequence p) in (p', (do bytes ← r; split_command bytes))
