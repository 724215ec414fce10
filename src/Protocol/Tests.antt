-- ===== src/Protocol/Tests.antt =====
-- Runs of the wire protocol, and its theorems at concrete inputs.
use staravail.Common.{ℕ, zero, suc, ◌+◌, ◌^◌, ◌≡◌, refl, ap, arith, none}
use staravail.Common.{List, [], ◌∷◌, ◌++◌, length, replicate}
use staravail.Protocol.Base.{ok, err, panic, malformed_packet, connection_closed, invalid_sequence}
use staravail.Protocol.LenEnc.{
  read_length_encoded_integer, write_length_encoded_integer, by_marker, fixed, read_uint16,
}
use staravail.Protocol.LenEnc.RoundTrip.{encoded_size, read-write}
use staravail.Protocol.LenEnc.Bounds.{Decodes, read-Decodes}
use staravail.Protocol.Packet.{
  MySqlProtocol, full_packet, read_packet, write_packet, read_packet_loop, read_header,
  check_header, read_body, write_packet_loop, write_chunk, conn_write, read_command_packet,
  reset_sequence, split_command,
}
use staravail.Protocol.Packet.RoundTrip.{read_packet-write_packet}
use staravail.Protocol.Packet.FullPackets.{read_packet_after_full_packets}
use staravail.Common.{some, true}
use staravail.Protocol.LenEnc.{write_length_encoded_string}
use staravail.Protocol.Rows.{
  Field, column_names, column_payload, Value, nil, string, unsigned, bool, other, Formats,
  value_text, text_row,
}
use staravail.Protocol.Rows.RoundTrip.{read_columns, read_columns-text_row}
use staravail.Protocol.Replies.{ok_payload}
use staravail.Protocol.Replies.Fields.{ok_payload_fields}
use staravail.Protocol.Handshake.{parse_handshake_response}
use staravail.Protocol.Handshake.Totality.{Ends, Returns, parse-Ends}
use staravail.Protocol.Handshake.Safety.{parse-Returns}
use staravail.Protocol.Handshake.Overflow.{response, huge_auth_length_panics}

write_300 : write_length_encoded_integer (9 ∷ []) 300 ≡ 9 ∷ 0xfc ∷ 44 ∷ 1 ∷ []
unfolding write_length_encoded_integer
write_300 = refl

read_null : read_length_encoded_integer (0xfb ∷ []) 0 ≡ ok (0, 1)
unfolding read_length_encoded_integer by_marker fixed
read_null = refl

read_cut : read_length_encoded_integer (0xfc ∷ 1 ∷ []) 0 ≡ err malformed_packet
unfolding read_length_encoded_integer by_marker fixed
read_cut = refl

read-write_example :
    read_length_encoded_integer (write_length_encoded_integer (9 ∷ []) 300 ++ (5 ∷ [])) 1
    ≡ ok (300, encoded_size 300)
read-write_example = read-write (9 ∷ []) (5 ∷ []) 300 (omega arith)

read-Decodes_example :
    Decodes (0xfc ∷ 44 ∷ 1 ∷ []) 0 (read_length_encoded_integer (0xfc ∷ 44 ∷ 1 ∷ []) 0)
read-Decodes_example = read-Decodes (0xfc ∷ 44 ∷ 1 ∷ []) 0 (omega arith)

-- A connection that takes every write, at the start of a session.
abbrev fresh : MySqlProtocol
fresh = record {
  incoming = [];
  outgoing = [];
  writes = 0;
  outcome = λ i. none;
  sequence = 0;
  max_packet_size = 16777216;
}

send_two : (write_packet (7 ∷ 8 ∷ []) fresh).0.outgoing ≡ 2 ∷ 0 ∷ 0 ∷ 0 ∷ 7 ∷ 8 ∷ []
unfolding write_packet write_packet_loop write_chunk conn_write
send_two = refl

read_wrong_sequence :
    (read_packet (record fresh { incoming = 1 ∷ 0 ∷ 0 ∷ 4 ∷ 7 ∷ [] })).1 ≡ err invalid_sequence
unfolding read_packet read_packet_loop read_header check_header read_body
read_wrong_sequence = refl

read_ping :
    (read_command_packet (record fresh { incoming = 1 ∷ 0 ∷ 0 ∷ 0 ∷ 14 ∷ [] })).1 ≡ ok (14, [])
unfolding read_command_packet reset_sequence split_command read_packet read_packet_loop read_header
    check_header read_body
read_ping = refl

read_packet-write_packet_example :
    (w : List ℕ) × (n : ℕ) × (s : ℕ) × (write_packet (7 ∷ 8 ∷ []) fresh
      ≡ (record fresh { outgoing = [] ++ w; writes = n; sequence = s }, ok tt))
    × ((rest : List ℕ)
        → read_packet (record fresh { incoming = w ++ rest; sequence = 0 })
          ≡ (record fresh { incoming = rest; sequence = s }, ok (7 ∷ 8 ∷ [])))
read_packet-write_packet_example =
    read_packet-write_packet (7 ∷ 8 ∷ []) fresh fresh (λ i. refl) (omega arith) (omega arith)

length-replicate : (n : ℕ) → length (replicate {A = ℕ} n 0) ≡ n
length-replicate zero = refl
length-replicate (suc n) = ap suc (length-replicate n)

-- A payload that fills one packet.
sixteen_megabytes : List ℕ
sixteen_megabytes = replicate full_packet 0

sixteen_megabytes_size : length sixteen_megabytes ≡ full_packet
unfolding sixteen_megabytes
sixteen_megabytes_size = length-replicate full_packet

read_packet_after_full_packets_example :
    (w : List ℕ) × (n : ℕ) × (s : ℕ) × (write_packet sixteen_megabytes fresh
      ≡ (record fresh { outgoing = [] ++ w; writes = n; sequence = s }, ok tt))
    × ((read_packet (record fresh { incoming = w; sequence = 0 })).1 ≡ err connection_closed)
read_packet_after_full_packets_example =
    read_packet_after_full_packets sixteen_megabytes fresh fresh (λ i. refl) (omega arith)
      (rw sixteen_megabytes_size refl) (omega (arith, sixteen_megabytes_size))

ok_payload_fields_example :
    let payload = ok_payload 300 7 2 0 in
    (read_length_encoded_integer payload 1 ≡ ok (300, encoded_size 300))
    × (read_length_encoded_integer payload (1 + encoded_size 300) ≡ ok (7, encoded_size 7))
    × (read_uint16 payload (1 + encoded_size 300 + encoded_size 7) ≡ ok 2)
    × (read_uint16 payload (1 + encoded_size 300 + encoded_size 7 + 2) ≡ ok 0)
ok_payload_fields_example =
    ok_payload_fields 300 7 2 0 (omega arith) (omega arith) (omega arith) (omega arith)

-- CLIENT_SECURE_CONNECTION, user `u`, authentication data of one byte.
abbrev plain_response : List ℕ
plain_response = 0 ∷ 128 ∷ 0 ∷ 0 ∷ (replicate 28 0 ++ (b'u' ∷ 0 ∷ 1 ∷ 5 ∷ []))

parse-Ends_example : Ends (parse_handshake_response plain_response)
parse-Ends_example = parse-Ends plain_response (omega arith)

parse-Returns_example : Returns (parse_handshake_response plain_response)
parse-Returns_example =
    parse-Returns plain_response (omega arith) 32768 refl refl refl (omega arith)

huge_auth_length_panics_example :
    parse_handshake_response (
      response 2097152
        (replicate 28 0)
        (b'u' ∷ [])
        (write_length_encoded_integer [] (2 ^ 63) ++ []))
    ≡ panic
unfolding response write_length_encoded_integer
huge_auth_length_panics_example =
    huge_auth_length_panics 2097152 (replicate 28 0) (b'u' ∷ [])
      (write_length_encoded_integer [] (2 ^ 63) ++ []) (omega arith) refl (omega arith) (2 ^ 63) []
      refl (omega arith) (omega arith) refl (omega arith)

abbrev formats : Formats
formats = record {
  signed_text = λ v. 45 ∷ v ∷ [];
  unsigned_text = λ v. v ∷ [];
  float32_text = λ v. 46 ∷ v ∷ [];
  float64_text = λ v. 46 ∷ v ∷ [];
  time_text = λ v. 58 ∷ v ∷ [];
  other_text = λ v. [];
}

abbrev row_values : List Value
row_values = string (65 ∷ 66 ∷ []) ∷ nil ∷ bool true ∷ unsigned 57 ∷ other 0 ∷ []

read_columns-text_row_example :
    read_columns 5 (text_row formats [] row_values) 0
    ≡ ok (some (65 ∷ 66 ∷ []) ∷ none ∷ some (b'1' ∷ []) ∷ some (57 ∷ []) ∷ some [] ∷ [])
unfolding value_text
read_columns-text_row_example =
    read_columns-text_row formats row_values
      (omega arith, (tt, (omega arith, (omega arith, (omega arith, tt)))))

abbrev id_column : Field
id_column = record {
  database = 100 ∷ [];
  table = 116 ∷ [];
  org_table = 116 ∷ [];
  name = 105 ∷ 100 ∷ [];
  org_name = 105 ∷ 100 ∷ [];
  charset = 33;
  length = 11;
  type = 3;
  flags = 0;
  decimals = 0;
}

column_of_id : length (column_payload id_column) ≡ 29
unfolding column_payload column_names write_length_encoded_string write_length_encoded_integer
column_of_id = refl
