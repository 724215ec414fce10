-- ===== src/Protocol/Replies.antt =====
-- protocol.go: the packets by which the server answers, as payloads and as writes.
pub mod Fields
use staravail.Common.{ℕ, ◌%◌, ◌^◌, List, [], ◌∷◌, ◌++◌, length}
use staravail.Protocol.Base.{Result, bytes_le}
use staravail.Protocol.LenEnc.{write_length_encoded_integer}
use staravail.Protocol.Packet.{MySqlProtocol, write_packet}

unfoldable pub ok_payload : ℕ → ℕ → ℕ → ℕ → List ℕ
ok_payload affected_rows last_insert_id status warnings =
    (write_length_encoded_integer (write_length_encoded_integer (0x00 ∷ []) affected_rows)
        last_insert_id
      ++ bytes_le 2 status)
    ++ bytes_le 2 warnings

unfoldable pub write_ok : ℕ → ℕ → ℕ → ℕ → MySqlProtocol → MySqlProtocol × Result (Unit {0})
write_ok affected_rows last_insert_id status warnings =
    write_packet (ok_payload affected_rows last_insert_id status warnings)

-- `HY000` behind its marker `#`
abbrev pub sql_state : List ℕ
sql_state = b'#' ∷ b'H' ∷ b'Y' ∷ b'0' ∷ b'0' ∷ b'0' ∷ []

unfoldable pub error_payload : ℕ → List ℕ → List ℕ
error_payload code message = 0xff ∷ (bytes_le 2 code ++ (sql_state ++ message))

unfoldable pub write_error : ℕ → List ℕ → MySqlProtocol → MySqlProtocol × Result (Unit {0})
write_error code message = write_packet (error_payload code message)

unfoldable pub eof_payload : ℕ → List ℕ
eof_payload status = 0xfe ∷ 0 ∷ 0 ∷ bytes_le 2 status

unfoldable pub write_eof : ℕ → MySqlProtocol → MySqlProtocol × Result (Unit {0})
write_eof status = write_packet (eof_payload status)

-- `uint64(columnCount)`, for a count that is not negative.
unfoldable pub write_result_set_header : ℕ → MySqlProtocol → MySqlProtocol × Result (Unit {0})
write_result_set_header column_count = write_packet (write_length_encoded_integer [] column_count)

unfoldable pub prepare_ok_payload : ℕ → ℕ → ℕ → List ℕ
prepare_ok_payload stmt_id num_params num_columns =
    0x00
    ∷ (bytes_le 4 stmt_id
        ++ (bytes_le 2 num_columns ++ (bytes_le 2 num_params ++ (0 ∷ 0 ∷ 0 ∷ []))))

unfoldable pub write_prepare_ok : ℕ → ℕ → ℕ → MySqlProtocol → MySqlProtocol × Result (Unit {0})
write_prepare_ok stmt_id num_params num_columns =
    write_packet (prepare_ok_payload stmt_id num_params num_columns)
