-- ===== src/Protocol/Replies/Fields.antt =====
-- The fields of the answers, read back by the package's own readers.
use staravail.Common.{ℕ, ◌+◌, ◌^◌, ◌<◌, ◌≡◌, arith, refl}
use staravail.Common.{List, [], ◌∷◌, ◌++◌, length, length-append, drop-append}
use staravail.Protocol.Base.{ok, bytes_le, uint_at, uint_le-bytes_le}
use staravail.Protocol.LenEnc.{
  read_length_encoded_integer, write_length_encoded_integer, read_uint16, read_uint32,
}
use staravail.Protocol.LenEnc.RoundTrip.{
  encoding, encoded_size, write-append, length-encoding, read-write,
}
use staravail.Protocol.Replies.{ok_payload, prepare_ok_payload}
use mathlib.Core.List.{append_assoc, append-nil}

-- `n` little-endian bytes behind `front`.
uint_at-append :
    (n v : ℕ) (front rest : List ℕ)
    → v < 256 ^ n
    → uint_at n (front ++ (bytes_le n v ++ rest)) (length front) ≡ ok v
uint_at-append n v front rest h =
    rw (drop-append front (bytes_le n v ++ rest)) (uint_le-bytes_le n v rest h)

length-write :
    (front : List ℕ) (v : ℕ)
    → length (write_length_encoded_integer front v) ≡ length front + encoded_size v
length-write front v =
    rw write-append (omega (arith, length-append front (encoding v), length-encoding v))

-- In an OK packet with counts below 2^64 and status and warnings below 2^16, all four are read
-- back at their places.
pub ok_payload_fields :
    (rows id status warnings : ℕ)
    → rows < 2 ^ 64
    → id < 2 ^ 64
    → status < 2 ^ 16
    → warnings < 2 ^ 16
    → let payload = ok_payload rows id status warnings in
      let after_rows = 1 + encoded_size rows in
      let after_id = after_rows + encoded_size id in
      (read_length_encoded_integer payload 1 ≡ ok (rows, encoded_size rows))
      × (read_length_encoded_integer payload after_rows ≡ ok (id, encoded_size id))
      × (read_uint16 payload after_id ≡ ok status)
      × (read_uint16 payload (after_id + 2) ≡ ok warnings)
unfolding ok_payload read_uint16
ok_payload_fields rows id status warnings hr hi hs hw = (
  rw (write-append with_rows id, regroup) (read-write (0x00 ∷ []) (encoding id ++ flags) rows hr),
  rw (append_assoc with_id (bytes_le 2 status) (bytes_le 2 warnings), ← rows_end)
      (read-write with_rows flags id hi),
  rw (append_assoc with_id (bytes_le 2 status) (bytes_le 2 warnings), ← id_end)
      (uint_at-append 2 status with_id (bytes_le 2 warnings) hs),
  rw (← status_end, ← append-nil (bytes_le 2 warnings))
      (uint_at-append 2 warnings (with_id ++ bytes_le 2 status) [] hw),
)
  where
    with_rows : List ℕ
    with_rows = write_length_encoded_integer (0x00 ∷ []) rows

    with_id : List ℕ
    with_id = write_length_encoded_integer with_rows id

    flags : List ℕ
    flags = bytes_le 2 status ++ bytes_le 2 warnings

    regroup :
        ((with_rows ++ encoding id) ++ bytes_le 2 status) ++ bytes_le 2 warnings
        ≡ with_rows ++ (encoding id ++ flags)
    regroup = simp append_assoc

    rows_end : length with_rows ≡ 1 + encoded_size rows
    rows_end = omega (arith, length-write (0x00 ∷ []) rows)

    id_end : length with_id ≡ 1 + encoded_size rows + encoded_size id
    id_end = omega (arith, length-write with_rows id, rows_end)

    status_end : length (with_id ++ bytes_le 2 status) ≡ 1 + encoded_size rows + encoded_size id + 2
    status_end = omega (arith, length-append with_id (bytes_le 2 status), id_end)

-- In the answer to a prepare, with an id below 2^32 and counts below 2^16, the id and the counts
-- are read back at their places, and the packet has 12 bytes.
pub prepare_ok_payload_fields :
    (stmt_id num_params num_columns : ℕ)
    → stmt_id < 2 ^ 32
    → num_params < 2 ^ 16
    → num_columns < 2 ^ 16
    → let payload = prepare_ok_payload stmt_id num_params num_columns in
      (read_uint32 payload 1 ≡ ok stmt_id)
      × (read_uint16 payload 5 ≡ ok num_columns)
      × (read_uint16 payload 7 ≡ ok num_params)
      × (length payload ≡ 12)
unfolding prepare_ok_payload read_uint16 read_uint32
prepare_ok_payload_fields stmt_id num_params num_columns hs hp hc = (
  uint_le-bytes_le 4 stmt_id (bytes_le 2 num_columns ++ params) hs,
  uint_le-bytes_le 2 num_columns params hc,
  uint_le-bytes_le 2 num_params (0 ∷ 0 ∷ 0 ∷ []) hp,
  refl,
)
  where
    params : List ℕ
    params = bytes_le 2 num_params ++ (0 ∷ 0 ∷ 0 ∷ [])
