-- ===== src/Protocol/LenEnc.antt =====
-- protocol.go: length-encoded integers and strings, and the fixed-width readers.
pub mod Bounds
pub mod RoundTrip
use staravail.Common.{ℕ, suc, ◌+◌, ◌*◌, ◌%◌, ◌^◌, List, [], ◌∷◌, ◌++◌, length, drop}
use staravail.Common.{ltb, leb, ◌==◌, if◌then◌else◌}
use staravail.Protocol.Base.{Result, ok, err, panic, malformed_packet, ◌>>=◌, ◌>>◌, reject_if}
use staravail.Protocol.Base.{bytes_le, uint_at}

unfoldable pub read_uint32 : List ℕ → ℕ → Result ℕ
read_uint32 bytes pos = uint_at 4 bytes pos

unfoldable pub read_uint16 : List ℕ → ℕ → Result ℕ
read_uint16 bytes pos = uint_at 2 bytes pos

-- One `case`: the marker is followed by `n` bytes of number.
unfoldable pub fixed : ℕ → List ℕ → ℕ → Result (ℕ × ℕ)
fixed n bytes pos = do
  reject_if (ltb (length bytes) (pos + (n + 1))) malformed_packet
  v ← uint_at n bytes (pos + 1)
  ok (v, n + 1)

-- The `switch` on the marker.
unfoldable pub by_marker : ℕ → List ℕ → ℕ → Result (ℕ × ℕ)
by_marker marker bytes pos =
    if marker == 0xfb
    then ok (0, 1)
    else if marker == 0xfc
    then fixed 2 bytes pos
    else if marker == 0xfd
    then fixed 3 bytes pos
    else if marker == 0xfe
    then fixed 8 bytes pos
    else ok (marker, 1)

-- The value and the number of bytes that it takes.
unfoldable pub read_length_encoded_integer : List ℕ → ℕ → Result (ℕ × ℕ)
read_length_encoded_integer bytes pos = do
  reject_if (leb (length bytes) pos) malformed_packet
  marker ← uint_at 1 bytes pos
  by_marker marker bytes pos

unfoldable pub write_length_encoded_integer : List ℕ → ℕ → List ℕ
write_length_encoded_integer buffer value =
    if ltb value 251
    then buffer ++ bytes_le 1 value
    else if ltb value 65536
    then buffer ++ (0xfc ∷ bytes_le 2 value)
    else if ltb value 16777216
    then buffer ++ (0xfd ∷ bytes_le 3 value)
    else buffer ++ (0xfe ∷ bytes_le 8 value)

unfoldable pub write_length_encoded_string : List ℕ → List ℕ → List ℕ
write_length_encoded_string buffer str =
    write_length_encoded_integer buffer (length str % 2 ^ 64) ++ str
