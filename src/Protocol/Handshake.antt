-- ===== src/Protocol/Handshake.antt =====
-- protocol.go, `ReadHandshakeResponse`: the client's answer to the greeting, from its payload.
-- A Go int has 64 bits: `pos + int(length)` is kept modulo 2^64, and is negative from 2^63 on.
pub mod Totality
pub mod Overflow
pub mod Safety
use staravail.Common.{
  ℕ, zero, suc, ◌+◌, ◌-◌, ◌*◌, ◌/◌, ◌%◌, ◌^◌, List, [], ◌∷◌, ◌++◌, length, take, drop,
}
use staravail.Common.{
  text_eq, Bool, true, false, ◌&&◌, ltb, leb, ◌==◌, if◌then◌else◌, Option, none, some,
}
use staravail.Protocol.Base.{
  Result, ok, err, panic, stuck, malformed_packet, ◌>>=◌, ◌>>◌, reject_if,
}
use staravail.Protocol.Base.{uint_at}
use staravail.Protocol.LenEnc.{read_length_encoded_integer}
use staravail.Protocol.Packet.{MySqlProtocol, read_packet}

pub record HandshakeResponsePacket : Type 0 where
  pub capability_flags : ℕ
  pub max_packet_size : ℕ
  pub character_set : ℕ
  pub username : List ℕ
  pub auth_response : List ℕ
  pub database : List ℕ
  pub auth_plugin_name : List ℕ
  pub connect_attrs : List (List ℕ × List ℕ)

-- The bits of the capabilities that the parser looks at.
abbrev pub connect_with_db : ℕ
connect_with_db = 3

abbrev pub secure_connection : ℕ
secure_connection = 15

abbrev pub plugin_auth : ℕ
plugin_auth = 19

abbrev pub connect_attributes : ℕ
connect_attributes = 20

abbrev pub plugin_auth_len_enc_client_data : ℕ
plugin_auth_len_enc_client_data = 21

-- `(flags & 1<<bit) != 0`
abbrev pub has_flag : ℕ → ℕ → Bool
has_flag flags bit = flags / 2 ^ bit % 2 == 1

abbrev pub shift : Option ℕ → Option ℕ
shift none = none
shift (some n) = some (suc n)

-- `bytes.IndexByte(bs, 0)`, with `none` for -1.
unfoldable pub index_null : List ℕ → Option ℕ
index_null [] = none
index_null (b ∷ bs) = let rest = shift (index_null bs) in if b == 0 then some 0 else rest

-- `data[pos : pos+nullPos]` and `pos += nullPos + 1`, where `data[pos:]` has a null byte.
abbrev pub up_to : List ℕ → ℕ → ℕ → List ℕ × ℕ
up_to bytes pos n = (take n (drop pos bytes), pos + n + 1)

-- A string up to a null byte that must be there.
unfoldable pub null_terminated : List ℕ → ℕ → Result (List ℕ × ℕ)
null_terminated bytes pos =
    if ltb (length bytes) pos then panic else elim (index_null (drop pos bytes)) [
      | none ↦ err malformed_packet
      | some n ↦ ok (up_to bytes pos n)
    ]

-- A string up to a null byte or the end of the packet, read if the client announced it with `bit`
-- and something is left.
unfoldable pub optional_string : ℕ → ℕ → List ℕ → ℕ → Result (List ℕ × ℕ)
optional_string flags bit bytes pos =
    if has_flag flags bit && ltb pos (length bytes)
    then elim (index_null (drop pos bytes)) [
      | none ↦ ok (up_to bytes pos (length bytes - pos))
      | some n ↦ ok (up_to bytes pos n)
    ]
    else ok ([], pos)

-- `if pos+int(length) > limit { malformed }`, `data[pos : pos+int(length)]`, `pos += int(length)`.
-- A negative end passes the test, and so does one below `pos`; slicing then panics.
unfoldable pub counted : List ℕ → ℕ → ℕ → ℕ → Result (List ℕ × ℕ)
counted bytes pos len limit =
    let end = (pos + len) % 2 ^ 64 in
    if leb (2 ^ 63) end
    then panic
    else if ltb limit end
    then err malformed_packet
    else if ltb end pos
    then panic
    else ok (take (end - pos) (drop pos bytes), end)

-- The authentication data: behind a length-encoded length, behind one byte, or null-terminated.
unfoldable pub read_auth : ℕ → List ℕ → ℕ → Result (List ℕ × ℕ)
read_auth flags bytes pos =
    if has_flag flags plugin_auth_len_enc_client_data
    then (do
      reject_if (leb (length bytes) pos) malformed_packet
      (len, size) ← read_length_encoded_integer bytes pos
      counted bytes (pos + size) len (length bytes))
    else if has_flag flags secure_connection
    then (do
      reject_if (leb (length bytes) pos) malformed_packet
      len ← uint_at 1 bytes pos
      counted bytes (pos + 1) len (length bytes))
    else null_terminated bytes pos

-- `m[key] = value`
unfoldable pub put_attr : List ℕ → List ℕ → List (List ℕ × List ℕ) → List (List ℕ × List ℕ)
put_attr key value [] = (key, value) ∷ []
put_attr key value ((k, v) ∷ m) =
    let rest = put_attr key value m in if text_eq k key then (k, value) ∷ m else (k, v) ∷ rest

-- A key or a value of an attribute: a length-encoded string inside the attributes.
unfoldable pub attr_string : List ℕ → ℕ → ℕ → Result (List ℕ × ℕ)
attr_string bytes pos attr_end = do
  (len, size) ← read_length_encoded_integer bytes pos
  counted bytes (pos + size) len attr_end

-- `for pos < attrEnd`. Each round takes two bytes at least.
unfoldable pub attr_loop :
    ℕ → List ℕ → ℕ → ℕ → List (List ℕ × List ℕ) → Result (List (List ℕ × List ℕ))
attr_loop zero bytes pos attr_end attrs = stuck
attr_loop (suc fuel) bytes pos attr_end attrs = elim (ltb pos attr_end) [
  | false ↦ ok attrs
  | true ↦ (do
    (key, pos₁) ← attr_string bytes pos attr_end
    (value, pos₂) ← attr_string bytes pos₁ attr_end
    attr_loop fuel bytes pos₂ attr_end (put_attr key value attrs))
]

-- The connection attributes. A negative `attrEnd` passes the test, and then the loop does not run.
unfoldable pub read_attrs : ℕ → List ℕ → ℕ → Result (List (List ℕ × List ℕ))
read_attrs flags bytes pos =
    if has_flag flags connect_attributes && ltb pos (length bytes)
    then (do
      (len, size) ← read_length_encoded_integer bytes pos
      let attr_end = (pos + size + len) % 2 ^ 64
      if leb (2 ^ 63) attr_end
          then ok []
          else if ltb (length bytes) attr_end
          then err malformed_packet
          else attr_loop (suc (length bytes)) bytes (pos + size) attr_end [])
    else ok []

-- The parser over the payload. The first 32 bytes are fixed fields, 23 of them reserved.
unfoldable pub parse_handshake_response : List ℕ → Result HandshakeResponsePacket
parse_handshake_response bytes = do
  reject_if (ltb (length bytes) 32) malformed_packet
  flags ← uint_at 4 bytes 0
  max_size ← uint_at 4 bytes 4
  charset ← uint_at 1 bytes 8
  (user, pos) ← null_terminated bytes 32
  (auth, pos₁) ← read_auth flags bytes pos
  (db, pos₂) ← optional_string flags connect_with_db bytes pos₁
  (plugin, pos₃) ← optional_string flags plugin_auth bytes pos₂
  attrs ← read_attrs flags bytes pos₃
  ok record {
    capability_flags = flags;
    max_packet_size = max_size;
    character_set = charset;
    username = user;
    auth_response = auth;
    database = db;
    auth_plugin_name = plugin;
    connect_attrs = attrs;
  }

unfoldable pub read_handshake_response :
    MySqlProtocol → MySqlProtocol × Result HandshakeResponsePacket
read_handshake_response p =
    let (p', r) = read_packet p in (p', (do bytes ← r; parse_handshake_response bytes))
