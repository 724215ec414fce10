-- ===== src/Protocol/Handshake/Safety.antt =====
-- Packets of clients that announce neither length-encoded authentication data nor attributes.
use staravail.Common.{ℕ, ◌+◌, ◌^◌, ◌≤◌, ◌<◌, ◌≡◌, arith, inl, inr}
use staravail.Common.{List, length, drop, length-drop, All, false}
use staravail.Common.{ltb, leb, Bool-cases, Option-cases}
use staravail.Protocol.Base.{ok, malformed_packet, reject_if, uint_at, IsByte}
use staravail.Protocol.LenEnc.Bounds.{uint_le_bounded, All-drop}
use staravail.Protocol.Handshake.{
  has_flag, plugin_auth_len_enc_client_data, connect_attributes, connect_with_db, plugin_auth,
  index_null, null_terminated, optional_string, counted, read_auth, read_attrs,
  parse_handshake_response,
}
use staravail.Protocol.Handshake.Totality.{Returns, Returns-bind, index_null-lt}

module _ (bytes : List ℕ) (a : All IsByte bytes) where
  byte_read :
      (n pos : ℕ) → n + pos ≤ length bytes → (v : ℕ) × (uint_at n bytes pos ≡ ok v) × (v < 256 ^ n)
  byte_read n pos h =
      uint_le_bounded n (drop pos bytes) (omega (arith, length-drop pos bytes))
        (All-drop pos bytes a)

  -- A null-terminated string that starts inside the packet, and where it ends.
  null_terminated-Returns : (pos : ℕ) → pos ≤ length bytes → Returns (null_terminated bytes pos)
  unfolding null_terminated
  null_terminated-Returns pos h = ground arith

  null_terminated-inside :
      (pos : ℕ) (s : List ℕ) (end : ℕ)
      → null_terminated bytes pos ≡ ok (s, end)
      → end ≤ length bytes
  unfolding null_terminated
  null_terminated-inside pos s end e = elim (Option-cases (index_null (drop pos bytes))) [
    | inl q ↦ ground (arith, q)
    | inr (n, q) ↦ ground (arith, q, index_null-lt (drop pos bytes) n q, length-drop pos bytes)
  ]

  optional_string-Returns : (flags bit pos : ℕ) → Returns (optional_string flags bit bytes pos)
  unfolding optional_string
  optional_string-Returns flags bit pos = ground arith

  read_auth-Returns :
      (flags pos : ℕ)
      → has_flag flags plugin_auth_len_enc_client_data ≡ false
      → pos ≤ length bytes
      → length bytes < 2 ^ 62
      → Returns (read_auth flags bytes pos)
  unfolding read_auth counted
  read_auth-Returns flags pos off h small = elim (Bool-cases (leb (length bytes) pos)) [
    | inl at_end ↦ ground (arith, null_terminated-Returns pos h)
    | inr more ↦
        let (v, e, lt) = byte_read 1 pos (ground arith) in
        ground (arith, e, null_terminated-Returns pos h)
  ]

  read_attrs-Returns :
      (flags pos : ℕ)
      → has_flag flags connect_attributes ≡ false
      → Returns (read_attrs flags bytes pos)
  unfolding read_attrs
  read_attrs-Returns flags pos off = ground arith

  reject_short : Returns (reject_if (ltb (length bytes) 32) malformed_packet)
  reject_short = ground arith

  long_enough : reject_if (ltb (length bytes) 32) malformed_packet ≡ ok tt → 32 ≤ length bytes
  long_enough e = ground arith

  -- A packet of bytes shorter than 2^62, whose flags announce neither length-encoded
  -- authentication data nor attributes, is parsed or refused with an error: no index and no slice
  -- is out of range.
  pub parse-Returns :
      (flags : ℕ)
      → uint_at 4 bytes 0 ≡ ok flags
      → has_flag flags plugin_auth_len_enc_client_data ≡ false
      → has_flag flags connect_attributes ≡ false
      → length bytes < 2 ^ 62
      → Returns (parse_handshake_response bytes)
  unfolding parse_handshake_response
  parse-Returns flags head no_len no_attrs small = elim (Bool-cases (ltb (length bytes) 32)) [
    | inl short ↦ rw (short, Returns) tt
    | inr long ↦
        let (max_size, e₁, lt₁) = byte_read 4 4 (ground arith) in
        let (charset, e₂, lt₂) = byte_read 1 8 (ground arith) in
        rw (long, head, e₁, e₂)
          (Returns-bind _ _ (null_terminated-Returns 32 (ground arith)) λ (user, pos) e.
            Returns-bind _ _
              (read_auth-Returns flags pos no_len (null_terminated-inside 32 user pos e) small)
              λ (auth, pos₁) _.
                Returns-bind _ _ (optional_string-Returns flags connect_with_db pos₁)
                  λ (db, pos₂) _.
                    Returns-bind _ _ (optional_string-Returns flags plugin_auth pos₂)
                      λ (plugin, pos₃) _.
                        Returns-bind _ _ (read_attrs-Returns flags pos₃ no_attrs) λ attrs _. tt)
  ]
