-- ===== src/Protocol/Handshake/Overflow.antt =====
-- A length of 2^63 or more in the handshake response.
use staravail.Common.{ℕ, zero, suc, ◌+◌, ◌*◌, ◌^◌, ◌≤◌, ◌<◌, ◌≡◌, ◌≢◌, refl, ap, arith}
use staravail.Common.{
  List, [], ◌∷◌, ◌++◌, length, drop, length-append, length-drop, drop-append, take-append, All,
  true, false, some,
}
use staravail.Common.{ltb, leb, le→ltb}
use staravail.Protocol.Base.{ok, panic, uint_at, uint_le, bytes_le, uint_le-bytes_le}
use staravail.Protocol.LenEnc.{read_length_encoded_integer, write_length_encoded_integer}
use staravail.Protocol.LenEnc.RoundTrip.{
  encoding, encoded_size, write-append, length-encoding, encoded_size-pos, read-write,
}
use staravail.Protocol.Handshake.{
  has_flag, plugin_auth_len_enc_client_data, index_null, null_terminated, counted, read_auth,
  parse_handshake_response,
}
use mathlib.Core.List.{append_assoc}

-- Enough bytes are there, whatever they hold.
uint_le_total : (n : ℕ) (bs : List ℕ) → n ≤ length bs → (v : ℕ) × (uint_le n bs ≡ ok v)
uint_le_total zero bs h = (0, refl)
uint_le_total (suc n) [] h = absurd (omega arith)
uint_le_total (suc n) (b ∷ bs) h =
    let (v, e) = uint_le_total n bs (omega arith) in (b + 256 * v, rw e)

index_null-append :
    (user rest : List ℕ)
    → All (λ b. b ≢ 0) user
    → index_null (user ++ (0 ∷ rest)) ≡ some (length user)
unfolding index_null
index_null-append [] rest h = refl
index_null-append (b ∷ user) rest h = ground (arith, h.0, index_null-append user rest h.1)

counted_huge :
    (bytes : List ℕ) (pos len : ℕ)
    → 2 ^ 63 ≤ len
    → len < 2 ^ 64
    → pos ≤ length bytes
    → length bytes < 2 ^ 63
    → counted bytes pos len (length bytes) ≡ panic
unfolding counted
counted_huge bytes pos len big fits inside small = ground arith

-- A response that starts with 32 bytes of fixed fields and a user name, and goes on with `tail`.
unfoldable pub response : ℕ → List ℕ → List ℕ → List ℕ → List ℕ
response flags fixed user tail = bytes_le 4 flags ++ (fixed ++ (user ++ (0 ∷ tail)))

drop-exact : (n : ℕ) (xs ys : List ℕ) → length xs ≡ n → drop n (xs ++ ys) ≡ ys
drop-exact n xs ys e = rw (← e) (drop-append xs ys)

module _ (flags : ℕ) (fixed user tail : List ℕ) (flags_fit : flags < 2 ^ 32)
    (fixed_size : length fixed ≡ 28) (no_null : All (λ b. b ≢ 0) user) where
  whole_length : length (response flags fixed user tail) ≡ 33 + length user + length tail
  unfolding response
  whole_length =
      omega (arith, length-append fixed (user ++ (0 ∷ tail)), length-append user (0 ∷ tail))

  long : ltb (length (response flags fixed user tail)) 32 ≡ false
  long = le→ltb _ _ (omega (arith, whole_length))

  past_fixed : drop 32 (response flags fixed user tail) ≡ user ++ (0 ∷ tail)
  unfolding response
  past_fixed = drop-exact 28 fixed (user ++ (0 ∷ tail)) fixed_size

  user_read : null_terminated (response flags fixed user tail) 32 ≡ ok (user, 32 + length user + 1)
  unfolding null_terminated
  user_read =
      rw (long, past_fixed, index_null-append user tail no_null, past_fixed)
        (ap (λ (u : List ℕ). ok (u, 32 + length user + 1)) (take-append user (0 ∷ tail)))

  flags_read : uint_at 4 (response flags fixed user tail) 0 ≡ ok flags
  unfolding response
  flags_read = uint_le-bytes_le 4 flags (fixed ++ (user ++ (0 ∷ tail))) flags_fit

  uint_read :
      (n pos : ℕ) → n + pos ≤ 32 → (v : ℕ) × (uint_at n (response flags fixed user tail) pos ≡ ok v)
  uint_read n pos h =
      uint_le_total n (drop pos (response flags fixed user tail))
        (omega (arith, length-drop pos (response flags fixed user tail), whole_length))

  -- The parser gets to the authentication data, and what panics there panics as a whole.
  parse_panics :
      read_auth flags (response flags fixed user tail) (32 + length user + 1) ≡ panic
      → parse_handshake_response (response flags fixed user tail) ≡ panic
  unfolding parse_handshake_response
  parse_panics h =
      let (max_size, e₁) = uint_read 4 4 (omega arith) in
      let (charset, e₂) = uint_read 1 8 (omega arith) in
      rw (long, flags_read, e₁, e₂, user_read, h) refl

  -- The length is read where the user name ends.
  length_read :
      (len : ℕ) (rest : List ℕ)
      → len < 2 ^ 64
      → tail ≡ write_length_encoded_integer [] len ++ rest
      → read_length_encoded_integer (response flags fixed user tail) (32 + length user + 1)
        ≡ ok (len, encoded_size len)
  unfolding response
  length_read len rest fits e = rw (same, ← front_size) (read-write front rest len fits)
    where
      front : List ℕ
      front = bytes_le 4 flags ++ (fixed ++ (user ++ (0 ∷ [])))

      front_size : length front ≡ 32 + length user + 1
      front_size =
          omega (arith, length-append fixed (user ++ (0 ∷ [])), length-append user (0 ∷ []))

      same : response flags fixed user tail ≡ write_length_encoded_integer front len ++ rest
      same = rw (e, write-append front len) (simp append_assoc)

  -- A response with 32-bit flags, 28 bytes of fixed fields and a user name without a zero byte, of
  -- a client that announces length-encoded authentication data and sends a length from 2^63 below
  -- 2^64, makes the parser panic, whatever follows, in a packet shorter than 2^63.
  pub huge_auth_length_panics :
      (len : ℕ) (rest : List ℕ)
      → has_flag flags plugin_auth_len_enc_client_data ≡ true
      → 2 ^ 63 ≤ len
      → len < 2 ^ 64
      → tail ≡ write_length_encoded_integer [] len ++ rest
      → length (response flags fixed user tail) < 2 ^ 63
      → parse_handshake_response (response flags fixed user tail) ≡ panic
  unfolding read_auth
  huge_auth_length_panics len rest announced big fits e small = parse_panics (
      rw (announced, not_short, length_read len rest fits e)
        (counted_huge _ (32 + length user + 1 + encoded_size len) len big fits inside small))
    where
      room : encoded_size len ≤ length tail
      room = rw e (omega (arith, length-append (encoding len) rest, length-encoding len))

      inside : 32 + length user + 1 + encoded_size len ≤ length (response flags fixed user tail)
      inside = omega (arith, whole_length, room)

      not_short : leb (length (response flags fixed user tail)) (32 + length user + 1) ≡ false
      not_short = ground (arith, whole_length, room, encoded_size-pos len)
