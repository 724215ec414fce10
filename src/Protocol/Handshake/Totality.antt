-- ===== src/Protocol/Handshake/Totality.antt =====
-- The parser of the handshake response on any packet.
use staravail.Common.{ℕ, zero, suc, ◌+◌, ◌%◌, ◌^◌, ◌≤◌, ◌<◌, ◌≡◌, refl, arith, inl, inr}
use staravail.Common.{List, [], ◌∷◌, length, drop, All, Bool, true, false, some}
use staravail.Common.{ltb, leb, ◌&&◌, if◌then◌else◌, Bool-cases, Option-cases}
use staravail.Protocol.Base.{
  Result, ok, err, panic, stuck, malformed_packet, ◌>>=◌, reject_if, uint_at, uint_le, IsByte,
}
use staravail.Protocol.LenEnc.{read_length_encoded_integer}
use staravail.Protocol.LenEnc.Bounds.{read-Decodes}
use staravail.Protocol.Handshake.{
  has_flag, plugin_auth_len_enc_client_data, secure_connection, connect_attributes, connect_with_db,
  plugin_auth, index_null, null_terminated, optional_string, counted, read_auth, attr_string,
  attr_loop, read_attrs, put_attr, parse_handshake_response,
}

-- The parser returned: a packet or an error, or it panicked, but it did not run out of fuel.
abbrev pub Ends {ℓ} : {A : Type ℓ} → Result A → Type 0
Ends (ok a) = Unit
Ends (err e) = Unit
Ends panic = Unit
Ends stuck = ⊥

abbrev pub Returns {ℓ} : {A : Type ℓ} → Result A → Type 0
Returns (ok a) = Unit
Returns (err e) = Unit
Returns panic = ⊥
Returns stuck = ⊥

Ends-bind {ℓ κ} :
    {A : Type ℓ} {B : Type κ} (r : Result A) (f : A → Result B)
    → Ends r
    → ((a : A) → r ≡ ok a → Ends (f a))
    → Ends (r >>= f)
Ends-bind (ok a) f h k = k a refl
Ends-bind (err e) f h k = tt
Ends-bind panic f h k = tt
Ends-bind stuck f h k = h

pub Returns-bind {ℓ κ} :
    {A : Type ℓ} {B : Type κ} (r : Result A) (f : A → Result B)
    → Returns r
    → ((a : A) → r ≡ ok a → Returns (f a))
    → Returns (r >>= f)
Returns-bind (ok a) f h k = k a refl
Returns-bind (err e) f h k = tt
Returns-bind panic f h k = h
Returns-bind stuck f h k = h

if-Ends {ℓ} : {A : Type ℓ} (c : Bool) (r s : Result A) → Ends r → Ends s → Ends (if c then r else s)
if-Ends true r s h k = h
if-Ends false r s h k = k

reject_if-Ends : (c : Bool) → Ends (reject_if c malformed_packet)
reject_if-Ends true = tt
reject_if-Ends false = tt

pub index_null-lt : (bs : List ℕ) (n : ℕ) → index_null bs ≡ some n → n < length bs
unfolding index_null
index_null-lt [] n e = cc
index_null-lt (b ∷ bs) n e = elim (Option-cases (index_null bs)) [
  | inl q ↦ ground (arith, q)
  | inr (m, q) ↦ ground (arith, q, index_null-lt bs m q)
]

counted-Ends : (bytes : List ℕ) (pos len limit : ℕ) → Ends (counted bytes pos len limit)
unfolding counted
counted-Ends bytes pos len limit = ground arith

-- What a counted string leaves: an end that is neither below its start nor past the limit.
counted-end :
    (bytes : List ℕ) (pos len limit : ℕ) (s : List ℕ) (end : ℕ)
    → counted bytes pos len limit ≡ ok (s, end)
    → (pos ≤ end) × (end ≤ limit)
unfolding counted
counted-end bytes pos len limit s end e = ground arith

uint_at-Ends : (n : ℕ) (bytes : List ℕ) (pos : ℕ) → Ends (uint_at n bytes pos)
uint_at-Ends n bytes pos = go n (drop pos bytes)
  where
    go : (n : ℕ) (bs : List ℕ) → Ends (uint_le n bs)
    go zero bs = tt
    go (suc n) [] = tt
    go (suc n) (b ∷ bs) = Ends-bind (uint_le n bs) _ (go n bs) (λ v e. tt)

length-Ends :
    (bytes : List ℕ) (pos : ℕ) → All IsByte bytes → Ends (read_length_encoded_integer bytes pos)
length-Ends bytes pos a = elim (read-Decodes bytes pos a) [
  | inl e ↦ rw e tt
  | inr (v, n, e, lt, one, inside) ↦ rw e tt
]

length-size :
    (bytes : List ℕ) (pos v n : ℕ)
    → All IsByte bytes
    → read_length_encoded_integer bytes pos ≡ ok (v, n)
    → (1 ≤ n) × (pos + n ≤ length bytes)
length-size bytes pos v n a h = elim (read-Decodes bytes pos a) [
  | inl e ↦ cc
  | inr (u, m, e, lt, one, inside) ↦ ground arith
]

null_terminated-Ends : (bytes : List ℕ) (pos : ℕ) → Ends (null_terminated bytes pos)
unfolding null_terminated
null_terminated-Ends bytes pos = ground arith

optional_string-Ends :
    (flags bit : ℕ) (bytes : List ℕ) (pos : ℕ) → Ends (optional_string flags bit bytes pos)
unfolding optional_string
optional_string-Ends flags bit bytes pos = ground arith

read_auth-Ends :
    (flags : ℕ) (bytes : List ℕ) (pos : ℕ) → All IsByte bytes → Ends (read_auth flags bytes pos)
unfolding read_auth
read_auth-Ends flags bytes pos a =
    if-Ends (has_flag flags plugin_auth_len_enc_client_data) _ _
      (Ends-bind (reject_if (leb (length bytes) pos) malformed_packet) _ (reject_if-Ends _) (λ _ _.
        Ends-bind (read_length_encoded_integer bytes pos) _ (length-Ends bytes pos a)
          (λ (v, n) _. counted-Ends bytes (pos + n) v (length bytes))))
      (if-Ends (has_flag flags secure_connection) _ _
        (Ends-bind (reject_if (leb (length bytes) pos) malformed_packet) _ (reject_if-Ends _)
          (λ _ _.
            Ends-bind (uint_at 1 bytes pos) _ (uint_at-Ends 1 bytes pos)
              (λ v _. counted-Ends bytes (pos + 1) v (length bytes))))
        (null_terminated-Ends bytes pos))

attr_string-Ends :
    (bytes : List ℕ) (pos attr_end : ℕ) → All IsByte bytes → Ends (attr_string bytes pos attr_end)
unfolding attr_string
attr_string-Ends bytes pos attr_end a =
    Ends-bind (read_length_encoded_integer bytes pos) _ (length-Ends bytes pos a)
      (λ (v, n) _. counted-Ends bytes (pos + n) v attr_end)

-- A string of an attribute takes a byte at least, and ends inside the attributes.
attr_string-grows :
    (bytes : List ℕ) (pos attr_end : ℕ) (s : List ℕ) (end : ℕ)
    → All IsByte bytes
    → attr_string bytes pos attr_end ≡ ok (s, end)
    → (pos < end) × (end ≤ attr_end)
unfolding attr_string
attr_string-grows bytes pos attr_end s end a e = elim (read-Decodes bytes pos a) [
  | inl q ↦ absurd (ground (arith, q))
  | inr (v, n, q, lt, one, inside) ↦
      let (up, below) = counted-end bytes (pos + n) v attr_end s end (rw q at e) in
      (omega arith, below)
]

attr_loop-Ends :
    (fuel : ℕ) (bytes : List ℕ) (pos attr_end : ℕ) (attrs : List (List ℕ × List ℕ))
    → All IsByte bytes
    → attr_end < pos + fuel
    → 0 < fuel
    → Ends (attr_loop fuel bytes pos attr_end attrs)
unfolding attr_loop
attr_loop-Ends zero bytes pos attr_end attrs a h fuelled = absurd (omega arith)
attr_loop-Ends (suc fuel) bytes pos attr_end attrs a h fuelled =
    elim (Bool-cases (ltb pos attr_end)) [
      | inr done ↦ rw (done, Ends) tt
      | inl more ↦
          rw (more, Ends)
            (Ends-bind (attr_string bytes pos attr_end) _ (attr_string-Ends bytes pos attr_end a)
              (λ (key, pos₁) e₁.
                Ends-bind (attr_string bytes pos₁ attr_end) _
                  (attr_string-Ends bytes pos₁ attr_end a)
                  (λ (value, pos₂) e₂.
                    attr_loop-Ends fuel bytes pos₂ attr_end (put_attr key value attrs) a
                      (omega (
                        arith,
                        attr_string-grows bytes pos attr_end key pos₁ a e₁,
                        attr_string-grows bytes pos₁ attr_end value pos₂ a e₂,
                      ))
                      (omega (
                        arith,
                        attr_string-grows bytes pos attr_end key pos₁ a e₁,
                        attr_string-grows bytes pos₁ attr_end value pos₂ a e₂,
                      )))))
    ]

read_attrs-Ends :
    (flags : ℕ) (bytes : List ℕ) (pos : ℕ) → All IsByte bytes → Ends (read_attrs flags bytes pos)
unfolding read_attrs
read_attrs-Ends flags bytes pos a =
    if-Ends (has_flag flags connect_attributes && ltb pos (length bytes)) _ _
      (Ends-bind (read_length_encoded_integer bytes pos) _ (length-Ends bytes pos a)
        (λ (v, n) e. if-Ends (leb (2 ^ 63) ((pos + n + v) % 2 ^ 64)) _ _ tt (in_range v n)))
      tt
  where
    in_range :
        (v n : ℕ)
        → Ends (
            if ltb (length bytes) ((pos + n + v) % 2 ^ 64)
            then err malformed_packet
            else attr_loop (suc (length bytes)) bytes (pos + n) ((pos + n + v) % 2 ^ 64) [])
    in_range v n = elim (Bool-cases (ltb (length bytes) ((pos + n + v) % 2 ^ 64))) [
      | inl far ↦ rw (far, Ends) tt
      | inr near ↦
          rw (near, Ends)
            (attr_loop-Ends (suc (length bytes)) bytes (pos + n) _ [] a (ground arith)
              (omega arith))
    ]

-- On every packet of bytes the parser of the handshake response ends: its loop over the attributes
-- does not run out of fuel.
pub parse-Ends : (bytes : List ℕ) → All IsByte bytes → Ends (parse_handshake_response bytes)
unfolding parse_handshake_response
parse-Ends bytes a = Ends-bind _ _ (reject_if-Ends (ltb (length bytes) 32)) λ _ _.
    Ends-bind _ _ (uint_at-Ends 4 bytes 0) λ flags _.
      Ends-bind _ _ (uint_at-Ends 4 bytes 4) λ max_size _.
        Ends-bind _ _ (uint_at-Ends 1 bytes 8) λ charset _.
          Ends-bind _ _ (null_terminated-Ends bytes 32) λ (user, pos) _.
            Ends-bind _ _ (read_auth-Ends flags bytes pos a) λ (auth, pos₁) _.
              Ends-bind _ _ (optional_string-Ends flags connect_with_db bytes pos₁) λ (db, pos₂) _.
                Ends-bind _ _ (optional_string-Ends flags plugin_auth bytes pos₂)
                  λ (plugin, pos₃) _.
                    Ends-bind _ _ (read_attrs-Ends flags bytes pos₃ a) λ attrs _. tt
