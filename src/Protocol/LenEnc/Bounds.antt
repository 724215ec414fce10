-- ===== src/Protocol/LenEnc/Bounds.antt =====
-- `readLengthEncodedInteger` on any packet, well formed or not.
use staravail.Common.{ℕ, zero, suc, ◌+◌, ◌*◌, ◌^◌, ◌≤◌, ◌<◌, ◌≡◌, refl, arith}
use staravail.Common.{List, [], ◌∷◌, length, drop, length-drop, All, ◌==◌, leb, ltb}
use staravail.Common.{Bool-cases, inl, inr, ◌⊎◌}
use staravail.Protocol.Base.{Result, ok, err, malformed_packet, uint_le, IsByte}
use staravail.Protocol.LenEnc.{fixed, by_marker, read_length_encoded_integer}
use native.Mathlib.Nat.{pow-suc}

pub All-drop : (n : ℕ) (xs : List ℕ) → All IsByte xs → All IsByte (drop n xs)
All-drop zero xs h = h
All-drop (suc n) [] h = h
All-drop (suc n) (x ∷ xs) h = All-drop n xs h.1

pub uint_le_bounded :
    (n : ℕ) (bs : List ℕ)
    → n ≤ length bs
    → All IsByte bs
    → (v : ℕ) × (uint_le n bs ≡ ok v) × (v < 256 ^ n)
uint_le_bounded zero bs h a = (0, refl, omega arith)
uint_le_bounded (suc n) [] h a = absurd (omega arith)
uint_le_bounded (suc n) (b ∷ bs) h a =
    let (v, e, lt) = uint_le_bounded n bs (omega arith) a.1 in
    (b + 256 * v, rw e, (let p = pow-suc 256 n in omega arith))

-- Either the input ends inside the number, or the number is a uint64 and lies inside the input.
abbrev pub Decodes : List ℕ → ℕ → Result (ℕ × ℕ) → Type 0
Decodes bytes pos r =
    (r ≡ err malformed_packet)
    ⊎ ((v : ℕ) × (n : ℕ) × (r ≡ ok (v, n)) × (v < 2 ^ 64) × (1 ≤ n) × (pos + n ≤ length bytes))

fixed-Decodes :
    (n : ℕ) (bytes : List ℕ) (pos : ℕ)
    → n ≤ 8
    → 256 ^ n ≤ 2 ^ 64
    → All IsByte bytes
    → Decodes bytes pos (fixed n bytes pos)
unfolding fixed
fixed-Decodes n bytes pos small le a = elim (Bool-cases (ltb (length bytes) (pos + (n + 1)))) [
  | inl short ↦ inl (rw short)
  | inr long ↦
      let inside : pos + (n + 1) ≤ length bytes = ground arith in
      let (v, e, lt) =
        uint_le_bounded n (drop (pos + 1) bytes) (omega (arith, length-drop (pos + 1) bytes))
          (All-drop (pos + 1) bytes a) in
      inr (v, n + 1, rw (long, e), omega arith, omega arith, inside)
]

by_marker-Decodes :
    (marker : ℕ) (bytes : List ℕ) (pos : ℕ)
    → marker < 256
    → pos < length bytes
    → All IsByte bytes
    → Decodes bytes pos (by_marker marker bytes pos)
unfolding by_marker
by_marker-Decodes marker bytes pos h inside a = elim (Bool-cases (marker == 0xfb)) [
  | inl e ↦ rw e (inr (0, 1, refl, omega arith, omega arith, omega arith))
  | inr e ↦ rw e (elim (Bool-cases (marker == 0xfc)) [
    | inl e ↦ rw e (fixed-Decodes 2 bytes pos (omega arith) (omega arith) a)
    | inr e ↦ rw e (elim (Bool-cases (marker == 0xfd)) [
      | inl e ↦ rw e (fixed-Decodes 3 bytes pos (omega arith) (omega arith) a)
      | inr e ↦ rw e (elim (Bool-cases (marker == 0xfe)) [
        | inl e ↦ rw e (fixed-Decodes 8 bytes pos (omega arith) (omega arith) a)
        | inr e ↦ rw e (inr (marker, 1, refl, omega arith, omega arith, omega arith))
      ])
    ])
  ])
]

-- On every packet of bytes and at every position the reader returns: the error for a malformed
-- packet, or a number below 2^64 whose encoding takes at least one byte and ends inside the
-- packet. It never panics.
pub read-Decodes :
    (bytes : List ℕ) (pos : ℕ)
    → All IsByte bytes
    → Decodes bytes pos (read_length_encoded_integer bytes pos)
unfolding read_length_encoded_integer
read-Decodes bytes pos a = elim (Bool-cases (leb (length bytes) pos)) [
  | inl short ↦ inl (rw short)
  | inr long ↦
      let inside : pos < length bytes = ground arith in
      let (v, e, lt) =
        uint_le_bounded 1 (drop pos bytes) (omega (arith, length-drop pos bytes))
          (All-drop pos bytes a) in
      rw (long, e) (by_marker-Decodes v bytes pos (omega arith) inside a)
]
