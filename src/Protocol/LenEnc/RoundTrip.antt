-- ===== src/Protocol/LenEnc/RoundTrip.antt =====
-- What `writeLengthEncodedInteger` writes is read back, wherever it stands.
use staravail.Common.{ℕ, suc, ◌+◌, ◌*◌, ◌%◌, ◌^◌, ◌≤◌, ◌<◌, ◌≡◌, refl, arith}
use staravail.Common.{List, [], ◌∷◌, ◌++◌, length, drop, length-append, drop-append}
use staravail.Common.{ltb, leb, if◌then◌else◌, le→ltb, false}
use staravail.Protocol.Base.{ok}
use staravail.Protocol.Base.{bytes_le, uint_le-bytes_le, length-bytes_le}
use staravail.Protocol.LenEnc.{
  fixed, by_marker, read_length_encoded_integer, write_length_encoded_integer,
}
use mathlib.Core.List.{append_assoc}
use native.Mathlib.Numerals.{add-one}

-- The encoding of a value, its marker included.
abbrev pub encoding : ℕ → List ℕ
encoding v = write_length_encoded_integer [] v

pub write-append :
    (buffer : List ℕ) (v : ℕ) → write_length_encoded_integer buffer v ≡ buffer ++ encoding v
unfolding write_length_encoded_integer
write-append buffer v = ground arith

drop-suc_append :
    (front : List ℕ) (b : ℕ) (ys : List ℕ) → drop (length front + 1) (front ++ (b ∷ ys)) ≡ ys
drop-suc_append front b ys = rw add-one (go front)
  where
    go : (xs : List ℕ) → drop (suc (length xs)) (xs ++ (b ∷ ys)) ≡ ys
    go [] = refl
    go (x ∷ xs) = go xs

-- A marker with `n` bytes behind it.
fixed-append :
    (n v marker : ℕ) (front rest : List ℕ)
    → v < 256 ^ n
    → fixed n (front ++ ((marker ∷ bytes_le n v) ++ rest)) (length front) ≡ ok (v, n + 1)
unfolding fixed
fixed-append n v marker front rest h = rw (
  le→ltb (length (front ++ ((marker ∷ bytes_le n v) ++ rest))) (length front + (n + 1)) fits,
  drop-suc_append front marker (bytes_le n v ++ rest),
  uint_le-bytes_le n v rest h,
)
  where
    fits : length front + (n + 1) ≤ length (front ++ ((marker ∷ bytes_le n v) ++ rest))
    fits = omega (
      arith,
      length-append front ((marker ∷ bytes_le n v) ++ rest),
      length-append (marker ∷ bytes_le n v) rest,
      length-bytes_le n v,
    )

-- The reader at a marker byte takes that marker's case.
read_marker :
    (marker : ℕ) (front rest : List ℕ)
    → read_length_encoded_integer (front ++ (marker ∷ rest)) (length front)
      ≡ by_marker marker (front ++ (marker ∷ rest)) (length front)
unfolding read_length_encoded_integer
read_marker marker front rest =
    rw (le_leb_false, drop-append front (marker ∷ rest), byte_value) refl
  where
    le_leb_false : leb (length (front ++ (marker ∷ rest))) (length front) ≡ false
    le_leb_false = ground (arith, length-append front (marker ∷ rest))

    byte_value : marker + 256 * 0 ≡ marker
    byte_value = omega arith

-- The number of bytes of an encoding.
pub encoded_size : ℕ → ℕ
encoded_size v = if ltb v 251 then 1 else if ltb v 65536 then 3 else if ltb v 16777216 then 4 else 9

pub length-encoding : (v : ℕ) → length (encoding v) ≡ encoded_size v
unfolding write_length_encoded_integer encoded_size
length-encoding v = ground arith

pub encoded_size-pos : (v : ℕ) → 0 < encoded_size v
unfolding encoded_size
encoded_size-pos v = ground arith

-- Reading at the place where the encoding of a number below 2^64 starts gives the number back,
-- with the size of its encoding, whatever stands before and behind.
pub read-write :
    (front rest : List ℕ) (v : ℕ)
    → v < 2 ^ 64
    → read_length_encoded_integer (write_length_encoded_integer front v ++ rest) (length front)
      ≡ ok (v, encoded_size v)
unfolding write_length_encoded_integer encoded_size by_marker
read-write front rest v h = ground (
  arith,
  append_assoc front (v % 256 ∷ []) rest,
  append_assoc front (0xfc ∷ bytes_le 2 v) rest,
  append_assoc front (0xfd ∷ bytes_le 3 v) rest,
  append_assoc front (0xfe ∷ bytes_le 8 v) rest,
  read_marker (v % 256) front rest,
  read_marker 0xfc front (bytes_le 2 v ++ rest),
  read_marker 0xfd front (bytes_le 3 v ++ rest),
  read_marker 0xfe front (bytes_le 8 v ++ rest),
  fixed-append 2 v 0xfc front rest,
  fixed-append 3 v 0xfd front rest,
  fixed-append 8 v 0xfe front rest,
)
