-- ===== src/Protocol/Base.antt =====
-- internal/interfaces/mysql/protocol/protocol.go: errors, results and little-endian numbers.
-- A byte slice is a list of numbers below 256.
use staravail.Common.{ℕ, zero, suc, ◌+◌, ◌*◌, ◌/◌, ◌%◌, ◌^◌, ◌<◌, ◌≡◌, refl, ap, arith}
use staravail.Common.{List, [], ◌∷◌, ◌++◌, length, drop, Bool, true, false}
use native.Mathlib.Nat.{pow-suc}

pub data Error : Type 0 where
  malformed_packet connection_closed : Error
  header_read data_read header_write data_write : Error
  packet_too_large invalid_sequence : Error

-- Go's (value, error) pair. `panic` is a run-time panic (an index or a slice out of range);
-- `stuck` is no Go value: a loop of the model ran out of fuel.
pub data Result {ℓ} (A : Type ℓ) : Type ℓ where
  ok : A → Result A
  err : Error → Result A
  panic : Result A
  stuck : Result A

infixl 5 ◌>>=◌ ◌>>◌
abbrev pub ◌>>=◌ {ℓ κ} : {A : Type ℓ} {B : Type κ} → Result A → (A → Result B) → Result B
ok a >>= f = f a
err e >>= f = err e
panic >>= f = panic
stuck >>= f = stuck

abbrev pub ◌>>◌ {ℓ} : {B : Type ℓ} → Result (Unit {0}) → Result B → Result B
m >> k = m >>= λ _. k

-- An early `return nil, e` under a test.
abbrev pub reject_if : Bool → Error → Result (Unit {0})
reject_if true e = err e
reject_if false e = ok tt

-- `byte(v), byte(v>>8), …`: the low `n` bytes of `v`, the lowest first.
abbrev pub bytes_le : ℕ → ℕ → List ℕ
bytes_le zero v = []
bytes_le (suc n) v = (v % 256) ∷ bytes_le n (v / 256)

-- `uint(b[0]) | uint(b[1])<<8 | …` over `n` bytes: the bits are disjoint, so `|` is `+`.
abbrev pub uint_le : ℕ → List ℕ → Result ℕ
uint_le zero bs = ok 0
uint_le (suc n) [] = panic
uint_le (suc n) (b ∷ bs) = do v ← uint_le n bs; ok (b + 256 * v)

-- The same, of the bytes from `pos` on.
abbrev pub uint_at : ℕ → List ℕ → ℕ → Result ℕ
uint_at n data' pos = uint_le n (drop pos data')

pub length-bytes_le : (n v : ℕ) → length (bytes_le n v) ≡ n
length-bytes_le zero v = refl
length-bytes_le (suc n) v = ap suc (length-bytes_le n (v / 256))

pub div-lt-pow : (n v : ℕ) → v < 256 ^ suc n → v / 256 < 256 ^ n
div-lt-pow n v h = let e = pow-suc 256 n in omega arith

pub uint_le-bytes_le :
    (n v : ℕ) (rest : List ℕ) → v < 256 ^ n → uint_le n (bytes_le n v ++ rest) ≡ ok v
uint_le-bytes_le zero v rest h = ap ok (omega arith)
uint_le-bytes_le (suc n) v rest h =
    rw (uint_le-bytes_le n (v / 256) rest (div-lt-pow n v h)) (ap ok (omega arith))

abbrev pub IsByte : ℕ → Type 0
IsByte b = b < 256
