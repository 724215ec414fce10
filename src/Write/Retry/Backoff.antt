-- ===== src/Write/Retry/Backoff.antt =====
-- retry.go: `calculateBackoff`. A `time.Duration` is an int64, kept as the number of its two's
-- complement.
use staravail.Common.{ℕ, zero, suc, ◌+◌, ◌-◌, ◌*◌, ◌%◌, ◌^◌, ◌≤◌, ◌<◌, ◌≡◌, refl, ap, ◌∙◌, arith}
use staravail.Common.{Bool, true, ltb, if◌then◌else◌, Option, none, some, lt→ltb}
use native.Mathlib.Nat.{mul-le-mul_left}
use Prim.Native.Nat.{min}
use staravail.Write.Retry.{RetryStrategy, linear, exponential, jittered, RetryManagerConfig}

abbrev pub second : ℕ
second = 1000000000

abbrev pub word : ℕ
word = 18446744073709551616

abbrev pub sign : ℕ
sign = 9223372036854775808

abbrev pub wrap : ℕ → ℕ
wrap n = n % word

-- `a > b` on int64
abbrev pub exceeds : ℕ → ℕ → Bool
exceeds a b = ltb ((b + sign) % word) ((a + sign) % word)

-- `math/rand.Int63n` for a bound above 0, and what the conversion of a float that no int64 holds
-- gives, which Go leaves open.
pub record Arithmetic : Type 0 where
  pub int63n : ℕ → ℕ
  pub out_of_range : ℕ

-- `time.Duration(math.Pow(2, float64(attemptNumber-1)))`
unfoldable pub power : Arithmetic → ℕ → ℕ
power a attempt_number =
    if ltb (attempt_number - 1) 63 then 2 ^ (attempt_number - 1) else a.out_of_range

-- A random value between the base and the largest: `none` for the panic of `Int63n` on a bound that
-- is not above 0.
unfoldable pub jitter : Arithmetic → ℕ → ℕ → Option ℕ
jitter a base max_jitter =
    let jitter_range = wrap (max_jitter + (word - base)) in
    if exceeds (wrap (jitter_range + 1)) 0
    then some (wrap (base + a.int63n (wrap (jitter_range + 1))))
    else none

-- The backoff before it is capped.
unfoldable pub raw_backoff : Arithmetic → RetryStrategy → ℕ → ℕ → Option ℕ
raw_backoff a linear base attempt_number = some (wrap (base * attempt_number))
raw_backoff a exponential base attempt_number = some (wrap (base * power a attempt_number))
raw_backoff a jittered base attempt_number = jitter a base (wrap (base * power a attempt_number))

unfoldable pub cap : ℕ → ℕ → ℕ
cap max_interval backoff = if exceeds backoff max_interval then max_interval else backoff

unfoldable pub calculate_backoff : Arithmetic → RetryManagerConfig → ℕ → Option ℕ
calculate_backoff a config attempt_number =
    let base = wrap (config.base_retry_interval_seconds * second) in
    let max_interval = wrap (config.max_retry_interval_seconds * second) in
    elim (raw_backoff a config.retry_strategy base attempt_number) [
      | none ↦ none
      | some backoff ↦ some (cap max_interval backoff)
    ]

wrap_small : (n : ℕ) → n < word → wrap n ≡ n
wrap_small n h = omega arith

cap_small : (m n : ℕ) → m < sign → n < sign → cap m n ≡ (if ltb m n then m else n)
unfolding cap
cap_small m n h k = ground arith

below_power : (n : ℕ) → suc n ≤ 2 ^ n
below_power zero = omega arith
below_power (suc n) = omega (arith, below_power n)

pub record Int63n (a : Arithmetic) : Type 0 where
  pub below : (k : ℕ) → 0 < k → a.int63n k < k

power_lem : (a : Arithmetic) (n : ℕ) → n < 63 → power a (suc n) ≡ 2 ^ n
unfolding power
power_lem a n h =
    rw (lt→ltb (suc n - 1) 63 (omega arith), power) (ap (λ (k : ℕ). 2 ^ k) (omega arith))

-- The jitter, for a base and a largest value that no wrap-around reaches.
jitter_lem :
    (a : Arithmetic)
    → Int63n a
    → (b mj : ℕ) → b ≤ mj
    → suc mj < sign
    → (d : ℕ) × (jitter a b mj ≡ some d) × (b ≤ d) × (d ≤ mj)
unfolding jitter
jitter_lem a random b mj h k =
    let below = random.below (suc (mj - b)) (omega arith) in
    let r : wrap (mj + (word - b)) ≡ mj - b = omega arith in
    let w : wrap (mj - b + 1) ≡ suc (mj - b) = omega arith in
    let x : exceeds (suc (mj - b)) 0 ≡ true = ground arith in
    let sum : wrap (b + a.int63n (suc (mj - b))) ≡ b + a.int63n (suc (mj - b)) =
      omega (arith, below) in
    (b + a.int63n (suc (mj - b)), rw (r, w, x, sum) refl, omega arith, omega (arith, below))

raw_backoff_lem :
    (a : Arithmetic)
    → Int63n a
    → (strategy : RetryStrategy) (b n : ℕ) → n < 63
    → suc (b * 2 ^ n) < sign
    → (d : ℕ) × (raw_backoff a strategy b (suc n) ≡ some d) × (b ≤ d) × (d ≤ b * 2 ^ n)
unfolding raw_backoff
raw_backoff_lem a random linear b n h k =
    let grown : b * suc n ≤ b * 2 ^ n = mul-le-mul_left b (below_power n) in
    (b * suc n, ap some (wrap_small (b * suc n) (omega (arith, grown))), omega arith, grown)
raw_backoff_lem a random exponential b n h k =
    let grown : b * 1 ≤ b * 2 ^ n = mul-le-mul_left b (omega (arith, below_power n)) in
    (
      b * 2 ^ n,
      rw (power_lem a n h) (ap some (wrap_small (b * 2 ^ n) (omega arith))),
      omega (arith, grown),
      omega arith,
    )
raw_backoff_lem a random jittered b n h k =
    let grown : b * 1 ≤ b * 2 ^ n = mul-le-mul_left b (omega (arith, below_power n)) in
    let w = wrap_small (b * 2 ^ n) (omega arith) in
    rw (power_lem a n h, w) (jitter_lem a random b (b * 2 ^ n) (omega (arith, grown)) k)

calculate_unfolded :
    (a : Arithmetic) (config : RetryManagerConfig) (n d : ℕ)
    → config.base_retry_interval_seconds * second < word
    → config.max_retry_interval_seconds * second < word
    → raw_backoff a config.retry_strategy (config.base_retry_interval_seconds * second) n ≡ some d
    → calculate_backoff a config n ≡ some (cap (config.max_retry_interval_seconds * second) d)
unfolding calculate_backoff
calculate_unfolded a config n d h k made =
    rw
      (
        wrap_small (config.base_retry_interval_seconds * second) h,
        calculate_backoff,
        made,
        wrap_small (config.max_retry_interval_seconds * second) k,
      )
      refl

-- For an attempt from 1 to 63, intervals that do not overflow, and a random generator that stays
-- below its bound, every strategy gives a backoff without a panic: it is at least the smaller of
-- the base and the largest interval, and at most the smaller of the base doubled for each earlier
-- attempt and the largest interval.
pub calculate_backoff_lem :
    (a : Arithmetic) (config : RetryManagerConfig) (n : ℕ)
    → Int63n a
    → n < 63
    → suc (config.base_retry_interval_seconds * second * 2 ^ n) < sign
    → config.max_retry_interval_seconds * second < sign
    → (d : ℕ) × (calculate_backoff a config (suc n) ≡ some d)
      × (min
            (config.base_retry_interval_seconds * second)
            (config.max_retry_interval_seconds * second)
          ≤ d)
      × (d
          ≤ min
              (config.base_retry_interval_seconds * second * 2 ^ n)
              (config.max_retry_interval_seconds * second))
calculate_backoff_lem a config n random h k l =
    let b = config.base_retry_interval_seconds * second in
    let m = config.max_retry_interval_seconds * second in
    let grown : b * 1 ≤ b * 2 ^ n = mul-le-mul_left b (omega (arith, below_power n)) in
    let (d, made, low, high) = raw_backoff_lem a random config.retry_strategy b n h k in
    let capped = cap_small m d l (omega arith) in
    (
      if ltb m d then m else d,
      calculate_unfolded a config (suc n) d (omega (arith, grown)) (omega arith) made
          ∙ ap some (cap_small m d l (omega arith)),
      ground arith,
      ground arith,
    )
