-- ===== src/Batch/Strategy.antt =====
-- strategy.go: when a batch is to be created. Limits and times are natural numbers, without the
-- wrap-around of int64, and one reading of the clock serves a whole decision. Names, metrics, logs,
-- clones and the `closed` flag, which nothing reads, are left out.
pub mod Decisions
pub mod Created
pub mod Evaluator
pub mod Factory
pub mod Growth
pub mod Manager
mod Tests
use staravail.Common.{ℕ, ◌+◌, ◌-◌, ◌/◌, List, [], ◌∷◌, length, get_elem?, Option, none, some}
use staravail.Common.Options.{◌>>=◌}
use staravail.Common.{Bool, true, false, not, ◌&&◌, ltb, leb, ◌==◌, if◌then◌else◌}

-- What the code does with a float64: `at_most t x` is `x >= t`, `scale n x` is n * x cut to an
-- integer, and `tenths n` is the literal of n / 10.
pub record Floats (F : Type 0) : Type 0 where
  pub at_most : F → F → Bool
  pub scale : ℕ → F → ℕ
  pub tenths : ℕ → F

pub record BatchInfo (F : Type 0) : Type 0 where
  pub current_size : ℕ
  pub current_count : ℕ
  pub elapsed_time : ℕ
  pub last_message_time : ℕ
  pub cpu_utilization : F

pub record BaseStrategy : Type 0 where
  pub max_batch_size : ℕ
  pub max_batch_count : ℕ
  pub max_batch_delay : ℕ

-- The fields of `AdaptiveStrategy` next to the underlying strategy.
pub record Adaptation (F : Type 0) : Type 0 where
  pub load_thresholds : List F
  pub size_factors : List F
  pub count_factors : List F
  pub delay_factors : List F
  pub adapt_interval : ℕ
  pub last_adapt_time : ℕ
  pub base_max_batch_size : ℕ
  pub base_max_batch_count : ℕ
  pub base_max_batch_delay : ℕ
  pub adaptation_enabled : Bool

-- The number of the first three is the lower limit.
mutual
  pub data Strategy (F : Type 0) : Type 0 where
    time_interval batch_size batch_count : BaseStrategy → ℕ → Strategy F
    hybrid : BaseStrategy → Strategies F → Bool → Strategy F
    adaptive : BaseStrategy → Adaptation F → Strategy F → Strategy F

  pub data Strategies (F : Type 0) : Type 0 where
    none_left : Strategies F
    then_also : Strategy F → Strategies F → Strategies F

abbrev pub max_int64 : ℕ
max_int64 = 9223372036854775807

abbrev pub one_day : ℕ
one_day = 86400000000000

abbrev pub one_second : ℕ
one_second = 1000000000

abbrev pub base_of : {F : Type 0} → Strategy F → BaseStrategy
base_of (time_interval b _) = b
base_of (batch_size b _) = b
base_of (batch_count b _) = b
base_of (hybrid b _ _) = b
base_of (adaptive b _ _) = b

abbrev pub at_least : ℕ → ℕ → ℕ
at_least low high = if ltb high low then low else high

abbrev pub new_time_interval_strategy : {F : Type 0} → ℕ → ℕ → Strategy F
new_time_interval_strategy high low =
    time_interval
      (record {
        max_batch_size = max_int64;
        max_batch_count = max_int64;
        max_batch_delay = at_least low high;
      })
      low

abbrev pub new_batch_size_strategy : {F : Type 0} → ℕ → ℕ → Strategy F
new_batch_size_strategy high low =
    batch_size
      (record {
        max_batch_size = at_least low high;
        max_batch_count = max_int64;
        max_batch_delay = one_day;
      })
      low

abbrev pub new_batch_count_strategy : {F : Type 0} → ℕ → ℕ → Strategy F
new_batch_count_strategy high low =
    batch_count
      (record {
        max_batch_size = max_int64;
        max_batch_count = at_least low high;
        max_batch_delay = one_day;
      })
      low

abbrev pub lower : ℕ → ℕ → ℕ
lower n acc = if ltb n acc then n else acc

-- The lowest limits of the strategies, and of the base that the loop starts with.
abbrev pub lowest_limits : {F : Type 0} → Strategies F → BaseStrategy → BaseStrategy
lowest_limits none_left b = b
lowest_limits (then_also s ss) b = lowest_limits ss (record {
  max_batch_size = lower (base_of s).max_batch_size b.max_batch_size;
  max_batch_count = lower (base_of s).max_batch_count b.max_batch_count;
  max_batch_delay = lower (base_of s).max_batch_delay b.max_batch_delay;
})

unfoldable pub new_hybrid_strategy : {F : Type 0} → Strategies F → Bool → Strategy F
new_hybrid_strategy ss require_all =
    hybrid
      (lowest_limits ss (record {
        max_batch_size = max_int64;
        max_batch_count = max_int64;
        max_batch_delay = one_day;
      }))
      ss require_all

abbrev pub same_lengths : {F : Type 0} → List F → List F → List F → List F → Bool
same_lengths loads sizes counts delays =
    (length loads == length sizes)
    && (length loads == length counts)
    && (length loads == length delays)

-- `none` for the error "must have the same length".
unfoldable pub new_adaptive_strategy :
    {F : Type 0} → ℕ → Strategy F → List F → List F → List F → List F → ℕ → Option (Strategy F)
new_adaptive_strategy now s loads sizes counts delays interval =
    let b = base_of s in
    if not (same_lengths loads sizes counts delays)
    then none
    else some (
        adaptive b
          (record {
            load_thresholds = loads;
            size_factors = sizes;
            count_factors = counts;
            delay_factors = delays;
            adapt_interval = interval;
            last_adapt_time = now;
            base_max_batch_size = b.max_batch_size;
            base_max_batch_count = b.max_batch_count;
            base_max_batch_delay = b.max_batch_delay;
            adaptation_enabled = true;
          })
          s)

-- How long ago the last message came.
abbrev pub quiet_time : {F : Type 0} → ℕ → BatchInfo F → ℕ
quiet_time now i = now - i.last_message_time

unfoldable pub time_decides : {F : Type 0} → BaseStrategy → ℕ → ℕ → BatchInfo F → Bool
time_decides b low now i =
    if i.current_count == 0
    then false
    else if leb b.max_batch_delay i.elapsed_time
    then true
    else leb low i.elapsed_time && ltb 0 i.current_count && leb (low / 2) (quiet_time now i)

unfoldable pub size_decides : {F : Type 0} → BaseStrategy → ℕ → ℕ → BatchInfo F → Bool
size_decides b low now i =
    if i.current_count == 0
    then false
    else if leb b.max_batch_size i.current_size
    then true
    else leb low i.current_size && ltb 0 i.current_count && leb one_second (quiet_time now i)

unfoldable pub count_decides : {F : Type 0} → BaseStrategy → ℕ → ℕ → BatchInfo F → Bool
count_decides b low now i =
    if i.current_count == 0
    then false
    else if leb b.max_batch_count i.current_count
    then true
    else leb low i.current_count && leb one_second (quiet_time now i)

-- The level of the load: how many of the first thresholds it reaches.
unfoldable pub load_level : {F : Type 0} → Floats F → F → List F → ℕ
load_level f load [] = 0
load_level f load (t ∷ ts) =
    let rest = load_level f load ts in if f.at_most t load then 1 + rest else 0

-- `none` for the index out of range of an empty list.
abbrev pub factor_at : {F : Type 0} → ℕ → List F → Option F
factor_at level fs =
    if ltb level (length fs) then get_elem? fs level else get_elem? fs (length fs - 1)

-- The limits that the adaptive strategy reports change; no strategy has the setters that would pass
-- them on to the underlying one. `none` when the code panics.
unfoldable pub adapt_if_needed :
    {F : Type 0}
    → Floats F
    → ℕ
    → BatchInfo F
    → BaseStrategy × Adaptation F
    → Option (BaseStrategy × Adaptation F)
adapt_if_needed f now i (b, a) =
    if not a.adaptation_enabled
    then some (b, a)
    else if ltb (now - a.last_adapt_time) a.adapt_interval
    then some (b, a)
    else do
      let level = load_level f i.cpu_utilization a.load_thresholds
      size_factor ← factor_at level a.size_factors
      count_factor ← factor_at level a.count_factors
      delay_factor ← factor_at level a.delay_factors
      some (
        record {
          max_batch_size = f.scale a.base_max_batch_size size_factor;
          max_batch_count = f.scale a.base_max_batch_count count_factor;
          max_batch_delay = f.scale a.base_max_batch_delay delay_factor;
        },
        record a { last_adapt_time = now },
      )

abbrev pub adapted :
    {F : Type 0} → BaseStrategy × Adaptation F → Strategy F × Bool → Strategy F × Bool
adapted ba sb = (adaptive ba.0 ba.1 sb.0, sb.1)

abbrev agrees : Bool → Bool → Bool
agrees true b = b
agrees false b = not b

-- The strategies behind the decision, and the decision; `none` when the code panics.
unfoldable mutual
  pub should_create_batch :
      {F : Type 0} → Floats F → ℕ → BatchInfo F → Strategy F → Option (Strategy F × Bool)
  should_create_batch f now i (time_interval b low) =
      some (time_interval b low, time_decides b low now i)
  should_create_batch f now i (batch_size b low) = some (batch_size b low, size_decides b low now i)
  should_create_batch f now i (batch_count b low) =
      some (batch_count b low, count_decides b low now i)
  should_create_batch f now i (hybrid b ss require_all) =
      let asked = ask_strategies f now i require_all ss in
      if i.current_count == 0
      then some (hybrid b ss require_all, false)
      else do r ← asked; some (hybrid b r.0 require_all, r.1)
  should_create_batch f now i (adaptive b a s) =
      let under = should_create_batch f now i s in
      if i.current_count == 0
      then some (adaptive b a s, false)
      else do ba ← adapt_if_needed f now i (b, a); sb ← under; some (adapted ba sb)

  -- The loop stops at the first that disagrees when all must agree, and else at the first that agrees.
  pub ask_strategies :
      {F : Type 0} → Floats F → ℕ → BatchInfo F → Bool → Strategies F → Option (Strategies F × Bool)
  ask_strategies f now i require_all none_left = some (none_left, require_all)
  ask_strategies f now i require_all (then_also s ss) =
      let first = should_create_batch f now i s in
      let rest = ask_strategies f now i require_all ss in
      do
        sb ← first
        if agrees sb.1 require_all
            then (rest >>= λ r. some (then_also sb.0 r.0, r.1))
            else some (then_also sb.0 ss, not require_all)
