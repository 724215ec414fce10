-- ===== src/Batch/Strategy/Growth.antt =====
-- strategy.go: a batch that is due stays due while it grows and ages.
use staravail.Common.{
  ℕ, ◌≤◌, ◌≡◌, refl, arith, Bool, true, false, not, ◌&&◌, ◌||◌, ◌==◌, if◌then◌else◌,
}
use staravail.Batch.Strategy.{
  BatchInfo, BaseStrategy, Strategy, time_interval, batch_size, batch_count, hybrid, adaptive,
  Strategies, none_left, then_also, quiet_time, time_decides, size_decides, count_decides,
}
use staravail.Common.{List, [], ◌∷◌, Option, some, sym, ap, ◌∙◌}
use staravail.Batch.Strategy.{Floats}
use staravail.Batch.Strategy.Factory.{StrategyConfig, create_strategy, created}
use staravail.Batch.Strategy.Decisions.{wants, all_want, any_wants, decisions, wanted}
use staravail.Batch.Strategy.Created.{create_strategy-decisions}

-- At the second time the batch is at least as large, as old and as long without a message.
pub record Grows {F : Type 0} (now : ℕ) (i : BatchInfo F) (later : ℕ) (j : BatchInfo F)
    : Type 0 where
  pub size : i.current_size ≤ j.current_size
  pub count : i.current_count ≤ j.current_count
  pub elapsed : i.elapsed_time ≤ j.elapsed_time
  pub quiet : quiet_time now i ≤ quiet_time later j

nonempty : (a b : ℕ) → a ≤ b → not (a == 0) ≡ true → not (b == 0) ≡ true
nonempty a b h k = ground arith

time-Grows :
    {F : Type 0} (b : BaseStrategy) (low now later : ℕ) (i j : BatchInfo F)
    → Grows now i later j
    → time_decides b low now i ≡ true
    → time_decides b low later j ≡ true
unfolding time_decides
time-Grows b low now later i j g h = ground (arith, g.count, g.elapsed, g.quiet)

size-Grows :
    {F : Type 0} (b : BaseStrategy) (low now later : ℕ) (i j : BatchInfo F)
    → Grows now i later j
    → size_decides b low now i ≡ true
    → size_decides b low later j ≡ true
unfolding size_decides
size-Grows b low now later i j g h = ground (arith, g.count, g.size, g.quiet)

count-Grows :
    {F : Type 0} (b : BaseStrategy) (low now later : ℕ) (i j : BatchInfo F)
    → Grows now i later j
    → count_decides b low now i ≡ true
    → count_decides b low later j ≡ true
unfolding count_decides
count-Grows b low now later i j g h = ground (arith, g.count, g.quiet)

and-left : (a b : Bool) → a && b ≡ true → a ≡ true
and-left true b h = refl
and-left false b h = h

and-right : (a b : Bool) → a && b ≡ true → b ≡ true
and-right true b h = h
and-right false b h = absurd (ground arith)

and-both : (a b : Bool) → a ≡ true → b ≡ true → a && b ≡ true
and-both a b h k = rw (h, k)

or_mono :
    (a b c d : Bool) → (a ≡ true → c ≡ true) → (b ≡ true → d ≡ true) → a || b ≡ true → c || d ≡ true
or_mono true b c d h k e = rw (h refl)
or_mono false b true d h k e = refl
or_mono false b false d h k e = k e

if_mono :
    (b x y z w : Bool)
    → (x ≡ true → z ≡ true)
    → (y ≡ true → w ≡ true)
    → (if b then x else y) ≡ true
    → (if b then z else w) ≡ true
if_mono true x y z w h k e = h e
if_mono false x y z w h k e = k e

mutual
  unfolding wants

  wants-Grows :
      {F : Type 0} (now later : ℕ) (i j : BatchInfo F) (s : Strategy F)
      → Grows now i later j
      → wants now i s ≡ true
      → wants later j s ≡ true
  wants-Grows now later i j (time_interval b low) g h = time-Grows b low now later i j g h
  wants-Grows now later i j (batch_size b low) g h = size-Grows b low now later i j g h
  wants-Grows now later i j (batch_count b low) g h = count-Grows b low now later i j g h
  wants-Grows now later i j (hybrid b ss require_all) g h =
      and-both _ _ (nonempty i.current_count j.current_count g.count (and-left _ _ h)) (
        if_mono require_all (all_want now i ss) (any_wants now i ss) (all_want later j ss)
          (any_wants later j ss) (all-Grows now later i j ss g) (any-Grows now later i j ss g)
          (and-right (not (i.current_count == 0)) _ h))
  wants-Grows now later i j (adaptive b a s) g h =
      and-both _ _ (nonempty i.current_count j.current_count g.count (and-left _ _ h))
        (wants-Grows now later i j s g (and-right (not (i.current_count == 0)) _ h))

  all-Grows :
      {F : Type 0} (now later : ℕ) (i j : BatchInfo F) (ss : Strategies F)
      → Grows now i later j
      → all_want now i ss ≡ true
      → all_want later j ss ≡ true
  all-Grows now later i j none_left g h = refl
  all-Grows now later i j (then_also s ss) g h =
      and-both _ _ (wants-Grows now later i j s g (and-left _ _ h))
        (all-Grows now later i j ss g (and-right (wants now i s) _ h))

  any-Grows :
      {F : Type 0} (now later : ℕ) (i j : BatchInfo F) (ss : Strategies F)
      → Grows now i later j
      → any_wants now i ss ≡ true
      → any_wants later j ss ≡ true
  any-Grows now later i j none_left g h = h
  any-Grows now later i j (then_also s ss) g h =
      or_mono (wants now i s) (any_wants now i ss) (wants later j s) (any_wants later j ss)
        (wants-Grows now later i j s g) (any-Grows now later i j ss g) h

abbrev answers : Option (List Bool) → Bool × Bool
answers (some (a ∷ b ∷ _)) = (a, b)
answers _ = (false, false)

-- When a strategy that the factory made wants a batch to be created, and at the next decision the
-- batch has at least as many bytes and messages, is at least as old, and is without a message for
-- at least as long, it wants it again.
pub decisions_grow :
    {F : Type 0} (f : Floats F) (made now later : ℕ) (c : StrategyConfig F) (s : Strategy F)
    (i j : BatchInfo F) (b : Bool)
    → create_strategy f made c ≡ created s
    → Grows now i later j
    → decisions f ((now, i) ∷ (later, j) ∷ []) s ≡ some (true ∷ b ∷ [])
    → b ≡ true
unfolding wanted
decisions_grow f made now later c s i j b h g e =
    let both =
      ap answers (sym e ∙ create_strategy-decisions f made c s ((now, i) ∷ (later, j) ∷ []) h) in
    ap (λ (x : Bool × Bool). x.1) both
    ∙ wants-Grows now later i j s g (sym (ap (λ (x : Bool × Bool). x.0) both))
