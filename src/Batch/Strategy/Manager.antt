-- ===== src/Batch/Strategy/Manager.antt =====
-- strategy.go: `BatchStrategyManager`, which keeps a strategy for each target. A call that meets no
-- other is one step. A strategy is stored by value: what its own decisions change in it, the limits
-- that it reports and the time of its last adaptation, is not seen through the map. The performance
-- monitor, which the manager does not ask, is left out.
use staravail.Common.{ℕ, List, [], ◌∷◌, Text, text_eq, Option, none, some, if◌then◌else◌}
use staravail.Batch.Strategy.{Floats, Strategy}
use staravail.Batch.Strategy.Factory.{StrategyConfig, Created, created, refused, create_strategy}

pub record BatchStrategyManager (F : Type 0) : Type 0 where
  pub default_config : StrategyConfig F
  pub strategies : List (Text × Strategy F)

unfoldable pub new_batch_strategy_manager : {F : Type 0} → StrategyConfig F → BatchStrategyManager F
new_batch_strategy_manager config = record { default_config = config; strategies = [] }

unfoldable pub find_strategy : {F : Type 0} → Text → List (Text × Strategy F) → Option (Strategy F)
find_strategy target [] = none
find_strategy target ((t, s) ∷ ss) =
    let rest = find_strategy target ss in if text_eq t target then some s else rest

unfoldable pub put_strategy :
    {F : Type 0} → Text → Strategy F → List (Text × Strategy F) → List (Text × Strategy F)
put_strategy target s [] = (target, s) ∷ []
put_strategy target s ((t, old) ∷ ss) =
    let rest = put_strategy target s ss in
    if text_eq t target then (target, s) ∷ ss else (t, old) ∷ rest

-- A strategy that the factory made stands under the target, and the error changes nothing.
abbrev store_created :
    {F : Type 0}
    → Text
    → BatchStrategyManager F
    → Created (Strategy F)
    → BatchStrategyManager F × Created (Strategy F)
store_created target m (refused e) = (m, refused e)
store_created target m (created s) =
    (record m { strategies = put_strategy target s m.strategies }, created s)

abbrev found_strategy :
    {F : Type 0}
    → BatchStrategyManager F
    → Option (Strategy F)
    → BatchStrategyManager F × Created (Strategy F)
    → BatchStrategyManager F × Created (Strategy F)
found_strategy m (some s) made = (m, created s)
found_strategy m none made = made

unfoldable pub get_strategy :
    {F : Type 0}
    → Floats F
    → ℕ
    → Text
    → BatchStrategyManager F
    → BatchStrategyManager F × Created (Strategy F)
get_strategy f now target m =
    found_strategy m (find_strategy target m.strategies)
      (store_created target m (create_strategy f now m.default_config))

-- The strategy that stood under the target is closed, which changes no decision.
unfoldable pub set_strategy_config :
    {F : Type 0}
    → Floats F
    → ℕ
    → Text
    → StrategyConfig F
    → BatchStrategyManager F
    → BatchStrategyManager F × Created (Strategy F)
set_strategy_config f now target config m = store_created target m (create_strategy f now config)

unfoldable pub close_manager : {F : Type 0} → BatchStrategyManager F → BatchStrategyManager F
close_manager m = record m { strategies = [] }
