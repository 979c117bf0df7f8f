-- ===== src/Portfolio/DeltaTests.antt =====
-- A run of src/engine/portfolio/delta_order_plan.py, and the theorem about it.
use proofalpha.Python.Sets.{sorted_set}
use mathlib.Core.List.{Memᴰ}
use proofalpha.Prelude.{◌||◌, String, true, false, List, ◌∷◌, [], ◌≡◌, ◌↔◌, refl, map, contains}
use proofalpha.Prelude.Int.{ℤ, ◌-ℤ◌, ◌+ℤ◌}
use proofalpha.Prelude.Dict.{Dict, insert, lookup}
use proofalpha.Python.Fixed.{fixed}
use proofalpha.Portfolio.Target.{SymbolTarget}
use proofalpha.Portfolio.Delta.{
  DeltaAction, DeltaIntent, dict_keys, target_notional_by_symbol, delta_action,
  build_delta_order_plan, actions_of, to_internal_order_intents, named, delta_actions,
}
use proofalpha.Portfolio.Reached.{order_to_target, targeted, change, build_delta_order_plan_iff}
use proofalpha.Portfolio.BudgetTests.{percent, target}

abbrev held : Dict ℤ
held = ("BTCUSDT", percent 400) ∷ ("SOLUSDT", percent 1000) ∷ []

abbrev wanted : List (SymbolTarget ℤ)
wanted = target "ETHUSDT" 30 ∷ target "SOLUSDT" 20 ∷ []

abbrev closing : DeltaAction ℤ
closing = order_to_target fixed held wanted "BTCUSDT"

build_delta_order_plan_iff_example :
    Memᴰ closing (
      actions_of fixed
        (build_delta_order_plan fixed "plan" held wanted (percent 200) (percent 100) (percent 0)))
    ↔ (((contains closing.symbol (dict_keys held)
            || contains closing.symbol (targeted fixed wanted))
          ≡ true)
        × (fixed.lt (fixed.abs (change fixed held wanted closing.symbol)) (fixed.lit 1 9) ≡ false)
        × (closing ≡ order_to_target fixed held wanted closing.symbol))
build_delta_order_plan_iff_example =
    build_delta_order_plan_iff fixed "plan" held wanted (percent 200) (percent 100) (percent 0)
      closing

-- SOLUSDT is at its target already.
delta_sides :
    map {B = String × String × String}
      (λ (i : DeltaIntent ℤ). (i.symbol, i.side, i.source_delta_action))
      (to_internal_order_intents fixed
        (build_delta_order_plan fixed "plan" held wanted (percent 200) (percent 100) (percent 0)))
    ≡ ("ETHUSDT", "BUY", "open") ∷ ("BTCUSDT", "SELL", "close") ∷ []
unfolding to_internal_order_intents build_delta_order_plan named delta_actions sorted_set
    target_notional_by_symbol insert ◌-ℤ◌ lookup delta_action ◌+ℤ◌
delta_sides = refl
