-- ===== src/Strategies/Conditions/Tests.antt =====
-- The condition engine on small inputs.
use ratatoskr_v.Base.{ℕ, ◌≡◌, ◌↔◌, refl, true, false, some, none, Option, List, [], ◌∷◌}
use ratatoskr_v.Domain.{equities, m1}
use ratatoskr_v.Decimal.{Decimal, of_ℕ, decimals}
use ratatoskr_v.MarketData.{Bar}
use ratatoskr_v.Strategies.Conditions.{
  value, indicator, unknown, crosses_above, less_than, Right, Condition, all_of, any_of, condition,
  group, Items, no_items, more, Values, resolve_operand, without_last, resolve_series, compare,
  crosses, in_range, evaluate_operator, evaluate_condition, evaluate_item, evaluate,
}
use ratatoskr_v.Strategies.Conditions.Meaning.{Holds, evaluate-Holds}

unfoldable engine : Unit {0}
unfolding decimals resolve_operand without_last resolve_series compare crosses in_range
    evaluate_operator evaluate_item evaluate
engine = tt

abbrev bar : ℕ → Bar
bar price = record {
  symbol = 50;
  market = equities;
  timeframe = m1;
  ts = 0;
  open_price = of_ℕ price;
  high = of_ℕ price;
  low = of_ℕ price;
  close = of_ℕ price;
  volume = of_ℕ 1;
  is_aggregated = false;
}

-- The indicator is the last close.
abbrev last_close : List Bar → Option Decimal
last_close [] = none
last_close (b ∷ []) = some b.close
last_close (b ∷ c ∷ bs) = last_close (c ∷ bs)

abbrev values : Values
values = record { indicator_value = λ _. last_close; formula_value = λ _ _. none }

abbrev level : ℕ → Right
level price = record { operand = value (some (of_ℕ price)); range_min = none; range_max = none }

abbrev above : Condition
above = record { operator = crosses_above; left = indicator 1; right = level 100 }

abbrev rising : List Bar
rising = bar 99 ∷ bar 101 ∷ []

fires : evaluate_condition values rising above ≡ true
unfolding engine
fires = refl

abbrev cheap : Condition
cheap = record { operator = less_than; left = indicator 1; right = level 120 }

abbrev lost : Condition
lost = record { operator = less_than; left = unknown; right = level 120 }

-- A crossover, and one of two more conditions.
abbrev items : Items
items =
    more (condition above)
      (more (group any_of (more (condition lost) (more (condition cheap) no_items))) no_items)

enters : evaluate values all_of items rising ≡ true
unfolding engine
enters = refl

evaluate-Holds_example :
    (evaluate values all_of items rising ≡ true) ↔ Holds values rising (group all_of items)
evaluate-Holds_example = evaluate-Holds values all_of items rising
