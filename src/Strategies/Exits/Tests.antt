-- ===== src/Strategies/Exits/Tests.antt =====
-- The exits of a position of strategies/runner.py on small inputs. `held`, `bar` and `no_rules` are
-- used by the tests of the safety monitor and of the runner.
use ratatoskr_v.Base.{ℕ, ◌+◌, ◌≡◌, refl, true, false, not, none, some, [], ◌∷◌, arith}
use ratatoskr_v.Domain.{equities, m1}
use ratatoskr_v.Decimal.{of_ℕ, decimals, decimal_zero}
use ratatoskr_v.Decimal.Sign.{IsPositive}
use ratatoskr_v.MarketData.{Bar}
use ratatoskr_v.Portfolio.{long, is_long, Position}
use ratatoskr_v.Strategies.Conditions.{Values}
use ratatoskr_v.Strategies.Indicators.{get_source_value}
use ratatoskr_v.Strategies.Indicators.Oscillators.{true_range, compute_atr}
use ratatoskr_v.Strategies.Exits.{
  percent, Rule, ExitConfig, position_dict, entry_of, compute_stop_price, compute_take_profit,
  has_value, at_or_worse, at_or_better, stop_loss_fires, take_profit_fires, is_beyond, next_extreme,
  trail_price, trailing_fires, trailing_stop_fires, evaluate_late, evaluate_exit_at, evaluate_exit,
  take_profit,
}
use ratatoskr_v.Strategies.Exits.Trailing.{extreme_after, extreme_after-none}
use ratatoskr_v.Strategies.Exits.Entry.{position_dict-percent}

unfoldable pub exits : Unit {0}
unfolding decimals get_source_value true_range compute_atr position_dict entry_of compute_stop_price
    compute_take_profit at_or_worse at_or_better stop_loss_fires take_profit_fires is_beyond
    next_extreme trail_price trailing_fires trailing_stop_fires evaluate_late evaluate_exit_at
    evaluate_exit
exits = tt

abbrev pub bar : ℕ → Bar
bar price = record {
  symbol = 50;
  market = equities;
  timeframe = m1;
  ts = 0;
  open_price = of_ℕ price;
  high = of_ℕ (price + 1);
  low = of_ℕ price;
  close = of_ℕ price;
  volume = of_ℕ 10;
  is_aggregated = false;
}

-- a long position in ten shares at 100
abbrev pub held : Position
held = record {
  id = 7;
  user_id = 3;
  strategy_id = 1;
  symbol = 50;
  market = equities;
  side = long;
  qty = of_ℕ 10;
  avg_entry_price = of_ℕ 100;
  cost_basis = of_ℕ 1000;
  current_price = of_ℕ 100;
  market_value = of_ℕ 1000;
  unrealized_pnl = decimal_zero;
  unrealized_pnl_percent = decimal_zero;
  realized_pnl = decimal_zero;
  total_fees = decimal_zero;
  total_dividends_received = decimal_zero;
  total_return = decimal_zero;
  total_return_percent = decimal_zero;
  is_open = true;
  opened_at = 0;
  closed_at = none;
  close_reason = none;
  highest_price_since_entry = of_ℕ 100;
  lowest_price_since_entry = of_ℕ 100;
  bars_held = 4;
  broker_account_id = none;
  contract_multiplier = 1;
}

abbrev pub no_rules : ExitConfig
no_rules = record {
  exit_conditions = none;
  stop_loss = none;
  take_profit = none;
  trailing_stop = none;
  risk_stop_loss = none;
  risk_take_profit = none;
  risk_trailing_stop = none;
  max_hold_bars = none;
}

abbrev pub ten_percent : Rule
ten_percent = record { type = percent; value = some (of_ℕ 10) }

abbrev no_values : Values
no_values = record { indicator_value = λ _ _. none; formula_value = λ _ _. none }

abbrev trailing : ExitConfig
trailing = record no_rules {
  trailing_stop = some (record { enabled = true; is_percent = true; value = of_ℕ 10 });
}

-- The price doubles and falls back below the entry: the trailing stop of ten percent has kept nothing
-- and does not fire.
trailing_is_silent :
    evaluate_exit no_values trailing (bar 90 ∷ []) (position_dict held) (
      extreme_after no_values trailing
        (position_dict held)
        none
        ((bar 100 ∷ []) ∷ (bar 200 ∷ []) ∷ (bar 150 ∷ []) ∷ []))
    ≡ (none, none)
unfolding exits
trailing_is_silent = refl

extreme_after-none_example :
    extreme_after no_values trailing
      (position_dict held)
      none
      ((bar 100 ∷ []) ∷ (bar 200 ∷ []) ∷ [])
    ≡ none
extreme_after-none_example =
    extreme_after-none no_values trailing (position_dict held)
      ((bar 100 ∷ []) ∷ (bar 200 ∷ []) ∷ [])

present : has_value ten_percent ≡ true
unfolding exits
present = refl

position_dict-percent_example :
    (stop_loss_fires (some ten_percent) (position_dict held) (of_ℕ 50) [] ≡ not (is_long held.side))
    × (take_profit_fires (some ten_percent) none (position_dict held) (of_ℕ 50) []
        ≡ is_long held.side)
position_dict-percent_example =
    position_dict-percent held (of_ℕ 10) (of_ℕ 50) none [] at_fifty present
  where
    at_fifty : IsPositive (of_ℕ 50)
    at_fifty = omega arith

-- At half of the entry price a take profit of ten percent closes the position.
profit_at_a_loss :
    (evaluate_exit no_values
      (record no_rules { take_profit = some ten_percent })
      (bar 50 ∷ [])
      (position_dict held)
      none).0
    ≡ some take_profit
unfolding exits
profit_at_a_loss = refl
