-- ===== src/Strategies/Runner/Tests.antt =====
-- The strategy runner on small inputs.
use ratatoskr_v.Base.{
  ◌+◌, ◌*◌, ◌≡◌, refl, true, false, not, ◌&&◌, leb, ltb, ◌==◌, Option, none, some, List, [], ◌∷◌,
}
use ratatoskr_v.Domain.{Symbol, Time, minute, equities, buy, m1}
use ratatoskr_v.MarketData.{Bar}
use ratatoskr_v.Strategies.Conditions.{all_of, no_items}
use ratatoskr_v.Strategies.Models.{Strategy, enabled, paused}
use ratatoskr_v.Strategies.Exits.Tests.{held, bar, no_rules, ten_percent}
use ratatoskr_v.Strategies.Runner.{
  clock_hour, clock_weekday, trades_forex, trades_equities, regular, is_market_open, RunConfig,
  Inputs, Evaluation, evaluate_symbols, cycle_strategy,
}
use ratatoskr_v.Strategies.Runner.Clock.{week_hour, is_market_open-forex}
use ratatoskr_v.Strategies.Runner.Counting.{Counted, evaluate_symbols-Counted}
use ratatoskr_v.Strategies.Runner.Pausing.{after_errors, after_errors-paused}

-- 08:00 on the first Saturday after the epoch, a Thursday
abbrev saturday : Time
saturday = (2 * 1440 + 480) * minute

is_market_open-forex_example :
    is_market_open trades_forex regular saturday
    ≡ not (leb (4 * 24 + 22) (week_hour saturday) && ltb (week_hour saturday) (6 * 24 + 22))
is_market_open-forex_example = is_market_open-forex regular saturday

closed_on_saturday : is_market_open trades_forex regular saturday ≡ false
unfolding is_market_open clock_hour clock_weekday
closed_on_saturday = refl

abbrev strategy : Strategy
strategy = record {
  id = 1;
  status = enabled;
  current_version = 1;
  market = equities;
  auto_pause_error_count = 0;
  last_evaluated_at = none;
  user_id = 3;
}

abbrev run_config : RunConfig
run_config = record {
  market = trades_equities;
  trading_mode = regular;
  timeframe = m1;
  symbols = 50 ∷ 51 ∷ 52 ∷ [];
  entry_conditions = some (all_of, no_items);
  entry_side = buy;
  exits = record no_rules { take_profit = some ten_percent };
}

-- 50 is held, 51 has bars, and the bars of every other symbol cannot be read.
abbrev bars_of : Symbol → Option (List Bar)
bars_of s = elim (s == 50) [
  | true ↦ some (bar 120 ∷ [])
  | false ↦ elim (s == 51) [ true ↦ some (bar 80 ∷ []) | false ↦ none ]
]

abbrev inputs : Inputs
inputs = record {
  signal_config = record { dedup_window_bars = 1; default_expiry_seconds = 300 };
  owners = record { strategy_id = 1; user_id = 3 } ∷ [];
  values = record { indicator_value = λ _ _. none; formula_value = λ _ _. none };
  positions = held ∷ [];
  get_bars = bars_of;
}

abbrev fresh : Evaluation
fresh = record {
  table = [];
  next_id = 100;
  extremes = λ _. none;
  signals_emitted = 0;
  exits_triggered = 0;
  errors = 0;
  details = [];
}

evaluate_symbols-Counted_example :
    Counted 3 fresh
      (evaluate_symbols inputs (10 * minute) strategy run_config (50 ∷ 51 ∷ 52 ∷ []) fresh)
evaluate_symbols-Counted_example =
    evaluate_symbols-Counted inputs (10 * minute) strategy run_config (50 ∷ 51 ∷ 52 ∷ []) fresh

after_errors-paused_example :
    ((after_errors 3 (0 ∷ minute ∷ []) strategy).status ≡ enabled)
    × ((after_errors 3 (0 ∷ minute ∷ []) strategy).auto_pause_error_count ≡ 2)
    × ((cycle_strategy 3 (2 * minute) m1 true (after_errors 3 (0 ∷ minute ∷ []) strategy)).status
        ≡ paused)
    × ((cycle_strategy 3
          (2 * minute)
          m1
          true
          (after_errors 3 (0 ∷ minute ∷ []) strategy)).auto_pause_error_count
        ≡ 0)
    × ((cycle_strategy 3
          (2 * minute)
          m1
          false
          (after_errors 3 (0 ∷ minute ∷ []) strategy)).auto_pause_error_count
        ≡ 0)
after_errors-paused_example =
    after_errors-paused 3 (0 ∷ minute ∷ []) (2 * minute) strategy refl refl refl
