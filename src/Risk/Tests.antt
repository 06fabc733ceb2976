-- ===== src/Risk/Tests.antt =====
-- The risk module on small inputs.
use ratatoskr_v.Base.{◌≡◌, ◌≢◌, refl, true, false, none, some, [], ◌∷◌, inr, All, ◌*◌}
use ratatoskr_v.Domain.{buy, sell, entry, exit, Source, equities, m5, Time}
use ratatoskr_v.Decimal.{of_ℕ, decimals, is_le, is_eq}
use ratatoskr_v.Signals.{Signal, pending, get_by_id}
use ratatoskr_v.Signals.Service.{service}
use ratatoskr_v.Risk.{RiskConfig, enabled, fixed_qty, Sizing, Context, reject, put, merge, get}
use ratatoskr_v.Risk.Checks.{
  risk_checks, kill_switch, strategy_enable, symbol_tradability, market_hours, duplicate_order,
  position_limit, position_sizing, symbol_exposure, strategy_exposure, portfolio_exposure, drawdown,
  daily_loss, daily_loss_limit, percent_of, calculate_position_value, judge_size, is_market_open,
  is_market_open_at, hour_of, weekday_of, Check,
}
use ratatoskr_v.Risk.Checks.Passing.{IsCleared, decide-IsCleared}
use ratatoskr_v.Risk.Checks.Sizes.{effective, position_sizing-value_only}
use ratatoskr_v.Risk.Pipeline.{
  State, approved, rejected, modified, decide, decide_run, run_checks, run_exit_checks, decide_exit,
  evaluate_signal, evaluate_pending_signals,
}
use ratatoskr_v.Risk.Pipeline.Loop.{Allows, decide-first_reject, decide-exit}
use ratatoskr_v.Risk.Pipeline.Effects.{decide-halted}
use ratatoskr_v.Risk.KillSwitch.{switching}
use ratatoskr_v.Risk.Drawdown.{get_threshold_status, get_drawdown, get_current_drawdown}
use ratatoskr_v.PaperTrading.{Config}
use ratatoskr_v.PaperTrading.Quantity.{determine_qty}
use ratatoskr_v.PaperTrading.Quantity.Modified.{dict_of, determine_qty-unmodified}

unfoldable program : Unit {0}
unfolding service decimals kill_switch strategy_enable symbol_tradability market_hours
    duplicate_order position_limit position_sizing symbol_exposure strategy_exposure
    portfolio_exposure drawdown daily_loss daily_loss_limit percent_of calculate_position_value
    judge_size is_market_open is_market_open_at hour_of weekday_of decide decide_run run_checks
    run_exit_checks decide_exit evaluate_signal evaluate_pending_signals put merge get switching
    get_threshold_status get_drawdown get_current_drawdown
program = tt

abbrev limits : RiskConfig
limits = record {
  max_position_size_percent = of_ℕ 10;
  max_symbol_exposure_percent = of_ℕ 20;
  max_strategy_exposure_percent = of_ℕ 30;
  max_total_exposure_percent = of_ℕ 80;
  max_drawdown_percent = of_ℕ 10;
  max_drawdown_catastrophic_percent = of_ℕ 20;
  max_daily_loss_percent = of_ℕ 3;
  max_daily_loss_amount = none;
  min_position_value = of_ℕ 100;
}

abbrev sizing : Sizing
sizing = record {
  method = some fixed_qty;
  value = some (of_ℕ 10);
  qty = some (of_ℕ 10);
  amount = none;
  percent = none;
  risk_percent = none;
  stop_distance = none;
  stop_price = none;
  max_positions = some 3;
}

-- A Thursday, 14:00 UTC.
abbrev thursday : Time
thursday = 14 * 3600000000

abbrev pub context : Context
context = record {
  risk_config = limits;
  strategy_status = enabled;
  sizing = sizing;
  portfolio_equity = of_ℕ 100000;
  current_drawdown_percent = of_ℕ 2;
  daily_realized_loss = of_ℕ 100;
  symbol_exposure = (50, of_ℕ 5000) ∷ [];
  strategy_exposure = (7, of_ℕ 5000) ∷ [];
  total_exposure = of_ℕ 5000;
  strategy_positions_count = 1;
  current_price = some (of_ℕ 150);
  proposed_position_value = of_ℕ 1500;
  kill_switch_global = false;
  kill_switch_strategy = false;
  now = thursday;
  on_watchlist = true;
  pending_order = some false;
}

abbrev pub signal : Signal
signal = record {
  id = 1;
  strategy_id = 7;
  symbol = 50;
  market = equities;
  timeframe = m5;
  side = buy;
  signal_type = entry;
  source = Source.strategy;
  status = pending;
  ts = thursday;
  expires_at = none;
  created_at = thursday;
}

abbrev exit_signal : Signal
exit_signal = record signal { side = sell; signal_type = exit }

pub accepted : (decide risk_checks signal (some context)).status ≡ approved
unfolding program
accepted = refl

-- At night an entry is rejected and an exit is queued.
abbrev night : Context
night = record context { now = 3 * 3600000000 }

closed : (decide risk_checks signal (some night)).failed_check ≡ some "market_hours"
unfolding program
closed = refl

queued : (decide risk_checks exit_signal (some night)).status ≡ modified
unfolding program
queued = refl

-- A position of 15000 in an account of 100000 is capped at 10 percent, 10000.
abbrev large : Context
large = record context { sizing = record sizing { qty = some (of_ℕ 100) } }

capped : is_eq (effective (judge_size large (of_ℕ 15000)) (of_ℕ 15000)) (of_ℕ 10000) ≡ true
unfolding program
capped = refl

decide-IsCleared_example : IsCleared signal context
decide-IsCleared_example = decide-IsCleared signal context refl not_rejected
  where
    not_rejected : (decide risk_checks signal (some context)).status ≢ rejected
    not_rejected e = cc (accepted, e)

decide-exit_example :
    ((decide risk_checks exit_signal (some night)).status ≢ rejected)
    × ((decide risk_checks exit_signal (some night)).failed_check ≡ none)
decide-exit_example = decide-exit exit_signal night risk_checks refl

abbrev market_check : Check
market_check = record { name = "market_hours"; applies_to_exits = true; evaluate = market_hours }

abbrev enable_check : Check
enable_check = record {
  name = "strategy_enable";
  applies_to_exits = false;
  evaluate = strategy_enable;
}

enable-Allows : All (Allows signal night) (enable_check ∷ [])
unfolding program
enable-Allows = (refl, tt)

closed_market : market_hours signal night ≡ reject "market_closed"
unfolding program
closed_market = refl

decide-first_reject_example :
    decide (enable_check ∷ market_check ∷ []) signal (some night) ≡ record {
      signal_id = 1;
      status = rejected;
      checks_passed = "strategy_enable" ∷ [];
      failed_check = some "market_hours";
      reason_code = "market_closed";
      modifications = none;
    }
decide-first_reject_example =
    decide-first_reject signal night (enable_check ∷ []) market_check [] "market_closed" refl
      enable-Allows closed_market

abbrev halted : Context
halted = record context { kill_switch_strategy = true }

decide-halted_example : decide risk_checks signal (some halted) ≡ record {
  signal_id = 1;
  status = rejected;
  checks_passed = [];
  failed_check = some "kill_switch";
  reason_code = "strategy_kill_switch";
  modifications = none;
}
decide-halted_example = decide-halted signal halted refl (inr refl)

abbrev by_value : Context
by_value = record context { sizing = record sizing { qty = none } }

position_sizing-value_only_example : position_sizing signal by_value ≡ reject "invalid_size"
position_sizing-value_only_example =
    position_sizing-value_only signal by_value refl refl
      (record { no_qty = refl; no_amount = refl; no_percent = refl })

abbrev state : State
state = record { signals = signal ∷ []; decisions = [] }

stored : get_by_id 1 (signal ∷ []) ≡ some signal
unfolding program
stored = refl

in_order : is_le (of_ℕ 12) (of_ℕ 15) ≡ true
unfolding program
in_order = refl

limits_in_order : is_le (of_ℕ 10) (of_ℕ 20) ≡ true
unfolding program
limits_in_order = refl

abbrev paper : Config
paper = record {
  equities_on_broker = false;
  slippage_bps_equities = of_ℕ 5;
  slippage_bps_forex = of_ℕ 2;
  slippage_bps_options = of_ℕ 10;
  fee_per_trade_equities = of_ℕ 0;
  fee_spread_bps_forex = of_ℕ 15;
  fee_per_trade_options = of_ℕ 1;
  default_contract_multiplier = 100;
  initial_cash = of_ℕ 100000;
}

-- The position of 15000 that is capped at 10000 is ordered at its full 100 shares.
determine_qty-unmodified_example :
    determine_qty paper equities
      (dict_of (decide risk_checks signal (some large)).modifications)
      large.sizing
      (of_ℕ 150)
    ≡ determine_qty paper equities [] large.sizing (of_ℕ 150)
determine_qty-unmodified_example =
    determine_qty-unmodified signal (some large) paper equities large.sizing (of_ℕ 150)
