-- ===== src/Risk/Checks/Passing.antt =====
-- What it means that a check of backend/app/risk/checks lets an opening signal through.
use ratatoskr_v.Base.{ℕ, ◌<◌, ◌≡◌, ◌≢◌, ◌⊎◌, true, false, some, arith, All}
use ratatoskr_v.Domain.{entry, is_exit}
use ratatoskr_v.Decimal.{Decimal, decimal_zero, add, is_le, is_lt}
use ratatoskr_v.Decimal.Order.{is_lt-not-is_le}
use ratatoskr_v.Signals.{Signal}
use ratatoskr_v.Risk.{Context, exposure_of, enabled}
use ratatoskr_v.Risk.Pipeline.{rejected, decide}
use ratatoskr_v.Risk.Pipeline.Loop.{is_reject, Allows, decide-All}
use ratatoskr_v.Risk.Checks.{
  is_opening, is_privileged, is_market_open, percent_of, daily_loss_limit, kill_switch,
  strategy_enable, symbol_tradability, market_hours, duplicate_order, position_limit,
  strategy_exposure, portfolio_exposure, drawdown, daily_loss, risk_checks,
}

-- An exposure that stays within its limit, or an account with no equity to measure it by.
abbrev pub Within : Context → (limit_percent proposed : Decimal) → Type 0
Within c limit_percent proposed =
    (is_le c.portfolio_equity decimal_zero ≡ true)
    ⊎ (is_lt (percent_of limit_percent c.portfolio_equity) proposed ≡ false)

-- What holds of an opening signal that the risk engine lets through.
pub record IsCleared (s : Signal) (c : Context) : Type 0 where
  pub global_off : c.kill_switch_global ≡ false
  pub strategy_off : c.kill_switch_strategy ≡ false
  pub strategy_on : (is_privileged s.source ≡ true) ⊎ (c.strategy_status ≡ enabled)
  pub watched : c.on_watchlist ≡ true
  pub market_open : is_market_open s.market c.now ≡ true
  pub no_duplicate : c.pending_order ≢ some true
  pub positions_left :
      (n : ℕ)
      → s.signal_type ≡ entry
      → c.sizing.max_positions ≡ some n
      → c.strategy_positions_count < n
  pub strategy_within :
      Within c c.risk_config.max_strategy_exposure_percent
        (add (exposure_of s.strategy_id c.strategy_exposure) c.proposed_position_value)
  pub portfolio_within :
      Within c c.risk_config.max_total_exposure_percent
        (add c.total_exposure c.proposed_position_value)
  pub drawdown_below : is_le c.risk_config.max_drawdown_percent c.current_drawdown_percent ≡ false
  pub loss_below :
      (limit : Decimal)
      → daily_loss_limit c ≡ some limit
      → is_lt decimal_zero limit ≡ true
      → is_le limit c.daily_realized_loss ≡ false

module _ (s : Signal) (c : Context) (opening : is_opening s.signal_type ≡ true) where
  kill_switch-off :
      is_reject (kill_switch s c) ≡ false
      → (c.kill_switch_global ≡ false) × (c.kill_switch_strategy ≡ false)
  unfolding kill_switch
  kill_switch-off h = ground arith

  strategy_enable-on :
      is_reject (strategy_enable s c) ≡ false
      → (is_privileged s.source ≡ true) ⊎ (c.strategy_status ≡ enabled)
  unfolding strategy_enable
  strategy_enable-on h = ground arith

  symbol_tradability-watched : is_reject (symbol_tradability s c) ≡ false → c.on_watchlist ≡ true
  unfolding symbol_tradability
  symbol_tradability-watched h = ground arith

  market_hours-open : is_reject (market_hours s c) ≡ false → is_market_open s.market c.now ≡ true
  unfolding market_hours
  market_hours-open h = ground arith

  duplicate_order-none : is_reject (duplicate_order s c) ≡ false → c.pending_order ≢ some true
  unfolding duplicate_order
  duplicate_order-none h = ground arith

  position_limit-left :
      is_reject (position_limit s c) ≡ false
      → (n : ℕ) → s.signal_type ≡ entry
      → c.sizing.max_positions ≡ some n
      → c.strategy_positions_count < n
  unfolding position_limit
  position_limit-left h n e m = ground arith

  strategy_exposure-Within :
      is_reject (strategy_exposure s c) ≡ false
      → Within c c.risk_config.max_strategy_exposure_percent
          (add (exposure_of s.strategy_id c.strategy_exposure) c.proposed_position_value)
  unfolding strategy_exposure
  strategy_exposure-Within h = ground arith

  portfolio_exposure-Within :
      is_reject (portfolio_exposure s c) ≡ false
      → Within c c.risk_config.max_total_exposure_percent
          (add c.total_exposure c.proposed_position_value)
  unfolding portfolio_exposure
  portfolio_exposure-Within h = ground arith

  drawdown-below :
      is_reject (drawdown s c) ≡ false
      → is_le c.risk_config.max_drawdown_percent c.current_drawdown_percent ≡ false
  unfolding drawdown
  drawdown-below h = ground arith

  daily_loss-below :
      is_reject (daily_loss s c) ≡ false
      → (limit : Decimal) → daily_loss_limit c ≡ some limit
      → is_lt decimal_zero limit ≡ true
      → is_le limit c.daily_realized_loss ≡ false
  unfolding daily_loss
  daily_loss-below h limit e p = ground (arith, is_lt-not-is_le decimal_zero limit)

  not_exit : is_exit s.signal_type ≡ false
  not_exit = ground arith

  cleared : All (Allows s c) risk_checks → IsCleared s c
  cleared
        (
          kill,
          (enable, (watch, (hours, (dup, (limit, (_, (_, (strat, (port, (dd, (loss, _))))))))))),
        ) =
      record {
        global_off = (kill_switch-off kill).0;
        strategy_off = (kill_switch-off kill).1;
        strategy_on = strategy_enable-on enable;
        watched = symbol_tradability-watched watch;
        market_open = market_hours-open hours;
        no_duplicate = duplicate_order-none dup;
        positions_left = position_limit-left limit;
        strategy_within = strategy_exposure-Within strat;
        portfolio_within = portfolio_exposure-Within port;
        drawdown_below = drawdown-below dd;
        loss_below = daily_loss-below loss;
      }

-- An opening signal that the twelve checks do not reject is cleared: no kill switch is on, the
-- strategy is enabled (or the signal is not the strategy's own), the symbol is watched, its market
-- is open, and the limits on pending orders, positions, the exposure of the strategy and of the
-- portfolio, drawdown and daily loss are kept. The position size and the exposure of the symbol,
-- which a check may cap instead of rejecting, are not part of it.
pub decide-IsCleared :
    (s : Signal) (c : Context)
    → is_opening s.signal_type ≡ true
    → (decide risk_checks s (some c)).status ≢ rejected
    → IsCleared s c
decide-IsCleared s c opening h =
    cleared s c opening (decide-All s c risk_checks (not_exit s c opening) h)
