-- ===== src/Risk/Checks.antt =====
-- The risk checks, backend/app/risk/checks: one function for each `evaluate`, and their list.
pub mod Passing
pub mod Sizes
use ratatoskr_v.Base.{
  ℕ, ◌+◌, ◌*◌, ◌/◌, ◌%◌, Bool, true, false, Option, none, some, List, [], ◌∷◌, String, ◌&&◌, ◌||◌,
  not, ltb, leb, ◌==◌, if◌then◌else◌, or_else,
}
use ratatoskr_v.Domain.{
  Time, minute, SignalType, entry, scale_in, Source, strategy, Market, is_forex, is_exit,
}
use ratatoskr_v.Decimal.{Decimal, of_ℕ, decimal_zero, decimal_one, add, sub, mul, div, is_le, is_lt}
use ratatoskr_v.Signals.{Signal}
use ratatoskr_v.Risk.{
  RiskConfig, StrategyStatus, enabled, Method, fixed_qty, fixed_dollar, percent_equity, risk_based,
  Sizing, Value, money, text, flag, approved_value, original_value, modification_reason,
  queue_until_market_open, CheckResult, pass, reject, modify, Context, exposure_of,
}

-- `RiskCheck`
pub record Check : Type 0 where
  pub name : String
  pub applies_to_exits : Bool
  pub evaluate : Signal → Context → CheckResult

-- `signal_type in ("entry", "scale_in")`
abbrev pub is_opening : SignalType → Bool
is_opening entry = true
is_opening scale_in = true
is_opening _ = false

abbrev pub is_entry : SignalType → Bool
is_entry entry = true
is_entry _ = false

unfoldable pub kill_switch : Signal → Context → CheckResult
kill_switch s c =
    if (c.kill_switch_global || c.kill_switch_strategy) && is_opening s.signal_type
    then reject (if c.kill_switch_global then "global_kill_switch" else "strategy_kill_switch")
    else pass

abbrev pub is_enabled : StrategyStatus → Bool
is_enabled enabled = true
is_enabled _ = false

-- `signal.source in ("manual", "safety", "system")`
abbrev pub is_privileged : Source → Bool
is_privileged strategy = false
is_privileged _ = true

unfoldable pub strategy_enable : Signal → Context → CheckResult
strategy_enable s c =
    if is_privileged s.source
    then pass
    else if not (is_enabled c.strategy_status)
    then reject "strategy_not_enabled"
    else pass

unfoldable pub symbol_tradability : Signal → Context → CheckResult
symbol_tradability s c =
    if not c.on_watchlist
    then if is_exit s.signal_type then pass else reject "symbol_not_tradable"
    else pass

-- `now.hour` and `now.weekday()`: 0 is Monday, and the first day of the epoch was a Thursday.
unfoldable pub hour_of : Time → ℕ
hour_of t = t / (60 * minute) % 24

unfoldable pub weekday_of : Time → ℕ
weekday_of t = (t / (24 * 60 * minute) + 3) % 7

-- `_is_market_open`, on the weekday and the hour
unfoldable pub is_market_open_at : Market → ℕ → ℕ → Bool
is_market_open_at market weekday hour =
    if is_forex market
    then if weekday == 5
      then false
      else if weekday == 6
      then leb 22 hour
      else if weekday == 4
      then ltb hour 22
      else true
    else if leb 5 weekday
    then false
    else leb 13 hour && ltb hour 21

unfoldable pub is_market_open : Market → Time → Bool
is_market_open market now = is_market_open_at market (weekday_of now) (hour_of now)

unfoldable pub market_hours : Signal → Context → CheckResult
market_hours s c =
    if is_market_open s.market c.now
    then pass
    else if is_exit s.signal_type
    then modify "market_closed_exit_queued" ((queue_until_market_open, flag true) ∷ [])
    else reject "market_closed"

-- A query that raises lets the signal pass.
unfoldable pub duplicate_order : Signal → Context → CheckResult
duplicate_order s c = elim c.pending_order [
  | none ↦ pass
  | some found ↦ if found then reject "duplicate_order" else pass
]

unfoldable pub position_limit : Signal → Context → CheckResult
position_limit s c = if not (is_entry s.signal_type) then pass else elim c.sizing.max_positions [
  | none ↦ pass
  | some n ↦ if leb n c.strategy_positions_count then reject "max_positions_reached" else pass
]

-- `Decimal(str(config.get(key, default)))`
abbrev pub number : Option Decimal → ℕ → Decimal
number d n = or_else d (of_ℕ n)

-- `_calculate_position_value`
unfoldable pub calculate_position_value : Method → Sizing → Decimal → Decimal → Option Decimal
calculate_position_value fixed_qty config equity price = some (mul (number config.qty 0) price)
calculate_position_value fixed_dollar config equity price = some (number config.amount 0)
calculate_position_value percent_equity config equity price =
    some (div (mul equity (number config.percent 0)) (of_ℕ 100))
calculate_position_value risk_based config equity price =
    let risk_amount = div (mul equity (number config.risk_percent 1)) (of_ℕ 100) in
    let stop_distance = number config.stop_distance 0 in
    if is_le stop_distance decimal_zero
    then none
    else some (mul (div risk_amount stop_distance) price)
calculate_position_value Method.other config equity price = none

-- `percent / 100 * equity`
unfoldable pub percent_of : Decimal → Decimal → Decimal
percent_of percent equity = mul (div percent (of_ℕ 100)) equity

-- The part of `PositionSizingCheck.evaluate` that has a value to judge.
unfoldable pub judge_size : Context → Decimal → CheckResult
judge_size c requested =
    let max_value = percent_of c.risk_config.max_position_size_percent c.portfolio_equity in
    let smallest = c.risk_config.min_position_value in
    if is_le requested decimal_zero
    then reject "invalid_size"
    else if is_lt max_value requested
    then if is_le smallest max_value
      then modify "position_size_capped" (
          (original_value, money requested)
          ∷ (approved_value, money max_value)
          ∷ (modification_reason, text "max_position_size_cap")
          ∷ [])
      else reject "position_too_large"
    else if is_lt requested smallest
    then reject "position_too_small"
    else pass

unfoldable pub position_sizing : Signal → Context → CheckResult
position_sizing s c =
    if not (is_opening s.signal_type)
    then pass
    else if is_le c.portfolio_equity decimal_zero
    then reject "invalid_size"
    else elim c.current_price [
      | none ↦ reject "invalid_size"
      | some price ↦
          if is_le price decimal_zero
          then reject "invalid_size"
          else elim (calculate_position_value (or_else c.sizing.method fixed_qty) c.sizing
              c.portfolio_equity price) [
                | none ↦ reject "invalid_size"
                | some requested ↦ judge_size c requested
              ]
    ]

unfoldable pub symbol_exposure : Signal → Context → CheckResult
symbol_exposure s c =
    if is_le c.portfolio_equity decimal_zero
    then pass
    else let max_value = percent_of c.risk_config.max_symbol_exposure_percent c.portfolio_equity in
      let current = exposure_of s.symbol c.symbol_exposure in
      let proposed_value = c.proposed_position_value in
      let remaining = sub max_value current in
      if is_lt max_value (add current proposed_value)
      then if is_le c.risk_config.min_position_value remaining
        then modify "symbol_exposure_capped" (
            (original_value, money proposed_value)
            ∷ (approved_value, money remaining)
            ∷ (modification_reason, text "symbol_exposure_cap")
            ∷ [])
        else reject "symbol_exposure_limit"
      else pass

unfoldable pub strategy_exposure : Signal → Context → CheckResult
strategy_exposure s c =
    if is_le c.portfolio_equity decimal_zero
    then pass
    else let max_value =
        percent_of c.risk_config.max_strategy_exposure_percent c.portfolio_equity in
      let current = exposure_of s.strategy_id c.strategy_exposure in
      if is_lt max_value (add current c.proposed_position_value)
      then reject "strategy_exposure_limit"
      else pass

unfoldable pub portfolio_exposure : Signal → Context → CheckResult
portfolio_exposure s c =
    if is_le c.portfolio_equity decimal_zero
    then pass
    else let max_value = percent_of c.risk_config.max_total_exposure_percent c.portfolio_equity in
      if is_lt max_value (add c.total_exposure c.proposed_position_value)
      then reject "portfolio_exposure_limit"
      else pass

unfoldable pub drawdown : Signal → Context → CheckResult
drawdown s c =
    if is_exit s.signal_type
    then pass
    else if is_le c.risk_config.max_drawdown_percent c.current_drawdown_percent
    then reject "drawdown_limit"
    else pass

-- The limit of `DailyLossCheck`; `none` where the check passes without one.
unfoldable pub daily_loss_limit : Context → Option Decimal
daily_loss_limit c = elim c.risk_config.max_daily_loss_amount [
  | some amount ↦ some amount
  | none ↦
      if is_lt decimal_zero c.portfolio_equity
      then some (percent_of c.risk_config.max_daily_loss_percent c.portfolio_equity)
      else none
]

unfoldable pub daily_loss : Signal → Context → CheckResult
daily_loss s c = if is_exit s.signal_type then pass else elim (daily_loss_limit c) [
  | none ↦ pass
  | some limit ↦
      if is_le limit decimal_zero
      then pass
      else if is_le limit c.daily_realized_loss
      then reject "daily_loss_limit"
      else pass
]

abbrev check : String → Bool → (Signal → Context → CheckResult) → Check
check name applies evaluate = record {
  name = name;
  applies_to_exits = applies;
  evaluate = evaluate;
}

-- `get_risk_checks`
abbrev pub risk_checks : List Check
risk_checks =
    check "kill_switch" false kill_switch
    ∷ check "strategy_enable" false strategy_enable
    ∷ check "symbol_tradability" true symbol_tradability
    ∷ check "market_hours" true market_hours
    ∷ check "duplicate_order" false duplicate_order
    ∷ check "position_limit" false position_limit
    ∷ check "position_sizing" false position_sizing
    ∷ check "symbol_exposure_limit" false symbol_exposure
    ∷ check "strategy_exposure_limit" false strategy_exposure
    ∷ check "portfolio_exposure_limit" false portfolio_exposure
    ∷ check "drawdown_limit" false drawdown
    ∷ check "daily_loss_limit" false daily_loss
    ∷ []
