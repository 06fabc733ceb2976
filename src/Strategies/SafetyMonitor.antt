-- ===== src/Strategies/SafetyMonitor.antt =====
-- The safety monitor, backend/app/strategies/safety_monitor.py: one check of the positions of paused
-- and disabled strategies, with the signals that it creates, and its counter of failures. What the
-- queries read is given with each position; the state of a strategy is the extreme price kept for a
-- symbol. A read that raises, which ends a strategy's turn, is not modelled.
pub mod Agreement
pub mod Emission
mod Tests
use ratatoskr_v.Base.{
  ℕ, suc, ◌+◌, Bool, true, false, Option, none, some, List, [], ◌∷◌, ◌++◌, ◌&&◌, not, leb, ◌==◌,
  if◌then◌else◌, is_some, or_else, select, length,
}
use ratatoskr_v.Domain.{Uid, Symbol, Time, Side, buy, sell, SignalType, Source, Timeframe, m1}
use ratatoskr_v.Decimal.{
  Decimal, decimal_zero, decimal_one, of_ℕ, add, sub, mul, div, is_eq, is_le, is_lt,
}
use ratatoskr_v.Portfolio.{PositionSide, is_long, Position}
use ratatoskr_v.Signals.{Config, Owner, Signal, Table}
use ratatoskr_v.Signals.Service.{Request, create_signal}
use ratatoskr_v.Strategies.Models.{Strategy, is_orphaned}
use ratatoskr_v.Strategies.Exits.{
  RuleType, percent, fixed, atr_multiple, risk_multiple, other_rule, Rule, TrailingRule, ExitConfig,
  PositionDict, position_dict, entry_of, value_of, has_value, ExitReason, stop_loss, take_profit,
  trailing_stop,
}

-- `PositionOverride`, by its type
pub data Override : Type 0 where
  override_stop_loss : Option Rule → Override
  override_take_profit : Option Rule → Override
  override_trailing_stop : Option TrailingRule → Override
  other_override : Override

-- `_apply_overrides`: the last override of a kind counts.
unfoldable pub apply_override : ExitConfig → Override → ExitConfig
apply_override c (override_stop_loss r) = record c { stop_loss = r }
apply_override c (override_take_profit r) = record c { take_profit = r }
apply_override c (override_trailing_stop t) = record c { trailing_stop = t }
apply_override c other_override = c

abbrev pub apply_overrides : ExitConfig → List Override → ExitConfig
apply_overrides c [] = c
apply_overrides c (o ∷ os) = apply_overrides (apply_override c o) os

abbrev pub less_share : Decimal → Decimal → Decimal
less_share entry value = mul entry (sub decimal_one (div value (of_ℕ 100)))

abbrev pub more_share : Decimal → Decimal → Decimal
more_share entry value = mul entry (add decimal_one (div value (of_ℕ 100)))

-- The stop of a rule: `percent` and `fixed` only.
unfoldable pub stop_check : RuleType → Bool → Decimal → Decimal → Decimal → Bool
stop_check percent long entry value price =
    if long then is_le price (less_share entry value) else is_le (more_share entry value) price
stop_check fixed long entry value price =
    if long then is_le price (sub entry value) else is_le (add entry value) price
stop_check _ long entry value price = false

-- `_check_stop_loss`
unfoldable pub check_stop_loss : Option Rule → PositionDict → Decimal → Bool
check_stop_loss none p price = false
check_stop_loss (some r) p price =
    if has_value r
    then stop_check r.type (is_long p.side) (entry_of p) (value_of r) price
    else false

unfoldable pub profit_check : RuleType → Bool → Decimal → Decimal → Decimal → Bool
profit_check percent long entry value price =
    if long then is_le (more_share entry value) price else is_le price (less_share entry value)
profit_check fixed long entry value price =
    if long then is_le (add entry value) price else is_le price (sub entry value)
profit_check _ long entry value price = false

-- `_check_take_profit`
unfoldable pub check_take_profit : Option Rule → PositionDict → Decimal → Bool
check_take_profit none p price = false
check_take_profit (some r) p price =
    if has_value r
    then profit_check r.type (is_long p.side) (entry_of p) (value_of r) price
    else false

-- The extreme price of `_check_trailing_stop`, and what it keeps of it.
unfoldable pub kept_extreme : Bool → Decimal → Option Decimal → Option Decimal
kept_extreme long price stored =
    let highest = or_else stored price in
    if (if long then is_lt highest price else is_lt price highest) then some price else stored

unfoldable pub trail_check : TrailingRule → Bool → Decimal → Decimal → Bool
trail_check t long price highest =
    if long
    then is_le price (if t.is_percent then less_share highest t.value else sub highest t.value)
    else is_le (if t.is_percent then more_share highest t.value else add highest t.value) price

-- `_check_trailing_stop`, with the state
unfoldable pub check_trailing_stop :
    Option TrailingRule → PositionDict → Option Decimal → Decimal → Bool × Option Decimal
check_trailing_stop none p stored price = (false, stored)
check_trailing_stop (some t) p stored price =
    let kept = kept_extreme (is_long p.side) price stored in
    if t.enabled
    then (trail_check t (is_long p.side) price (or_else kept price), kept)
    else (false, stored)

-- the reason of an exit, and the state
unfoldable pub exit_reason :
    ExitConfig → PositionDict → Option Decimal → Decimal → Option ExitReason × Option Decimal
exit_reason c p stored price =
    let trailing = check_trailing_stop c.trailing_stop p stored price in
    if check_stop_loss c.stop_loss p price
    then (some stop_loss, stored)
    else if check_take_profit c.take_profit p price
    then (some take_profit, stored)
    else (if trailing.0 then some trailing_stop else none, trailing.1)

-- The data of `_emit_safety_signal`.
unfoldable pub safety_request : Strategy → Position → Time → Request
safety_request s p now = record {
  strategy_id = some s.id;
  strategy_version = some s.current_version;
  symbol = some p.symbol;
  market = s.market;
  timeframe = some m1;
  side = some (if is_long p.side then sell else buy);
  signal_type = some SignalType.exit;
  source = some Source.safety;
  ts = some now;
}

-- A position with what is read for it: the overrides and the latest close.
pub record Watched : Type 0 where
  pub position : Position
  pub overrides : List Override
  pub price : Option Decimal

-- A strategy with what is read for it: its active configuration, if any, and its open positions.
pub record Turn : Type 0 where
  pub strategy : Strategy
  pub active_config : Option ExitConfig
  pub positions : List Watched

-- What a check changes: the signals, the next id, the extreme prices by
-- strategy and symbol, and its counters.
pub record Check : Type 0 where
  pub table : Table
  pub next_id : Uid
  pub extremes : Uid → Symbol → Option Decimal
  pub positions_checked : ℕ
  pub exits_triggered : ℕ

abbrev pub store :
    Uid → Symbol → Option Decimal → (Uid → Symbol → Option Decimal) → Uid → Symbol → Option Decimal
store strategy symbol d extremes i s = if i == strategy && s == symbol then d else extremes i s

-- a position without an exit, or with one
unfoldable pub finish_position :
    Config → List Owner → Time → Strategy → Position → Option ExitReason → Check → Check
finish_position c owners now s p none k = k
finish_position c owners now s p (some reason) k = record k {
  table = (create_signal c owners k.next_id now (safety_request s p now) k.table).1;
  next_id = k.next_id + 1;
  exits_triggered = k.exits_triggered + 1;
}

-- the body of the loop over the positions
unfoldable pub check_position :
    Config → List Owner → Time → Strategy → ExitConfig → Watched → Check → Check
check_position c owners now s config w k =
    let counted = record k { positions_checked = k.positions_checked + 1 } in
    elim w.price [
      | none ↦ counted
      | some price ↦
          let r =
            exit_reason (apply_overrides config w.overrides) (position_dict w.position)
              (k.extremes s.id w.position.symbol) price in
          finish_position c owners now s w.position (r.0)
            (record counted { extremes = store s.id w.position.symbol (r.1) k.extremes })
    ]

abbrev pub check_positions :
    Config → List Owner → Time → Strategy → ExitConfig → List Watched → Check → Check
check_positions c owners now s config [] k = k
check_positions c owners now s config (w ∷ ws) k =
    check_positions c owners now s config ws (check_position c owners now s config w k)

-- the turn of a strategy
unfoldable pub check_strategy : Config → List Owner → Time → Turn → Check → Check
check_strategy c owners now t k = elim t.active_config [
  | none ↦ k
  | some config ↦ check_positions c owners now t.strategy config t.positions k
]

abbrev pub check_turns : Config → List Owner → Time → List Turn → Check → Check
check_turns c owners now [] k = k
check_turns c owners now (t ∷ ts) k = check_turns c owners now ts (check_strategy c owners now t k)

-- `run_check`: the strategies that are paused or disabled
unfoldable pub run_check : Config → List Owner → Time → List Turn → Check → Check
run_check c owners now turns k =
    check_turns c owners now (select (λ t. is_orphaned t.strategy.status) turns) k

-- The failure counter of `_run_loop` and `_handle_failure` after a cycle, and whether the alert
-- threshold is reached.
unfoldable pub after_cycle : ℕ → Bool → ℕ → ℕ × Bool
after_cycle threshold succeeded failures =
    if succeeded then (0, false) else (failures + 1, leb threshold (failures + 1))
