-- ===== src/Strategies/Exits.antt =====
-- The exits of a position: `_evaluate_exit`, `_compute_stop_price` and `_compute_take_profit` of
-- backend/app/strategies/runner.py, and the price checks of safety_monitor.py.
pub mod Trailing
pub mod Entry
pub mod Tests
use ratatoskr_v.Base.{
  ℕ, Bool, true, false, Option, none, some, List, [], ◌∷◌, ◌&&◌, ◌||◌, not, leb, if◌then◌else◌,
  or_else,
}
use ratatoskr_v.Decimal.{
  Decimal, of_ℕ, decimal_zero, decimal_one, add, sub, mul, div, absolute, is_eq, is_le, is_lt,
}
use ratatoskr_v.MarketData.{Bar}
use ratatoskr_v.Portfolio.{PositionSide, long, short, is_long, Position}
use ratatoskr_v.Strategies.Indicators.{last}
use ratatoskr_v.Strategies.Indicators.Oscillators.{compute_atr}
use ratatoskr_v.Strategies.Conditions.{Logic, Items, Values, evaluate}

pub data RuleType : Type 0 where
  percent fixed atr_multiple risk_multiple other_rule : RuleType

-- A stop loss or a take profit of the configuration.
pub record Rule : Type 0 where
  pub type : RuleType
  pub value : Option Decimal

-- `trailing_stop`: the type is `percent` or not, a missing value is 0.
pub record TrailingRule : Type 0 where
  pub enabled : Bool
  pub is_percent : Bool
  pub value : Decimal

-- The part of a configuration that exits read: the rules at the top and those of `risk_management`.
pub record ExitConfig : Type 0 where
  pub exit_conditions : Option (Logic × Items)
  pub stop_loss : Option Rule
  pub take_profit : Option Rule
  pub trailing_stop : Option TrailingRule
  pub risk_stop_loss : Option Rule
  pub risk_take_profit : Option Rule
  pub risk_trailing_stop : Option TrailingRule
  pub max_hold_bars : Option ℕ

-- The dictionary of a position, by the keys that are read or written: `avg_entry` is read,
-- `avg_entry_price` is what the callers write.
pub record PositionDict : Type 0 where
  pub side : PositionSide
  pub avg_entry : Option Decimal
  pub avg_entry_price : Option Decimal
  pub bars_held : ℕ

-- The dictionary that `evaluate_strategy` and `run_check` make of a position.
unfoldable pub position_dict : Position → PositionDict
position_dict p = record {
  side = p.side;
  avg_entry = none;
  avg_entry_price = some p.avg_entry_price;
  bars_held = p.bars_held;
}

-- `Decimal(str(position.get("avg_entry", 0)))`
unfoldable pub entry_of : PositionDict → Decimal
entry_of p = or_else p.avg_entry decimal_zero

-- `config.get(...) or risk_mgmt.get(...)`
abbrev pub either {ℓ} : {A : Type ℓ} → Option A → Option A → Option A
either (some a) o = some a
either none o = o

-- a price below the entry for `true`, above it for `false`, at a share of the entry or at a distance
abbrev pub share_away : Bool → Decimal → Decimal → Decimal
share_away below entry value = mul entry (
    if below
    then sub decimal_one (div value (of_ℕ 100))
    else add decimal_one (div value (of_ℕ 100)))

abbrev pub away : Bool → Decimal → Decimal → Decimal
away below entry distance = if below then sub entry distance else add entry distance

abbrev pub away_by : Bool → Decimal → Option Decimal → Option Decimal
away_by below entry none = none
away_by below entry (some d) = some (away below entry d)

abbrev pub times : Option Decimal → Decimal → Option Decimal
times none v = none
times (some a) v = some (mul a v)

-- `_compute_stop_price`: below the entry of a long position, above that of a short one
unfoldable pub compute_stop_price :
    RuleType → Decimal → Decimal → PositionSide → List Bar → Option Decimal
compute_stop_price percent value entry side bars = some (share_away (is_long side) entry value)
compute_stop_price fixed value entry side bars = some (away (is_long side) entry value)
compute_stop_price atr_multiple value entry side bars =
    away_by (is_long side) entry (times (compute_atr bars 14) value)
compute_stop_price risk_multiple value entry side bars = none
compute_stop_price other_rule value entry side bars = none

-- `Decimal(str(rule.get("value", 0)))`
abbrev pub value_of : Rule → Decimal
value_of r = or_else r.value decimal_zero

abbrev pub stop_price_of : Option Rule → Decimal → PositionSide → List Bar → Option Decimal
stop_price_of none entry side bars = none
stop_price_of (some r) entry side bars = compute_stop_price r.type (value_of r) entry side bars

-- the distance of the entry and the stop price
abbrev pub risk_of : Decimal → Option Decimal → Option Decimal
risk_of entry none = none
risk_of entry (some stop) = some (absolute (sub entry stop))

-- `_compute_take_profit`: above the entry of a long position, below that of a short one
unfoldable pub compute_take_profit :
    RuleType → Decimal → Decimal → Option Rule → PositionSide → List Bar → Option Decimal
compute_take_profit percent value entry stop_loss side bars =
    some (share_away (not (is_long side)) entry value)
compute_take_profit fixed value entry stop_loss side bars =
    some (away (not (is_long side)) entry value)
compute_take_profit atr_multiple value entry stop_loss side bars =
    away_by (not (is_long side)) entry (times (compute_atr bars 14) value)
compute_take_profit risk_multiple value entry stop_loss side bars =
    away_by (not (is_long side)) entry
      (times (risk_of entry (stop_price_of stop_loss entry side bars)) value)
compute_take_profit other_rule value entry stop_loss side bars = none

-- `rule and rule.get("value")`: a value that is missing or zero is no value
abbrev pub has_value : Rule → Bool
has_value r = not (is_eq (value_of r) decimal_zero)

-- the price is on the losing side of a level: at it or below it for a long position
unfoldable pub at_or_worse : PositionSide → Decimal → Decimal → Bool
at_or_worse long close level = is_le close level
at_or_worse short close level = is_le level close

unfoldable pub at_or_better : PositionSide → Decimal → Decimal → Bool
at_or_better long close level = is_le level close
at_or_better short close level = is_le close level

abbrev pub reaches : (Decimal → Bool) → Option Decimal → Bool
reaches p none = false
reaches p (some level) = p level

unfoldable pub stop_loss_fires : Option Rule → PositionDict → Decimal → List Bar → Bool
stop_loss_fires none p close bars = false
stop_loss_fires (some r) p close bars =
    has_value r
    && reaches (at_or_worse p.side close)
        (compute_stop_price r.type (value_of r) (entry_of p) p.side bars)

unfoldable pub take_profit_fires :
    Option Rule → Option Rule → PositionDict → Decimal → List Bar → Bool
take_profit_fires none stop_loss p close bars = false
take_profit_fires (some r) stop_loss p close bars =
    has_value r
    && reaches (at_or_better p.side close)
        (compute_take_profit r.type (value_of r) (entry_of p) stop_loss p.side bars)

-- The new extreme price of a trailing stop: the close, where it is beyond the old one.
unfoldable pub is_beyond : PositionSide → Decimal → Decimal → Bool
is_beyond long close highest = is_lt highest close
is_beyond short close highest = is_lt close highest

-- `state[sym_key]` after the check: it is written where the close is beyond the old value, which is
-- the close itself where there is none.
unfoldable pub next_extreme : PositionSide → Decimal → Option Decimal → Option Decimal
next_extreme side close stored =
    if is_beyond side close (or_else stored close) then some close else stored

unfoldable pub trail_price : TrailingRule → PositionSide → Decimal → Decimal
trail_price t side highest =
    if t.is_percent
    then share_away (is_long side) highest t.value
    else away (is_long side) highest t.value

-- the check against the extreme price that counts now
unfoldable pub trailing_fires : TrailingRule → PositionSide → Decimal → Option Decimal → Bool
trailing_fires t side close stored =
    at_or_worse side close (trail_price t side (or_else (next_extreme side close stored) close))

abbrev pub is_enabled : Option TrailingRule → Bool
is_enabled none = false
is_enabled (some t) = t.enabled

unfoldable pub trailing_stop_fires :
    Option TrailingRule → PositionSide → Decimal → Option Decimal → Bool
trailing_stop_fires none side close stored = false
trailing_stop_fires (some t) side close stored = t.enabled && trailing_fires t side close stored

pub data ExitReason : Type 0 where
  exit_conditions_met stop_loss take_profit trailing_stop max_hold : ExitReason

abbrev pub conditions_hold : Values → Option (Logic × Items) → List Bar → Bool
conditions_hold v none bars = false
conditions_hold v (some c) bars = evaluate v (c.0) (c.1) bars

abbrev pub is_held_long : Option ℕ → ℕ → Bool
is_held_long none held = false
is_held_long (some n) held = leb n held

-- The checks from the trailing stop on; it is the only one that writes the state, which is the
-- extreme price kept for the symbol.
unfoldable pub evaluate_late :
    ExitConfig → PositionDict → Decimal → Option Decimal → Option ExitReason × Option Decimal
evaluate_late c p close stored =
    let trailing = either c.trailing_stop c.risk_trailing_stop in
    let kept = if is_enabled trailing then next_extreme p.side close stored else stored in
    if trailing_stop_fires trailing p.side close stored
    then (some trailing_stop, kept)
    else (if is_held_long c.max_hold_bars p.bars_held then some max_hold else none, kept)

-- `_evaluate_exit` at the close of the last bar
unfoldable pub evaluate_exit_at :
    Values
    → ExitConfig
    → List Bar
    → PositionDict
    → Option Decimal
    → Decimal
    → Option ExitReason × Option Decimal
evaluate_exit_at v c bars p stored close =
    let stop = either c.stop_loss c.risk_stop_loss in
    if conditions_hold v c.exit_conditions bars
    then (some exit_conditions_met, stored)
    else if stop_loss_fires stop p close bars
    then (some stop_loss, stored)
    else if take_profit_fires (either c.take_profit c.risk_take_profit) stop p close bars
    then (some take_profit, stored)
    else evaluate_late c p close stored

unfoldable pub evaluate_exit :
    Values
    → ExitConfig
    → List Bar
    → PositionDict
    → Option Decimal
    → Option ExitReason × Option Decimal
evaluate_exit v c bars p stored = elim (last bars) [
  | none ↦ (none, stored)
  | some b ↦ evaluate_exit_at v c bars p stored b.close
]
