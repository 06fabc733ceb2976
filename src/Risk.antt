-- ===== src/Risk.antt =====
-- The risk module, backend/app/risk: checks/base.py, models.py and what its parts share. The
-- children are the twelve checks, the pipeline that runs them, the kill switches and the monitors,
-- and what is proved of each.
pub mod Checks
pub mod Pipeline
pub mod KillSwitch
pub mod Drawdown
pub mod Tests
use ratatoskr_v.Base.{
  ℕ, Bool, true, false, Option, none, some, List, [], ◌∷◌, String, ◌==◌, if◌then◌else◌, or_else,
}
use ratatoskr_v.Domain.{Uid, Symbol, Time}
use ratatoskr_v.Decimal.{Decimal, decimal_zero}

-- `RiskConfig`
pub record RiskConfig : Type 0 where
  pub max_position_size_percent : Decimal
  pub max_symbol_exposure_percent : Decimal
  pub max_strategy_exposure_percent : Decimal
  pub max_total_exposure_percent : Decimal
  pub max_drawdown_percent : Decimal
  pub max_drawdown_catastrophic_percent : Decimal
  pub max_daily_loss_percent : Decimal
  pub max_daily_loss_amount : Option Decimal
  pub min_position_value : Decimal

-- `Strategy.status`
pub data StrategyStatus : Type 0 where
  draft enabled paused disabled : StrategyStatus

pub data Method : Type 0 where
  fixed_qty fixed_dollar percent_equity risk_based other : Method

-- The dict `position_sizing` of a strategy's config: its keys, each of which may be missing.
pub record Sizing : Type 0 where
  pub method : Option Method
  pub value : Option Decimal
  pub qty : Option Decimal
  pub amount : Option Decimal
  pub percent : Option Decimal
  pub risk_percent : Option Decimal
  pub stop_distance : Option Decimal
  pub stop_price : Option Decimal
  pub max_positions : Option ℕ

-- The keys of a modification dict, the one that the order service looks for included.
pub data Key : Type 0 where
  original_value approved_value modification_reason queue_until_market_open qty : Key

pub data Value : Type 0 where
  money : Decimal → Value
  text : String → Value
  flag : Bool → Value

abbrev pub key_code : Key → ℕ
key_code original_value = 0
key_code approved_value = 1
key_code modification_reason = 2
key_code queue_until_market_open = 3
key_code Key.qty = 4

abbrev pub Modifications : Type 0
Modifications = List (Key × Value)

-- `d[k] = v`
unfoldable pub put : Key → Value → Modifications → Modifications
put k v [] = (k, v) ∷ []
put k v ((j, w) ∷ d) = if key_code j == key_code k then (j, v) ∷ d else (j, w) ∷ put k v d

-- `d.update(e)`
unfoldable pub merge : Modifications → Modifications → Modifications
merge d [] = d
merge d ((k, v) ∷ e) = merge (put k v d) e

-- `d.get(k)`
unfoldable pub get : Key → Modifications → Option Value
get k [] = none
get k ((j, v) ∷ d) = if key_code j == key_code k then some v else get k d

-- `CheckResult`. A reason's text repeats its code for a reader, and is left out.
pub data CheckResult : Type 0 where
  pass : CheckResult
  reject : (reason_code : String) → CheckResult
  modify : (reason_code : String) → Modifications → CheckResult

-- `RiskContext`, and behind it what the checks ask of other modules: the time, whether the symbol is
-- on the watchlist, and whether a pending order for strategy, symbol and side was found (`none`
-- where that query raised).
pub record Context : Type 0 where
  pub risk_config : RiskConfig
  pub strategy_status : StrategyStatus
  pub sizing : Sizing
  pub portfolio_equity : Decimal
  pub current_drawdown_percent : Decimal
  pub daily_realized_loss : Decimal
  pub symbol_exposure : List (Symbol × Decimal)
  pub strategy_exposure : List (Uid × Decimal)
  pub total_exposure : Decimal
  pub strategy_positions_count : ℕ
  pub current_price : Option Decimal
  pub proposed_position_value : Decimal
  pub kill_switch_global : Bool
  pub kill_switch_strategy : Bool
  pub now : Time
  pub on_watchlist : Bool
  pub pending_order : Option Bool

-- `dict.get(key, Decimal("0"))`
abbrev pub exposure_of : ℕ → List (ℕ × Decimal) → Decimal
exposure_of k [] = decimal_zero
exposure_of k ((j, v) ∷ d) = if j == k then v else exposure_of k d
