-- ===== src/PaperTrading.antt =====
-- The paper trading module, backend/app/paper_trading: models.py, config.py and the results of
-- executors/base.py. The children are the fill simulation, the cash manager, the order quantity,
-- the pool of forex accounts, and the service that turns a decided signal into an order and a fill.
pub mod Fills
pub mod Cash
pub mod Quantity
pub mod ForexPool
pub mod Executors
pub mod Service
mod Tests
use ratatoskr_v.Base.{ℕ, Bool, true, false, Option, none, some, String}
use ratatoskr_v.Domain.{Uid, Symbol, Time, Side, SignalType, Market}
use ratatoskr_v.Decimal.{Decimal}

-- `PaperTradingConfig`
pub record Config : Type 0 where
  pub equities_on_broker : Bool
  pub slippage_bps_equities : Decimal
  pub slippage_bps_forex : Decimal
  pub slippage_bps_options : Decimal
  pub fee_per_trade_equities : Decimal
  pub fee_spread_bps_forex : Decimal
  pub fee_per_trade_options : Decimal
  pub default_contract_multiplier : ℕ
  pub initial_cash : Decimal

pub data OrderStatus : Type 0 where
  pending accepted filled rejected : OrderStatus

pub data Reason : Type 0 where
  no_risk_decision no_reference_price invalid_quantity insufficient_cash : Reason
  no_available_account broker_unavailable fill_simulation_failed : Reason

-- `PaperOrder`. `filled_qty` is `Decimal("0")` until the order is filled.
pub record Order : Type 0 where
  pub id : Uid
  pub signal_id : Uid
  pub strategy_id : Uid
  pub symbol : Symbol
  pub market : Market
  pub side : Side
  pub signal_type : SignalType
  pub requested_qty : Decimal
  pub filled_qty : Decimal
  pub filled_avg_price : Option Decimal
  pub status : OrderStatus
  pub rejection_reason : Option Reason
  pub broker_order_id : Option Uid
  pub broker_account_id : Option Uid
  pub underlying_symbol : Option Symbol
  pub contract_multiplier : ℕ

-- `FillResult`
pub record FillResult : Type 0 where
  pub order_id : Uid
  pub qty : Decimal
  pub reference_price : Decimal
  pub price : Decimal
  pub fee : Decimal
  pub slippage_bps : Decimal
  pub slippage_amount : Decimal
  pub gross_value : Decimal
  pub net_value : Decimal
  pub filled_at : Time

-- `PaperFill`
pub record Fill : Type 0 where
  pub order_id : Uid
  pub strategy_id : Uid
  pub symbol : Symbol
  pub side : Side
  pub qty : Decimal
  pub reference_price : Decimal
  pub price : Decimal
  pub gross_value : Decimal
  pub fee : Decimal
  pub slippage_bps : Decimal
  pub slippage_amount : Decimal
  pub net_value : Decimal
  pub broker_account_id : Option Uid
  pub filled_at : Time
