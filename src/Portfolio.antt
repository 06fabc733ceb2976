-- ===== src/Portfolio.antt =====
-- The portfolio module, backend/app/portfolio: models.py and repository.py as far as fills write
-- them, with the digits that the code computes: the scale of a column is not applied. The children
-- are the fill processor, the dividends, the expiration of options and mark to market.
pub mod FillProcessor
pub mod Dividends
pub mod Options
pub mod MarkToMarket
use ratatoskr_v.Base.{
  ℕ, ◌≡◌, Bool, true, false, Option, none, some, List, [], ◌∷◌, ◌++◌, ◌&&◌, ◌==◌, if◌then◌else◌,
  find, update_first,
}
use ratatoskr_v.Domain.{Uid, Symbol, Time, Side, Market}
use ratatoskr_v.Decimal.{Decimal, add}

pub data PositionSide : Type 0 where
  long short : PositionSide

abbrev pub is_long : PositionSide → Bool
is_long long = true
is_long short = false

-- `Position`, less the descriptive columns of an option contract. `is_open` is `status == "open"`,
-- the other status is `closed`.
pub record Position : Type 0 where
  pub id : Uid
  pub user_id : Uid
  pub strategy_id : Uid
  pub symbol : Symbol
  pub market : Market
  pub side : PositionSide
  pub qty : Decimal
  pub avg_entry_price : Decimal
  pub cost_basis : Decimal
  pub current_price : Decimal
  pub market_value : Decimal
  pub unrealized_pnl : Decimal
  pub unrealized_pnl_percent : Decimal
  pub realized_pnl : Decimal
  pub total_fees : Decimal
  pub total_dividends_received : Decimal
  pub total_return : Decimal
  pub total_return_percent : Decimal
  pub is_open : Bool
  pub opened_at : Time
  pub closed_at : Option Time
  pub close_reason : Option Uid
  pub highest_price_since_entry : Decimal
  pub lowest_price_since_entry : Decimal
  pub bars_held : ℕ
  pub broker_account_id : Option Uid
  pub contract_multiplier : ℕ

-- `account_scope`: the one scope of equities, or a forex account.
pub data AccountScope : Type 0 where
  equities_scope : AccountScope
  forex_scope : Uid → AccountScope

pub record CashBalance : Type 0 where
  pub account_scope : AccountScope
  pub user_id : Uid
  pub balance : Decimal

-- `RealizedPnlEntry`
pub record PnlEntry : Type 0 where
  pub position_id : Uid
  pub strategy_id : Uid
  pub user_id : Uid
  pub symbol : Symbol
  pub side : PositionSide
  pub qty_closed : Decimal
  pub entry_price : Decimal
  pub exit_price : Decimal
  pub gross_pnl : Decimal
  pub fees : Decimal
  pub net_pnl : Decimal
  pub pnl_percent : Decimal
  pub holding_period_bars : ℕ
  pub closed_at : Time

pub record Portfolio : Type 0 where
  pub positions : List Position
  pub cash : List CashBalance
  pub ledger : List PnlEntry

abbrev pub is_open_for : Uid → Symbol → Position → Bool
is_open_for strategy symbol p = p.strategy_id == strategy && p.symbol == symbol && p.is_open

-- `get_open_by_strategy_symbol`
unfoldable pub get_open : Uid → Symbol → List Position → Option Position
get_open strategy symbol = find (is_open_for strategy symbol)

abbrev pub same_scope : AccountScope → AccountScope → Bool
same_scope equities_scope equities_scope = true
same_scope (forex_scope i) (forex_scope j) = i == j
same_scope _ _ = false

abbrev pub is_balance_of : AccountScope → Uid → CashBalance → Bool
is_balance_of scope user c = same_scope c.account_scope scope && c.user_id == user

-- `get_by_scope`
unfoldable pub get_balance : AccountScope → Uid → List CashBalance → Option CashBalance
get_balance scope user = find (is_balance_of scope user)

abbrev pub credit : Decimal → CashBalance → CashBalance
credit delta c = record c { balance = add c.balance delta }

-- `update_balance`
unfoldable pub update_balance : AccountScope → Uid → Decimal → List CashBalance → List CashBalance
update_balance scope user delta cash = elim (get_balance scope user cash) [
  | none ↦ cash ++ record { account_scope = scope; user_id = user; balance = delta } ∷ []
  | some c ↦ update_first (is_balance_of scope user) (credit delta) cash
]
