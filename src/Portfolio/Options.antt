-- ===== src/Portfolio/Options.antt =====
-- Options, backend/app/portfolio/options_lifecycle.py: `check_expirations` for a user. The columns of
-- an option contract stand apart from the position and are found by its id; the price of an
-- underlying is the close that the query gives, if any. A position object is the row with its id.
pub mod Settlement
mod Tests
use ratatoskr_v.Base.{
  ℕ, ◌*◌, Bool, true, false, Option, none, some, List, [], ◌∷◌, ◌++◌, ◌&&◌, leb, ◌==◌,
  if◌then◌else◌, find, select, map, update_first, or_else,
}
use ratatoskr_v.Domain.{Uid, Symbol, Time}
use ratatoskr_v.Decimal.{Decimal, of_ℕ, decimal_zero, add, sub, mul, div, max, minus, is_lt}
use ratatoskr_v.Portfolio.{Position, is_long, PnlEntry, Portfolio}

pub data ContractType : Type 0 where
  call put other_type : ContractType

-- The option columns of `Position`, of which neither the type nor the expiration is missing.
pub record Contract : Type 0 where
  pub contract_type : ContractType
  pub strike_price : Option Decimal
  pub expiration_date : ℕ
  pub underlying_symbol : Option Symbol

abbrev pub has_position_id : Uid → Position → Bool
has_position_id i p = p.id == i

abbrev pub has_expired : ℕ → Option Contract → Bool
has_expired today none = false
has_expired today (some k) = leb k.expiration_date today

abbrev pub is_expiring : ℕ → Uid → (Uid → Option Contract) → Position → Bool
is_expiring today user contract_of p =
    p.user_id == user && p.is_open && has_expired today (contract_of p.id)

unfoldable pub intrinsic_of : Contract → Decimal → Option Decimal
intrinsic_of k price =
    let strike = or_else k.strike_price decimal_zero in
    elim k.contract_type [
      | call ↦ some (max decimal_zero (sub price strike))
      | put ↦ some (max decimal_zero (sub strike price))
      | other_type ↦ none
    ]

-- the intrinsic value at which a position is settled, if it is
unfoldable pub settlement : (Symbol → Option Decimal) → Option Contract → Position → Option Decimal
settlement price_of none p = none
settlement price_of (some k) p = elim (price_of (or_else k.underlying_symbol p.symbol)) [
  | none ↦ none
  | some price ↦ intrinsic_of k price
]

-- `realized_pnl`
unfoldable pub expiry_pnl : Decimal → Position → Decimal
expiry_pnl intrinsic p =
    let value = mul (mul intrinsic p.qty) (of_ℕ p.contract_multiplier) in
    if is_lt decimal_zero intrinsic
    then (if is_long p.side then sub value p.cost_basis else sub p.cost_basis value)
    else if is_long p.side
    then minus p.cost_basis
    else p.cost_basis

-- the close reason `expiration`
abbrev pub expiration : Uid
expiration = 0

unfoldable pub expired : Time → Decimal → Position → Position
expired now intrinsic p =
    let realized = add p.realized_pnl (expiry_pnl intrinsic p) in
    let total = add realized p.total_dividends_received in
    record p {
      realized_pnl = realized;
      qty = decimal_zero;
      market_value = decimal_zero;
      unrealized_pnl = decimal_zero;
      unrealized_pnl_percent = decimal_zero;
      is_open = false;
      closed_at = some now;
      close_reason = some expiration;
      current_price = intrinsic;
      total_return = total;
      total_return_percent =
          if is_lt decimal_zero p.cost_basis
          then mul (div total p.cost_basis) (of_ℕ 100)
          else p.total_return_percent;
    }

unfoldable pub expiry_entry : Time → Decimal → Position → PnlEntry
expiry_entry now intrinsic p =
    let realized = expiry_pnl intrinsic p in
    record {
      position_id = p.id;
      strategy_id = p.strategy_id;
      user_id = p.user_id;
      symbol = p.symbol;
      side = p.side;
      qty_closed = p.qty;
      entry_price = p.avg_entry_price;
      exit_price = intrinsic;
      gross_pnl = realized;
      fees = decimal_zero;
      net_pnl = realized;
      pnl_percent =
          if is_lt decimal_zero p.cost_basis
          then mul (div realized p.cost_basis) (of_ℕ 100)
          else decimal_zero;
      holding_period_bars = p.bars_held;
      closed_at = now;
    }

unfoldable pub settle : Time → Uid → Option Decimal → Position → Portfolio → Portfolio
settle now i none p pf = pf
settle now i (some intrinsic) p pf = record pf {
  positions = update_first (has_position_id i) (expired now intrinsic) pf.positions;
  ledger = pf.ledger ++ expiry_entry now intrinsic p ∷ [];
}

module _ (contract_of : Uid → Option Contract) (price_of : Symbol → Option Decimal)
    (now : Time) where
  -- the body of the loop
  unfoldable pub expire_position : Uid → Portfolio → Portfolio
  expire_position i pf = elim (find (has_position_id i) pf.positions) [
    | none ↦ pf
    | some p ↦ settle now i (settlement price_of (contract_of i) p) p pf
  ]

  abbrev pub expire_positions : List Uid → Portfolio → Portfolio
  expire_positions [] pf = pf
  expire_positions (i ∷ is) pf = expire_positions is (expire_position i pf)

  -- `check_expirations`
  unfoldable pub check_expirations : ℕ → Uid → Portfolio → Portfolio
  check_expirations today user pf =
      expire_positions (map (λ p. p.id) (select (is_expiring today user contract_of) pf.positions))
        pf
