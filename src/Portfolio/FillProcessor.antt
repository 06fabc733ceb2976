-- ===== src/Portfolio/FillProcessor.antt =====
-- The fill processor, backend/app/portfolio/fill_processor.py, with `PnlLedger.record_close` of
-- pnl.py. The audit events and the snapshot that it asks for write nothing that is modelled here.
-- `exit_reason` is what the query for the signal's exit reason gives.
pub mod Invariant
pub mod Money
pub mod Ledger
pub mod History
mod Tests
use ratatoskr_v.Base.{
  ℕ, ◌≡◌, Bool, true, false, Option, none, some, List, [], ◌∷◌, ◌++◌, ◌&&◌, ◌||◌, not,
  if◌then◌else◌, update_first,
}
use ratatoskr_v.Domain.{Uid, Symbol, Time, Side, buy, sell, is_buy, is_forex, Market}
use ratatoskr_v.Decimal.{Decimal, of_ℕ, decimal_zero, add, sub, mul, div, neg, is_lt, is_le, is_eq}
use ratatoskr_v.PaperTrading.{Order, Fill}
use ratatoskr_v.Portfolio.{
  PositionSide, long, short, is_long, Position, AccountScope, equities_scope, forex_scope, PnlEntry,
  Portfolio, is_open_for, get_open, update_balance,
}

pub data Scenario : Type 0 where
  entry scale_in scale_out full_exit : Scenario

-- The order's quantity: `filled_qty or requested_qty`, where zero counts as missing.
unfoldable pub order_qty : Order → Decimal
order_qty o = if is_eq o.filled_qty decimal_zero then o.requested_qty else o.filled_qty

abbrev pub same_direction : Position → Order → Bool
same_direction p o = if is_buy o.side then is_long p.side else not (is_long p.side)

-- `_determine_scenario`
unfoldable pub determine_scenario : Option Position → Order → Scenario
determine_scenario none o = entry
determine_scenario (some p) o =
    if same_direction p o
    then scale_in
    else if is_le p.qty (order_qty o)
    then full_exit
    else scale_out

-- The gain per unit from `from` to `to` for the side of the position.
abbrev pub gain : PositionSide → Decimal → Decimal → Decimal
gain long from to = sub to from
gain short from to = sub from to

-- `_update_unrealized_pnl`
unfoldable pub update_unrealized_pnl : Position → Position
update_unrealized_pnl p = record p {
  unrealized_pnl =
      mul (mul (gain p.side p.avg_entry_price p.current_price) p.qty) (of_ℕ p.contract_multiplier);
  unrealized_pnl_percent =
      if is_lt decimal_zero p.avg_entry_price
      then mul (div (gain p.side p.avg_entry_price p.current_price) p.avg_entry_price) (of_ℕ 100)
      else decimal_zero;
}

-- The position of `_process_entry`.
unfoldable pub process_entry : Uid → Uid → Fill → Order → Position
process_entry new_id user f o = record {
  id = new_id;
  user_id = user;
  strategy_id = o.strategy_id;
  symbol = o.symbol;
  market = o.market;
  side = if is_buy o.side then long else short;
  qty = f.qty;
  avg_entry_price = f.price;
  cost_basis = f.net_value;
  current_price = f.price;
  market_value = mul (mul f.qty f.price) (of_ℕ o.contract_multiplier);
  unrealized_pnl = decimal_zero;
  unrealized_pnl_percent = decimal_zero;
  realized_pnl = decimal_zero;
  total_fees = f.fee;
  total_dividends_received = decimal_zero;
  total_return = decimal_zero;
  total_return_percent = decimal_zero;
  is_open = true;
  opened_at = f.filled_at;
  closed_at = none;
  close_reason = none;
  highest_price_since_entry = f.price;
  lowest_price_since_entry = f.price;
  bars_held = 0;
  broker_account_id = f.broker_account_id;
  contract_multiplier = o.contract_multiplier;
}

-- `_process_scale_in`. The sum of the quantities is not zero for the quantities that occur.
unfoldable pub process_scale_in : Fill → Position → Position
process_scale_in f p =
    let new_qty = add p.qty f.qty in
    let paid = add (mul p.qty p.avg_entry_price) (mul f.qty f.price) in
    update_unrealized_pnl (record p {
      avg_entry_price = div paid new_qty;
      qty = new_qty;
      cost_basis = add p.cost_basis f.net_value;
      total_fees = add p.total_fees f.fee;
      market_value = mul (mul new_qty p.current_price) (of_ℕ p.contract_multiplier);
    })

-- The gross gain on `qty` units of the position at the fill's price.
unfoldable pub gross_pnl : Fill → Position → Decimal → Decimal
gross_pnl f p qty =
    mul (mul (gain p.side p.avg_entry_price f.price) qty) (of_ℕ p.contract_multiplier)

abbrev pub return_percent : Decimal → Decimal → Decimal
return_percent total cost_basis =
    if is_lt decimal_zero cost_basis then mul (div total cost_basis) (of_ℕ 100) else decimal_zero

-- `_process_scale_out`
unfoldable pub process_scale_out : Fill → Position → Position
process_scale_out f p =
    let net_pnl = sub (gross_pnl f p f.qty) f.fee in
    let remaining_qty = sub p.qty f.qty in
    let q = update_unrealized_pnl (record p {
      cost_basis = mul p.cost_basis (div remaining_qty p.qty);
      qty = remaining_qty;
      realized_pnl = add p.realized_pnl net_pnl;
      total_fees = add p.total_fees f.fee;
      market_value = mul (mul remaining_qty p.current_price) (of_ℕ p.contract_multiplier);
    }) in
    let total = add (add q.unrealized_pnl q.realized_pnl) q.total_dividends_received in
    record q { total_return = total; total_return_percent = return_percent total q.cost_basis }

-- `_process_full_exit`
unfoldable pub process_full_exit : Option Uid → Fill → Position → Position
process_full_exit exit_reason f p =
    let net_pnl = sub (gross_pnl f p p.qty) f.fee in
    let realized = add p.realized_pnl net_pnl in
    let total = add realized p.total_dividends_received in
    record p {
      realized_pnl = realized;
      total_fees = add p.total_fees f.fee;
      qty = decimal_zero;
      market_value = decimal_zero;
      unrealized_pnl = decimal_zero;
      unrealized_pnl_percent = decimal_zero;
      is_open = false;
      closed_at = some f.filled_at;
      current_price = f.price;
      close_reason = exit_reason;
      total_return = total;
      total_return_percent = return_percent total p.cost_basis;
    }

-- `record_close`, for the position after the fill and the quantity that it closed.
unfoldable pub record_close : Fill → Position → Decimal → Decimal → Decimal → PnlEntry
record_close f p qty_closed gross net = record {
  position_id = p.id;
  strategy_id = p.strategy_id;
  user_id = p.user_id;
  symbol = p.symbol;
  side = p.side;
  qty_closed = qty_closed;
  entry_price = p.avg_entry_price;
  exit_price = f.price;
  gross_pnl = gross;
  fees = f.fee;
  net_pnl = net;
  pnl_percent =
      let cost = mul p.avg_entry_price qty_closed in
      if is_lt decimal_zero p.avg_entry_price
        && is_lt decimal_zero qty_closed
        && is_lt decimal_zero cost
      then mul (div net cost) (of_ℕ 100)
      else decimal_zero;
  holding_period_bars = p.bars_held;
  closed_at = f.filled_at;
}

-- The ledger entry of a fill that closes `qty` units of the position `p`.
abbrev pub close_entry : Fill → Position → Decimal → PnlEntry
close_entry f p qty = let gross = gross_pnl f p qty in record_close f p qty gross (sub gross f.fee)

-- The account that a fill is settled on.
unfoldable pub account_scope : Fill → Order → AccountScope
account_scope f o = elim f.broker_account_id [
  | some account ↦ if is_forex o.market then forex_scope account else equities_scope
  | none ↦ equities_scope
]

-- `_adjust_cash`: buys debit, sells credit.
abbrev pub cash_delta : Fill → Order → Decimal
cash_delta f o = if is_buy o.side then neg f.net_value else f.net_value

abbrev pub adjust_cash : Uid → Fill → Order → Portfolio → Portfolio
adjust_cash user f o pf = record pf {
  cash = update_balance (account_scope f o) user (cash_delta f o) pf.cash;
}

-- The open position of the order takes the change; the ledger takes the entries.
abbrev pub change_open : Order → (Position → Position) → List PnlEntry → Portfolio → Portfolio
change_open o change entries pf = record pf {
  positions = update_first (is_open_for o.strategy_id o.symbol) change pf.positions;
  ledger = pf.ledger ++ entries;
}

-- The write of a scenario. Without a position the scenario is `entry`.
unfoldable pub apply_scenario :
    Uid → Uid → Option Uid → Fill → Order → Scenario → Option Position → Portfolio → Portfolio
apply_scenario new_id user exit_reason f o scale_in (some p) pf =
    change_open o (process_scale_in f) [] pf
apply_scenario new_id user exit_reason f o scale_out (some p) pf =
    change_open o (process_scale_out f) (close_entry f p f.qty ∷ []) pf
apply_scenario new_id user exit_reason f o full_exit (some p) pf =
    change_open o (process_full_exit exit_reason f) (close_entry f p p.qty ∷ []) pf
apply_scenario new_id user exit_reason f o _ _ pf = record pf {
  positions = pf.positions ++ process_entry new_id user f o ∷ [];
}

-- `process_fill`
unfoldable pub process_fill : Uid → Uid → Option Uid → Fill → Order → Portfolio → Portfolio
process_fill new_id user exit_reason f o pf =
    let existing = get_open o.strategy_id o.symbol pf.positions in
    adjust_cash user f o
      (apply_scenario new_id user exit_reason f o (determine_scenario existing o) existing pf)
