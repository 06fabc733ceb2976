-- ===== src/PaperTrading/Cash.antt =====
-- The cash manager, backend/app/paper_trading/cash_manager.py, over the balances of the portfolio.
use ratatoskr_v.Base.{Bool, List, [], ◌∷◌, if◌then◌else◌}
use ratatoskr_v.Domain.{Market, forex, options, is_buy}
use ratatoskr_v.Decimal.{Decimal, of_ℕ, decimal_zero, add, mul, div, is_le}
use ratatoskr_v.PaperTrading.{Config, Order}

-- `_estimate_fee`
unfoldable pub estimate_fee : Config → Decimal → Market → Decimal
estimate_fee c gross_value forex = div (mul gross_value c.fee_spread_bps_forex) (of_ℕ 10000)
estimate_fee c gross_value options = c.fee_per_trade_options
estimate_fee c gross_value _ = c.fee_per_trade_equities

unfoldable pub calculate_required_cash : Config → Order → Decimal → Decimal
calculate_required_cash c o reference_price =
    let gross = mul (mul o.requested_qty reference_price) (of_ℕ o.contract_multiplier) in
    if is_buy o.side then add gross (estimate_fee c gross o.market) else decimal_zero

unfoldable pub sum_from : Decimal → List Decimal → Decimal
sum_from acc [] = acc
sum_from acc (x ∷ xs) = sum_from (add acc x) xs

-- The sum of all balances, `coalesce(sum(balance), initial_cash)`. The database adds exactly.
unfoldable pub total_balance : Config → List Decimal → Decimal
total_balance c [] = c.initial_cash
total_balance c (b ∷ bs) = sum_from b bs

-- `check_availability`. The query by scope is for the user `None`, whom no row belongs to, so that
-- the total of all rows decides.
unfoldable pub check_availability : Config → Decimal → List Decimal → Bool × Decimal
check_availability c required_cash balances =
    let available = total_balance c balances in (is_le required_cash available, available)
