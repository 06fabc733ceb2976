-- ===== src/Portfolio/MarkToMarket.antt =====
-- Mark to market, backend/app/portfolio/mark_to_market.py: one cycle over the open positions, and the
-- peak of a user's equity after it. `get_latest_close` is a parameter.
pub mod Tracking
mod Tests
use ratatoskr_v.Base.{
  ℕ, Bool, true, false, Option, none, some, List, [], ◌∷◌, ◌&&◌, ◌||◌, not, leb, ltb, ◌==◌,
  if◌then◌else◌, is_some, select, count, map, or_else,
}
use ratatoskr_v.Domain.{Uid, Symbol, Time, Market, equities, options, forex}
use ratatoskr_v.Decimal.{Decimal, of_ℕ, decimal_zero, add, mul, div, is_lt}
use ratatoskr_v.Portfolio.{Position, CashBalance, Portfolio}
use ratatoskr_v.Portfolio.FillProcessor.{gain}
use ratatoskr_v.Strategies.Runner.{clock_minute, clock_hour, clock_weekday, forex_open}

-- `_is_market_open`: equities are open from 14:30 to 21:00 UTC on weekdays
abbrev pub shares_open : ℕ → ℕ → ℕ → Bool
shares_open weekday hour minute =
    not (leb 5 weekday) && not (ltb hour 14 || (hour == 14 && ltb minute 30)) && not (leb 21 hour)

unfoldable pub is_open_market : Market → Time → Bool
is_open_market forex now = forex_open (clock_weekday now) (clock_hour now)
is_open_market equities now = shares_open (clock_weekday now) (clock_hour now) (clock_minute now)
is_open_market options now = shares_open (clock_weekday now) (clock_hour now) (clock_minute now)
is_open_market Market.other now =
    shares_open (clock_weekday now) (clock_hour now) (clock_minute now)

-- The assignments of the loop to a position, in their order.
unfoldable pub mark_at : Decimal → Position → Position
mark_at price p =
    let change = gain p.side p.avg_entry_price price in
    let multiplier = of_ℕ p.contract_multiplier in
    let unrealized = mul (mul change p.qty) multiplier in
    let total = add (add unrealized p.realized_pnl) p.total_dividends_received in
    record p {
      current_price = price;
      market_value = mul (mul p.qty price) multiplier;
      unrealized_pnl = unrealized;
      unrealized_pnl_percent =
          if is_lt decimal_zero p.avg_entry_price
          then mul (div change p.avg_entry_price) (of_ℕ 100)
          else p.unrealized_pnl_percent;
      total_return = total;
      total_return_percent =
          if is_lt decimal_zero p.cost_basis
          then mul (div total p.cost_basis) (of_ℕ 100)
          else p.total_return_percent;
      highest_price_since_entry =
          if is_lt p.highest_price_since_entry price then price else p.highest_price_since_entry;
      lowest_price_since_entry =
          if is_lt price p.lowest_price_since_entry then price else p.lowest_price_since_entry;
    }

abbrev pub is_marked : Time → (Symbol → Option Decimal) → Position → Bool
is_marked now close_of p = p.is_open && is_open_market p.market now && is_some (close_of p.symbol)

-- the body of the loop
unfoldable pub mark_position : Time → (Symbol → Option Decimal) → Position → Position
mark_position now close_of p =
    let price = or_else (close_of p.symbol) decimal_zero in
    if is_marked now close_of p then mark_at price p else p

-- The positions after a cycle, with the numbers of those that are updated and skipped.
unfoldable pub run_cycle :
    Time → (Symbol → Option Decimal) → List Position → List Position × (ℕ × ℕ)
run_cycle now close_of ps = (
  map (mark_position now close_of) ps,
  (count (is_marked now close_of) ps, count (λ p. p.is_open && not (is_marked now close_of p)) ps),
)

abbrev pub total_cash : Uid → List CashBalance → Decimal
total_cash user [] = decimal_zero
total_cash user (c ∷ cash) =
    let rest = total_cash user cash in if c.user_id == user then add c.balance rest else rest

abbrev pub positions_value : Uid → List Position → Decimal
positions_value user [] = decimal_zero
positions_value user (p ∷ ps) =
    let rest = positions_value user ps in
    if p.user_id == user && p.is_open then add p.market_value rest else rest

-- `_update_peak_equity`, for the stored peak, if there is one
unfoldable pub update_peak_equity : Uid → Portfolio → Option Decimal → Option Decimal
update_peak_equity user pf stored =
    let equity = add (total_cash user pf.cash) (positions_value user pf.positions) in
    if is_lt (or_else stored equity) equity then some equity else stored
