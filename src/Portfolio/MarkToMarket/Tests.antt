-- ===== src/Portfolio/MarkToMarket/Tests.antt =====
-- Mark to market on small inputs: a price that falls below the lowest one.
use ratatoskr_v.Base.{
  ◌*◌, ◌≡◌, refl, true, Option, none, some, List, [], ◌∷◌, map, ◌==◌, if◌then◌else◌, All, arith,
}
use ratatoskr_v.Domain.{Symbol, Time, minute, equities}
use ratatoskr_v.Decimal.{Decimal, of_ℕ, decimal_zero, decimals}
use ratatoskr_v.Portfolio.{Position, Portfolio, long, equities_scope}
use ratatoskr_v.Portfolio.FillProcessor.Invariant.{IsWellFormed}
use ratatoskr_v.Portfolio.FillProcessor.Ledger.{IsReconciled}
use ratatoskr_v.Portfolio.MarkToMarket.{
  is_open_market, mark_at, mark_position, run_cycle, update_peak_equity,
}
use ratatoskr_v.Portfolio.MarkToMarket.Tracking.{IsTracked, run_cycle-IsTracked}
use ratatoskr_v.Strategies.Runner.{clock_minute, clock_hour, clock_weekday}

abbrev held : Position
held = record {
  id = 1;
  user_id = 3;
  strategy_id = 7;
  symbol = 50;
  market = equities;
  side = long;
  qty = of_ℕ 2;
  avg_entry_price = of_ℕ 3;
  cost_basis = of_ℕ 600;
  current_price = of_ℕ 3;
  market_value = of_ℕ 600;
  unrealized_pnl = decimal_zero;
  unrealized_pnl_percent = decimal_zero;
  realized_pnl = decimal_zero;
  total_fees = decimal_zero;
  total_dividends_received = decimal_zero;
  total_return = decimal_zero;
  total_return_percent = decimal_zero;
  is_open = true;
  opened_at = 10;
  closed_at = none;
  close_reason = none;
  highest_price_since_entry = of_ℕ 3;
  lowest_price_since_entry = of_ℕ 3;
  bars_held = 0;
  broker_account_id = none;
  contract_multiplier = 1;
}

abbrev book : Portfolio
book = record {
  positions = held ∷ [];
  cash = record { account_scope = equities_scope; user_id = 3; balance = of_ℕ 500 } ∷ [];
  ledger = [];
}

abbrev price_of : Symbol → Option Decimal
price_of s = if s == 50 then some (of_ℕ 2) else none

-- 15:00 on the first day, a Thursday
abbrev afternoon : Time
afternoon = 900 * minute

abbrev marked : List Position
marked = (run_cycle afternoon price_of book.positions).0

unfoldable marking : Unit {0}
unfolding decimals is_open_market clock_minute clock_hour clock_weekday mark_at mark_position
    run_cycle update_peak_equity
marking = tt

one_updated : (run_cycle afternoon price_of book.positions).1 ≡ (1, 0)
unfolding marking
one_updated = refl

lowest_follows : map (λ p. p.lowest_price_since_entry) marked ≡ of_ℕ 2 ∷ []
unfolding marking
lowest_follows = refl

closed_at_night : (run_cycle (1300 * minute) price_of book.positions).1 ≡ (0, 1)
unfolding marking
closed_at_night = refl

peak_rises : update_peak_equity 3 book (some (of_ℕ 900)) ≡ some (of_ℕ 1100)
unfolding marking
peak_rises = refl

book-IsWellFormed : IsWellFormed book
unfolding decimals
book-IsWellFormed = record { sound = (omega arith, tt); single = λ strategy symbol. ground arith }

book-IsReconciled : IsReconciled book
book-IsReconciled = record { unique = λ id. ground arith; agrees = (refl, tt) }

book-IsTracked : All IsTracked book.positions
unfolding decimals
book-IsTracked = ((refl, refl), tt)

run_cycle-IsTracked_example :
    let next : Portfolio = record book { positions = marked } in
    IsWellFormed next × (IsReconciled next × All IsTracked next.positions)
run_cycle-IsTracked_example =
    run_cycle-IsTracked afternoon price_of book book-IsWellFormed book-IsReconciled book-IsTracked
