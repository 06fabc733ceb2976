-- ===== src/Portfolio/Dividends/Tests.antt =====
-- Dividends on small inputs: one announcement, two positions of the user in its symbol.
use ratatoskr_v.Base.{
  ℕ, ◌≡◌, refl, true, none, some, List, [], ◌∷◌, map, select, ◌==◌, if◌then◌else◌, arith,
}
use ratatoskr_v.Domain.{equities}
use ratatoskr_v.Decimal.{of_ℕ, decimal_zero, decimals}
use ratatoskr_v.Portfolio.{Position, Portfolio, long, equities_scope, get_balance, update_balance}
use ratatoskr_v.Portfolio.FillProcessor.Money.{balance_in, is_booked_on}
use ratatoskr_v.Portfolio.Dividends.{
  Announcement, Payment, is_payable, new_payment, announce, process_ex_date, credit_payment,
  process_payable_date,
}
use ratatoskr_v.Portfolio.Dividends.Once.{IsUnique, AllCovered, process_ex_date-IsUnique}
use ratatoskr_v.Portfolio.Dividends.Credits.{
  booked_all, dividends_of, received, process_payable_date-once,
}

abbrev dividend : Announcement
dividend = record { id = 30; symbol = 50; ex_date = 100; payable_date = 110; cash_amount = of_ℕ 2 }

abbrev held : (id qty : ℕ) → Position
held id qty = record {
  id = id;
  user_id = 3;
  strategy_id = 7;
  symbol = 50;
  market = equities;
  side = long;
  qty = of_ℕ qty;
  avg_entry_price = of_ℕ 100;
  cost_basis = of_ℕ 1000;
  current_price = of_ℕ 100;
  market_value = of_ℕ 1000;
  unrealized_pnl = decimal_zero;
  unrealized_pnl_percent = decimal_zero;
  realized_pnl = decimal_zero;
  total_fees = decimal_zero;
  total_dividends_received = decimal_zero;
  total_return = decimal_zero;
  total_return_percent = decimal_zero;
  is_open = true;
  opened_at = 10;
  closed_at = none;
  close_reason = none;
  highest_price_since_entry = of_ℕ 100;
  lowest_price_since_entry = of_ℕ 100;
  bars_held = 0;
  broker_account_id = none;
  contract_multiplier = 1;
}

abbrev positions : List Position
positions = held 1 10 ∷ held 2 5 ∷ []

abbrev book : Portfolio
book = record {
  positions = positions;
  cash = record { account_scope = equities_scope; user_id = 3; balance = of_ℕ 500 } ∷ [];
  ledger = [];
}

unfoldable dividends : Unit {0}
unfolding decimals new_payment announce process_ex_date credit_payment process_payable_date
    get_balance update_balance
dividends = tt

abbrev pending : List Payment
pending = process_ex_date 100 3 (dividend ∷ []) positions []

two_payments : map (λ x. x.net_amount) pending ≡ of_ℕ 20 ∷ of_ℕ 10 ∷ []
unfolding dividends
two_payments = refl

not_payable_yet : select (is_payable 109 3) pending ≡ []
unfolding dividends
not_payable_yet = refl

cash_after :
    balance_in equities_scope 3 (process_payable_date 110 1000 3 pending book).1.cash
    ≡ some (of_ℕ 530)
unfolding dividends
cash_after = refl

process_ex_date-IsUnique_example :
    IsUnique pending
    × (AllCovered 3 positions (select (λ a. a.ex_date == 100) (dividend ∷ [])) pending
        × (process_ex_date 100 3 (dividend ∷ []) positions pending ≡ pending))
process_ex_date-IsUnique_example =
    process_ex_date-IsUnique 100 3 (dividend ∷ []) positions [] (λ i j. omega arith)

process_payable_date-once_example :
    let r : List Payment × Portfolio = process_payable_date 110 1000 3 pending book in
    let due : List Payment = select (is_payable 110 3) pending in
    (balance_in equities_scope 3 (r.1).cash ≡ (
      if is_booked_on equities_scope 3 equities_scope 3
      then booked_all due (balance_in equities_scope 3 book.cash)
      else balance_in equities_scope 3 book.cash))
    × ((dividends_of 1 (r.1).positions ≡ received 1 due (dividends_of 1 positions))
        × (process_payable_date 110 1005 3 (r.0) (r.1) ≡ r))
process_payable_date-once_example =
    process_payable_date-once 110 1000 1005 3 pending book equities_scope 3 1
