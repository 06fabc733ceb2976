-- ===== src/Portfolio/Options/Tests.antt =====
-- The expiration of options on small inputs: a call that ends in the money.
use ratatoskr_v.Base.{
  ◌≡◌, refl, true, false, Option, none, some, [], ◌∷◌, map, ◌==◌, if◌then◌else◌, arith,
}
use ratatoskr_v.Domain.{Uid, Symbol, equities}
use ratatoskr_v.Decimal.{Decimal, of_ℕ, decimal_zero, decimals}
use ratatoskr_v.Portfolio.{Position, Portfolio, long, equities_scope}
use ratatoskr_v.Portfolio.FillProcessor.Invariant.{IsWellFormed}
use ratatoskr_v.Portfolio.FillProcessor.Ledger.{IsReconciled}
use ratatoskr_v.Portfolio.Options.{
  Contract, call, intrinsic_of, settlement, expiry_pnl, expired, expiry_entry, settle,
  expire_position, check_expirations,
}

abbrev option : Position
option = record {
  id = 1;
  user_id = 3;
  strategy_id = 7;
  symbol = 60;
  market = equities;
  side = long;
  qty = of_ℕ 2;
  avg_entry_price = of_ℕ 3;
  cost_basis = of_ℕ 600;
  current_price = of_ℕ 3;
  market_value = of_ℕ 600;
  unrealized_pnl = decimal_zero;
  unrealized_pnl_percent = decimal_zero;
  realized_pnl = decimal_zero;
  total_fees = decimal_zero;
  total_dividends_received = decimal_zero;
  total_return = decimal_zero;
  total_return_percent = decimal_zero;
  is_open = true;
  opened_at = 10;
  closed_at = none;
  close_reason = none;
  highest_price_since_entry = of_ℕ 3;
  lowest_price_since_entry = of_ℕ 3;
  bars_held = 0;
  broker_account_id = none;
  contract_multiplier = 100;
}

abbrev book : Portfolio
book = record {
  positions = option ∷ [];
  cash = record { account_scope = equities_scope; user_id = 3; balance = of_ℕ 500 } ∷ [];
  ledger = [];
}

abbrev contract_of : Uid → Option Contract
contract_of i =
    if i == 1
    then some (record {
      contract_type = call;
      strike_price = some (of_ℕ 100);
      expiration_date = 200;
      underlying_symbol = some 50;
    })
    else none

abbrev price_of : Symbol → Option Decimal
price_of s = if s == 50 then some (of_ℕ 105) else none

abbrev after : Portfolio
after = check_expirations contract_of price_of 9000 200 3 book

unfoldable expirations : Unit {0}
unfolding decimals intrinsic_of settlement expiry_pnl expired expiry_entry settle expire_position
    check_expirations
expirations = tt

gain_is_booked : map (λ e. e.net_pnl) after.ledger ≡ of_ℕ 400 ∷ []
unfolding expirations
gain_is_booked = refl

closed : map (λ p. p.is_open) after.positions ≡ false ∷ []
unfolding expirations
closed = refl

book-IsWellFormed : IsWellFormed book
unfolding decimals
book-IsWellFormed = record { sound = (omega arith, tt); single = λ strategy symbol. ground arith }

book-IsReconciled : IsReconciled book
book-IsReconciled = record { unique = λ id. ground arith; agrees = (refl, tt) }
