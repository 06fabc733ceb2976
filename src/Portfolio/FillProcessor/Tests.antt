-- ===== src/Portfolio/FillProcessor/Tests.antt =====
-- The fill processor on small inputs: a long position that is opened, added to, reduced and closed.
use ratatoskr_v.Base.{ℕ, ◌≡◌, refl, false, none, some, List, [], ◌∷◌, map, arith}
use ratatoskr_v.Domain.{Side, buy, sell, SignalType, entry, exit, equities}
use ratatoskr_v.Decimal.{of_ℕ, decimal_zero, decimals, neg, add}
use ratatoskr_v.PaperTrading.{Order, Fill, filled}
use ratatoskr_v.Portfolio.{Portfolio, equities_scope, get_open, get_balance, update_balance}
use ratatoskr_v.Portfolio.FillProcessor.{
  process_fill, apply_scenario, determine_scenario, process_entry, process_scale_in,
  process_scale_out, process_full_exit, record_close, gross_pnl, update_unrealized_pnl,
  account_scope, order_qty,
}
use ratatoskr_v.Portfolio.FillProcessor.Invariant.{
  IsWellFormed, IsFilledBy, process_fill-IsWellFormed,
}
use ratatoskr_v.Portfolio.FillProcessor.Money.{balance_in, process_fill-balances}
use ratatoskr_v.Portfolio.FillProcessor.Ledger.{IsReconciled, IsFresh, process_fill-IsReconciled}
use ratatoskr_v.Portfolio.FillProcessor.History.{Event, process, process_all}

unfoldable processor : Unit {0}
unfolding decimals process_fill apply_scenario determine_scenario process_entry process_scale_in
    process_scale_out process_full_exit record_close gross_pnl update_unrealized_pnl account_scope
    order_qty get_open get_balance update_balance
processor = tt

abbrev order_of : Side → SignalType → ℕ → Order
order_of side signal_type qty = record {
  id = 1;
  signal_id = 1;
  strategy_id = 7;
  symbol = 50;
  market = equities;
  side = side;
  signal_type = signal_type;
  requested_qty = of_ℕ qty;
  filled_qty = of_ℕ qty;
  filled_avg_price = none;
  status = filled;
  rejection_reason = none;
  broker_order_id = none;
  broker_account_id = none;
  underlying_symbol = none;
  contract_multiplier = 1;
}

abbrev fill_of : Side → (qty price value : ℕ) → Fill
fill_of side qty price value = record {
  order_id = 1;
  strategy_id = 7;
  symbol = 50;
  side = side;
  qty = of_ℕ qty;
  reference_price = of_ℕ price;
  price = of_ℕ price;
  gross_value = of_ℕ value;
  fee = of_ℕ 1;
  slippage_bps = decimal_zero;
  slippage_amount = decimal_zero;
  net_value = of_ℕ value;
  broker_account_id = none;
  filled_at = 1000;
}

abbrev event : ℕ → Side → SignalType → (qty price value : ℕ) → Event
event i side signal_type qty price value = record {
  new_id = i;
  user = 3;
  exit_reason = none;
  fill = fill_of side qty price value;
  order = order_of side signal_type qty;
}

abbrev start : Portfolio
start = record {
  positions = [];
  cash = record { account_scope = equities_scope; user_id = 3; balance = of_ℕ 10000 } ∷ [];
  ledger = [];
}

abbrev bought : Event
bought = event 90 buy entry 10 100 1001

abbrev reduced : Event
reduced = event 91 sell exit 4 110 439

abbrev sold : Event
sold = event 92 sell exit 6 120 719

abbrev day : List Event
day = bought ∷ reduced ∷ sold ∷ []

all_closed : map (λ p. p.is_open) (process_all day start).positions ≡ false ∷ []
unfolding processor
all_closed = refl

two_entries : map (λ e. e.net_pnl) (process_all day start).ledger ≡ of_ℕ 39 ∷ of_ℕ 119 ∷ []
unfolding processor
two_entries = refl

cash_at_end : balance_in equities_scope 3 (process_all day start).cash ≡ some (of_ℕ 10157)
unfolding processor
cash_at_end = refl

start-IsWellFormed : IsWellFormed start
start-IsWellFormed = record { sound = tt; single = λ strategy symbol. omega arith }

start-IsReconciled : IsReconciled start
start-IsReconciled = record { unique = λ id. omega arith; agrees = tt }

bought-IsFilledBy : IsFilledBy bought.fill bought.order
unfolding decimals
bought-IsFilledBy = record { positive = omega arith; whole = refl }

reduced-IsFilledBy : IsFilledBy reduced.fill reduced.order
unfolding decimals
reduced-IsFilledBy = record { positive = omega arith; whole = refl }

sold-IsFilledBy : IsFilledBy sold.fill sold.order
unfolding decimals
sold-IsFilledBy = record { positive = omega arith; whole = refl }

bought-IsFresh : IsFresh 90 start
bought-IsFresh = record { no_position = refl; no_entry = refl }

reduced-IsFresh : IsFresh 91 (process bought start)
unfolding processor
reduced-IsFresh = record { no_position = refl; no_entry = refl }

sold-IsFresh : IsFresh 92 (process reduced (process bought start))
unfolding processor
sold-IsFresh = record { no_position = refl; no_entry = refl }

process_fill-IsWellFormed_example : IsWellFormed (process reduced (process bought start))
process_fill-IsWellFormed_example =
    process_fill-IsWellFormed 91 3 none reduced.fill reduced.order (process bought start)
      reduced-IsFilledBy
      (process_fill-IsWellFormed 90 3 none bought.fill bought.order start bought-IsFilledBy
        start-IsWellFormed)

process_fill-balances_example :
    balance_in equities_scope 3 (process bought start).cash
    ≡ some (add (of_ℕ 10000) (neg (of_ℕ 1001)))
unfolding processor
process_fill-balances_example =
    process_fill-balances 90 3 none bought.fill bought.order start equities_scope 3

process_fill-IsReconciled_example : IsReconciled (process reduced (process bought start))
process_fill-IsReconciled_example =
    process_fill-IsReconciled 91 3 none reduced.fill reduced.order (process bought start)
      reduced-IsFresh
      (process_fill-IsReconciled 90 3 none bought.fill bought.order start bought-IsFresh
        start-IsReconciled)
