-- ===== src/PaperTrading/Tests.antt =====
-- The paper trading service on small inputs.
use ratatoskr_v.Base.{
  ◌≡◌, ◌≢◌, refl, true, false, none, some, List, [], ◌∷◌, length, find, map, arith, ◌⊎◌,
}
use ratatoskr_v.Domain.{Uid, Market, equities, forex, Side, buy, SignalType, entry, m5, Source}
use ratatoskr_v.Decimal.{of_ℕ, decimals}
use ratatoskr_v.Signals.{Signal, risk_approved, order_filled}
use ratatoskr_v.Signals.Service.{service}
use ratatoskr_v.Risk.{fixed_qty, get}
use ratatoskr_v.Risk.Pipeline.{Decision, approved}
use ratatoskr_v.Risk.Checks.{risk_checks}
use ratatoskr_v.Risk.Pipeline.{decide}
use ratatoskr_v.Risk.Pipeline as Pipeline
use ratatoskr_v.Risk.Tests.{context, signal, accepted}
use ratatoskr_v.PaperTrading.Service.Journey.{ruled, ruled_signal, end_status, process_signal-ruled}
use ratatoskr_v.Signals.{with_status, get_by_id}
use ratatoskr_v.PaperTrading.{Config, Order, filled}
use ratatoskr_v.PaperTrading.Fills.{apply_slippage, calculate_fee, get_slippage_bps}
use ratatoskr_v.PaperTrading.Cash.{
  estimate_fee, calculate_required_cash, check_availability, total_balance, sum_from,
}
use ratatoskr_v.PaperTrading.Quantity.{determine_qty, base_qty, round_qty, modified_qty}
use ratatoskr_v.PaperTrading.ForexPool.{
  Account, Allocation, find_available_account, allocate, release, is_of,
}
use ratatoskr_v.PaperTrading.ForexPool.Exclusive.{IsExclusive, allocate-IsExclusive}
use ratatoskr_v.PaperTrading.Executors.{make_executors, trading}
use ratatoskr_v.PaperTrading.Service.{
  Environment, Desk, Call, process_signal, desk, place_order, new_order,
}
use ratatoskr_v.PaperTrading.Service.Outcomes.{IsSettled, is_ready, process_signal-IsSettled}
use ratatoskr_v.PaperTrading.Service.Books.{IsAffordable, process_signal-IsAffordable}
use ratatoskr_v.PaperTrading.Service.Positions.{
  process_signal-IsExclusive, process_signal-forex_cash,
}
use ratatoskr_v.Portfolio.{
  Portfolio, equities_scope, forex_scope, get_open, get_balance, update_balance,
}
use ratatoskr_v.Portfolio.FillProcessor.{
  process_fill, apply_scenario, determine_scenario, process_entry, process_scale_in,
  process_scale_out, process_full_exit, record_close, gross_pnl, update_unrealized_pnl,
  account_scope, order_qty,
}
use ratatoskr_v.Portfolio.FillProcessor.Invariant.{IsWellFormed}
use ratatoskr_v.Portfolio.FillProcessor.Money.{balance_in}

unfoldable everything : Unit {0}
unfolding decimals service get apply_slippage calculate_fee get_slippage_bps estimate_fee
    calculate_required_cash check_availability total_balance sum_from determine_qty base_qty
    round_qty modified_qty release trading desk process_fill apply_scenario determine_scenario
    process_entry process_scale_in process_scale_out process_full_exit record_close gross_pnl
    update_unrealized_pnl account_scope order_qty get_open get_balance update_balance
everything = tt

abbrev config : Config
config = record {
  equities_on_broker = false;
  slippage_bps_equities = of_ℕ 5;
  slippage_bps_forex = of_ℕ 2;
  slippage_bps_options = of_ℕ 10;
  fee_per_trade_equities = of_ℕ 0;
  fee_spread_bps_forex = of_ℕ 15;
  fee_per_trade_options = of_ℕ 1;
  default_contract_multiplier = 100;
  initial_cash = of_ℕ 100000;
}

abbrev accounts : List Account
accounts =
    record { id = 1; account_id = 101; is_active = true }
    ∷ record { id = 2; account_id = 102; is_active = true }
    ∷ []

abbrev env : Environment
env = record {
  config = config;
  executors = make_executors config (some accounts) none;
  has_pool = true;
  sizing = λ _. record {
    method = some fixed_qty;
    value = some (of_ℕ 10);
    qty = none;
    amount = none;
    percent = none;
    risk_percent = none;
    stop_distance = none;
    stop_price = none;
    max_positions = none;
  };
  reference_price = λ _. some (of_ℕ 100);
  owner = λ _. some 3;
  exit_reason = λ _. none;
}

abbrev signal_of : Market → Side → SignalType → Signal
signal_of market side signal_type = record {
  id = 1;
  strategy_id = 7;
  symbol = 50;
  market = market;
  timeframe = m5;
  side = side;
  signal_type = signal_type;
  source = Source.strategy;
  status = risk_approved;
  ts = 1000;
  expires_at = none;
  created_at = 1000;
}

abbrev decision : Decision
decision = record {
  signal_id = 1;
  status = approved;
  checks_passed = [];
  failed_check = none;
  reason_code = "approved";
  modifications = none;
}

abbrev start : Portfolio
start = record {
  positions = [];
  cash = record { account_scope = equities_scope; user_id = 3; balance = of_ℕ 10000 } ∷ [];
  ledger = [];
}

abbrev desk_of : Signal → List Allocation → Desk
desk_of s pool = record {
  signals = s ∷ [];
  decisions = decision ∷ [];
  orders = [];
  fills = [];
  pool = pool;
  portfolio = start;
}

abbrev now : Call
now = record { order_id = 500; position_id = 90; now = 2000 }

abbrev purchase : Signal
purchase = signal_of equities buy entry

abbrev forex_purchase : Signal
forex_purchase = signal_of forex buy entry

abbrev order : Signal → Order
order s = new_order config 500 s (of_ℕ 10)

abbrev placed : Signal → List Allocation → Order × Desk
placed s pool = place_order env now (of_ℕ 100) (order s) (desk_of s pool)

is_bought : (placed purchase []).0.status ≡ filled
unfolding everything
is_bought = refl

signal_is_filled : map (λ s. s.status) (placed purchase []).1.signals ≡ order_filled ∷ []
unfolding everything
signal_is_filled = refl

one_position : length (placed purchase []).1.portfolio.positions ≡ 1
unfolding everything
one_position = refl

-- The forex order goes to the first account of the pool.
on_account : (placed forex_purchase []).0.broker_account_id ≡ some 101
unfolding everything
on_account = refl

start-IsWellFormed : IsWellFormed start
start-IsWellFormed = record { sound = tt; single = λ strategy symbol. omega arith }

nothing-IsExclusive : IsExclusive []
nothing-IsExclusive account symbol = omega arith

runs : process_signal env now purchase (desk_of purchase []) ≡ some (placed purchase [])
unfolding everything
runs = refl

forex_runs :
    process_signal env now forex_purchase (desk_of forex_purchase [])
    ≡ some (placed forex_purchase [])
unfolding everything
forex_runs = refl

process_signal-IsSettled_example :
    ((is_ready purchase (desk_of purchase []) ≡ true)
      × ((p : Order × Desk) × (process_signal env now purchase (desk_of purchase []) ≡ some p)
          × IsSettled purchase (desk_of purchase []) p))
    ⊎ ((is_ready purchase (desk_of purchase []) ≡ false)
        × (process_signal env now purchase (desk_of purchase []) ≡ none))
process_signal-IsSettled_example =
    process_signal-IsSettled env now purchase (desk_of purchase []) (omega arith) refl

process_signal-IsAffordable_example : IsAffordable env (desk_of purchase []) (placed purchase []).0
process_signal-IsAffordable_example =
    process_signal-IsAffordable env now purchase (desk_of purchase []) {p = placed purchase []} runs
      is_bought

process_signal-IsExclusive_example : IsExclusive (placed forex_purchase []).1.pool
process_signal-IsExclusive_example =
    process_signal-IsExclusive env (some accounts) none now forex_purchase
      (desk_of forex_purchase []) {p = placed forex_purchase []} refl nothing-IsExclusive forex_runs

process_signal-forex_cash_example :
    balance_in (forex_scope 101) 3 (placed forex_purchase []).1.portfolio.cash
    ≡ balance_in (forex_scope 101) 3 start.cash
process_signal-forex_cash_example =
    process_signal-forex_cash env now forex_purchase (desk_of forex_purchase [])
      {p = placed forex_purchase []} 101 3 forex_runs

-- Both accounts carry the pair.
abbrev full_pool : List Allocation
full_pool = allocation 1 ∷ allocation 2 ∷ []
  where
    allocation : Uid → Allocation
    allocation i = record {
      account_id = i;
      strategy_id = i;
      symbol = 50;
      side = buy;
      is_active = true;
      allocated_at = 1000;
      released_at = none;
    }

busy_runs :
    process_signal env now forex_purchase (desk_of forex_purchase full_pool)
    ≡ some (placed forex_purchase full_pool)
unfolding everything
busy_runs = refl

all_busy : find_available_account 50 accounts full_pool ≡ none
unfolding everything
all_busy = refl

abbrev first_account : Account
first_account = record { id = 1; account_id = 101; is_active = true }

abbrev one_allocation : List Allocation
one_allocation = allocate 1 7 50 buy 2000 []

first_found : find_available_account 50 accounts [] ≡ some first_account
unfolding everything
first_found = refl

one-IsExclusive : IsExclusive one_allocation
one-IsExclusive =
    allocate-IsExclusive 50 accounts [] first_account 7 buy 2000 first_found nothing-IsExclusive

abbrev allocated : Allocation
allocated = record {
  account_id = 1;
  strategy_id = 7;
  symbol = 50;
  side = buy;
  is_active = true;
  allocated_at = 2000;
  released_at = none;
}

abbrev after_release : List Allocation
after_release = record allocated { is_active = false; released_at = some 3000 } ∷ []

is_released : release 7 50 3000 one_allocation ≡ some after_release
unfolding everything
is_released = refl

is_held : find (is_of 7 50) one_allocation ≡ some allocated
unfolding everything
is_held = refl

-- The signal that the risk tests approve, on its way to an order.
abbrev arrival : Desk
arrival = record {
  signals = signal ∷ [];
  decisions = [];
  orders = [];
  fills = [];
  pool = [];
  portfolio = start;
}

is_known : get_by_id 1 arrival.signals ≡ some signal
unfolding everything
is_known = refl

process_signal-ruled_example :
    (p : Order × Desk) × (process_signal env now
        (ruled_signal risk_checks signal (some context))
        (ruled risk_checks signal (some context) arrival)
      ≡ some p)
    × IsSettled
        (ruled_signal risk_checks signal (some context))
        (ruled risk_checks signal (some context) arrival)
        p
    × (get_by_id 1 p.1.signals ≡ some (with_status (end_status p.0.status) signal))
process_signal-ruled_example =
    process_signal-ruled risk_checks (some context) env now signal arrival is_known refl refl refl
      refl not_rejected
  where
    not_rejected : (decide risk_checks signal (some context)).status ≢ Pipeline.rejected
    not_rejected e = cc (accepted, e)
