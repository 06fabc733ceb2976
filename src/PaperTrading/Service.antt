-- ===== src/PaperTrading/Service.antt =====
-- The paper trading service, backend/app/paper_trading/service.py: `process_signal` with its
-- helpers and `process_approved_signals`. The environment is given: prices, the active
-- configurations, the owners of strategies, the executors and the ids of new rows. Events and the
-- shadow tracker write nothing that is modelled here.
pub mod Outcomes
pub mod Cases
pub mod Positions
pub mod Journey
pub mod Books
use ratatoskr_v.Base.{
  ℕ, ◌+◌, ◌≡◌, Bool, true, false, Option, none, some, List, [], ◌∷◌, ◌++◌, ◌&&◌, ◌||◌, ◌==◌, ltb,
  if◌then◌else◌, find, count, update_first, map, is_some, select, or_else,
}
use ratatoskr_v.Domain.{Uid, Symbol, Time, Market, options, is_forex, is_exit}
use ratatoskr_v.Decimal.{Decimal, decimal_zero, is_le}
use ratatoskr_v.Signals.{
  Signal, Status, Table, risk_approved, risk_modified, order_filled, order_rejected,
  sort_by_created,
}
use ratatoskr_v.Signals.Service.{update_signal_status}
use ratatoskr_v.Signals.Service as Signals
use ratatoskr_v.Risk.{Sizing, Modifications}
use ratatoskr_v.Risk.Pipeline.{Decision, is_decision_of}
use ratatoskr_v.PaperTrading.{
  Config, OrderStatus, pending, accepted, filled, rejected, Reason, no_reference_price,
  invalid_quantity, insufficient_cash, fill_simulation_failed, Order, FillResult, Fill,
}
use ratatoskr_v.PaperTrading.Cash.{calculate_required_cash, check_availability}
use ratatoskr_v.PaperTrading.Quantity.{determine_qty}
use ratatoskr_v.PaperTrading.Quantity.Modified.{dict_of}
use ratatoskr_v.PaperTrading.ForexPool.{Allocation, release}
use ratatoskr_v.PaperTrading.Executors.{Executor, OrderResult, Executors, get_executor}
use ratatoskr_v.Portfolio.{Portfolio, CashBalance}
use ratatoskr_v.Portfolio.FillProcessor.{process_fill}

-- What the service reads and does not write.
pub record Environment : Type 0 where
  pub config : Config
  pub executors : Executors
  pub has_pool : Bool
  pub sizing : Uid → Sizing
  pub reference_price : Symbol → Option Decimal
  pub owner : Uid → Option Uid
  pub exit_reason : Order → Option Uid

-- The tables that the service writes.
pub record Desk : Type 0 where
  pub signals : Table
  pub decisions : List Decision
  pub orders : List Order
  pub fills : List Fill
  pub pool : List Allocation
  pub portfolio : Portfolio

-- The ids of the rows that a call may write, and the time of the call.
pub record Call : Type 0 where
  pub order_id : Uid
  pub position_id : Uid
  pub now : Time

-- `_update_signal_status`: an error is logged and nothing is written.
unfoldable pub set_signal : Uid → Status → Table → Table
set_signal i st t = elim (update_signal_status i st t) [
  | Signals.Result.ok next ↦ next
  | Signals.Result.err e ↦ t
]

-- `_create_rejected_order`, less the write
unfoldable pub rejected_order : Uid → Signal → Reason → Order
rejected_order i s reason = record {
  id = i;
  signal_id = s.id;
  strategy_id = s.strategy_id;
  symbol = s.symbol;
  market = s.market;
  side = s.side;
  signal_type = s.signal_type;
  requested_qty = decimal_zero;
  filled_qty = decimal_zero;
  filled_avg_price = none;
  status = rejected;
  rejection_reason = some reason;
  broker_order_id = none;
  broker_account_id = none;
  underlying_symbol = none;
  contract_multiplier = 1;
}

-- The contract multiplier. A signal has no column `underlying_symbol`: `getattr` gives `None`.
abbrev pub multiplier_of : Config → Market → ℕ
multiplier_of c options = c.default_contract_multiplier
multiplier_of c _ = 1

-- The order that `process_signal` creates.
unfoldable pub new_order : Config → Uid → Signal → Decimal → Order
new_order c i s qty = record {
  id = i;
  signal_id = s.id;
  strategy_id = s.strategy_id;
  symbol = s.symbol;
  market = s.market;
  side = s.side;
  signal_type = s.signal_type;
  requested_qty = qty;
  filled_qty = decimal_zero;
  filled_avg_price = none;
  status = pending;
  rejection_reason = none;
  broker_order_id = none;
  broker_account_id = none;
  underlying_symbol = none;
  contract_multiplier = multiplier_of c s.market;
}

-- `PaperOrderRepository.create`, of an order whose keys are in order, and `update`
abbrev pub create_order : Order → Desk → Desk
create_order o d = record d { orders = d.orders ++ o ∷ [] }

abbrev pub save_order : Order → Desk → Desk
save_order o d = record d { orders = update_first (λ x. x.id == o.id) (λ _. o) d.orders }

abbrev pub mark_signal : Uid → Status → Desk → Desk
mark_signal i st d = record d { signals = set_signal i st d.signals }

-- A rejection before there is an order: the order is created as rejected. `process_signal` calls it
-- where the insert does not raise.
unfoldable pub refuse_signal : Call → Signal → Reason → Desk → Order × Desk
refuse_signal k s reason d =
    let o = rejected_order k.order_id s reason in
    (o, mark_signal s.id order_rejected (create_order o d))

abbrev pub reject_order : Option Reason → Order → Order
reject_order reason o = record o { status = rejected; rejection_reason = reason }

-- The order after a submission that succeeded. The pool's executor writes the account.
unfoldable pub accept_order : OrderResult → Order → Order
accept_order r o = record o {
  status = accepted;
  broker_order_id = elim r.broker_order_id [ none ↦ o.broker_order_id | some i ↦ some i ];
  broker_account_id = elim r.broker_account_id [ none ↦ o.broker_account_id | some i ↦ some i ];
}

-- The `PaperFill` of the service. It names no broker account.
unfoldable pub new_fill : Order → FillResult → Fill
new_fill o r = record {
  order_id = o.id;
  strategy_id = o.strategy_id;
  symbol = o.symbol;
  side = o.side;
  qty = r.qty;
  reference_price = r.reference_price;
  price = r.price;
  gross_value = r.gross_value;
  fee = r.fee;
  slippage_bps = r.slippage_bps;
  slippage_amount = r.slippage_amount;
  net_value = r.net_value;
  broker_account_id = none;
  filled_at = r.filled_at;
}

unfoldable pub filled_order : FillResult → Order → Order
filled_order r o = record o { status = filled; filled_qty = r.qty; filled_avg_price = some r.price }

-- The portfolio is told of the fill if the strategy is there.
unfoldable pub notify_portfolio : Environment → Call → Fill → Order → Portfolio → Portfolio
notify_portfolio env k f o pf = elim (env.owner o.strategy_id) [
  | none ↦ pf
  | some user ↦ process_fill k.position_id user (env.exit_reason o) f o pf
]

-- The release of the account after an exit. An error is logged and nothing is written.
unfoldable pub release_account : Environment → Call → Order → List Allocation → List Allocation
release_account env k o pool =
    if is_forex o.market && is_exit o.signal_type && env.has_pool
    then elim (release o.strategy_id o.symbol k.now pool) [ none ↦ pool | some rest ↦ rest ]
    else pool

-- What follows a fill.
unfoldable pub settle : Environment → Call → Order → FillResult → Desk → Order × Desk
settle env k o r d =
    let done = filled_order r o in
    let f = new_fill o r in
    let marked = mark_signal o.signal_id order_filled (save_order done d) in
    (
      done,
      record marked {
        fills = d.fills ++ f ∷ [];
        portfolio = notify_portfolio env k f done d.portfolio;
        pool = release_account env k done d.pool;
      },
    )

-- The fill of an accepted order, which has been saved.
unfoldable pub fill_order : Environment → Call → Executor → Decimal → Order → Desk → Order × Desk
fill_order env k e price o d =
    let failed = reject_order (some fill_simulation_failed) o in
    elim (e.simulate_fill o price k.now) [
      | none ↦ (failed, mark_signal o.signal_id order_rejected (save_order failed d))
      | some fill ↦ settle env k o fill d
    ]

-- What follows the submission.
unfoldable pub execute :
    Environment → Call → Executor → Decimal → OrderResult → Order → Desk → Order × Desk
execute env k e price r o d =
    let refused = reject_order r.rejection_reason o in
    let taken = accept_order r o in
    if r.success
    then fill_order env k e price taken (save_order taken d)
    else (refused, mark_signal o.signal_id order_rejected (save_order refused d))

-- The order from the cash check on.
unfoldable pub place_order : Environment → Call → Decimal → Order → Desk → Order × Desk
place_order env k price o d =
    let required = calculate_required_cash env.config o price in
    let checked = check_availability env.config required (map (λ c. c.balance) d.portfolio.cash) in
    let refused = reject_order (some insufficient_cash) o in
    let e = get_executor env.config env.executors o.market in
    let submitted = e.submit_order o k.now d.pool in
    if checked.0
    then execute env k e price submitted.0 o (record (create_order o d) { pool = submitted.1 })
    else (refused, mark_signal o.signal_id order_rejected (create_order refused d))

abbrev pub is_order_of : Uid → Order → Bool
is_order_of i o = o.signal_id == i

-- The insert of an order raises where the signal has an order already: `signal_id` is unique.
abbrev pub has_order : Uid → List Order → Bool
has_order i orders = ltb 0 (count (is_order_of i) orders)

-- `process_signal`, `none` where it raises. Every path inserts one order, before it submits or
-- writes anything else. Two decisions of the signal raise (`scalar_one_or_none`), and so does the
-- insert of a second order of the signal, and that of the order of a signal without a decision: its
-- `risk_decision_id`, a foreign key, is an id made up for it.
unfoldable pub process_signal : Environment → Call → Signal → Desk → Option (Order × Desk)
process_signal env k s d =
    if ltb 1 (count (is_decision_of s.id) d.decisions) || has_order s.id d.orders
    then none
    else elim (find (is_decision_of s.id) d.decisions) [
      | none ↦ none
      | some decision ↦ elim (env.reference_price s.symbol) [
        | none ↦ some (refuse_signal k s no_reference_price d)
        | some price ↦
            let mods = dict_of decision.modifications in
            let qty = determine_qty env.config s.market mods (env.sizing s.strategy_id) price in
            if is_le qty decimal_zero
            then some (refuse_signal k s invalid_quantity d)
            else some (place_order env k price (new_order env.config k.order_id s qty) d)
      ]
    ]

-- `Signal.status.in_(["risk_approved", "risk_modified"])`
abbrev pub is_approved : Status → Bool
is_approved risk_approved = true
is_approved risk_modified = true
is_approved _ = false

abbrev pub approved_signals : Table → List Signal
approved_signals t = sort_by_created (select (λ s. is_approved s.status) t)

pub record Counts : Type 0 where
  pub processed : ℕ
  pub filled_count : ℕ
  pub rejected_count : ℕ

abbrev pub tally : OrderStatus → Counts → Counts
tally filled n = record n { processed = n.processed + 1; filled_count = n.filled_count + 1 }
tally rejected n = record n { processed = n.processed + 1; rejected_count = n.rejected_count + 1 }
tally _ n = record n { processed = n.processed + 1 }

-- The loop of `process_approved_signals`. An insert that raises ends the transaction, `none`: each
-- later signal of the round raises at its first query, and is logged and skipped.
unfoldable pub process_each :
    Environment → (Signal → Call) → List Signal → Counts → Desk → Counts × Option Desk
process_each env calls [] n d = (n, some d)
process_each env calls (s ∷ ss) n d = elim (process_signal env (calls s) s d) [
  | none ↦ (n, none)
  | some (o, next) ↦ process_each env calls ss (tally o.status n) next
]

-- The commit that follows a transaction that has ended raises, and nothing of it is kept.
unfoldable pub process_approved_signals : Environment → (Signal → Call) → Desk → Counts × Desk
process_approved_signals env calls d =
    let r =
      process_each env calls (approved_signals d.signals)
        (record { processed = 0; filled_count = 0; rejected_count = 0 }) d in
    (r.0, or_else (r.1) d)

-- To be named on the `unfolding` line of a test.
unfoldable pub desk : Unit {0}
unfolding process_approved_signals process_each process_signal place_order execute fill_order settle
    release_account notify_portfolio filled_order new_fill accept_order refuse_signal new_order
    rejected_order set_signal
desk = tt
