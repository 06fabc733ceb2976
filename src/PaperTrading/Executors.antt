-- ===== src/PaperTrading/Executors.antt =====
-- The executors, backend/app/paper_trading/executors: base.py, simulated.py, forex_pool.py and
-- alpaca_paper.py. What the broker's HTTP interface answers is a parameter, `Broker`.
pub mod Promises
use ratatoskr_v.Base.{
  ℕ, ◌≡◌, Bool, true, false, Option, none, some, List, [], ◌∷◌, if◌then◌else◌, ◌&&◌,
}
use ratatoskr_v.Domain.{Uid, Symbol, Time, Market, equities, options, forex, is_exit}
use ratatoskr_v.Decimal.{Decimal, decimal_zero, mul}
use ratatoskr_v.PaperTrading.{
  Config, Order, FillResult, Reason, no_available_account, broker_unavailable,
}
use ratatoskr_v.PaperTrading.Fills.{simulate}
use ratatoskr_v.PaperTrading.ForexPool.{Account, Allocation, find_available_account, allocate}

-- `OrderResult`, with the account that the executor writes on the order.
pub record OrderResult : Type 0 where
  pub success : Bool
  pub broker_order_id : Option Uid
  pub broker_account_id : Option Uid
  pub rejection_reason : Option Reason

abbrev pub accept : Option Uid → Option Uid → OrderResult
accept broker_order account = record {
  success = true;
  broker_order_id = broker_order;
  broker_account_id = account;
  rejection_reason = none;
}

abbrev pub refuse : Reason → OrderResult
refuse reason = record {
  success = false;
  broker_order_id = none;
  broker_account_id = none;
  rejection_reason = some reason;
}

-- `Executor`, with the pool as the state that a submission may write. A fill that raises is `none`.
pub record Executor : Type 0 where
  pub submit_order : Order → Time → List Allocation → OrderResult × List Allocation
  pub simulate_fill : Order → Decimal → Time → Option FillResult

-- `SimulatedExecutor`
unfoldable pub simulated_executor : Config → Executor
simulated_executor c = record {
  submit_order = λ o now pool. (accept none none, pool);
  simulate_fill = λ o reference_price now. some (simulate c o reference_price now);
}

-- `ForexPoolExecutor.submit_order`
unfoldable pub submit_to_pool :
    List Account → Order → Time → List Allocation → OrderResult × List Allocation
submit_to_pool accounts o now pool =
    if is_exit o.signal_type
    then (accept none none, pool)
    else elim (find_available_account o.symbol accounts pool) [
      | none ↦ (refuse no_available_account, pool)
      | some account ↦ (
        accept none (some account.account_id),
        allocate account.id o.strategy_id o.symbol o.side now pool,
      )
    ]

-- `ForexPoolExecutor`
unfoldable pub forex_pool_executor : Config → List Account → Executor
forex_pool_executor c accounts = record {
  submit_order = submit_to_pool accounts;
  simulate_fill = λ o reference_price now. some (simulate c o reference_price now);
}

-- What the broker reports of a filled order.
pub record BrokerFill : Type 0 where
  pub filled_qty : Decimal
  pub filled_avg_price : Decimal
  pub filled_at : Time

-- The broker: the id of an order that it takes up, the fill that it reports within three polls,
-- and the setting `paper_trading_broker_fallback`.
pub record Broker : Type 0 where
  pub post_order : Order → Option Uid
  pub poll_fill : Uid → Option BrokerFill
  pub falls_back : Bool

-- `_poll_alpaca_fill`: the fill of a report
unfoldable pub broker_fill : Order → BrokerFill → FillResult
broker_fill o b =
    let gross_value = mul b.filled_qty b.filled_avg_price in
    record {
      order_id = o.id;
      qty = b.filled_qty;
      reference_price = b.filled_avg_price;
      price = b.filled_avg_price;
      fee = decimal_zero;
      slippage_bps = decimal_zero;
      slippage_amount = decimal_zero;
      gross_value = gross_value;
      net_value = gross_value;
      filled_at = b.filled_at;
    }

-- `AlpacaPaperExecutor.submit_order`, with `_fallback_submit`
unfoldable pub submit_to_broker :
    Broker → Order → Time → List Allocation → OrderResult × List Allocation
submit_to_broker b o now pool = elim (b.post_order o) [
  | some broker_order ↦ (accept (some broker_order) none, pool)
  | none ↦ if b.falls_back then (accept none none, pool) else (refuse broker_unavailable, pool)
]

-- `AlpacaPaperExecutor.simulate_fill`, with `_fallback_fill`
unfoldable pub fill_at_broker : Config → Broker → Order → Decimal → Time → Option FillResult
fill_at_broker c b o reference_price now = elim o.broker_order_id [
  | none ↦ some (simulate c o reference_price now)
  | some broker_order ↦ elim (b.poll_fill broker_order) [
    | some report ↦ some (broker_fill o report)
    | none ↦ some (simulate c o reference_price now)
  ]
]

-- `AlpacaPaperExecutor`
unfoldable pub alpaca_executor : Config → Broker → Executor
alpaca_executor c b = record {
  submit_order = submit_to_broker b;
  simulate_fill = fill_at_broker c b;
}

-- The executors that the service is made with.
pub record Executors : Type 0 where
  pub simulated : Executor
  pub forex_pool : Option Executor
  pub alpaca : Option Executor

-- `_get_executor`
unfoldable pub get_executor : Config → Executors → Market → Executor
get_executor c es market = elim market [
  | forex ↦ elim es.forex_pool [ none ↦ es.simulated | some e ↦ e ]
  | equities ↦ elim es.alpaca [
    | none ↦ es.simulated
    | some e ↦ if c.equities_on_broker then e else es.simulated
  ]
  | options ↦ elim es.alpaca [
    | none ↦ es.simulated
    | some e ↦ if c.equities_on_broker then e else es.simulated
  ]
  | Market.other ↦ es.simulated
]

-- The executors that startup.py makes: a pool of accounts if it could be seeded, a broker if the
-- mode of equities is `paper`.
unfoldable pub make_executors : Config → Option (List Account) → Option Broker → Executors
make_executors c accounts broker = record {
  simulated = simulated_executor c;
  forex_pool = elim accounts [ none ↦ none | some xs ↦ some (forex_pool_executor c xs) ];
  alpaca = elim broker [
    | none ↦ none
    | some b ↦ if c.equities_on_broker then some (alpaca_executor c b) else none
  ];
}

-- To be named on the `unfolding` line of a test.
unfoldable pub trading : Unit {0}
unfolding make_executors get_executor alpaca_executor fill_at_broker submit_to_broker broker_fill
    forex_pool_executor submit_to_pool simulated_executor simulate find_available_account allocate
trading = tt
