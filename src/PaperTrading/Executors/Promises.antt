-- ===== src/PaperTrading/Executors/Promises.antt =====
-- What the executors (paper_trading/executors) promise the service that calls them.
use ratatoskr_v.Base.{
  ◌≡◌, inl, inr, Bool, true, false, Option, none, some, List, if◌then◌else◌, arith, Bool-cases,
  Option-cases,
}
use ratatoskr_v.Domain.{Uid, Time, Market, equities, options, forex, is_exit}
use ratatoskr_v.Decimal.{Decimal}
use ratatoskr_v.Decimal.Sign.{IsPositive}
use ratatoskr_v.PaperTrading.{Config, Order, FillResult}
use ratatoskr_v.PaperTrading.Fills.{simulate}
use ratatoskr_v.PaperTrading.ForexPool.{Account, Allocation, find_available_account}
use ratatoskr_v.PaperTrading.ForexPool.Exclusive.{IsExclusive, allocate-IsExclusive}
use ratatoskr_v.PaperTrading.Executors.{
  Executor, get_executor, simulated_executor, forex_pool_executor, alpaca_executor, make_executors,
  submit_to_pool, submit_to_broker, fill_at_broker, broker_fill, Broker, BrokerFill,
}

-- An executor fills an order of a quantity above zero with a quantity above zero.
abbrev pub FillsPositive : Executor → Type 0
FillsPositive e =
    (o : Order) (price : Decimal) (now : Time) (r : FillResult)
    → IsPositive o.requested_qty
    → e.simulate_fill o price now ≡ some r
    → IsPositive r.qty

simulated-FillsPositive : (c : Config) → FillsPositive (simulated_executor c)
unfolding simulated_executor simulate
simulated-FillsPositive c o price now r h e = ground arith

forex_pool-FillsPositive :
    (c : Config) (xs : List Account) → FillsPositive (forex_pool_executor c xs)
unfolding forex_pool_executor simulate
forex_pool-FillsPositive c xs o price now r h e = ground arith

-- A broker reports quantities above zero.
abbrev pub ReportsPositive : Broker → Type 0
ReportsPositive b = (i : Uid) (f : BrokerFill) → b.poll_fill i ≡ some f → IsPositive f.filled_qty

alpaca-FillsPositive :
    (c : Config) (b : Broker) → ReportsPositive b → FillsPositive (alpaca_executor c b)
unfolding alpaca_executor fill_at_broker broker_fill simulate
alpaca-FillsPositive c b reports o price now r h e = elim (Option-cases o.broker_order_id) [
  | inl local ↦ ground arith
  | inr (i, posted) ↦ elim (Option-cases (b.poll_fill i)) [
    | inl silent ↦ ground arith
    | inr (f, told) ↦ ground (arith, reports i f told)
  ]
]

module _ (P : Executor → Type 0) (c : Config) where
  -- The mode of equities is asked for twice.
  chosen :
      (e : Executor)
      → P e
      → P (simulated_executor c)
      → (on : Bool)
      → P (elim (if on then some e else none) [
        | none ↦ simulated_executor c
        | some x ↦ if on then x else simulated_executor c
      ])
  chosen e he hs true = he
  chosen e he hs false = hs

  -- What holds of every executor that startup.py makes holds of the one that is chosen.
  pub get_executor_lem :
      (accounts : Option (List Account)) (broker : Option Broker)
      → P (simulated_executor c)
      → ((xs : List Account) → accounts ≡ some xs → P (forex_pool_executor c xs))
      → ((b : Broker) → broker ≡ some b → P (alpaca_executor c b))
      → (market : Market) → P (get_executor c (make_executors c accounts broker) market)
  unfolding make_executors get_executor
  get_executor_lem accounts broker hs hf ha forex = elim (Option-cases accounts) [
    | inl e ↦ rw e hs
    | inr (xs, e) ↦ rw e (hf xs e)
  ]
  get_executor_lem accounts broker hs hf ha Market.other = hs
  get_executor_lem accounts broker hs hf ha equities = elim (Option-cases broker) [
    | inl e ↦ rw e hs
    | inr (b, e) ↦ rw e (chosen (alpaca_executor c b) (ha b e) hs c.equities_on_broker)
  ]
  get_executor_lem accounts broker hs hf ha options = elim (Option-cases broker) [
    | inl e ↦ rw e hs
    | inr (b, e) ↦ rw e (chosen (alpaca_executor c b) (ha b e) hs c.equities_on_broker)
  ]

pub make_executors-FillPositive :
    (c : Config) (accounts : Option (List Account)) (broker : Option Broker)
    → ((b : Broker) → broker ≡ some b → ReportsPositive b)
    → (market : Market) → FillsPositive (get_executor c (make_executors c accounts broker) market)
make_executors-FillPositive c accounts broker h =
    get_executor_lem FillsPositive c accounts broker (simulated-FillsPositive c)
      (λ xs _. forex_pool-FillsPositive c xs) (λ b e. alpaca-FillsPositive c b (h b e))

-- A submission never puts a pair twice on an account.
abbrev pub KeepsExclusive : Executor → Type 0
KeepsExclusive e =
    (o : Order) (now : Time) (pool : List Allocation)
    → IsExclusive pool
    → IsExclusive (e.submit_order o now pool).1

pub simulated-KeepsExclusive : (c : Config) → KeepsExclusive (simulated_executor c)
unfolding simulated_executor
simulated-KeepsExclusive c o now pool ex = ex

pub forex_pool-KeepsExclusive :
    (c : Config) (xs : List Account) → KeepsExclusive (forex_pool_executor c xs)
unfolding forex_pool_executor submit_to_pool
forex_pool-KeepsExclusive c xs o now pool ex = elim (Bool-cases (is_exit o.signal_type)) [
  | inl leaving ↦ rw leaving ex
  | inr entering ↦ elim (Option-cases (find_available_account o.symbol xs pool)) [
    | inl busy ↦ rw (entering, busy) ex
    | inr (x, free) ↦
        rw (entering, free)
          (allocate-IsExclusive o.symbol xs pool x o.strategy_id o.side now free ex)
  ]
]

pub alpaca-KeepsExclusive : (c : Config) (b : Broker) → KeepsExclusive (alpaca_executor c b)
unfolding alpaca_executor submit_to_broker
alpaca-KeepsExclusive c b o now pool ex = elim (Option-cases (b.post_order o)) [
  | inl e ↦ elim (Bool-cases b.falls_back) [
    | inl f ↦ rw (e, submit_to_broker, f) ex
    | inr f ↦ rw (e, submit_to_broker, f) ex
  ]
  | inr (i, e) ↦ rw (e, submit_to_broker) ex
]
