-- ===== src/PaperTrading/Service/Positions.antt =====
-- What `process_signal` (paper_trading/service.py) does to the portfolio and to the pool of forex
-- accounts.
use ratatoskr_v.Base.{
  ◌≡◌, inl, inr, refl, sym, ap, ◌∙◌, true, false, Option, none, some, List, ◌&&◌, arith, Bool-cases,
  Option-cases,
}
use ratatoskr_v.Domain.{Uid, Market, forex, is_forex, is_exit}
use ratatoskr_v.Decimal.{Decimal, decimal_zero, is_le}
use ratatoskr_v.Decimal.Order.{is_lt-not-is_le}
use ratatoskr_v.Decimal.Sign.{IsPositive, IsPositive-of_lt}
use ratatoskr_v.Signals.{Signal}
use ratatoskr_v.PaperTrading.{Order, FillResult, rejected, no_available_account}
use ratatoskr_v.PaperTrading.ForexPool.{Account, Allocation, find_available_account, release}
use ratatoskr_v.PaperTrading.ForexPool.Exclusive.{IsExclusive, release-IsExclusive}
use ratatoskr_v.PaperTrading.Executors.{
  get_executor, forex_pool_executor, make_executors, submit_to_pool, Broker, refuse,
}
use ratatoskr_v.PaperTrading.Service.{
  Environment, Desk, Call, new_order, refuse_signal, rejected_order, accept_order, new_fill,
  filled_order, settle, process_signal, notify_portfolio, release_account,
}
use ratatoskr_v.PaperTrading.Service.Cases.{process_signal-cases, place_order-cases, submission}
use ratatoskr_v.PaperTrading.Executors.Promises.{
  FillsPositive, KeepsExclusive, get_executor_lem, simulated-KeepsExclusive,
  forex_pool-KeepsExclusive, alpaca-KeepsExclusive,
}
use ratatoskr_v.Portfolio.{forex_scope}
use ratatoskr_v.Portfolio.FillProcessor.Invariant.{IsWellFormed, process_fill-IsWellFormed}
use ratatoskr_v.Portfolio.FillProcessor.Money.{
  balance_in, process_fill-balances, account_scope-unnamed,
}

abbrev pub AllFillPositive : Environment → Type 0
AllFillPositive env =
    (market : Market) → FillsPositive (get_executor env.config env.executors market)

IsPositive-of_not_le : (qty : Decimal) → is_le qty decimal_zero ≡ false → IsPositive qty
IsPositive-of_not_le qty h = IsPositive-of_lt qty (ground (arith, is_lt-not-is_le decimal_zero qty))

settle-IsWellFormed :
    (env : Environment) (k : Call) (o : Order) (r : FillResult) (d : Desk)
    → IsPositive r.qty
    → IsWellFormed d.portfolio
    → IsWellFormed (settle env k o r d).1.portfolio
unfolding settle notify_portfolio new_fill filled_order
settle-IsWellFormed env k o r d pos w = elim (Option-cases (env.owner o.strategy_id)) [
  | inl nobody ↦ rw (nobody, notify_portfolio) w
  | inr (user, e) ↦
      rw (e, notify_portfolio)
        (process_fill-IsWellFormed k.position_id user _ _ _ d.portfolio
          (record { positive = pos; whole = refl }) w)
]

-- `process_signal` keeps the portfolio well formed, whatever becomes of the order, where the
-- executors fill an order of a quantity above zero with a quantity above zero.
process_signal-IsWellFormed :
    (env : Environment) (k : Call) (s : Signal) (d : Desk) {p : Order × Desk}
    → AllFillPositive env
    → IsWellFormed d.portfolio
    → process_signal env k s d ≡ some p
    → IsWellFormed p.1.portfolio
unfolding refuse_signal new_order accept_order
process_signal-IsWellFormed env k s d {p} h w =
    process_signal-cases (λ q. IsWellFormed q.1.portfolio) env k s d {p = p} (λ reason. w)
      (λ price qty hp hq.
        place_order-cases (λ q. IsWellFormed q.1.portfolio) env k price
          (new_order env.config k.order_id s qty) d w (λ reason. w) (λ reason _. w)
          (λ r rich _ done.
            settle-IsWellFormed env k _ r _
              (h s.market _ price k.now r (IsPositive-of_not_le qty hq) done) w))

release_account-IsExclusive :
    (env : Environment) (k : Call) (o : Order) (pool : List Allocation)
    → IsExclusive pool
    → IsExclusive (release_account env k o pool)
unfolding release_account
release_account-IsExclusive env k o pool ex =
    elim (Bool-cases (is_forex o.market && is_exit o.signal_type && env.has_pool)) [
      | inr kept ↦ rw kept ex
      | inl leaving ↦ elim (Option-cases (release o.strategy_id o.symbol k.now pool)) [
        | inl raised ↦ rw (leaving, raised, release_account) ex
        | inr (rest, e) ↦
            rw (leaving, e, release_account)
              (release-IsExclusive o.strategy_id o.symbol k.now pool {rest = rest} e ex)
      ]
    ]

-- The service with the executors that startup.py makes.
abbrev pub IsStandard : Environment → Option (List Account) → Option Broker → Type 0
IsStandard env accounts broker = env.executors ≡ make_executors env.config accounts broker

submission-IsExclusive :
    (env : Environment) (accounts : Option (List Account)) (broker : Option Broker) (k : Call)
    (o : Order) (d : Desk)
    → IsStandard env accounts broker
    → IsExclusive d.pool
    → IsExclusive (submission env k o d).1
submission-IsExclusive env accounts broker k o d h ex = rw h (
    get_executor_lem KeepsExclusive env.config accounts broker (simulated-KeepsExclusive env.config)
      (λ xs _. forex_pool-KeepsExclusive env.config xs) (λ b _. alpaca-KeepsExclusive env.config b)
      o.market o k.now d.pool ex)

-- With the executors that startup.py makes, where no forex account carries a pair twice, none does
-- after `process_signal`, whatever becomes of the order.
pub process_signal-IsExclusive :
    (env : Environment) (accounts : Option (List Account)) (broker : Option Broker) (k : Call)
    (s : Signal) (d : Desk) {p : Order × Desk}
    → IsStandard env accounts broker
    → IsExclusive d.pool
    → process_signal env k s d ≡ some p
    → IsExclusive p.1.pool
unfolding refuse_signal settle
process_signal-IsExclusive env accounts broker k s d {p} h ex =
    process_signal-cases (λ q. IsExclusive q.1.pool) env k s d {p = p} (λ reason. ex)
      (λ price qty _ _.
        let o = new_order env.config k.order_id s qty in
        let kept = submission-IsExclusive env accounts broker k o d h ex in
        place_order-cases (λ q. IsExclusive q.1.pool) env k price o d ex (λ reason. kept)
          (λ reason _. kept) (λ r _ _ _. release_account-IsExclusive env k _ _ kept))

settle-forex_cash :
    (env : Environment) (k : Call) (o : Order) (r : FillResult) (d : Desk) (account user : Uid)
    → balance_in (forex_scope account) user (settle env k o r d).1.portfolio.cash
      ≡ balance_in (forex_scope account) user d.portfolio.cash
unfolding settle notify_portfolio new_fill filled_order
settle-forex_cash env k o r d account user = elim (Option-cases (env.owner o.strategy_id)) [
  | inl nobody ↦ rw (nobody, notify_portfolio) refl
  | inr (u, e) ↦
      rw (e, notify_portfolio)
        (process_fill-balances k.position_id u _ (new_fill o r) (filled_order r o) d.portfolio
            (forex_scope account) user
          ∙ rw (account_scope-unnamed (new_fill o r) (filled_order r o) refl) refl)
]

-- No order moves the cash of a forex account, whatever its market and whatever account the pool has
-- put it on: where `process_signal` returns, every balance of a forex scope is as it was.
pub process_signal-forex_cash :
    (env : Environment) (k : Call) (s : Signal) (d : Desk) {p : Order × Desk} (account user : Uid)
    → process_signal env k s d ≡ some p
    → balance_in (forex_scope account) user p.1.portfolio.cash
      ≡ balance_in (forex_scope account) user d.portfolio.cash
unfolding refuse_signal
process_signal-forex_cash env k s d {p} account user =
    let P : Order × Desk → Type 0 = λ q.
      balance_in (forex_scope account) user q.1.portfolio.cash
      ≡ balance_in (forex_scope account) user d.portfolio.cash in
    process_signal-cases P env k s d {p = p} (λ reason. refl)
      (λ price qty _ _.
        place_order-cases P env k price _ d refl (λ reason. refl) (λ reason _. refl)
          (λ r _ _ _. settle-forex_cash env k _ r _ account user))

submission-busy :
    (env : Environment) (accounts : List Account) (broker : Option Broker) (k : Call) (s : Signal)
    (qty : Decimal) (d : Desk)
    → IsStandard env (some accounts) broker
    → s.market ≡ forex
    → is_exit s.signal_type ≡ false
    → find_available_account s.symbol accounts d.pool ≡ none
    → submission env k (new_order env.config k.order_id s qty) d
      ≡ (refuse no_available_account, d.pool)
unfolding new_order get_executor make_executors forex_pool_executor submit_to_pool
submission-busy env accounts broker k s qty d std market opening busy =
    rw (std, market, opening, busy) refl

-- With the pool of startup.py, where every account carries the pair, a forex signal that opens or
-- adds to a position ends in a rejected order, and nothing is allocated.
process_signal-pool_busy :
    (env : Environment) (accounts : List Account) (broker : Option Broker) (k : Call) (s : Signal)
    (d : Desk) {p : Order × Desk}
    → IsStandard env (some accounts) broker
    → s.market ≡ forex
    → is_exit s.signal_type ≡ false
    → find_available_account s.symbol accounts d.pool ≡ none
    → process_signal env k s d ≡ some p
    → (p.0.status ≡ rejected) × (p.1.pool ≡ d.pool)
unfolding refuse_signal rejected_order
process_signal-pool_busy env accounts broker k s d {p} std market opening busy =
    let P : Order × Desk → Type 0 = λ q. (q.0.status ≡ rejected) × (q.1.pool ≡ d.pool) in
    process_signal-cases P env k s d {p = p} (λ reason. (refl, refl))
      (λ price qty _ _.
        let o = new_order env.config k.order_id s qty in
        let sub = submission-busy env accounts broker k s qty d std market opening busy in
        place_order-cases P env k price o d (refl, refl) (λ reason. (refl, ap (λ x. x.1) sub))
          (λ reason ok. absurd (refused o sub ok)) (λ r _ ok _. absurd (refused o sub ok)))
  where
    false≢true : false ≡ true → ⊥
    false≢true e = cc

    refused :
        (o : Order)
        → submission env k o d ≡ (refuse no_available_account, d.pool)
        → (submission env k o d).0.success ≡ true
        → ⊥
    refused o sub ok = false≢true (sym (ap (λ x. x.0.success) sub) ∙ ok)
