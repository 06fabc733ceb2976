-- ===== src/PaperTrading/Service/Books.antt =====
-- What `process_signal` and `process_approved_signals` (paper_trading/service.py) guarantee of the
-- money, the positions and the accounts.
use ratatoskr_v.Base.{
  ◌+◌, ◌≡◌, ◌⊎◌, inl, inr, refl, true, false, some, List, [], ◌∷◌, map, arith, Option-cases,
}
use ratatoskr_v.Decimal.{Decimal, decimal_zero, is_le}
use ratatoskr_v.Signals.{Signal}
use ratatoskr_v.PaperTrading.{Order, FillResult, filled, rejected}
use ratatoskr_v.PaperTrading.Cash.{calculate_required_cash, check_availability, total_balance}
use ratatoskr_v.PaperTrading.Executors.{OrderResult}
use ratatoskr_v.PaperTrading.Service.{
  Environment, Desk, Call, rejected_order, new_order, refuse_signal, accept_order, filled_order,
  settle, process_signal, Counts, tally, process_each, process_approved_signals, approved_signals,
}
use ratatoskr_v.PaperTrading.Service.Cases.{process_signal-cases, place_order-cases, has_cash}

-- The order has ended.
abbrev pub IsDone : Order → Type 0
IsDone o = (o.status ≡ filled) ⊎ (o.status ≡ rejected)

process_signal-IsDone :
    (env : Environment) (k : Call) (s : Signal) (d : Desk) {p : Order × Desk}
    → process_signal env k s d ≡ some p
    → IsDone p.0
unfolding refuse_signal rejected_order settle filled_order
process_signal-IsDone env k s d {p} h =
    process_signal-cases (λ q. IsDone q.0) env k s d {p = p} (λ reason. inr refl)
      (λ price qty _ _.
        place_order-cases (λ q. IsDone q.0) env k price _ d (inr refl) (λ reason. inr refl)
          (λ reason _. inr refl) (λ r _ _ _. inl refl))
      h

abbrev IsBalanced : Counts → Type 0
IsBalanced n = n.processed ≡ n.filled_count + n.rejected_count

tally-IsBalanced :
    (o : Order) (n : Counts) → IsDone o → IsBalanced n → IsBalanced (tally o.status n)
tally-IsBalanced o n done h = ground arith

process_each-IsBalanced :
    (env : Environment) (calls : Signal → Call) (ss : List Signal) (n : Counts) (d : Desk)
    → IsBalanced n
    → IsBalanced (process_each env calls ss n d).0
unfolding process_each
process_each-IsBalanced env calls [] n d h = h
process_each-IsBalanced env calls (s ∷ ss) n d h =
    elim (Option-cases (process_signal env (calls s) s d)) [
      | inl raised ↦ rw (raised, process_each) h
      | inr ((o, next), e) ↦
          rw (e, process_each)
            (process_each-IsBalanced env calls ss (tally o.status n) next
              (tally-IsBalanced o n (process_signal-IsDone env (calls s) s d {p = (o, next)} e) h))
    ]

-- A round over the approved signals leaves no order on the way: what it processes is what it
-- fills and what it rejects together.
process_approved_signals-counts :
    (env : Environment) (calls : Signal → Call) (d : Desk)
    → let n = (process_approved_signals env calls d).0 in
      n.processed ≡ n.filled_count + n.rejected_count
unfolding process_approved_signals
process_approved_signals-counts env calls d =
    process_each-IsBalanced env calls (approved_signals d.signals) _ d (omega arith)

-- What the cash manager takes for available.
abbrev pub available_cash : Environment → Desk → Decimal
available_cash env d = total_balance env.config (map (λ c. c.balance) d.portfolio.cash)

-- A filled order was affordable at the reference price.
abbrev pub IsAffordable : Environment → Desk → Order → Type 0
IsAffordable env d o =
    (price : Decimal) × (env.reference_price o.symbol ≡ some price)
    × (is_le o.requested_qty decimal_zero ≡ false)
    × (is_le (calculate_required_cash env.config o price) (available_cash env d) ≡ true)

settled-IsAffordable :
    (env : Environment) (k : Call) (s : Signal) (d : Desk) (price qty : Decimal) (r : FillResult)
    (sub : OrderResult) (now : Desk)
    → env.reference_price s.symbol ≡ some price
    → is_le qty decimal_zero ≡ false
    → has_cash env price (new_order env.config k.order_id s qty) d ≡ true
    → IsAffordable env d
        (settle env k (accept_order sub (new_order env.config k.order_id s qty)) r now).0
unfolding settle filled_order accept_order new_order check_availability calculate_required_cash
settled-IsAffordable env k s d price qty r sub now hp hq rich = (price, hp, hq, rich)

-- Every order that is filled had a reference price and a quantity above zero, and the cash that
-- it required at that price, its fee included, was covered by the available cash.
pub process_signal-IsAffordable :
    (env : Environment) (k : Call) (s : Signal) (d : Desk) {p : Order × Desk}
    → process_signal env k s d ≡ some p
    → p.0.status ≡ filled
    → IsAffordable env d p.0
unfolding refuse_signal rejected_order
process_signal-IsAffordable env k s d {p} =
    process_signal-cases (λ q. q.0.status ≡ filled → IsAffordable env d q.0) env k s d {p = p}
      (λ reason e. absurd (not_filled e))
      (λ price qty hp hq.
        place_order-cases (λ q. q.0.status ≡ filled → IsAffordable env d q.0) env k price _ d
          (λ e. absurd (not_filled e)) (λ reason e. absurd (not_filled e))
          (λ reason _ e. absurd (not_filled e))
          (λ r rich _ _ _. settled-IsAffordable env k s d price qty r _ _ hp hq rich))
  where
    not_filled : rejected ≡ filled → ⊥
    not_filled e = cc
