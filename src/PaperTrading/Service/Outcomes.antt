-- ===== src/PaperTrading/Service/Outcomes.antt =====
-- How `process_signal` (paper_trading/service.py) ends, whatever the executors answer.
use ratatoskr_v.Base.{
  ◌≤◌, ◌≡◌, ◌⊎◌, inl, inr, refl, ap, ◌∙◌, Bool, true, false, Option, some, List, [], ◌∷◌, ◌++◌,
  ◌==◌, ltb, ◌&&◌, ◌||◌, not, is_some, none, if◌then◌else◌, find, count, update_first, map, arith,
  Bool-cases, Option-cases,
}
use ratatoskr_v.Domain.{Uid}
use ratatoskr_v.Decimal.{Decimal, decimal_zero, is_le}
use ratatoskr_v.Signals.{Signal, order_filled, order_rejected}
use ratatoskr_v.PaperTrading.{
  Order, Fill, FillResult, filled, rejected, Reason, no_reference_price, invalid_quantity,
  fill_simulation_failed,
}
use ratatoskr_v.PaperTrading.Cash.{calculate_required_cash, check_availability}
use ratatoskr_v.PaperTrading.Quantity.{determine_qty}
use ratatoskr_v.PaperTrading.Quantity.Modified.{dict_of}
use ratatoskr_v.PaperTrading.Executors.{Executor, OrderResult}
use ratatoskr_v.Risk.Pipeline.{is_decision_of}
use ratatoskr_v.PaperTrading.Service.{
  Environment, Desk, Call, set_signal, rejected_order, new_order, save_order, refuse_signal,
  reject_order, accept_order, new_fill, filled_order, settle, fill_order, mark_signal, execute,
  place_order, has_order, process_signal,
}

abbrev pub has_order_id : Uid → Order → Bool
has_order_id i o = o.id == i

-- The order is stored as it is returned, as the newest, and is an order of the signal.
pub record IsRecorded (s : Signal) (d : Desk) (o : Order) (next : Desk) : Type 0 where
  pub stored : next.orders ≡ d.orders ++ o ∷ []
  pub of_signal : o.signal_id ≡ s.id
  pub decided : next.decisions ≡ d.decisions

-- The fill is the order's, at its quantity and price.
abbrev pub IsFillOf : Order → Fill → Type 0
IsFillOf o f = (f.order_id ≡ o.id) × (o.filled_qty ≡ f.qty) × (o.filled_avg_price ≡ some f.price)

-- One fill is written, and the signal is marked as filled.
pub record IsFilled (d : Desk) (o : Order) (next : Desk) : Type 0 where
  pub is_filled : o.status ≡ filled
  pub one_fill : (f : Fill) × IsFillOf o f × (next.fills ≡ d.fills ++ f ∷ [])
  pub signal_filled : next.signals ≡ set_signal o.signal_id order_filled d.signals

-- No fill is written, the portfolio is left as it is, and the signal is marked as rejected.
pub record IsRejected (d : Desk) (o : Order) (next : Desk) : Type 0 where
  pub is_rejected : o.status ≡ rejected
  pub no_fill : next.fills ≡ d.fills
  pub no_position : next.portfolio ≡ d.portfolio
  pub signal_rejected : next.signals ≡ set_signal o.signal_id order_rejected d.signals

abbrev pub IsSettled : Signal → Desk → Order × Desk → Type 0
IsSettled s d (o, next) = IsRecorded s d o next × (IsFilled d o next ⊎ IsRejected d o next)

-- Saving the newest order replaces it.
save-newest :
    (o x : Order) (orders : List Order)
    → count (has_order_id o.id) orders ≡ 0
    → x.id ≡ o.id
    → update_first (λ y. y.id == o.id) (λ _. o) (orders ++ x ∷ []) ≡ orders ++ o ∷ []
save-newest o x [] h e = ground arith
save-newest o x (y ∷ orders) h e = ground (arith, save-newest o x orders)

refuse_signal-IsSettled :
    (k : Call) (s : Signal) (reason : Reason) (d : Desk)
    → IsSettled s d (refuse_signal k s reason d)
unfolding refuse_signal rejected_order
refuse_signal-IsSettled k s reason d = (
  record { stored = refl; of_signal = refl; decided = refl },
  inr (record { is_rejected = refl; no_fill = refl; no_position = refl; signal_rejected = refl }),
)

-- The desk when the order has been created and submitted.
abbrev pub IsCreated : Signal → Desk → Order → Desk → Type 0
IsCreated s d o now =
    (now.orders ≡ d.orders ++ o ∷ [])
    × (o.signal_id ≡ s.id)
    × (now.decisions ≡ d.decisions)
    × (now.fills ≡ d.fills)
    × (now.portfolio ≡ d.portfolio)
    × (now.signals ≡ d.signals)

module _ (env : Environment) (k : Call) (s : Signal) (d : Desk) (o : Order)
    (fresh : count (has_order_id o.id) d.orders ≡ 0) where
  settle-IsSettled :
      (r : FillResult) (now : Desk) → IsCreated s d o now → IsSettled s d (settle env k o r now)
  unfolding settle filled_order new_fill
  settle-IsSettled r now c = (
    record {
      stored =
          ap (update_first (λ y. y.id == o.id) (λ _. filled_order r o)) c.0
          ∙ save-newest (filled_order r o) o d.orders fresh refl;
      of_signal = c.1;
      decided = c.2;
    },
    inl (record {
      is_filled = refl;
      one_fill = (new_fill o r, (refl, refl, refl), ap (λ l. l ++ new_fill o r ∷ []) c.3);
      signal_filled = ap (set_signal o.signal_id order_filled) c.5;
    }),
  )

  -- An order that is rejected when it has been created.
  rejection-IsSettled :
      (reason : Option Reason) (now : Desk)
      → IsCreated s d o now
      → IsSettled s d (
        reject_order reason o,
        record (save_order (reject_order reason o) now) {
          signals = set_signal o.signal_id order_rejected now.signals;
        },
      )
  rejection-IsSettled reason now c = (
    record {
      stored =
          ap (update_first (λ y. y.id == o.id) (λ _. reject_order reason o)) c.0
          ∙ save-newest (reject_order reason o) o d.orders fresh refl;
      of_signal = c.1;
      decided = c.2;
    },
    inr (record {
      is_rejected = refl;
      no_fill = c.3;
      no_position = c.4;
      signal_rejected = ap (set_signal o.signal_id order_rejected) c.5;
    }),
  )

  accept_order-IsCreated :
      (r : OrderResult) (now : Desk)
      → IsCreated s d o now
      → IsCreated s d (accept_order r o) (save_order (accept_order r o) now)
  unfolding accept_order
  accept_order-IsCreated r now c = (
    ap (update_first (λ y. y.id == o.id) (λ _. accept_order r o)) c.0
        ∙ save-newest (accept_order r o) o d.orders fresh refl,
    c.1,
    c.2,
    c.3,
    c.4,
    c.5,
  )

  fill_order-IsSettled :
      (e : Executor) (price : Decimal) (now : Desk)
      → IsCreated s d o now
      → IsSettled s d (fill_order env k e price o now)
  unfolding fill_order
  fill_order-IsSettled e price now c = elim (Option-cases (e.simulate_fill o price k.now)) [
    | inl failed ↦ rw (failed, fill_order) (rejection-IsSettled (some fill_simulation_failed) now c)
    | inr (fill, done) ↦ rw (done, fill_order) (settle-IsSettled fill now c)
  ]

-- What follows the submission, for any executor and whatever the submission gave.
execute-IsSettled :
    (env : Environment) (k : Call) (s : Signal) (d : Desk) (o : Order)
    → count (has_order_id o.id) d.orders ≡ 0
    → (e : Executor) (price : Decimal) (r : OrderResult) (now : Desk) → IsCreated s d o now
    → IsSettled s d (execute env k e price r o now)
unfolding execute accept_order
execute-IsSettled env k s d o fresh e price r now c = if_else-IsSettled r.success
  where
    taken :
        IsSettled s d
          (fill_order env k e price (accept_order r o) (save_order (accept_order r o) now))
    taken =
        fill_order-IsSettled env k s d (accept_order r o) fresh e price
          (save_order (accept_order r o) now) (accept_order-IsCreated env k s d o fresh r now c)

    if_else-IsSettled :
        (b : Bool)
        → IsSettled s d (
            if b
            then fill_order env k e price (accept_order r o) (save_order (accept_order r o) now)
            else (
              reject_order r.rejection_reason o,
              mark_signal o.signal_id order_rejected
                  (save_order (reject_order r.rejection_reason o) now),
            ))
    if_else-IsSettled true = taken
    if_else-IsSettled false = rejection-IsSettled env k s d o fresh r.rejection_reason now c

place_order-IsSettled :
    (env : Environment) (k : Call) (s : Signal) (d : Desk) (o : Order) (price : Decimal)
    → count (has_order_id o.id) d.orders ≡ 0
    → o.signal_id ≡ s.id
    → IsSettled s d (place_order env k price o d)
unfolding place_order
place_order-IsSettled env k s d o price fresh of_signal =
    let cash = map (λ c. c.balance) d.portfolio.cash in
    elim (Bool-cases
      (check_availability env.config (calculate_required_cash env.config o price) cash).0) [
        | inl enough ↦ rw enough (
            execute-IsSettled env k s d o fresh _ price _ _
              (refl, of_signal, refl, refl, refl, refl))
        | inr short ↦ rw short (
          record { stored = refl; of_signal = of_signal; decided = refl },
          inr (record {
            is_rejected = refl;
            no_fill = refl;
            no_position = refl;
            signal_rejected = refl;
          }),
        )
      ]

new_order-fresh :
    (env : Environment) (k : Call) (s : Signal) (qty price : Decimal) (d : Desk)
    → count (has_order_id k.order_id) d.orders ≡ 0
    → IsSettled s d (place_order env k price (new_order env.config k.order_id s qty) d)
unfolding new_order
new_order-fresh env k s qty price d fresh = place_order-IsSettled env k s d _ price fresh refl

-- The signal has a risk decision and no order yet.
abbrev pub is_ready : Signal → Desk → Bool
is_ready s d = is_some (find (is_decision_of s.id) d.decisions) && not (has_order s.id d.orders)

module _ (env : Environment) (k : Call) (s : Signal) (d : Desk)
    (one : count (is_decision_of s.id) d.decisions ≤ 1)
    (fresh : count (has_order_id k.order_id) d.orders ≡ 0) where
  pub ready-IsSettled :
      is_ready s d ≡ true
      → (p : Order × Desk) × (process_signal env k s d ≡ some p) × IsSettled s d p
  unfolding process_signal
  ready-IsSettled ready = elim (Option-cases (find (is_decision_of s.id) d.decisions)) [
    | inl e ↦ absurd (undecided e)
    | inr (decision, e) ↦ elim (Option-cases (env.reference_price s.symbol)) [
      | inl no_price ↦
          rw (unblocked, e, no_price) (_, refl, refuse_signal-IsSettled k s no_reference_price d)
      | inr (price, h) ↦
          let mods = dict_of decision.modifications in
          let qty = determine_qty env.config s.market mods (env.sizing s.strategy_id) price in
          elim (Bool-cases (is_le qty decimal_zero)) [
            | inl bad ↦
                rw (unblocked, e, h, bad) (_, refl, refuse_signal-IsSettled k s invalid_quantity d)
            | inr good ↦
                rw (unblocked, e, h, good) (_, refl, new_order-fresh env k s qty price d fresh)
          ]
    ]
  ]
    where
      undecided : find (is_decision_of s.id) d.decisions ≡ none → ⊥
      undecided e = ground arith

      unblocked :
          (ltb 1 (count (is_decision_of s.id) d.decisions) || has_order s.id d.orders) ≡ false
      unblocked = ground arith

  unready-raises : is_ready s d ≡ false → process_signal env k s d ≡ none
  unfolding process_signal
  unready-raises h = ground arith

-- `process_signal` settles a signal that has a risk decision and no order yet, whatever the
-- executors answer, and raises for every other signal. Where it settles, the order is stored as it
-- is returned, and it is filled or rejected. Filled: one fill is written, of this order and at its
-- quantity and price, and the signal goes to `order_filled`. Rejected: no fill is written, the
-- portfolio is as before, and the signal goes to `order_rejected`. No signal has two decisions, and
-- the id of the order is new.
pub process_signal-IsSettled :
    (env : Environment) (k : Call) (s : Signal) (d : Desk)
    → count (is_decision_of s.id) d.decisions ≤ 1
    → count (has_order_id k.order_id) d.orders ≡ 0
    → ((is_ready s d ≡ true)
        × ((p : Order × Desk) × (process_signal env k s d ≡ some p) × IsSettled s d p))
      ⊎ ((is_ready s d ≡ false) × (process_signal env k s d ≡ none))
process_signal-IsSettled env k s d one fresh = elim (Bool-cases (is_ready s d)) [
  | inl ready ↦ inl (ready, ready-IsSettled env k s d one fresh ready)
  | inr unready ↦ inr (unready, unready-raises env k s d one fresh unready)
]
