-- ===== src/PaperTrading/Service/Cases.antt =====
-- The ways through `process_signal` (paper_trading/service.py), as rules for any predicate of what
-- it returns.
use ratatoskr_v.Base.{
  ◌≡◌, refl, sym, ◌∙◌, subst, Bool, true, false, Option, some, List, ltb, none, ◌||◌, if◌then◌else◌,
  find, count, map, arith, Bool-cases, Option-cases, inl, inr,
}
use ratatoskr_v.Decimal.{Decimal, decimal_zero, is_le}
use ratatoskr_v.Signals.{Signal, order_rejected}
use ratatoskr_v.PaperTrading.{
  Order, FillResult, Reason, no_reference_price, invalid_quantity, insufficient_cash,
  fill_simulation_failed,
}
use ratatoskr_v.PaperTrading.Cash.{calculate_required_cash, check_availability}
use ratatoskr_v.PaperTrading.Quantity.{determine_qty}
use ratatoskr_v.PaperTrading.Quantity.Modified.{dict_of}
use ratatoskr_v.PaperTrading.ForexPool.{Allocation}
use ratatoskr_v.PaperTrading.Executors.{Executor, OrderResult, get_executor}
use ratatoskr_v.Risk.Pipeline.{is_decision_of}
use ratatoskr_v.PaperTrading.Service.{
  Environment, Desk, Call, new_order, create_order, save_order, mark_signal, refuse_signal,
  reject_order, accept_order, settle, fill_order, execute, place_order, has_order, process_signal,
}

some-injective : {p q : Order × Desk} → some p ≡ some q → p ≡ q
some-injective {p} {q} h = ground arith

-- `process_signal` raises whatever the decision is.
abbrev is_blocked : Signal → Desk → Bool
is_blocked s d = ltb 1 (count (is_decision_of s.id) d.decisions) || has_order s.id d.orders

pub process_signal-cases :
    (P : Order × Desk → Type 0) (env : Environment) (k : Call) (s : Signal) (d : Desk)
    {p : Order × Desk}
    → ((reason : Reason) → P (refuse_signal k s reason d))
    → ((price qty : Decimal)
        → env.reference_price s.symbol ≡ some price
        → is_le qty decimal_zero ≡ false
        → P (place_order env k price (new_order env.config k.order_id s qty) d))
    → process_signal env k s d ≡ some p
    → P p
unfolding process_signal
process_signal-cases P env k s d {p} on_refuse on_place h = elim (Bool-cases (is_blocked s d)) [
  | inl raises ↦ absurd (no-order raises h)
  | inr fine ↦ elim (Option-cases (find (is_decision_of s.id) d.decisions)) [
    | inl e ↦ absurd (no-decision fine e h)
    | inr (decision, e) ↦ elim (Option-cases (env.reference_price s.symbol)) [
      | inl no_price ↦ refused no_reference_price (rw (fine, e, no_price) refl)
      | inr (price, hp) ↦
          let mods = dict_of decision.modifications in
          let qty = determine_qty env.config s.market mods (env.sizing s.strategy_id) price in
          elim (Bool-cases (is_le qty decimal_zero)) [
            | inl bad ↦ refused invalid_quantity (rw (fine, e, hp, bad) refl)
            | inr good ↦ placed price qty hp good (rw (fine, e, hp, good) refl)
          ]
    ]
  ]
]
  where
    no-order : is_blocked s d ≡ true → process_signal env k s d ≡ some p → ⊥
    no-order raises e = ground arith

    no-decision :
        is_blocked s d ≡ false
        → find (is_decision_of s.id) d.decisions ≡ none
        → process_signal env k s d ≡ some p
        → ⊥
    no-decision fine gone e = ground arith

    got : {q : Order × Desk} → P q → some q ≡ some p → P p
    got {q} x e = subst P (some-injective {p = q} {q = p} e) x

    refused : (reason : Reason) → process_signal env k s d ≡ some (refuse_signal k s reason d) → P p
    refused reason eq = got (on_refuse reason) (sym eq ∙ h)

    placed :
        (price qty : Decimal)
        → env.reference_price s.symbol ≡ some price
        → is_le qty decimal_zero ≡ false
        → process_signal env k s d
          ≡ some (place_order env k price (new_order env.config k.order_id s qty) d)
        → P p
    placed price qty hp good eq = got (on_place price qty hp good) (sym eq ∙ h)

-- The order after its submission and the desk that it was created on.
abbrev pub submission : Environment → Call → Order → Desk → OrderResult × List Allocation
submission env k o d = (get_executor env.config env.executors o.market).submit_order o k.now d.pool

abbrev pub submitted_desk : Environment → Call → Order → Desk → Desk
submitted_desk env k o d = record (create_order o d) { pool = (submission env k o d).1 }

abbrev pub has_cash : Environment → Decimal → Order → Desk → Bool
has_cash env price o d =
    (check_availability env.config (calculate_required_cash env.config o price)
      (map (λ c. c.balance) d.portfolio.cash)).0

module _ (P : Order × Desk → Type 0) (env : Environment) (k : Call) (price : Decimal) where
  fill_order-cases :
      (e : Executor) (o : Order) (d : Desk)
      → ((reason : Reason)
          → P (
            reject_order (some reason) o,
            mark_signal o.signal_id order_rejected (save_order (reject_order (some reason) o) d),
          ))
      → ((r : FillResult) → e.simulate_fill o price k.now ≡ some r → P (settle env k o r d))
      → P (fill_order env k e price o d)
  unfolding fill_order
  fill_order-cases e o d on_fail on_fill = elim (Option-cases (e.simulate_fill o price k.now)) [
    | inl failed ↦ rw (failed, fill_order) (on_fail fill_simulation_failed)
    | inr (r, done) ↦ rw (done, fill_order) (on_fill r done)
  ]

  pub place_order-cases :
      (o : Order) (d : Desk)
      → P (
        reject_order (some insufficient_cash) o,
        mark_signal o.signal_id order_rejected
            (create_order (reject_order (some insufficient_cash) o) d),
      )
      → ((reason : Option Reason)
          → let now = submitted_desk env k o d in
            P (
              reject_order reason o,
              mark_signal o.signal_id order_rejected (save_order (reject_order reason o) now),
            ))
      → ((reason : Reason)
          → let taken = accept_order (submission env k o d).0 o in
            let now = save_order taken (submitted_desk env k o d) in
            (submission env k o d).0.success ≡ true
            → P (
              reject_order (some reason) taken,
              mark_signal taken.signal_id order_rejected
                  (save_order (reject_order (some reason) taken) now),
            ))
      → ((r : FillResult)
          → let taken = accept_order (submission env k o d).0 o in
            let now = save_order taken (submitted_desk env k o d) in
            has_cash env price o d ≡ true
            → (submission env k o d).0.success ≡ true
            → (get_executor env.config env.executors o.market).simulate_fill taken price k.now
              ≡ some r
            → P (settle env k taken r now))
      → P (place_order env k price o d)
  unfolding place_order execute
  place_order-cases o d short refused failed done = elim (Bool-cases (has_cash env price o d)) [
    | inr poor ↦ rw poor short
    | inl rich ↦ rw rich (go rich (submission env k o d).0.success refl)
  ]
    where
      taken : Order
      taken = accept_order (submission env k o d).0 o

      refusal : Order
      refusal = reject_order (submission env k o d).0.rejection_reason o

      go :
          has_cash env price o d ≡ true
          → (b : Bool) → (submission env k o d).0.success ≡ b
          → P (
              if b
              then fill_order env k
                  (get_executor env.config env.executors o.market)
                  price
                  taken
                  (save_order taken (submitted_desk env k o d))
              else (
                refusal,
                mark_signal o.signal_id order_rejected
                    (save_order refusal (submitted_desk env k o d)),
              ))
      go rich true ok =
          fill_order-cases (get_executor env.config env.executors o.market) taken _
            (λ reason. failed reason ok) (λ r e. done r rich ok e)
      go rich false _ = refused (submission env k o d).0.rejection_reason
