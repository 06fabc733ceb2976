-- ===== src/Portfolio/FillProcessor/Money.antt =====
-- The cash that a fill moves: `_adjust_cash` of portfolio/fill_processor.py, with
-- `CashBalanceRepository.update_balance`.
use ratatoskr_v.Base.{
  ◌≡◌, refl, Bool, true, Option, none, some, List, [], ◌∷◌, ◌++◌, ◌&&◌, ◌==◌, if◌then◌else◌, find,
  update_first, arith, Option-cases, inl, inr,
}
use ratatoskr_v.Domain.{Uid, is_buy}
use ratatoskr_v.Decimal.{Decimal, add, neg}
use ratatoskr_v.PaperTrading.{Order, Fill}
use ratatoskr_v.Portfolio.{
  Position, Portfolio, get_open, AccountScope, equities_scope, forex_scope, same_scope, CashBalance,
  is_balance_of, get_balance, credit, update_balance,
}
use ratatoskr_v.Portfolio.FillProcessor.{
  process_fill, apply_scenario, account_scope, cash_delta, Scenario, determine_scenario,
}

-- The balance of a user in a scope, if there is such a row.
abbrev pub balance_in : AccountScope → Uid → List CashBalance → Option Decimal
balance_in scope user [] = none
balance_in scope user (c ∷ cash) =
    if is_balance_of scope user c then some c.balance else balance_in scope user cash

-- What a booking of `delta` makes of a balance.
abbrev pub booked : Decimal → Option Decimal → Option Decimal
booked delta none = some delta
booked delta (some balance) = some (add balance delta)

same_scope_refl : (s : AccountScope) → same_scope s s ≡ true
same_scope_refl equities_scope = refl
same_scope_refl (forex_scope i) = ground arith

same_scope_trans : (a b c : AccountScope) → same_scope a b ≡ true → same_scope a c ≡ same_scope b c
same_scope_trans equities_scope equities_scope c h = refl
same_scope_trans equities_scope (forex_scope j) c h = cc
same_scope_trans (forex_scope i) equities_scope c h = cc
same_scope_trans (forex_scope i) (forex_scope j) equities_scope h = refl
same_scope_trans (forex_scope i) (forex_scope j) (forex_scope k) h = ground arith

-- the booking is on this balance
abbrev pub is_booked_on : AccountScope → Uid → AccountScope → Uid → Bool
is_booked_on scope user s u = same_scope scope s && user == u

module _ (scope : AccountScope) (user : Uid) (delta : Decimal) (s : AccountScope) (u : Uid) where
  update_first-booked :
      (cash : List CashBalance) {c : CashBalance}
      → find (is_balance_of scope user) cash ≡ some c
      → balance_in s u (update_first (is_balance_of scope user) (credit delta) cash) ≡ (
          if is_booked_on scope user s u
          then booked delta (balance_in s u cash)
          else balance_in s u cash)
  update_first-booked [] {c} h = cc
  update_first-booked (x ∷ cash) {c} h =
      ground (arith, same_scope_trans x.account_scope scope s, update_first-booked cash {c = c})

  append-booked :
      (cash : List CashBalance)
      → find (is_balance_of scope user) cash ≡ none
      → balance_in s u
          (cash ++ record { account_scope = scope; user_id = user; balance = delta } ∷ [])
        ≡ (if is_booked_on scope user s u
            then booked delta (balance_in s u cash)
            else balance_in s u cash)
  append-booked [] h = ground arith
  append-booked (x ∷ cash) h =
      ground (arith, same_scope_trans x.account_scope scope s, append-booked cash)

  pub update_balance_lem :
      (cash : List CashBalance)
      → balance_in s u (update_balance scope user delta cash) ≡ (
          if is_booked_on scope user s u
          then booked delta (balance_in s u cash)
          else balance_in s u cash)
  unfolding update_balance get_balance
  update_balance_lem cash = elim (Option-cases (find (is_balance_of scope user) cash)) [
    | inl none_yet ↦ rw (none_yet, update_balance, balance_in) (append-booked cash none_yet)
    | inr (c, found) ↦
        rw (found, update_balance, balance_in) (update_first-booked cash {c = c} found)
  ]

apply_scenario-cash :
    (new_id user : Uid) (exit_reason : Option Uid) (f : Fill) (o : Order) (case : Scenario)
    (existing : Option Position) (pf : Portfolio)
    → (apply_scenario new_id user exit_reason f o case existing pf).cash ≡ pf.cash
unfolding apply_scenario
apply_scenario-cash new_id user exit_reason f o case none pf = ground arith
apply_scenario-cash new_id user exit_reason f o case (some p) pf = ground arith

-- A fill books its net value, a debit for a buy and a credit for a sale, on the balance of the
-- user in the account that the fill is settled on, which it opens where there is none, and on no
-- other balance.
pub process_fill-balances :
    (new_id user : Uid) (exit_reason : Option Uid) (f : Fill) (o : Order) (pf : Portfolio)
    (s : AccountScope) (u : Uid)
    → balance_in s u (process_fill new_id user exit_reason f o pf).cash ≡ (
        if is_booked_on (account_scope f o) user s u
        then booked
            (if is_buy o.side then neg f.net_value else f.net_value)
            (balance_in s u pf.cash)
        else balance_in s u pf.cash)
unfolding process_fill
process_fill-balances new_id user exit_reason f o pf s u =
    let existing = get_open o.strategy_id o.symbol pf.positions in
    rw
      (
        update_balance_lem (account_scope f o) user (cash_delta f o) s u _,
        apply_scenario-cash new_id user exit_reason f o (determine_scenario existing o) existing pf,
      )
      refl

-- A fill that names no broker account is settled on the equities scope, whatever its market.
pub account_scope-unnamed :
    (f : Fill) (o : Order) → f.broker_account_id ≡ none → account_scope f o ≡ equities_scope
unfolding account_scope
account_scope-unnamed f o h = rw h refl
