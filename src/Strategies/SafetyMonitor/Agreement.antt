-- ===== src/Strategies/SafetyMonitor/Agreement.antt =====
-- The price checks of safety_monitor.py and those of runner.py.
use ratatoskr_v.Base.{
  ◌≡◌, inl, inr, refl, Bool, true, false, Option, some, List, or_else, ◌&&◌, if◌then◌else◌, arith,
  Bool-cases,
}
use ratatoskr_v.Decimal.{Decimal}
use ratatoskr_v.MarketData.{Bar}
use ratatoskr_v.Portfolio.{PositionSide, long, short, is_long}
use ratatoskr_v.Strategies.Exits.{
  RuleType, percent, fixed, atr_multiple, risk_multiple, other_rule, Rule, TrailingRule,
  PositionDict, entry_of, value_of, has_value, compute_stop_price, compute_take_profit, at_or_worse,
  at_or_better, reaches, stop_loss_fires, take_profit_fires, is_beyond, next_extreme, trail_price,
  trailing_fires, trailing_stop_fires,
}
use ratatoskr_v.Strategies.SafetyMonitor.{
  stop_check, check_stop_loss, profit_check, check_take_profit, kept_extreme, trail_check,
  check_trailing_stop,
}

-- the rules that the monitor knows
abbrev pub is_priced : RuleType → Bool
is_priced percent = true
is_priced fixed = true
is_priced _ = false

stop_check-reaches :
    (t : RuleType) (side : PositionSide) (entry value price : Decimal) (bars : List Bar)
    → is_priced t ≡ true
    → stop_check t (is_long side) entry value price
      ≡ reaches (at_or_worse side price) (compute_stop_price t value entry side bars)
unfolding stop_check at_or_worse compute_stop_price
stop_check-reaches percent long entry value price bars h = refl
stop_check-reaches percent short entry value price bars h = refl
stop_check-reaches fixed long entry value price bars h = refl
stop_check-reaches fixed short entry value price bars h = refl
stop_check-reaches atr_multiple side entry value price bars h = cc
stop_check-reaches risk_multiple side entry value price bars h = cc
stop_check-reaches other_rule side entry value price bars h = cc

profit_check-reaches :
    (t : RuleType) (side : PositionSide) (entry value price : Decimal) (stop : Option Rule)
    (bars : List Bar)
    → is_priced t ≡ true
    → profit_check t (is_long side) entry value price
      ≡ reaches (at_or_better side price) (compute_take_profit t value entry stop side bars)
unfolding profit_check at_or_better compute_take_profit
profit_check-reaches percent long entry value price stop bars h = refl
profit_check-reaches percent short entry value price stop bars h = refl
profit_check-reaches fixed long entry value price stop bars h = refl
profit_check-reaches fixed short entry value price stop bars h = refl
profit_check-reaches atr_multiple side entry value price stop bars h = cc
profit_check-reaches risk_multiple side entry value price stop bars h = cc
profit_check-reaches other_rule side entry value price stop bars h = cc

guarded : (a b : Bool) {x : Bool} → x ≡ b → (if a then x else false) ≡ (a && b)
guarded a b h = ground (arith)

guarded_pair :
    (a : Bool) {x y : Bool} {k l : Option Decimal} (s : Option Decimal)
    → x ≡ y
    → k ≡ l
    → let r : Bool × Option Decimal = if a then (x, k) else (false, s) in
      (r.0 ≡ (a && y)) × (r.1 ≡ (if a then l else s))
guarded_pair true s h e = (h, e)
guarded_pair false s h e = (refl, refl)

trailing-agrees :
    (t : TrailingRule) (side : PositionSide) (price : Decimal) (stored : Option Decimal)
    → (kept_extreme (is_long side) price stored ≡ next_extreme side price stored)
      × (trail_check t
            (is_long side)
            price
            (or_else (kept_extreme (is_long side) price stored) price)
          ≡ trailing_fires t side price stored)
unfolding kept_extreme next_extreme is_beyond trail_check trailing_fires at_or_worse trail_price
trailing-agrees t long price stored = (
  refl,
  elim (Bool-cases t.is_percent) [
    | inl e ↦ rw (e, trail_price) refl
    | inr e ↦ rw (e, trail_price) refl
  ],
)
trailing-agrees t short price stored = (
  refl,
  elim (Bool-cases t.is_percent) [
    | inl e ↦ rw (e, trail_price) refl
    | inr e ↦ rw (e, trail_price) refl
  ],
)

-- The safety monitor and the strategy runner judge a position alike by a rule that both have: for a
-- stop loss or a take profit in percent or at a fixed distance, and for every trailing stop, the check
-- of the monitor answers as the check of the runner on the same rule, position, price and stored
-- extreme, and both keep the same extreme. Which rule each takes from a configuration is not part of
-- it: the monitor does not read those under `risk_management`.
pub monitor-agrees :
    (r : Rule) (stop : Option Rule) (t : TrailingRule) (p : PositionDict) (price : Decimal)
    (stored : Option Decimal) (bars : List Bar)
    → is_priced r.type ≡ true
    → (check_stop_loss (some r) p price ≡ stop_loss_fires (some r) p price bars)
      × (check_take_profit (some r) p price ≡ take_profit_fires (some r) stop p price bars)
      × ((check_trailing_stop (some t) p stored price).0
          ≡ trailing_stop_fires (some t) p.side price stored)
      × ((check_trailing_stop (some t) p stored price).1
          ≡ (if t.enabled then next_extreme p.side price stored else stored))
unfolding check_stop_loss check_take_profit stop_loss_fires take_profit_fires check_trailing_stop
    trailing_stop_fires
monitor-agrees r stop t p price stored bars h = (
  guarded (has_value r) _ (stop_check-reaches r.type p.side (entry_of p) (value_of r) price bars h),
  guarded (has_value r) _
      (profit_check-reaches r.type p.side (entry_of p) (value_of r) price stop bars h),
  (guarded_pair t.enabled stored (trailing-agrees t p.side price stored).1
      (trailing-agrees t p.side price stored).0).0,
  (guarded_pair t.enabled stored (trailing-agrees t p.side price stored).1
      (trailing-agrees t p.side price stored).0).1,
)
