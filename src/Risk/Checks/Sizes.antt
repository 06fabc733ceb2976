-- ===== src/Risk/Checks/Sizes.antt =====
-- The sizes and caps of `PositionSizingCheck` and `SymbolExposureCheck` (checks/position_sizing.py,
-- checks/exposure.py).
use ratatoskr_v.Base.{
  ◌≡◌, inl, inr, refl, Bool, true, false, none, some, ◌∷◌, arith, or_else, Option-cases,
}
use ratatoskr_v.Decimal.{Decimal, of_ℕ, decimal_zero, mul, div, is_le}
use ratatoskr_v.Decimal.Order.{Le, is_le_refl}
use ratatoskr_v.Decimal.Sign.{mul-IsZero_left, mul-IsZero_right, div-IsZero, is_le-zero}
use ratatoskr_v.Signals.{Signal}
use ratatoskr_v.Risk.{
  CheckResult, reject, modify, Context, Method, fixed_qty, fixed_dollar, percent_equity, risk_based,
  Sizing, money,
}
use ratatoskr_v.Risk.Checks.{
  is_opening, percent_of, calculate_position_value, judge_size, position_sizing,
}

-- A size that is let through, or capped, ends between the smallest position and the cap: the size
-- itself where nothing is modified, and the approved value where it is.
pub record IsSized (c : Context) (size : Decimal) : Type 0 where
  pub smallest : Le c.risk_config.min_position_value size
  pub cap : Le size (percent_of c.risk_config.max_position_size_percent c.portfolio_equity)

-- The value that goes on after a check: the approved one where the check has modified it.
abbrev pub effective : CheckResult → Decimal → Decimal
effective (modify _ ((_, _) ∷ (_, money v) ∷ _)) requested = v
effective _ requested = requested

-- What the strategy forms and `StrategyValidator` fill in: a method and its `value`, and no key of
-- the ones that `_calculate_position_value` reads.
pub record IsValueOnly (z : Sizing) : Type 0 where
  pub no_qty : z.qty ≡ none
  pub no_amount : z.amount ≡ none
  pub no_percent : z.percent ≡ none

abbrev pub is_plain : Method → Bool
is_plain fixed_qty = true
is_plain fixed_dollar = true
is_plain percent_equity = true
is_plain _ = false

value_only-zero :
    (m : Method) (z : Sizing) (equity price : Decimal)
    → is_plain m ≡ true
    → IsValueOnly z
    → (v : Decimal) × (calculate_position_value m z equity price ≡ some v)
      × (is_le v decimal_zero ≡ true)
unfolding calculate_position_value
value_only-zero fixed_qty z equity price h o =
    (mul (of_ℕ 0) price, rw (o.no_qty), is_le-zero _ (mul-IsZero_left (of_ℕ 0) price refl))
value_only-zero fixed_dollar z equity price h o = (of_ℕ 0, rw (o.no_amount), is_le_refl _)
value_only-zero percent_equity z equity price h o = (
  div (mul equity (of_ℕ 0)) (of_ℕ 100),
  rw (o.no_percent),
  is_le-zero _ (div-IsZero _ _ (mul-IsZero_right equity (of_ℕ 0) refl)),
)
value_only-zero risk_based z equity price h o = cc
value_only-zero Method.other z equity price h o = cc

-- Every opening signal of a strategy that is sized by `value` alone, as the order service reads it,
-- is rejected by the sizing check as having no valid size.
pub position_sizing-value_only :
    (s : Signal) (c : Context)
    → is_opening s.signal_type ≡ true
    → is_plain (or_else c.sizing.method fixed_qty) ≡ true
    → IsValueOnly c.sizing
    → position_sizing s c ≡ reject "invalid_size"
unfolding position_sizing judge_size
position_sizing-value_only s c opening plain only = elim (Option-cases c.current_price) [
  | inl unknown ↦ ground arith
  | inr (price, e) ↦
      let m = or_else c.sizing.method fixed_qty in
      let (v, sized, zero_size) = value_only-zero m c.sizing c.portfolio_equity price plain only in
      ground arith
]
