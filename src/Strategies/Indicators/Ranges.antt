-- ===== src/Strategies/Indicators/Ranges.antt =====
-- The ranges of indicators of indicators/compute.py: the strength indices lie between 0 and 100, and
-- the average true range is not negative.
use ratatoskr_v.Base.{
  ℕ, zero, suc, ◌+◌, inl, inr, refl, Option, none, some, List, [], ◌∷◌, ltb, length, map, All,
  arith, Bool-cases,
}
use ratatoskr_v.Decimal.{
  Decimal, of_ℕ, decimal_zero, decimal_one, add, div, absolute, is_eq, is_lt, is_le,
}
use ratatoskr_v.Decimal.Order.{Le, is_le_refl}
use ratatoskr_v.Decimal.Sign.{
  IsNonneg, add-IsNonneg, mul-IsNonneg, IsPositive-of_lt, IsNonneg-of_IsPositive,
}
use ratatoskr_v.Decimal.Nonneg.{sub-IsNonneg, div-IsNonneg, absolute-IsNonneg, max-IsNonneg}
use ratatoskr_v.Decimal.Percent.{div-le_hundred, sub-le_hundred, Le-add_one}
use ratatoskr_v.MarketData.{Bar}
use ratatoskr_v.Strategies.Indicators.{Source, get_source_value, first, drop, pairs, sum_from}
use ratatoskr_v.Strategies.Indicators.Momentum.{
  gain_of, loss_of, wilder, wilder_zero, rsi_loop, strength, changes, compute_rsi,
}
use ratatoskr_v.Strategies.Indicators.Oscillators.{true_range, atr_loop, compute_atr}

abbrev pub IsPercent : Decimal → Type 0
IsPercent d = IsNonneg d × Le d (of_ℕ 100)

-- The value, if there is one, has the property.
abbrev pub Sometimes : (Decimal → Type 0) → Option Decimal → Type 0
Sometimes P none = Unit
Sometimes P (some d) = P d

strength-IsPercent :
    (up down : Decimal) → IsNonneg up → IsNonneg down → IsPercent (strength up down)
unfolding strength
strength-IsPercent up down h k = elim (Bool-cases (is_eq down decimal_zero)) [
  | inl e ↦ rw (e, strength) (refl, is_le_refl (of_ℕ 100))
  | inr e ↦
      let rs = div-IsNonneg up down h k in
      let x = add decimal_one (div up down) in
      let part = div-le_hundred x (Le-add_one (div up down) rs) in
      let sign = div-IsNonneg (of_ℕ 100) x refl (add-IsNonneg decimal_one (div up down) refl rs) in
      rw (e, strength)
        (
          sub-IsNonneg (of_ℕ 100) (div (of_ℕ 100) x) part,
          sub-le_hundred (div (of_ℕ 100) x) sign part,
        )
]

sum_from-IsNonneg :
    (acc : Decimal) (vs : List Decimal)
    → IsNonneg acc
    → All IsNonneg vs
    → IsNonneg (sum_from acc vs)
sum_from-IsNonneg acc [] h k = h
sum_from-IsNonneg acc (v ∷ vs) h k = sum_from-IsNonneg (add acc v) vs (add-IsNonneg acc v h k.0) k.1

All-map :
    {A : Type 0} (f : A → Decimal) (xs : List A)
    → ((a : A) → IsNonneg (f a))
    → All IsNonneg (map f xs)
All-map f [] h = tt
All-map f (x ∷ xs) h = (h x, All-map f xs h)

All-first : (n : ℕ) (vs : List Decimal) → All IsNonneg vs → All IsNonneg (first n vs)
All-first zero vs h = tt
All-first (suc n) [] h = tt
All-first (suc n) (v ∷ vs) h = (h.0, All-first n vs h.1)

All-drop : {A : Type 0} (P : A → Type 0) (n : ℕ) (vs : List A) → All P vs → All P (drop n vs)
All-drop P zero vs h = h
All-drop P (suc n) [] h = tt
All-drop P (suc n) (v ∷ vs) h = All-drop P n vs h.1

gain_of-IsNonneg : (c : Decimal) → IsNonneg (gain_of c)
gain_of-IsNonneg c = elim (Bool-cases (is_lt decimal_zero c)) [
  | inl e ↦ rw (e, gain_of) (IsNonneg-of_IsPositive c (IsPositive-of_lt c e))
  | inr e ↦ rw (e, gain_of) refl
]

loss_of-IsNonneg : (c : Decimal) → IsNonneg (loss_of c)
loss_of-IsNonneg c = elim (Bool-cases (is_lt c decimal_zero)) [
  | inl e ↦ rw (e, loss_of) (absolute-IsNonneg c)
  | inr e ↦ rw (e, loss_of) refl
]

module _ (n : ℕ) where
  one-Le : Le decimal_one (of_ℕ (suc n))
  unfolding is_le
  one-Le = ground (arith)

  wilder-IsNonneg :
      (avg v : Decimal) → IsNonneg avg → IsNonneg v → IsNonneg (wilder (of_ℕ (suc n)) avg v)
  wilder-IsNonneg avg v h k =
      div-IsNonneg _ _
        (add-IsNonneg _ v (mul-IsNonneg avg _ h (sub-IsNonneg (of_ℕ (suc n)) decimal_one one-Le)) k)
        refl

  wilder_zero-IsNonneg : (avg : Decimal) → IsNonneg avg → IsNonneg (wilder_zero (of_ℕ (suc n)) avg)
  wilder_zero-IsNonneg avg h =
      div-IsNonneg _ _ (mul-IsNonneg avg _ h (sub-IsNonneg (of_ℕ (suc n)) decimal_one one-Le)) refl

  abbrev BothNonneg : Decimal × Decimal → Type 0
  BothNonneg p = IsNonneg (p.0) × IsNonneg (p.1)

  rsi_loop-IsNonneg :
      (gain loss : Decimal) (cs : List Decimal)
      → IsNonneg gain
      → IsNonneg loss
      → BothNonneg (rsi_loop (of_ℕ (suc n)) gain loss cs)
  rsi_loop-IsNonneg gain loss [] h k = (h, k)
  rsi_loop-IsNonneg gain loss (c ∷ cs) h k = elim (Bool-cases (is_lt decimal_zero c)) [
    | inl e ↦
        rw (e, rsi_loop)
          (rsi_loop-IsNonneg (wilder (of_ℕ (suc n)) gain c) (wilder_zero (of_ℕ (suc n)) loss) cs
            (wilder-IsNonneg gain c h (IsNonneg-of_IsPositive c (IsPositive-of_lt c e)))
            (wilder_zero-IsNonneg loss k))
    | inr e ↦
        rw (e, rsi_loop)
          (rsi_loop-IsNonneg (wilder_zero (of_ℕ (suc n)) gain)
            (wilder (of_ℕ (suc n)) loss (absolute c)) cs (wilder_zero-IsNonneg gain h)
            (wilder-IsNonneg loss _ k (absolute-IsNonneg c)))
  ]

  atr_loop-IsNonneg :
      (atr : Decimal) (trs : List Decimal)
      → IsNonneg atr
      → All IsNonneg trs
      → IsNonneg (atr_loop (of_ℕ (suc n)) atr trs)
  atr_loop-IsNonneg atr [] h k = h
  atr_loop-IsNonneg atr (tr ∷ trs) h k =
      atr_loop-IsNonneg (wilder (of_ℕ (suc n)) atr tr) trs (wilder-IsNonneg atr tr h k.0) k.1

-- The relative strength index is between 0 and 100, of whatever bars, period and source it is
-- computed, if it has a value.
pub compute_rsi-IsPercent :
    (bars : List Bar) (period : ℕ) (source : Source)
    → Sometimes IsPercent (compute_rsi bars period source)
unfolding compute_rsi
compute_rsi-IsPercent bars zero source = tt
compute_rsi-IsPercent bars (suc n) source =
    let cs = changes (map (get_source_value source) bars) in
    let average : (f : Decimal → Decimal)
        → ((c : Decimal) → IsNonneg (f c))
        → IsNonneg (div (sum_from decimal_zero (map f (first (suc n) cs))) (of_ℕ (suc n))) =
      λ f h.
        div-IsNonneg _ _ (sum_from-IsNonneg decimal_zero _ refl (All-map f (first (suc n) cs) h))
          refl in
    let flows =
      rsi_loop-IsNonneg n _ _ (drop (suc n) cs) (average gain_of gain_of-IsNonneg)
        (average loss_of loss_of-IsNonneg) in
    elim (Bool-cases (ltb (length bars) (suc n + 1))) [
      | inl e ↦ rw (e, compute_rsi, Sometimes) tt
      | inr e ↦ rw (e, compute_rsi, Sometimes) (strength-IsPercent _ _ flows.0 flows.1)
    ]

true_range-IsNonneg : (p : Bar × Bar) → IsNonneg (true_range p)
unfolding true_range
true_range-IsNonneg p = max-IsNonneg _ _ (absolute-IsNonneg _)

-- The average true range is not negative, of whatever bars it is computed, even where a high is below
-- a low; so a stop that is a multiple of it is not on the wrong side of the entry.
compute_atr-IsNonneg : (bars : List Bar) (period : ℕ) → Sometimes IsNonneg (compute_atr bars period)
unfolding compute_atr
compute_atr-IsNonneg bars zero = tt
compute_atr-IsNonneg bars (suc n) =
    let trs = map true_range (pairs bars) in
    let ranges = All-map true_range (pairs bars) true_range-IsNonneg in
    elim (Bool-cases (ltb (length bars) (suc n + 1))) [
      | inl e ↦ rw (e, compute_atr, Sometimes) tt
      | inr e ↦
          rw (e, compute_atr, Sometimes)
            (atr_loop-IsNonneg n _ (drop (suc n) trs)
              (div-IsNonneg _ _
                (sum_from-IsNonneg decimal_zero _ refl (All-first (suc n) trs ranges)) refl)
              (All-drop IsNonneg (suc n) trs ranges))
    ]
