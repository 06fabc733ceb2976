-- ===== src/Strategies/Indicators/Oscillators.antt =====
-- The indicators of indicators/compute.py that place the close in the range of a window, and the
-- average true range with the channel around it.
use ratatoskr_v.Base.{
  ℕ, zero, suc, ◌+◌, Option, none, some, List, [], ◌∷◌, ltb, ◌==◌, if◌then◌else◌, length, map,
}
use ratatoskr_v.Base.Int.{pos, negsuc}
use ratatoskr_v.Decimal.{Decimal, of_ℕ, decimal_zero, add, sub, mul, div, absolute, is_eq, max, min}
use ratatoskr_v.MarketData.{Bar}
use ratatoskr_v.Strategies.Indicators.{
  close_source, first, drop, last_of, last, pairs, windows, sum, mean, compute_ema, typical_price,
}
use ratatoskr_v.Strategies.Indicators.Momentum.{wilder}

-- `max` and `min` of the highs and lows of a window that starts with `b`
abbrev pub highest : Decimal → List Bar → Decimal
highest h [] = h
highest h (b ∷ bars) = highest (max h b.high) bars

abbrev pub lowest : Decimal → List Bar → Decimal
lowest l [] = l
lowest l (b ∷ bars) = lowest (min l b.low) bars

-- What a window with its bars gives; an empty window raises.
abbrev pub on_window : (Decimal → Decimal → Decimal → Decimal) → List Bar → Option Decimal
on_window f [] = none
on_window f (b ∷ bars) = elim (last (b ∷ bars)) [
  | none ↦ none
  | some c ↦ some (f (highest b.high bars) (lowest b.low bars) c.close)
]

-- a value of the raw %K series
unfoldable pub raw_k : Decimal → Decimal → Decimal → Decimal
raw_k high low close =
    if is_eq high low then of_ℕ 50 else mul (div (sub close low) (sub high low)) (of_ℕ 100)

-- the values of all windows, or an exception
abbrev pub all_some : List (Option Decimal) → Option (List Decimal)
all_some [] = some []
all_some (none ∷ vs) = none
all_some (some v ∷ vs) = elim (all_some vs) [ none ↦ none | some ws ↦ some (v ∷ ws) ]

pub record Stochastic : Type 0 where
  pub k : Decimal
  pub d : Decimal

abbrev pub stochastic_of : ℕ → List Decimal → Option Stochastic
stochastic_of d_period ks = if ltb (length ks) d_period then none else elim (last ks) [
  | none ↦ none
  | some k ↦ elim (mean d_period (last_of d_period ks)) [
    | none ↦ none
    | some d ↦ some (record { k = k; d = d })
  ]
]

abbrev pub slowed : ℕ → ℕ → List Decimal → Option Stochastic
slowed slowing d_period raws =
    if ltb (length raws) slowing
    then none
    else elim (all_some (map (mean slowing) (windows slowing raws))) [
      | none ↦ none
      | some ks ↦ stochastic_of d_period ks
    ]

-- The periods are positive, as the registry asks.
unfoldable pub compute_stochastic : List Bar → ℕ → ℕ → ℕ → Option Stochastic
compute_stochastic bars k_period d_period slowing =
    if ltb (length bars + 2) (k_period + slowing + d_period)
    then none
    else elim (all_some (map (on_window raw_k) (windows k_period bars))) [
      | none ↦ none
      | some raws ↦ slowed slowing d_period raws
    ]

unfoldable pub williams : Decimal → Decimal → Decimal → Decimal
williams high low close =
    if is_eq high low
    then decimal_zero
    else mul (div (sub high close) (sub high low)) (record { coef = negsuc 99; scale = 0 })

-- A zero period takes the whole list, since `bars[-0:]` is `bars[0:]`.
unfoldable pub compute_williams_r : List Bar → ℕ → Option Decimal
compute_williams_r bars period =
    if ltb (length bars) period
    then none
    else on_window williams (if period == 0 then bars else last_of period bars)

-- the quotient of `compute_cci` on the typical prices of the window and their mean
abbrev pub cci_of : Decimal → Option Decimal → Option Decimal → Option Decimal
cci_of sma (some dev) (some tp) = some (
    if is_eq dev decimal_zero
    then decimal_zero
    else div (sub tp sma) (mul (record { coef = pos 15; scale = 3 }) dev))
cci_of sma _ _ = none

unfoldable pub compute_cci : List Bar → ℕ → Option Decimal
compute_cci bars period =
    let tps = map typical_price (last_of period bars) in
    if ltb (length bars) period then none else elim (mean period tps) [
      | none ↦ none
      | some sma ↦ cci_of sma (mean period (map (λ tp. absolute (sub tp sma)) tps)) (last tps)
    ]

-- `max(h - l, abs(h - pc), abs(l - pc))` of a bar and the one before it
unfoldable pub true_range : Bar × Bar → Decimal
true_range p =
    max (max (sub (p.1).high (p.1).low) (absolute (sub (p.1).high (p.0).close)))
      (absolute (sub (p.1).low (p.0).close))

abbrev pub atr_loop : Decimal → Decimal → List Decimal → Decimal
atr_loop p atr [] = atr
atr_loop p atr (tr ∷ trs) = atr_loop p (wilder p atr tr) trs

unfoldable pub compute_atr : List Bar → ℕ → Option Decimal
compute_atr bars zero = none
compute_atr bars (suc n) =
    let period = suc n in
    let p = of_ℕ period in
    let trs = map true_range (pairs bars) in
    if ltb (length bars) (period + 1)
    then none
    else some (atr_loop p (div (sum (first period trs)) p) (drop period trs))

pub record Channel : Type 0 where
  pub upper : Decimal
  pub middle : Decimal
  pub lower : Decimal

abbrev pub channel_of : Decimal → Option Decimal → Option Decimal → Option Channel
channel_of mult (some m) (some atr) =
    some (record { upper = add m (mul mult atr); middle = m; lower = sub m (mul mult atr) })
channel_of mult _ _ = none

unfoldable pub compute_keltner : List Bar → ℕ → Decimal → Option Channel
compute_keltner bars period mult =
    if ltb (length bars) (period + 1)
    then none
    else channel_of mult (compute_ema bars period close_source) (compute_atr bars period)
