-- ===== src/Strategies/Indicators.antt =====
-- The indicators, backend/app/strategies/indicators/compute.py: what they share, the trend family and
-- the price references. Prices are decimals, as the columns of a bar are; a period is a natural
-- number. `none` is `None`, also where a division by a zero period is caught. The standard deviation
-- of the Bollinger bands needs a square root and is not modelled.
pub mod Momentum
pub mod Oscillators
pub mod Strength
pub mod Available
pub mod MacdAvailable
pub mod Ranges
mod Tests
use ratatoskr_v.Base.{
  ℕ, zero, suc, ◌+◌, ◌-◌, Bool, true, false, Option, none, some, List, [], ◌∷◌, ◌++◌, ltb, leb,
  ◌==◌, if◌then◌else◌, length, map,
}
use ratatoskr_v.Decimal.{
  Decimal, of_ℕ, decimal_zero, add, sub, mul, div, absolute, is_eq, is_lt, max,
}
use ratatoskr_v.MarketData.{Bar}

-- the argument `source` of `get_source_value`; any other text has the close
pub data Source : Type 0 where
  close_source open_source high_source low_source hl2 hlc3 ohlc4 other_source : Source

unfoldable pub get_source_value : Source → Bar → Decimal
get_source_value close_source b = b.close
get_source_value open_source b = b.open_price
get_source_value high_source b = b.high
get_source_value low_source b = b.low
get_source_value hl2 b = div (add b.high b.low) (of_ℕ 2)
get_source_value hlc3 b = div (add (add b.high b.low) b.close) (of_ℕ 3)
get_source_value ohlc4 b = div (add (add (add b.open_price b.high) b.low) b.close) (of_ℕ 4)
get_source_value other_source b = b.close

module _ {ℓ} {A : Type ℓ} where
  -- `xs[:n]`, `xs[n:]` and, for a positive `n`, `xs[-n:]`
  abbrev pub first : ℕ → List A → List A
  first zero xs = []
  first (suc n) [] = []
  first (suc n) (x ∷ xs) = x ∷ first n xs

  abbrev pub drop : ℕ → List A → List A
  drop zero xs = xs
  drop (suc n) [] = []
  drop (suc n) (x ∷ xs) = drop n xs

  abbrev pub last_of : ℕ → List A → List A
  last_of n xs = drop (length xs - n) xs

  -- `xs[-1]`
  abbrev pub last : List A → Option A
  last [] = none
  last (x ∷ []) = some x
  last (x ∷ y ∷ xs) = last (y ∷ xs)

  -- `xs[i]`
  abbrev pub get : ℕ → List A → Option A
  get n [] = none
  get zero (x ∷ xs) = some x
  get (suc n) (x ∷ xs) = get n xs

  -- the pairs of an element and the next one
  abbrev pub pairs : List A → List (A × A)
  pairs [] = []
  pairs (x ∷ []) = []
  pairs (x ∷ y ∷ xs) = (x, y) ∷ pairs (y ∷ xs)

  -- the runs of `n` elements, in order
  abbrev pub windows : ℕ → List A → List (List A)
  windows n [] = []
  windows n (x ∷ xs) =
      let rest = windows n xs in if leb n (length (x ∷ xs)) then first n (x ∷ xs) ∷ rest else rest

-- `sum`
abbrev pub sum_from : Decimal → List Decimal → Decimal
sum_from acc [] = acc
sum_from acc (v ∷ vs) = sum_from (add acc v) vs

abbrev pub sum : List Decimal → Decimal
sum vs = sum_from decimal_zero vs

-- `sum(values) / Decimal(period)`: a zero period raises, and the caller gives `None`.
unfoldable pub mean : ℕ → List Decimal → Option Decimal
mean zero vs = none
mean (suc n) vs = some (div (sum vs) (of_ℕ (suc n)))

unfoldable pub compute_sma : List Bar → ℕ → Source → Option Decimal
compute_sma bars period source =
    if ltb (length bars) period
    then none
    else mean period (map (get_source_value source) (last_of period bars))

-- the loop of an exponential average, and the values that it passes
abbrev pub ema_loop : Decimal → Decimal → List Decimal → Decimal
ema_loop mult ema [] = ema
ema_loop mult ema (v ∷ vs) = ema_loop mult (add (mul (sub v ema) mult) ema) vs

abbrev pub map_option : (Decimal → Decimal) → Option Decimal → Option Decimal
map_option f none = none
map_option f (some a) = some (f a)

-- `Decimal("2") / Decimal(str(period + 1))`
abbrev pub ema_factor : ℕ → Decimal
ema_factor period = div (of_ℕ 2) (of_ℕ (period + 1))

unfoldable pub compute_ema : List Bar → ℕ → Source → Option Decimal
compute_ema bars period source =
    let values = map (get_source_value source) bars in
    if ltb (length bars) period
    then none
    else map_option (λ seed. ema_loop (ema_factor period) seed (drop period values))
        (mean period (first period values))

-- the loop of `compute_wma` from weight `i` on
abbrev pub wma_loop : ℕ → Decimal → Decimal → List Decimal → Decimal × Decimal
wma_loop i weighted weight [] = (weighted, weight)
wma_loop i weighted weight (v ∷ vs) =
    wma_loop (suc i) (add weighted (mul (of_ℕ i) v)) (add weight (of_ℕ i)) vs

-- a quotient, or `None` where the divisor is zero
abbrev pub ratio : Decimal × Decimal → Option Decimal
ratio p = if is_eq (p.1) decimal_zero then none else some (div (p.0) (p.1))

-- A zero period takes the whole list, since `bars[-0:]` is `bars[0:]`.
unfoldable pub compute_wma : List Bar → ℕ → Source → Option Decimal
compute_wma bars period source =
    let window = if period == 0 then bars else last_of period bars in
    if ltb (length bars) period
    then none
    else ratio (wma_loop 1 decimal_zero decimal_zero (map (get_source_value source) window))

-- `(high + low + close) / 3`
abbrev pub typical_price : Bar → Decimal
typical_price b = div (add (add b.high b.low) b.close) (of_ℕ 3)

abbrev pub vwap_loop : Decimal → Decimal → List Bar → Decimal × Decimal
vwap_loop flow volume [] = (flow, volume)
vwap_loop flow volume (b ∷ bars) =
    vwap_loop (add flow (mul (typical_price b) b.volume)) (add volume b.volume) bars

unfoldable pub compute_vwap : List Bar → Option Decimal
compute_vwap [] = none
compute_vwap (b ∷ bars) = ratio (vwap_loop decimal_zero decimal_zero (b ∷ bars))

-- A field of the last bar, and of the one before it.
abbrev pub field_of : (Bar → Decimal) → Option Bar → Option Decimal
field_of f none = none
field_of f (some b) = some (f b)

abbrev pub before_last : List Bar → Option Bar
before_last [] = none
before_last (b ∷ []) = none
before_last (b ∷ c ∷ []) = some b
before_last (b ∷ c ∷ d ∷ bars) = before_last (c ∷ d ∷ bars)

-- `compute_close`, `compute_open`, `compute_high`, `compute_low` and `compute_volume`
unfoldable pub compute_field : (Bar → Decimal) → List Bar → Option Decimal
compute_field f bars = field_of f (last bars)

-- `compute_prev_close`, `compute_prev_high` and `compute_prev_low`
unfoldable pub compute_prev_field : (Bar → Decimal) → List Bar → Option Decimal
compute_prev_field f bars = field_of f (before_last bars)

unfoldable pub compute_volume_sma : List Bar → ℕ → Option Decimal
compute_volume_sma bars period =
    if ltb (length bars) period
    then none
    else mean period (map (λ b. b.volume) (last_of period bars))

abbrev pub obv_loop : Decimal → List (Bar × Bar) → Decimal
obv_loop obv [] = obv
obv_loop obv (p ∷ ps) =
    obv_loop
      (if is_lt (p.0).close (p.1).close
        then add obv (p.1).volume
        else if is_lt (p.1).close (p.0).close
        then sub obv (p.1).volume
        else obv)
      ps

unfoldable pub compute_obv : List Bar → Option Decimal
compute_obv bars = if ltb (length bars) 2 then none else some (obv_loop decimal_zero (pairs bars))
