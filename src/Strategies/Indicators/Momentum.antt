-- ===== src/Strategies/Indicators/Momentum.antt =====
-- The indicators of indicators/compute.py that follow the changes of the price: RSI, MACD and the
-- money flow index.
use ratatoskr_v.Base.{
  ℕ, zero, suc, ◌+◌, ◌-◌, Option, none, some, List, [], ◌∷◌, ltb, leb, if◌then◌else◌, length, map,
}
use ratatoskr_v.Decimal.{
  Decimal, of_ℕ, decimal_zero, decimal_one, add, sub, mul, div, absolute, is_eq, is_lt,
}
use ratatoskr_v.MarketData.{Bar}
use ratatoskr_v.Strategies.Indicators.{
  Source, close_source, get_source_value, first, drop, last_of, last, get, pairs, sum, mean,
  ema_factor, typical_price,
}

-- `c if c > 0 else 0`, and `abs(c) if c < 0 else 0`
abbrev pub gain_of : Decimal → Decimal
gain_of c = if is_lt decimal_zero c then c else decimal_zero

abbrev pub loss_of : Decimal → Decimal
loss_of c = if is_lt c decimal_zero then absolute c else decimal_zero

-- Wilder's smoothing of the gains and losses
abbrev pub wilder : Decimal → Decimal → Decimal → Decimal
wilder p avg v = div (add (mul avg (sub p decimal_one)) v) p

abbrev pub wilder_zero : Decimal → Decimal → Decimal
wilder_zero p avg = div (mul avg (sub p decimal_one)) p

abbrev pub rsi_loop : Decimal → Decimal → Decimal → List Decimal → Decimal × Decimal
rsi_loop p gain loss [] = (gain, loss)
rsi_loop p gain loss (c ∷ cs) =
    if is_lt decimal_zero c
    then rsi_loop p (wilder p gain c) (wilder_zero p loss) cs
    else rsi_loop p (wilder_zero p gain) (wilder p loss (absolute c)) cs

-- `100 - 100 / (1 + up / down)`, and 100 where nothing goes down
unfoldable pub strength : Decimal → Decimal → Decimal
strength up down =
    if is_eq down decimal_zero
    then of_ℕ 100
    else sub (of_ℕ 100) (div (of_ℕ 100) (add decimal_one (div up down)))

unfoldable pub changes : List Decimal → List Decimal
changes values = map (λ p. sub (p.1) (p.0)) (pairs values)

unfoldable pub compute_rsi : List Bar → ℕ → Source → Option Decimal
compute_rsi bars zero source = none
compute_rsi bars (suc n) source =
    let period = suc n in
    let p = of_ℕ period in
    let cs = changes (map (get_source_value source) bars) in
    let avg_gain = div (sum (map gain_of (first period cs))) p in
    let avg_loss = div (sum (map loss_of (first period cs))) p in
    let smoothed = rsi_loop p avg_gain avg_loss (drop period cs) in
    if ltb (length bars) (period + 1) then none else some (strength (smoothed.0) (smoothed.1))

-- `_ema_series`: the averages from the seed on
abbrev pub ema_values : Decimal → Decimal → List Decimal → List Decimal
ema_values mult ema [] = ema ∷ []
ema_values mult ema (v ∷ vs) = ema ∷ ema_values mult (add (mul (sub v ema) mult) ema) vs

unfoldable pub ema_series : List Decimal → ℕ → Option (List Decimal)
ema_series values period = elim (mean period (first period values)) [
  | none ↦ none
  | some seed ↦ some (ema_values (ema_factor period) seed (drop period values))
]

-- `fast_emas[slow - fast + i]`, where a negative index counts from the end
unfoldable pub aligned : ℕ → ℕ → ℕ → List Decimal → Option Decimal
aligned fast slow i xs =
    if leb fast (slow + i)
    then get (slow + i - fast) xs
    else if leb (fast - (slow + i)) (length xs)
    then get (length xs - (fast - (slow + i))) xs
    else none

-- the differences of the two series, from the `i`-th on; an index out of range raises
unfoldable pub macd_from : ℕ → ℕ → ℕ → List Decimal → List Decimal → Option (List Decimal)
macd_from fast slow i fasts [] = some []
macd_from fast slow i fasts (s ∷ slows) =
    let rest = macd_from fast slow (suc i) fasts slows in
    elim (aligned fast slow i fasts) [
      | none ↦ none
      | some f ↦ elim rest [ none ↦ none | some ds ↦ some (sub f s ∷ ds) ]
    ]

pub record Macd : Type 0 where
  pub macd_line : Decimal
  pub signal_line : Decimal
  pub histogram : Decimal

-- the two lines, and their difference
abbrev pub macd_of : Option Decimal → Option Decimal → Option Macd
macd_of (some m) (some s) = some (record { macd_line = m; signal_line = s; histogram = sub m s })
macd_of _ _ = none

abbrev pub signal_line_of : ℕ → List Decimal → Option Macd
signal_line_of signal macds =
    if ltb (length macds) signal
    then none
    else elim (ema_series macds signal) [ none ↦ none | some es ↦ macd_of (last macds) (last es) ]

unfoldable pub compute_macd : List Bar → ℕ → ℕ → ℕ → Option Macd
compute_macd bars fast slow signal =
    let values = map (get_source_value close_source) bars in
    if ltb (length bars + 1) (slow + signal) then none else elim (ema_series values fast) [
      | none ↦ none
      | some fasts ↦ elim (ema_series values slow) [
        | none ↦ none
        | some slows ↦ elim (macd_from fast slow 0 fasts slows) [
          | none ↦ none
          | some macds ↦ signal_line_of signal macds
        ]
      ]
    ]

-- the flows of `compute_mfi`
abbrev pub mfi_loop : Decimal → Decimal → List (Bar × Bar) → Decimal × Decimal
mfi_loop up down [] = (up, down)
mfi_loop up down (p ∷ ps) =
    let flow = mul (typical_price (p.1)) (p.1).volume in
    if is_lt (typical_price (p.0)) (typical_price (p.1))
    then mfi_loop (add up flow) down ps
    else if is_lt (typical_price (p.1)) (typical_price (p.0))
    then mfi_loop up (add down flow) ps
    else mfi_loop up down ps

unfoldable pub compute_mfi : List Bar → ℕ → Option Decimal
compute_mfi bars period =
    let flows = mfi_loop decimal_zero decimal_zero (pairs (last_of (period + 1) bars)) in
    if ltb (length bars) (period + 1) then none else some (strength (flows.0) (flows.1))
