-- ===== src/Strategies/Indicators/Strength.antt =====
-- The directional movement of indicators/compute.py: ADX, +DI and -DI.
use ratatoskr_v.Base.{
  ℕ, zero, suc, ◌+◌, Option, none, some, List, [], ◌∷◌, ◌++◌, ◌&&◌, not, ltb, if◌then◌else◌, length,
  map,
}
use ratatoskr_v.Decimal.{Decimal, of_ℕ, decimal_zero, add, sub, mul, div, absolute, is_eq, is_lt}
use ratatoskr_v.MarketData.{Bar}
use ratatoskr_v.Strategies.Indicators.{first, drop, pairs, sum}
use ratatoskr_v.Strategies.Indicators.Oscillators.{true_range, atr_loop}

-- the movements and the true range of a bar and the one before it
pub record Movement : Type 0 where
  pub plus_dm : Decimal
  pub minus_dm : Decimal
  pub range : Decimal

-- a move, if it is larger than the other one and positive
abbrev pub larger : Decimal → Decimal → Decimal
larger a b = if is_lt b a && is_lt decimal_zero a then a else decimal_zero

unfoldable pub movement : Bar × Bar → Movement
movement p =
    let up_move = sub (p.1).high (p.0).high in
    let down_move = sub (p.0).low (p.1).low in
    record {
      plus_dm = larger up_move down_move;
      minus_dm = larger down_move up_move;
      range = true_range p;
    }

-- `(value / smoothed_tr) * 100`
abbrev pub share : Decimal → Decimal → Decimal
share v tr = mul (div v tr) (of_ℕ 100)

-- The state of the smoothing loop: the three sums, the indices once there are some, and `dx_list`.
pub record Smoothing : Type 0 where
  pub sums : Movement
  pub indices : Option (Decimal × Decimal)
  pub dx_list : List Decimal

-- `s - s / p + v`
abbrev pub smooth : Decimal → Decimal → Decimal → Decimal
smooth p s v = add (sub s (div s p)) v

unfoldable pub smooth_movement : Decimal → Movement → Movement → Movement
smooth_movement p s m = record {
  plus_dm = smooth p s.plus_dm m.plus_dm;
  minus_dm = smooth p s.minus_dm m.minus_dm;
  range = smooth p s.range m.range;
}

unfoldable pub indices_of : Movement → Decimal × Decimal
indices_of s =
    if is_eq s.range decimal_zero
    then (decimal_zero, decimal_zero)
    else (share s.plus_dm s.range, share s.minus_dm s.range)

unfoldable pub dx_of : Decimal × Decimal → Decimal
dx_of di =
    let di_sum = add (di.0) (di.1) in
    if is_eq di_sum decimal_zero
    then decimal_zero
    else mul (div (absolute (sub (di.0) (di.1))) di_sum) (of_ℕ 100)

-- one round of the loop
unfoldable pub smooth_step : Decimal → Smoothing → Movement → Smoothing
smooth_step p s m =
    let sums = smooth_movement p s.sums m in
    let di = indices_of sums in
    record { sums = sums; indices = some di; dx_list = s.dx_list ++ dx_of di ∷ [] }

abbrev pub smooth_loop : Decimal → Smoothing → List Movement → Smoothing
smooth_loop p s [] = s
smooth_loop p s (m ∷ ms) = smooth_loop p (smooth_step p s m) ms

-- The indices "for the initial period point": they are taken of the first sums where the smoothed
-- range is that of the first period, and it is not zero.
unfoldable pub with_initial : Movement → Smoothing → Smoothing
with_initial initial s =
    if is_eq s.sums.range initial.range && not (is_eq s.sums.range decimal_zero)
    then record s {
      indices = some (share initial.plus_dm s.sums.range, share initial.minus_dm s.sums.range);
    }
    else s

-- the average of `dx_list`, smoothed where it is long enough; `none` of the empty list
unfoldable pub adx_of : ℕ → List Decimal → Option Decimal
adx_of period [] = none
adx_of period (dx ∷ dxs) =
    let n = length (dx ∷ dxs) in
    let p = of_ℕ period in
    some (
      if ltb n period
      then div (sum (dx ∷ dxs)) (of_ℕ n)
      else atr_loop p (div (sum (first period (dx ∷ dxs))) p) (drop period (dx ∷ dxs)))

pub record Directional : Type 0 where
  pub plus_di : Decimal
  pub minus_di : Decimal
  pub adx : Option Decimal

abbrev pub initial_sums : ℕ → List Movement → Movement
initial_sums period ms = record {
  plus_dm = sum (map (λ m. m.plus_dm) (first period ms));
  minus_dm = sum (map (λ m. m.minus_dm) (first period ms));
  range = sum (map (λ m. m.range) (first period ms));
}

abbrev pub directional_of : ℕ → Smoothing → Option Directional
directional_of period s = elim s.indices [
  | none ↦ none
  | some di ↦ some (record { plus_di = di.0; minus_di = di.1; adx = adx_of period s.dx_list })
]

-- `_compute_directional_movement`
unfoldable pub compute_directional_movement : List Bar → ℕ → Option Directional
compute_directional_movement bars zero = none
compute_directional_movement bars (suc n) =
    let period = suc n in
    let ms = map movement (pairs bars) in
    let initial = initial_sums period ms in
    let start : Smoothing = record { sums = initial; indices = none; dx_list = [] } in
    if ltb (length bars) (period + 1)
    then none
    else directional_of period
        (with_initial initial (smooth_loop (of_ℕ period) start (drop period ms)))

-- `compute_adx`
unfoldable pub compute_adx : List Bar → ℕ → Option Decimal
compute_adx bars period = elim (compute_directional_movement bars period) [
  | none ↦ none
  | some r ↦ r.adx
]

-- `compute_plus_di` and `compute_minus_di`
unfoldable pub compute_di : (Directional → Decimal) → List Bar → ℕ → Option Decimal
compute_di f bars period = elim (compute_directional_movement bars period) [
  | none ↦ none
  | some r ↦ some (f r)
]
