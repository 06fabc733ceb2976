-- ===== src/Strategies/Indicators/Tests.antt =====
-- The indicators on a few bars.
use ratatoskr_v.Base.{
  ℕ, ◌+◌, ◌≡◌, refl, Bool, true, false, Option, none, some, is_some, List, [], ◌∷◌, leb, ◌&&◌,
  length, arith,
}
use ratatoskr_v.Base.Int.{pos}
use ratatoskr_v.Domain.{equities, m1}
use ratatoskr_v.Decimal.{of_ℕ, decimals, is_eq, decimal_zero}
use ratatoskr_v.MarketData.{Bar}
use ratatoskr_v.Strategies.Indicators.{
  close_source, get_source_value, mean, compute_sma, compute_ema, compute_wma, compute_vwap,
  compute_field, compute_prev_field, compute_volume_sma, compute_obv,
}
use ratatoskr_v.Strategies.Indicators.Momentum.{
  strength, changes, compute_rsi, ema_series, aligned, macd_from, compute_macd, compute_mfi,
}
use ratatoskr_v.Strategies.Indicators.Oscillators.{
  raw_k, compute_stochastic, williams, compute_williams_r, compute_cci, true_range, compute_atr,
  compute_keltner,
}
use ratatoskr_v.Strategies.Indicators.Strength.{
  movement, smooth_movement, indices_of, dx_of, smooth_step, with_initial, adx_of,
  compute_directional_movement, Directional,
}
use ratatoskr_v.Strategies.Indicators.MacdAvailable.{compute_macd-is_some}
use ratatoskr_v.Strategies.Indicators.Ranges.{IsPercent, Sometimes, compute_rsi-IsPercent}

unfoldable indicators : Unit {0}
unfolding decimals get_source_value mean compute_sma compute_ema compute_wma compute_vwap
    compute_field compute_prev_field compute_volume_sma compute_obv strength changes compute_rsi
    ema_series aligned macd_from compute_macd compute_mfi raw_k compute_stochastic williams
    compute_williams_r compute_cci true_range compute_atr compute_keltner movement smooth_movement
    indices_of dx_of smooth_step with_initial adx_of compute_directional_movement
indicators = tt

-- a bar of height ten
abbrev bar : ℕ → Bar
bar low = record {
  symbol = 50;
  market = equities;
  timeframe = m1;
  ts = 0;
  open_price = of_ℕ low;
  high = of_ℕ (low + 10);
  low = of_ℕ low;
  close = of_ℕ (low + 5);
  volume = of_ℕ 10;
  is_aggregated = false;
}

-- two steps up, then two steps down
abbrev turning : List Bar
turning = bar 10 ∷ bar 12 ∷ bar 14 ∷ bar 12 ∷ bar 10 ∷ []

average :
    compute_sma turning 2 close_source
    ≡ some (record { coef = pos 1600000000000000000000000000; scale = 26 })
unfolding indicators
average = refl

no_average : compute_sma turning 6 close_source ≡ none
unfolding indicators
no_average = refl

compute_macd-is_some_example : is_some (compute_macd turning 2 3 2) ≡ leb 5 (length turning + 1)
compute_macd-is_some_example = compute_macd-is_some turning 1 2 1 (omega arith)

compute_rsi-IsPercent_example : Sometimes IsPercent (compute_rsi turning 2 close_source)
compute_rsi-IsPercent_example = compute_rsi-IsPercent turning 2 close_source

abbrev plus_is_minus_twice : Option Directional → Bool
plus_is_minus_twice none = false
plus_is_minus_twice (some r) = is_eq r.plus_di (of_ℕ 20) && is_eq r.minus_di decimal_zero

-- The range of every bar is the same, so that the smoothed range equals the first one, and the
-- indices are those of the first period: after eight falls in a row +DI is still 20, as in the rise,
-- and -DI is 0.
abbrev falling : List Bar
falling =
    bar 20
    ∷ bar 22
    ∷ bar 24
    ∷ bar 22
    ∷ bar 20
    ∷ bar 18
    ∷ bar 16
    ∷ bar 14
    ∷ bar 12
    ∷ bar 10
    ∷ bar 8
    ∷ []

stale_indices : plus_is_minus_twice (compute_directional_movement falling 2) ≡ true
unfolding indicators
stale_indices = refl
