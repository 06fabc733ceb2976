-- ===== src/MarketData/Aggregation/Tests.antt =====
-- The aggregation on small inputs.
use ratatoskr_v.Base.{
  ℕ, ◌+◌, ◌*◌, ◌≤◌, ◌<◌, ◌≡◌, refl, true, false, some, List, [], ◌∷◌, All, map, ◌++◌,
}
use ratatoskr_v.Domain.{Time, minute, equities, m1, m5}
use ratatoskr_v.Decimal.{of_ℕ, decimals}
use ratatoskr_v.MarketData.{Bar, get_bars, take, newest_first, insert_by_ts, upsert_bar}
use ratatoskr_v.MarketData.Aggregation.{
  aggregated_minutes, window_minutes, hour_of, minute_of, replace_time, get_window_start,
  is_window_complete, first_open, highest, lowest, total_volume, first_market, aggregate,
  aggregate_window,
}
use ratatoskr_v.MarketData.Aggregation.Windows.{window_length, get_window_start_lem}
use ratatoskr_v.MarketData.Aggregation.Bars.{
  IsBar, IsWithin, IsInWindow, minute_bars, aggregate_window-IsBar,
}

unfoldable aggregation : Unit {0}
unfolding decimals get_bars take newest_first insert_by_ts upsert_bar aggregated_minutes
    window_minutes hour_of minute_of replace_time get_window_start is_window_complete first_open
    highest lowest total_volume first_market aggregate aggregate_window
aggregation = tt

-- 10:37 on the first day.
abbrev late_morning : Time
late_morning = 637 * minute

start_of_five : get_window_start late_morning m5 ≡ 635 * minute
unfolding aggregation
start_of_five = refl

completes : is_window_complete (639 * minute) m5 ≡ true
unfolding aggregation
completes = refl

get_window_start_lem_example :
    (get_window_start late_morning m5 ≤ late_morning)
    × (late_morning < get_window_start late_morning m5 + window_length m5)
    × ((u : Time)
        → get_window_start late_morning m5 ≤ u
        → u < get_window_start late_morning m5 + window_length m5
        → get_window_start u m5 ≡ get_window_start late_morning m5)
get_window_start_lem_example = get_window_start_lem late_morning m5

abbrev bar_at : (ts price : ℕ) → Bar
bar_at ts price = record {
  symbol = 50;
  market = equities;
  timeframe = m1;
  ts = ts * minute;
  open_price = of_ℕ price;
  high = of_ℕ (price + 2);
  low = of_ℕ price;
  close = of_ℕ (price + 1);
  volume = of_ℕ 10;
  is_aggregated = false;
}

abbrev bars : List Bar
bars = bar_at 0 100 ∷ bar_at 1 103 ∷ bar_at 4 99 ∷ []

abbrev five : Bar
five = record {
  symbol = 50;
  market = equities;
  timeframe = m5;
  ts = 0;
  open_price = of_ℕ 100;
  high = of_ℕ 105;
  low = of_ℕ 99;
  close = of_ℕ 100;
  volume = of_ℕ 30;
  is_aggregated = true;
}

made : aggregate_window 50 m5 0 bars ≡ (some five, bars ++ five ∷ [])
unfolding aggregation
made = refl

-- The first bar of the next window is taken in when it is there already: of six rows the newest
-- five are read, and the first of the window is not among them.
abbrev six : List Bar
six = bar_at 0 100 ∷ bar_at 1 103 ∷ bar_at 2 99 ∷ bar_at 3 99 ∷ bar_at 4 99 ∷ bar_at 5 200 ∷ []

shifted :
    map (λ b. b.ts) (minute_bars 50 m5 0 six)
    ≡ 5 * minute ∷ 4 * minute ∷ 3 * minute ∷ 2 * minute ∷ minute ∷ []
unfolding aggregation
shifted = refl

bars-IsBar : All IsBar bars
unfolding decimals
bars-IsBar = (
  record { low_open = refl; open_high = refl; low_close = refl; close_high = refl },
  (
    record { low_open = refl; open_high = refl; low_close = refl; close_high = refl },
    (record { low_open = refl; open_high = refl; low_close = refl; close_high = refl }, tt),
  ),
)

aggregate_window-IsBar_example :
    IsBar five
    × All (IsInWindow 50 m5 0) (minute_bars 50 m5 0 bars)
    × All (IsWithin (of_ℕ 99) (of_ℕ 105)) (minute_bars 50 m5 0 bars)
aggregate_window-IsBar_example =
    aggregate_window-IsBar 50 m5 0 bars {bar = five} {next = bars ++ five ∷ []} bars-IsBar made
