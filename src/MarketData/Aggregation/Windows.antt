-- ===== src/MarketData/Aggregation/Windows.antt =====
-- The windows of the aggregation (aggregation/engine.py) tile the time.
use ratatoskr_v.Base.{◌+◌, ◌*◌, ◌/◌, ◌%◌, ◌≤◌, ◌<◌, ◌≡◌, ◌↔◌, true, arith}
use ratatoskr_v.Domain.{Time, minute, Timeframe, m1, m5, m15, h1, h4, d1}
use ratatoskr_v.MarketData.Aggregation.{
  aggregated_minutes, window_minutes, hour_of, minute_of, replace_time, get_window_start,
  is_window_complete,
}

-- The length of a window.
abbrev pub window_length : Timeframe → Time
window_length timeframe = window_minutes timeframe * minute

get_window_start_div :
    (ts : Time) (timeframe : Timeframe)
    → get_window_start ts timeframe ≡ ts / window_length timeframe * window_length timeframe
unfolding get_window_start window_minutes aggregated_minutes hour_of minute_of replace_time
get_window_start_div ts m1 = omega arith
get_window_start_div ts m5 = omega arith
get_window_start_div ts m15 = omega arith
get_window_start_div ts h1 = omega arith
get_window_start_div ts h4 = omega arith
get_window_start_div ts d1 = omega arith
get_window_start_div ts Timeframe.other = omega arith

-- The windows of a timeframe tile the time: the window of a moment starts at or before it and ends
-- after it, and every moment of a window has the same window start.
pub get_window_start_lem :
    (ts : Time) (timeframe : Timeframe)
    → let start = get_window_start ts timeframe in
      (start ≤ ts)
      × (ts < start + window_length timeframe)
      × ((u : Time)
          → start ≤ u
          → u < start + window_length timeframe
          → get_window_start u timeframe ≡ start)
unfolding window_minutes aggregated_minutes
get_window_start_lem ts m1 = (
  omega (arith, get_window_start_div ts m1),
  omega (arith, get_window_start_div ts m1),
  λ u after before. omega (arith, get_window_start_div ts m1, get_window_start_div u m1),
)
get_window_start_lem ts m5 = (
  omega (arith, get_window_start_div ts m5),
  omega (arith, get_window_start_div ts m5),
  λ u after before. omega (arith, get_window_start_div ts m5, get_window_start_div u m5),
)
get_window_start_lem ts m15 = (
  omega (arith, get_window_start_div ts m15),
  omega (arith, get_window_start_div ts m15),
  λ u after before. omega (arith, get_window_start_div ts m15, get_window_start_div u m15),
)
get_window_start_lem ts h1 = (
  omega (arith, get_window_start_div ts h1),
  omega (arith, get_window_start_div ts h1),
  λ u after before. omega (arith, get_window_start_div ts h1, get_window_start_div u h1),
)
get_window_start_lem ts h4 = (
  omega (arith, get_window_start_div ts h4),
  omega (arith, get_window_start_div ts h4),
  λ u after before. omega (arith, get_window_start_div ts h4, get_window_start_div u h4),
)
get_window_start_lem ts d1 = (
  omega (arith, get_window_start_div ts d1),
  omega (arith, get_window_start_div ts d1),
  λ u after before. omega (arith, get_window_start_div ts d1, get_window_start_div u d1),
)
get_window_start_lem ts Timeframe.other = (
  omega (arith, get_window_start_div ts Timeframe.other),
  omega (arith, get_window_start_div ts Timeframe.other),
  λ u after before.
      omega
        (arith, get_window_start_div ts Timeframe.other, get_window_start_div u Timeframe.other),
)

complete_mod :
    (ts : Time) (timeframe : Timeframe)
    → (is_window_complete ts timeframe ≡ true) ↔ ((ts / minute + 1) % window_minutes timeframe ≡ 0)
unfolding is_window_complete window_minutes aggregated_minutes hour_of minute_of
complete_mod ts m1 = (λ h. omega arith, λ h. ground arith)
complete_mod ts m5 = (λ h. ground arith, λ h. ground arith)
complete_mod ts m15 = (λ h. ground arith, λ h. ground arith)
complete_mod ts h1 = (λ h. ground arith, λ h. ground arith)
complete_mod ts h4 = (λ h. ground arith, λ h. ground arith)
complete_mod ts d1 = (λ h. ground arith, λ h. ground arith)
complete_mod ts Timeframe.other = (λ h. ground arith, λ h. ground arith)

next_window :
    (ts : Time) (timeframe : Timeframe)
    → ((ts / minute + 1) % window_minutes timeframe ≡ 0) ↔ (
        get_window_start (ts + minute) timeframe
        ≡ get_window_start ts timeframe + window_length timeframe)
unfolding window_minutes aggregated_minutes
next_window ts m1 = (
  λ h. omega (arith, get_window_start_div ts m1, get_window_start_div (ts + minute) m1),
  λ h. omega (arith, get_window_start_div ts m1, get_window_start_div (ts + minute) m1),
)
next_window ts m5 = (
  λ h. omega (arith, get_window_start_div ts m5, get_window_start_div (ts + minute) m5),
  λ h. omega (arith, get_window_start_div ts m5, get_window_start_div (ts + minute) m5),
)
next_window ts m15 = (
  λ h. omega (arith, get_window_start_div ts m15, get_window_start_div (ts + minute) m15),
  λ h. omega (arith, get_window_start_div ts m15, get_window_start_div (ts + minute) m15),
)
next_window ts h1 = (
  λ h. omega (arith, get_window_start_div ts h1, get_window_start_div (ts + minute) h1),
  λ h. omega (arith, get_window_start_div ts h1, get_window_start_div (ts + minute) h1),
)
next_window ts h4 = (
  λ h. omega (arith, get_window_start_div ts h4, get_window_start_div (ts + minute) h4),
  λ h. omega (arith, get_window_start_div ts h4, get_window_start_div (ts + minute) h4),
)
next_window ts d1 = (
  λ h. omega (arith, get_window_start_div ts d1, get_window_start_div (ts + minute) d1),
  λ h. omega (arith, get_window_start_div ts d1, get_window_start_div (ts + minute) d1),
)
next_window ts Timeframe.other = (
  λ h. omega (
    arith,
    get_window_start_div ts Timeframe.other,
    get_window_start_div (ts + minute) Timeframe.other,
  ),
  λ h. omega (
    arith,
    get_window_start_div ts Timeframe.other,
    get_window_start_div (ts + minute) Timeframe.other,
  ),
)

-- The bar of a minute completes the window of a timeframe exactly when the next minute belongs to
-- the next window.
is_window_complete_lem :
    (ts : Time) (timeframe : Timeframe)
    → (is_window_complete ts timeframe ≡ true) ↔ (
        get_window_start (ts + minute) timeframe
        ≡ get_window_start ts timeframe + window_length timeframe)
is_window_complete_lem ts timeframe =
    let a = complete_mod ts timeframe in
    let b = next_window ts timeframe in (λ h. b.0 (a.0 h), λ h. a.1 (b.1 h))
