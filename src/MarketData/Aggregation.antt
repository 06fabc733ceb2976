-- ===== src/MarketData/Aggregation.antt =====
-- The aggregation of bars, backend/app/market_data/aggregation/engine.py. Times are in UTC.
pub mod Windows
pub mod Bars
mod Tests
use ratatoskr_v.Base.{
  ℕ, ◌+◌, ◌*◌, ◌/◌, ◌%◌, Bool, true, false, Option, none, some, List, [], ◌∷◌, ◌++◌, ◌&&◌, ◌==◌,
  if◌then◌else◌,
}
use ratatoskr_v.Domain.{Symbol, Time, minute, Market, Timeframe, m1, m5, m15, h1, h4, d1}
use ratatoskr_v.Decimal.{Decimal, add, max, min, decimal_zero}
use ratatoskr_v.MarketData.{Bar, get_bars, upsert_bar}

-- `_TIMEFRAME_MINUTES.get(timeframe)`
unfoldable pub aggregated_minutes : Timeframe → Option ℕ
aggregated_minutes m5 = some 5
aggregated_minutes m15 = some 15
aggregated_minutes h1 = some 60
aggregated_minutes h4 = some 240
aggregated_minutes d1 = some 1440
aggregated_minutes _ = none

-- `_TIMEFRAME_MINUTES.get(timeframe, 1)`
unfoldable pub window_minutes : Timeframe → ℕ
window_minutes timeframe = elim (aggregated_minutes timeframe) [ none ↦ 1 | some n ↦ n ]

-- `ts.hour` and `ts.minute`
unfoldable pub hour_of : Time → ℕ
hour_of ts = ts / (60 * minute) % 24

unfoldable pub minute_of : Time → ℕ
minute_of ts = ts / minute % 60

-- `ts.replace(hour=…, minute=…, second=0, microsecond=0)`
unfoldable pub replace_time : Time → (hour minutes : ℕ) → Time
replace_time ts hour minutes =
    ts / (1440 * minute) * (1440 * minute) + hour * (60 * minute) + minutes * minute

abbrev pub is_daily : Timeframe → Bool
is_daily d1 = true
is_daily _ = false

unfoldable pub get_window_start : Time → Timeframe → Time
get_window_start ts timeframe =
    let minutes = window_minutes timeframe in
    let total_minutes = hour_of ts * 60 + minute_of ts in
    let in_window = total_minutes / minutes * minutes in
    if is_daily timeframe
    then replace_time ts 0 0
    else replace_time ts (in_window / 60) (in_window % 60)

unfoldable pub is_window_complete : Time → Timeframe → Bool
is_window_complete ts timeframe =
    let total_minutes = hour_of ts * 60 + minute_of ts in
    if is_daily timeframe
    then hour_of ts == 23 && minute_of ts == 59
    else (total_minutes + 1) % window_minutes timeframe == 0

-- The bars of a window, newest first, the newest one apart: the values that `aggregate_window`
-- computes of the list in the order of time.
unfoldable pub first_open : Bar → List Bar → Decimal
first_open b [] = b.open_price
first_open b (x ∷ xs) = first_open x xs

unfoldable pub highest : Bar → List Bar → Decimal
highest b [] = b.high
highest b (x ∷ xs) = max b.high (highest x xs)

unfoldable pub lowest : Bar → List Bar → Decimal
lowest b [] = b.low
lowest b (x ∷ xs) = min b.low (lowest x xs)

unfoldable pub total_volume : Bar → List Bar → Decimal
total_volume b [] = add decimal_zero b.volume
total_volume b (x ∷ xs) = add (total_volume x xs) b.volume

unfoldable pub first_market : Bar → List Bar → Market
first_market b [] = b.market
first_market b (x ∷ xs) = first_market x xs

unfoldable pub aggregate : Symbol → Timeframe → Time → Bar → List Bar → Bar
aggregate symbol timeframe window_start b bs = record {
  symbol = symbol;
  market = first_market b bs;
  timeframe = timeframe;
  ts = window_start;
  open_price = first_open b bs;
  high = highest b bs;
  low = lowest b bs;
  close = b.close;
  volume = total_volume b bs;
  is_aggregated = true;
}

-- `aggregate_window`, with `_compute_window_end`
unfoldable pub aggregate_window : Symbol → Timeframe → Time → List Bar → Option Bar × List Bar
aggregate_window symbol timeframe window_start t = elim (aggregated_minutes timeframe) [
  | none ↦ (none, t)
  | some minutes ↦
      elim (get_bars symbol m1 minutes window_start (window_start + minutes * minute) t) [
        | [] ↦ (none, t)
        | b ∷ bs ↦
            let bar = aggregate symbol timeframe window_start b bs in (some bar, upsert_bar bar t)
      ]
]
