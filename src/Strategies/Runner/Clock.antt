-- ===== src/Strategies/Runner/Clock.antt =====
-- When strategies/runner.py evaluates a strategy.
use ratatoskr_v.Base.{
  ℕ, ◌+◌, ◌*◌, ◌/◌, ◌%◌, ◌≡◌, Bool, true, false, ◌&&◌, not, leb, ltb, ◌==◌, arith,
}
use ratatoskr_v.Domain.{Time, minute, Timeframe, m1, m5, m15, h1, h4}
use ratatoskr_v.Strategies.Runner.{
  clock_minute, clock_hour, clock_weekday, is_due, trades_forex, TradingMode, is_market_open,
}

-- The minutes between two evaluations.
abbrev pub every : Timeframe → ℕ
every m1 = 1
every m5 = 5
every m15 = 15
every h1 = 60
every h4 = 240
every _ = 1

-- a timeframe that the runner knows
abbrev pub is_known : Timeframe → Bool
is_known m1 = true
is_known m5 = true
is_known m15 = true
is_known h1 = true
is_known h4 = true
is_known _ = false

-- A strategy is due exactly in the minutes that are multiples of its timeframe since the epoch, for
-- every timeframe that the runner knows, at every time: the tests of the minute and of the hour
-- leave no minute out and add none.
is_due_lem :
    (tf : Timeframe) (now : Time)
    → is_known tf ≡ true
    → is_due tf now ≡ (now / minute % every tf == 0)
unfolding is_due clock_minute clock_hour
is_due_lem m1 now h = ground (arith)
is_due_lem m5 now h = ground (arith)
is_due_lem m15 now h = ground (arith)
is_due_lem h1 now h = ground (arith)
is_due_lem h4 now h = ground (arith)
is_due_lem Timeframe.d1 now h = cc
is_due_lem Timeframe.other now h = cc

-- the hour of the week, from Monday at 0 on
abbrev pub week_hour : Time → ℕ
week_hour now = clock_weekday now * 24 + clock_hour now

-- The forex market is closed in one stretch of the week, from Friday 22:00 to Sunday 22:00 UTC, and
-- open at every other time.
pub is_market_open-forex :
    (mode : TradingMode) (now : Time)
    → is_market_open trades_forex mode now
      ≡ not (leb (4 * 24 + 22) (week_hour now) && ltb (week_hour now) (6 * 24 + 22))
unfolding is_market_open clock_weekday clock_hour
is_market_open-forex mode now = ground (arith)
