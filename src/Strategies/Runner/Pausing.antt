-- ===== src/Strategies/Runner/Pausing.antt =====
-- Errors and the pause of a strategy (strategies/runner.py).
use ratatoskr_v.Base.{
  ℕ, ◌+◌, ◌<◌, ◌≤◌, ◌≡◌, ap, refl, true, false, List, [], ◌∷◌, leb, length, arith,
}
use ratatoskr_v.Domain.{Time, m1}
use ratatoskr_v.Strategies.Models.{Strategy, enabled, paused, is_enabled}
use ratatoskr_v.Strategies.Runner.{is_due, handle_auto_pause, after_result, cycle_strategy}

-- A strategy that is evaluated every minute, at these times, and whose evaluation raises each time.
abbrev pub after_errors : ℕ → List Time → Strategy → Strategy
after_errors threshold [] s = s
after_errors threshold (t ∷ ts) s = after_errors threshold ts (cycle_strategy threshold t m1 true s)

module _ (threshold : ℕ) (now : Time) (s : Strategy) (live : s.status ≡ enabled) where
  -- an evaluation that raises, of a strategy that is enabled
  raised_early :
      s.auto_pause_error_count + 1 < threshold
      → ((cycle_strategy threshold now m1 true s).status ≡ enabled)
        × ((cycle_strategy threshold now m1 true s).auto_pause_error_count
            ≡ s.auto_pause_error_count + 1)
  unfolding cycle_strategy is_due after_result
  raised_early h =
      let on : is_enabled s.status ≡ true = ap is_enabled live in
      let low : leb threshold (s.auto_pause_error_count + 1) ≡ false = ground (arith) in
      rw (on, low, cycle_strategy) (live, refl)

  raised_last :
      threshold ≤ s.auto_pause_error_count + 1
      → ((cycle_strategy threshold now m1 true s).status ≡ paused)
        × ((cycle_strategy threshold now m1 true s).auto_pause_error_count ≡ 0)
  unfolding cycle_strategy is_due after_result handle_auto_pause
  raised_last h =
      let on : is_enabled s.status ≡ true = ap is_enabled live in
      let high : leb threshold (s.auto_pause_error_count + 1) ≡ true = ground (arith) in
      rw (on, high, cycle_strategy) (refl, refl)

below_threshold :
    (threshold : ℕ) (ts : List Time) (s : Strategy)
    → s.status ≡ enabled
    → s.auto_pause_error_count + length ts < threshold
    → ((after_errors threshold ts s).status ≡ enabled)
      × ((after_errors threshold ts s).auto_pause_error_count
          ≡ s.auto_pause_error_count + length ts)
below_threshold threshold [] s live h = (live, omega arith)
below_threshold threshold (t ∷ ts) s live h =
    let one = raised_early threshold t s live (omega (arith, h)) in
    let rest =
      below_threshold threshold ts (cycle_strategy threshold t m1 true s) one.0
        (omega (arith, h, one.1)) in
    (rest.0, omega (arith, rest.1, one.1))

-- A strategy is paused by as many errors in a row as the threshold, and not by fewer: one that is
-- enabled and has no errors counted is still enabled after fewer errors, all of them counted; and one
-- more error, at the threshold, pauses it and sets the count to zero. An evaluation that does not
-- raise sets the count to zero.
pub after_errors-paused :
    (threshold : ℕ) (ts : List Time) (now : Time) (s : Strategy)
    → s.status ≡ enabled
    → s.auto_pause_error_count ≡ 0
    → length ts + 1 ≡ threshold
    → ((after_errors threshold ts s).status ≡ enabled)
      × ((after_errors threshold ts s).auto_pause_error_count ≡ length ts)
      × ((cycle_strategy threshold now m1 true (after_errors threshold ts s)).status ≡ paused)
      × ((cycle_strategy threshold now m1 true (after_errors threshold ts s)).auto_pause_error_count
          ≡ 0)
      × ((cycle_strategy threshold now m1 false
            (after_errors threshold ts s)).auto_pause_error_count
          ≡ 0)
unfolding cycle_strategy is_due after_result
after_errors-paused threshold ts now s live clean h =
    let before = below_threshold threshold ts s live (omega (arith, clean, h)) in
    let last =
      raised_last threshold now (after_errors threshold ts s) before.0
        (omega (arith, h, before.1, clean)) in
    let on : is_enabled (after_errors threshold ts s).status ≡ true = ap is_enabled before.0 in
    (before.0, omega (arith, before.1, clean), last.0, last.1, rw (on, cycle_strategy) refl)
