-- ===== src/Strategies/SafetyMonitor/Tests.antt =====
-- The safety monitor on small inputs.
use ratatoskr_v.Base.{
  ◌+◌, ◌*◌, ◌≡◌, refl, true, false, none, some, List, [], ◌∷◌, if◌then◌else◌, length,
}
use ratatoskr_v.Domain.{equities, minute}
use ratatoskr_v.Decimal.{of_ℕ}
use ratatoskr_v.Signals.{Config, Owner}
use ratatoskr_v.Strategies.Models.{Strategy, paused}
use ratatoskr_v.Strategies.Exits.{
  TrailingRule, position_dict, stop_loss_fires, take_profit_fires, trailing_stop_fires,
  next_extreme,
}
use ratatoskr_v.Strategies.Exits.Tests.{exits, held, no_rules, ten_percent}
use ratatoskr_v.Strategies.SafetyMonitor.{
  apply_override, override_take_profit, stop_check, check_stop_loss, profit_check,
  check_take_profit, kept_extreme, trail_check, check_trailing_stop, exit_reason, safety_request,
  Turn, Check, finish_position, check_position, check_strategy, run_check, after_cycle,
}
use ratatoskr_v.Strategies.SafetyMonitor.Agreement.{monitor-agrees}
use ratatoskr_v.Strategies.SafetyMonitor.Emission.{run_check-Balanced}

abbrev trail : TrailingRule
trail = record { enabled = true; is_percent = true; value = of_ℕ 5 }

monitor-agrees_example :
    (check_stop_loss (some ten_percent) (position_dict held) (of_ℕ 80)
      ≡ stop_loss_fires (some ten_percent) (position_dict held) (of_ℕ 80) [])
    × (check_take_profit (some ten_percent) (position_dict held) (of_ℕ 80)
        ≡ take_profit_fires (some ten_percent) none (position_dict held) (of_ℕ 80) [])
    × ((check_trailing_stop (some trail) (position_dict held) (some (of_ℕ 90)) (of_ℕ 80)).0
        ≡ trailing_stop_fires (some trail) (position_dict held).side (of_ℕ 80) (some (of_ℕ 90)))
    × ((check_trailing_stop (some trail) (position_dict held) (some (of_ℕ 90)) (of_ℕ 80)).1 ≡ (
        if trail.enabled
        then next_extreme (position_dict held).side (of_ℕ 80) (some (of_ℕ 90))
        else some (of_ℕ 90)))
monitor-agrees_example =
    monitor-agrees ten_percent none trail (position_dict held) (of_ℕ 80) (some (of_ℕ 90)) [] refl

abbrev config : Config
config = record { dedup_window_bars = 1; default_expiry_seconds = 300 }

abbrev owners : List Owner
owners = record { strategy_id = 1; user_id = 3 } ∷ []

abbrev resting : Strategy
resting = record {
  id = 1;
  status = paused;
  current_version = 1;
  market = equities;
  auto_pause_error_count = 0;
  last_evaluated_at = none;
  user_id = 3;
}

-- The configuration has no rules; the position has an override, a take profit.
abbrev turn : Turn
turn = record {
  strategy = resting;
  active_config = some no_rules;
  positions =
      record {
        position = held;
        overrides = override_take_profit (some ten_percent) ∷ [];
        price = some (of_ℕ 120);
      }
      ∷ [];
}

abbrev at_start : Check
at_start = record {
  table = [];
  next_id = 500;
  extremes = λ _ _. none;
  positions_checked = 0;
  exits_triggered = 0;
}

-- The check runs in the tenth minute.
run_check-Balanced_example :
    let l = run_check config owners (10 * minute) (turn ∷ []) at_start in
    0 + length l.table ≡ l.exits_triggered + 0
run_check-Balanced_example =
    run_check-Balanced config owners (10 * minute) (turn ∷ []) at_start (refl, tt)

unfoldable monitor : Unit {0}
unfolding exits apply_override stop_check check_stop_loss profit_check check_take_profit
    kept_extreme trail_check check_trailing_stop exit_reason safety_request finish_position
    check_position check_strategy run_check after_cycle
monitor = tt

one_exit : (run_check config owners (10 * minute) (turn ∷ []) at_start).exits_triggered ≡ 1
unfolding monitor
one_exit = refl

alert : after_cycle 3 false 2 ≡ (3, true)
unfolding monitor
alert = refl
