-- ===== src/Risk/Drawdown/Thresholds.antt =====
-- The thresholds of the monitors (monitoring/drawdown.py, monitoring/daily_loss.py) against the
-- checks that use the same limits, and the automatic halt.
use ratatoskr_v.Base.{◌≡◌, ◌≢◌, ◌⊎◌, Bool, true, false, Option, arith, ◌≤◌, ◌↔◌, ℕ}
use ratatoskr_v.Domain.{Time, is_exit}
use ratatoskr_v.Decimal.{Decimal, mul}
use ratatoskr_v.Decimal.Order.{Le, is_le_trans}
use ratatoskr_v.Signals.{Signal}
use ratatoskr_v.Risk.{RiskConfig, Context, reject}
use ratatoskr_v.Risk.Checks.{drawdown}
use ratatoskr_v.Risk.KillSwitch.{global, Switches, is_halted}
use ratatoskr_v.Risk.KillSwitch.Laws.{activate_kill_switch_lem}
use ratatoskr_v.Risk.Drawdown.{
  Threshold, degraded, normal, warning, breach, catastrophic, warning_share, get_threshold_status,
  get_drawdown,
}

abbrev pub level : Threshold → ℕ
level degraded = 0
level normal = 0
level warning = 1
level breach = 2
level catastrophic = 3

-- A deeper drawdown never lowers the level, whatever the order of the configured limits.
get_threshold_status_mono :
    (c : RiskConfig) (d e : Decimal)
    → Le d e
    → level (get_threshold_status d c) ≤ level (get_threshold_status e c)
unfolding get_threshold_status
get_threshold_status_mono c d e h = ground (
  arith,
  is_le_trans c.max_drawdown_catastrophic_percent d e,
  is_le_trans c.max_drawdown_percent d e,
  is_le_trans (mul c.max_drawdown_percent warning_share) d e,
)

abbrev pub is_severe : Threshold → Bool
is_severe breach = true
is_severe catastrophic = true
is_severe _ = false

-- Where the catastrophic limit is not below the drawdown limit, the monitor reports a breach or
-- worse exactly when the drawdown check rejects opening signals.
get_threshold_status-drawdown :
    (s : Signal) (c : Context)
    → is_exit s.signal_type ≡ false
    → Le c.risk_config.max_drawdown_percent c.risk_config.max_drawdown_catastrophic_percent
    → (is_severe (get_threshold_status c.current_drawdown_percent c.risk_config) ≡ true)
      ↔ (drawdown s c ≡ reject "drawdown_limit")
unfolding get_threshold_status drawdown
get_threshold_status-drawdown s c opening h =
    let t =
      is_le_trans c.risk_config.max_drawdown_percent c.risk_config.max_drawdown_catastrophic_percent
        c.current_drawdown_percent h in
    (λ p. ground (arith, t), λ p. ground (arith, t))

-- Reading a catastrophic drawdown leaves the whole platform halted; any other reading changes no
-- switch.
get_drawdown-halts :
    (c : RiskConfig) (equity peak : Option Decimal) (now : Time) (t : Switches)
    → let (d, u) = get_drawdown c equity peak now t in
      ((d.1 ≡ catastrophic) × (is_halted global u ≡ true)) ⊎ ((d.1 ≢ catastrophic) × (u ≡ t))
unfolding get_drawdown
get_drawdown-halts c equity peak now t =
    ground (arith, activate_kill_switch_lem global "system" now t)
