-- ===== src/Risk/Drawdown.antt =====
-- The drawdown monitor, backend/app/risk/monitoring/drawdown.py, the daily loss monitor,
-- monitoring/daily_loss.py, and the automatic halt of `get_drawdown` in service.py.
pub mod Thresholds
use ratatoskr_v.Base.{Bool, true, false, Option, none, some, not, ◌&&◌, if◌then◌else◌}
use ratatoskr_v.Base.Int.{pos}
use ratatoskr_v.Domain.{Time}
use ratatoskr_v.Decimal.{Decimal, of_ℕ, decimal_zero, sub, mul, div, is_le, is_lt}
use ratatoskr_v.Risk.{RiskConfig}
use ratatoskr_v.Risk.Checks.{percent_of}
use ratatoskr_v.Risk.KillSwitch.{Switches, global, is_halted, activate_kill_switch, Result, ok, err}

pub data Threshold : Type 0 where
  degraded normal warning breach catastrophic : Threshold

-- `Decimal("0.7")`
abbrev pub warning_share : Decimal
warning_share = record { coef = pos 7; scale = 1 }

-- `_get_threshold_status`
unfoldable pub get_threshold_status : Decimal → RiskConfig → Threshold
get_threshold_status drawdown_pct c =
    if is_le c.max_drawdown_catastrophic_percent drawdown_pct
    then catastrophic
    else if is_le c.max_drawdown_percent drawdown_pct
    then breach
    else if is_le (mul c.max_drawdown_percent warning_share) drawdown_pct
    then warning
    else normal

-- `get_current_drawdown`: the percentage and the status. A value that the portfolio did not give
-- is `none`.
unfoldable pub get_current_drawdown :
    RiskConfig → Option Decimal → Option Decimal → Decimal × Threshold
get_current_drawdown c (some equity) (some peak) =
    let drawdown_pct : Decimal =
      if is_le peak decimal_zero
      then decimal_zero
      else mul (div (sub peak equity) peak) (of_ℕ 100) in
    (drawdown_pct, get_threshold_status drawdown_pct c)
get_current_drawdown c none peak = (decimal_zero, degraded)
get_current_drawdown c (some equity) none = (decimal_zero, degraded)

-- `get_drawdown`: a catastrophic drawdown activates the global kill switch, unless it is active.
unfoldable pub get_drawdown :
    RiskConfig
    → Option Decimal
    → Option Decimal
    → Time
    → Switches
    → (Decimal × Threshold) × Switches
get_drawdown c equity peak now t =
    let d = get_current_drawdown c equity peak in
    elim (d.1) [
      | catastrophic ↦
          if is_halted global t
          then (d, t)
          else (d, elim (activate_kill_switch global "system" now t) [ ok u ↦ u | err _ ↦ t ])
      | _ ↦ (d, t)
    ]

-- `DailyLossMonitor.get_daily_loss`: the limit and the status.
unfoldable pub get_daily_loss : RiskConfig → Decimal → Decimal → Decimal × Threshold
get_daily_loss c current_loss portfolio_equity =
    let limit : Decimal = elim c.max_daily_loss_amount [
      | some amount ↦ amount
      | none ↦
          if is_lt decimal_zero portfolio_equity
          then percent_of c.max_daily_loss_percent portfolio_equity
          else decimal_zero
    ] in
    (
      limit,
      if is_lt decimal_zero limit
          then if is_le limit current_loss
            then breach
            else if is_le (mul limit warning_share) current_loss
            then warning
            else normal
          else normal,
    )
