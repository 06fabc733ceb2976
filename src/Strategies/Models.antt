-- ===== src/Strategies/Models.antt =====
-- The table of strategies, backend/app/strategies/models.py.
use ratatoskr_v.Base.{ℕ, Bool, true, false, Option}
use ratatoskr_v.Domain.{Uid, Time, Market}

pub data StrategyStatus : Type 0 where
  draft enabled paused disabled : StrategyStatus

-- `Strategy`, less its texts.
pub record Strategy : Type 0 where
  pub id : Uid
  pub status : StrategyStatus
  pub current_version : Uid
  pub market : Market
  pub auto_pause_error_count : ℕ
  pub last_evaluated_at : Option Time
  pub user_id : Uid

abbrev pub is_enabled : StrategyStatus → Bool
is_enabled enabled = true
is_enabled _ = false

-- `status == "paused" or status == "disabled"`
abbrev pub is_orphaned : StrategyStatus → Bool
is_orphaned paused = true
is_orphaned disabled = true
is_orphaned _ = false
