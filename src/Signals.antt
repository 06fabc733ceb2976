-- ===== src/Signals.antt =====
-- The signals module, backend/app/signals: models.py, config.py and repository.py. The table
-- `signals` is a list of rows, and rows are inserted at the end. The children are the deduplicator
-- with the service, and what is proved of them.
pub mod Service
pub mod Lifecycle
pub mod Dedup
pub mod Expiry
mod Tests
use ratatoskr_v.Base.{
  ℕ, ◌+◌, ◌-◌, ◌*◌, Bool, true, false, Option, none, some, List, [], ◌∷◌, ◌++◌, ◌&&◌, ◌||◌, not,
  ltb, leb, ◌==◌, if◌then◌else◌, is_some, find, select, count, update_where, update_first,
}
use ratatoskr_v.Domain.{
  Uid, Symbol, Time, second, minute, Side, SignalType, Source, Market, Timeframe, m1, m5, m15, h1,
  h4, d1, side_code, type_code, is_exit,
}

pub data Status : Type 0 where
  pending risk_approved risk_rejected risk_modified expired canceled : Status
  order_filled order_rejected : Status

pub record Signal : Type 0 where
  pub id : Uid
  pub strategy_id : Uid
  pub symbol : Symbol
  pub market : Market
  pub timeframe : Timeframe
  pub side : Side
  pub signal_type : SignalType
  pub source : Source
  pub status : Status
  pub ts : Time
  pub expires_at : Option Time
  pub created_at : Time

abbrev pub Table : Type 0
Table = List Signal

-- A row of `strategies`, as far as this module reads it.
pub record Owner : Type 0 where
  pub strategy_id : Uid
  pub user_id : Uid

pub record Config : Type 0 where
  pub dedup_window_bars : ℕ
  pub default_expiry_seconds : ℕ

-- `_TIMEFRAME_EXPIRY_SECONDS`
unfoldable pub get_expiry_duration : Config → Timeframe → ℕ
get_expiry_duration c m1 = 120
get_expiry_duration c m5 = 600
get_expiry_duration c m15 = 1800
get_expiry_duration c h1 = 3600
get_expiry_duration c h4 = 14400
get_expiry_duration c d1 = 86400
get_expiry_duration c Timeframe.other = c.default_expiry_seconds

-- `_TIMEFRAME_MINUTES.get(timeframe, 1)` of the deduplicator
unfoldable pub timeframe_minutes : Timeframe → ℕ
timeframe_minutes m1 = 1
timeframe_minutes m5 = 5
timeframe_minutes m15 = 15
timeframe_minutes h1 = 60
timeframe_minutes h4 = 240
timeframe_minutes d1 = 1440
timeframe_minutes Timeframe.other = 1

abbrev pub is_pending : Status → Bool
is_pending pending = true
is_pending _ = false

-- `Signal.status.in_(["pending", "risk_approved"])`
abbrev pub is_live : Status → Bool
is_live pending = true
is_live risk_approved = true
is_live _ = false

-- `_VALID_TRANSITIONS`
unfoldable pub allowed : Status → Status → Bool
allowed pending risk_approved = true
allowed pending risk_rejected = true
allowed pending risk_modified = true
allowed pending expired = true
allowed pending canceled = true
allowed risk_approved order_filled = true
allowed risk_approved order_rejected = true
allowed risk_modified order_filled = true
allowed risk_modified order_rejected = true
allowed _ _ = false

-- The repository.

abbrev pub has_id : Uid → Signal → Bool
has_id i s = s.id == i

unfoldable pub get_by_id : Uid → Table → Option Signal
get_by_id i = find (has_id i)

abbrev pub with_status : Status → Signal → Signal
with_status st s = record s { status = st }

unfoldable pub update_status : Uid → Status → Table → Table
update_status i st = update_first (has_id i) (with_status st)

abbrev pub is_match : Uid → Symbol → Side → SignalType → Time → Signal → Bool
is_match strategy symbol side signal_type window_start s =
    s.strategy_id == strategy
    && s.symbol == symbol
    && side_code s.side == side_code side
    && type_code s.signal_type == type_code signal_type
    && is_live s.status
    && leb window_start s.created_at

unfoldable pub find_duplicate : Uid → Symbol → Side → SignalType → Time → Table → Option Signal
find_duplicate strategy symbol side signal_type window_start =
    find (is_match strategy symbol side signal_type window_start)

-- `Signal.expires_at != None, Signal.expires_at < now`
abbrev pub is_past : Time → Option Time → Bool
is_past now none = false
is_past now (some at) = ltb at now

abbrev pub is_stale : Time → Signal → Bool
is_stale now s = is_pending s.status && is_past now s.expires_at

-- The number of rows is returned with the table.
unfoldable pub expire_stale : Time → Table → ℕ × Table
expire_stale now t = (count (is_stale now) t, update_where (is_stale now) (with_status expired) t)

abbrev pub is_pending_of : Uid → Signal → Bool
is_pending_of strategy s = s.strategy_id == strategy && is_pending s.status

unfoldable pub cancel_by_strategy : Uid → Table → ℕ × Table
cancel_by_strategy strategy t = (
  count (is_pending_of strategy) t,
  update_where (is_pending_of strategy) (with_status canceled) t,
)

-- `order_by(Signal.created_at.asc())`
unfoldable pub insert_by_created : Signal → Table → Table
insert_by_created s [] = s ∷ []
insert_by_created s (x ∷ xs) =
    let rest = insert_by_created s xs in
    if leb s.created_at x.created_at then s ∷ x ∷ xs else x ∷ rest

unfoldable pub sort_by_created : Table → Table
unfolding insert_by_created
sort_by_created [] = []
sort_by_created (x ∷ xs) = insert_by_created x (sort_by_created xs)

unfoldable pub get_pending_signals : Table → Table
get_pending_signals t = sort_by_created (select (λ s. is_pending s.status) t)
