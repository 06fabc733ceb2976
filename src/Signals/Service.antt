-- ===== src/Signals/Service.antt =====
-- The deduplicator and the service of signals, backend/app/signals: dedup.py, and service.py with
-- the calls that write the table. A call gets the table and the time, and returns its result and
-- the table.
use ratatoskr_v.Base.{
  ℕ, ◌+◌, ◌-◌, ◌*◌, Bool, true, false, Option, none, some, List, [], ◌∷◌, ◌++◌, not, ltb, leb, ◌==◌,
  if◌then◌else◌, is_some, find,
}
use ratatoskr_v.Domain.{
  Uid, Symbol, Time, second, minute, Side, SignalType, Source, Market, Timeframe, is_exit,
}
use ratatoskr_v.Signals.{
  Config, Owner, Signal, Status, Table, allowed, cancel_by_strategy, canceled, expire_stale,
  find_duplicate, get_by_id, get_expiry_duration, get_pending_signals, insert_by_created,
  is_pending, pending, sort_by_created, timeframe_minutes, update_status,
}

-- The deduplicator. Subtraction stops at 0, and no row was created before that.

unfoldable pub get_window_start : Time → Timeframe → ℕ → Time
get_window_start ts timeframe window_bars = ts - timeframe_minutes timeframe * window_bars * minute

abbrev pub is_strategy : Source → Bool
is_strategy Source.strategy = true
is_strategy _ = false

unfoldable pub is_duplicate :
    Config → Uid → Symbol → Side → SignalType → Source → Timeframe → Time → Table → Option Uid
is_duplicate c strategy symbol side signal_type source timeframe ts t =
    if not (is_strategy source)
    then none
    else if is_exit signal_type
    then none
    else if leb c.dedup_window_bars 0
    then none
    else let start = get_window_start ts timeframe c.dedup_window_bars in
      elim (find_duplicate strategy symbol side signal_type start t) [
        | none ↦ none
        | some s ↦ some s.id
      ]

-- The service. `signal_data`: a value that is missing, or is none of the valid words, is `none`.
pub record Request : Type 0 where
  pub strategy_id : Option Uid
  pub strategy_version : Option Uid
  pub symbol : Option Symbol
  pub market : Market
  pub timeframe : Option Timeframe
  pub side : Option Side
  pub signal_type : Option SignalType
  pub source : Option Source
  pub ts : Option Time

-- The messages of `_validate_signal`.
pub data Invalid : Type 0 where
  no_strategy_id strategy_not_found no_symbol bad_side bad_signal_type bad_source : Invalid
  no_ts ts_in_future ts_too_old no_strategy_version no_timeframe : Invalid

abbrev pub report : Bool → Invalid → List Invalid
report true e = e ∷ []
report false e = []

abbrev pub owner_of : Uid → List Owner → Option Owner
owner_of i = find (λ o. o.strategy_id == i)

abbrev pub check_strategy : List Owner → Option Uid → List Invalid
check_strategy owners none = no_strategy_id ∷ []
check_strategy owners (some i) = report (not (is_some (owner_of i owners))) strategy_not_found

abbrev pub check_ts : Time → Option Time → List Invalid
check_ts now none = no_ts ∷ []
check_ts now (some ts) =
    report (ltb (now + 5 * second) ts) ts_in_future ++ report (ltb ts (now - 5 * minute)) ts_too_old

unfoldable pub validate_signal : List Owner → Time → Request → List Invalid
validate_signal owners now r =
    check_strategy owners r.strategy_id
    ++ (report (not (is_some r.symbol)) no_symbol
        ++ (report (not (is_some r.side)) bad_side
            ++ (report (not (is_some r.signal_type)) bad_signal_type
                ++ (report (not (is_some r.source)) bad_source
                    ++ (check_ts now r.ts
                        ++ (report (not (is_some r.strategy_version)) no_strategy_version
                            ++ report (not (is_some r.timeframe)) no_timeframe))))))

-- The new row.
unfoldable pub new_signal :
    Config
    → Uid
    → Time
    → Market
    → Uid
    → Symbol
    → Side
    → SignalType
    → Source
    → Timeframe
    → Time
    → Signal
new_signal c new_id now market strategy symbol side signal_type source timeframe ts = record {
  id = new_id;
  strategy_id = strategy;
  symbol = symbol;
  market = market;
  timeframe = timeframe;
  side = side;
  signal_type = signal_type;
  source = source;
  status = pending;
  ts = ts;
  expires_at = some (ts + get_expiry_duration c timeframe * second);
  created_at = now;
}

-- The rest of `create_signal` once the data is valid: the duplicate check, and the new row.
unfoldable pub insert_signal :
    Config
    → Uid
    → Time
    → Market
    → Uid
    → Symbol
    → Side
    → SignalType
    → Source
    → Timeframe
    → Time
    → Table
    → Option Signal × Table
insert_signal c new_id now market strategy symbol side signal_type source timeframe ts t =
    let s = new_signal c new_id now market strategy symbol side signal_type source timeframe ts in
    elim (is_duplicate c strategy symbol side signal_type source timeframe ts t) [
      | some existing ↦ (none, t)
      | none ↦ (some s, t ++ s ∷ [])
    ]

-- The body of `create_signal` behind `if errors: return None`, which looks up the keys.
abbrev pub insert_fields :
    Config
    → Uid
    → Time
    → Market
    → Option Uid
    → Option Symbol
    → Option Side
    → Option SignalType
    → Option Source
    → Option Timeframe
    → Option Time
    → Table
    → Option Signal × Table
insert_fields c new_id now market (some strategy) (some symbol) (some side) (some signal_type)
      (some source) (some timeframe) (some ts) t =
    insert_signal c new_id now market strategy symbol side signal_type source timeframe ts t
insert_fields _ _ _ _ _ _ _ _ _ _ _ t = (none, t)

-- `create_signal`. The id and the time of creation are the database's.
unfoldable pub create_signal :
    Config → List Owner → Uid → Time → Request → Table → Option Signal × Table
create_signal c owners new_id now r t = elim (validate_signal owners now r) [
  | e ∷ errors ↦ (none, t)
  | [] ↦
      insert_fields c new_id now r.market r.strategy_id r.symbol r.side r.signal_type r.source
        r.timeframe r.ts t
]

-- What the service raises.
pub data Error : Type 0 where
  signal_not_found : Error
  signal_transition : Status → Error

pub data Result : Type 0 where
  ok : Table → Result
  err : Error → Result

unfoldable pub update_signal_status : Uid → Status → Table → Result
update_signal_status i new_status t = elim (get_by_id i t) [
  | none ↦ err signal_not_found
  | some s ↦
      if allowed s.status new_status
      then ok (update_status i new_status t)
      else err (signal_transition s.status)
]

-- `_verify_ownership`
unfoldable pub is_owned : List Owner → Uid → Uid → Bool
is_owned owners strategy user = elim (owner_of strategy owners) [
  | none ↦ false
  | some o ↦ o.user_id == user
]

-- `cancel_signal`, with `get_signal`
unfoldable pub cancel_signal : List Owner → Uid → Uid → Table → Result
cancel_signal owners i user t = elim (get_by_id i t) [
  | none ↦ err signal_not_found
  | some s ↦
      if not (is_owned owners s.strategy_id user)
      then err signal_not_found
      else if not (is_pending s.status)
      then err (signal_transition s.status)
      else ok (update_status i canceled t)
]

-- A call of the service or of the expiry job, with what it is given.
pub data Call : Type 0 where
  create : Uid → Time → Request → Call
  update : Uid → Status → Call
  cancel : Uid → Uid → Call
  cancel_strategy : Uid → Call
  expire : Time → Call

-- The table after a call: a raise leaves it as it was.
abbrev pub kept : Table → Result → Table
kept t (ok u) = u
kept t (err _) = t

unfoldable pub call : Config → List Owner → Call → Table → Table
call c owners (create i now r) t = (create_signal c owners i now r t).1
call c owners (update i st) t = kept t (update_signal_status i st t)
call c owners (cancel i user) t = kept t (cancel_signal owners i user t)
call c owners (cancel_strategy strategy) t = (cancel_by_strategy strategy t).1
call c owners (expire now) t = (expire_stale now t).1

unfoldable pub calls : Config → List Owner → List Call → Table → Table
calls c owners [] t = t
calls c owners (k ∷ ks) t = calls c owners ks (call c owners k t)

-- To be named on the `unfolding` line of a test.
unfoldable pub service : Unit {0}
unfolding calls call create_signal validate_signal insert_signal new_signal is_duplicate
    find_duplicate get_window_start timeframe_minutes get_expiry_duration update_signal_status
    cancel_signal is_owned get_by_id update_status allowed expire_stale cancel_by_strategy
    get_pending_signals sort_by_created insert_by_created
service = tt
