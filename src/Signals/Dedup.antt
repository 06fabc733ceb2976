-- ===== src/Signals/Dedup.antt =====
-- What the deduplicator (dedup.py) promises to `create_signal`.
use ratatoskr_v.Base.{
  ◌+◌, ◌*◌, ◌≤◌, ◌<◌, ◌≡◌, ◌≢◌, ◌⊎◌, Bool, true, false, Option, none, some, List, [], ◌∷◌, ◌++◌,
  arith, find, is_some,
}
use ratatoskr_v.Domain.{
  Uid, Symbol, Time, minute, Side, SignalType, Source, Market, Timeframe, is_exit,
}
use ratatoskr_v.Signals.{Signal, Table, Owner, Config, is_match, find_duplicate, timeframe_minutes}
use ratatoskr_v.Signals.Service.{
  is_strategy, get_window_start, is_duplicate, new_signal, insert_signal, create_signal,
  insert_fields, Request,
}

find-append_hit :
    (p : Signal → Bool) (t : Table) (s : Signal) → p s ≡ true → find p (t ++ s ∷ []) ≢ none
find-append_hit p [] s h = ground arith
find-append_hit p (x ∷ t) s h = ground (arith, find-append_hit p t s h)

module _ (c : Config) (m : Market) (strategy : Uid) (symbol : Symbol) (side : Side)
    (signal_type : SignalType) (source : Source) (timeframe : Timeframe) where
  -- Exits, and signals of the user, of the safety monitor and of the system, are always inserted.
  insert_signal-bypass :
      (new_id : Uid) (now ts : Time) (t : Table)
      → (is_exit signal_type ≡ true) ⊎ (is_strategy source ≡ false)
      → is_some
          (insert_signal c new_id now m strategy symbol side signal_type source timeframe ts t).0
        ≡ true
  unfolding insert_signal is_duplicate
  insert_signal-bypass new_id now ts t h = ground arith

  abbrev row : Uid → Time → Time → Signal
  row new_id now ts = new_signal c new_id now m strategy symbol side signal_type source timeframe ts

  -- A row of these fields, created at or after the start of the window, is a match.
  new_signal-is_match :
      (new_id : Uid) (now ts start : Time)
      → start ≤ now
      → is_match strategy symbol side signal_type start (row new_id now ts) ≡ true
  unfolding new_signal
  new_signal-is_match new_id now ts start h = ground arith

  is_duplicate_found :
      (ts' : Time) (t : Table)
      → is_exit signal_type ≡ false
      → is_strategy source ≡ true
      → 0 < c.dedup_window_bars
      → find_duplicate strategy symbol side signal_type
          (get_window_start ts' timeframe c.dedup_window_bars)
          t
        ≢ none
      → is_duplicate c strategy symbol side signal_type source timeframe ts' t ≢ none
  unfolding is_duplicate
  is_duplicate_found ts' t h1 h2 h3 found = ground arith

  -- An entry of a strategy that was inserted at `now` blocks a second one whose window starts by
  -- then.
  pub insert_signal-repeat :
      (new_id next_id : Uid) (now then_ ts ts' : Time) (t : Table)
      → is_exit signal_type ≡ false
      → is_strategy source ≡ true
      → 0 < c.dedup_window_bars
      → ts' ≤ now + timeframe_minutes timeframe * c.dedup_window_bars * minute
      → let (made, u) =
          insert_signal c new_id now m strategy symbol side signal_type source timeframe ts t in
        is_some made ≡ true
        → insert_signal c next_id then_ m strategy symbol side signal_type source timeframe ts' u
          ≡ (none, u)
  unfolding insert_signal find_duplicate get_window_start
  insert_signal-repeat new_id next_id now then_ ts ts' t h1 h2 h3 h4 made =
      let u = t ++ row new_id now ts ∷ [] in
      let start = get_window_start ts' timeframe c.dedup_window_bars in
      let hit =
        find-append_hit (is_match strategy symbol side signal_type start) t (row new_id now ts)
          (new_signal-is_match new_id now ts start (omega arith)) in
      ground (arith, is_duplicate_found ts' u h1 h2 h3 hit)

-- The same request, at another time.
abbrev pub at_time : Time → Request → Request
at_time ts r = record r { ts = some ts }

insert_fields-repeat :
    (c : Config) (m : Market) (new_id next_id : Uid) (now then_ ts' : Time) (strategy : Option Uid)
    (symbol : Option Symbol) (side : Option Side) (signal_type : Option SignalType)
    (source : Option Source) (timeframe : Option Timeframe) (ts : Option Time) (t : Table)
    {kind : SignalType} {tf : Timeframe}
    → signal_type ≡ some kind
    → is_exit kind ≡ false
    → source ≡ some Source.strategy
    → timeframe ≡ some tf
    → 0 < c.dedup_window_bars
    → ts' ≤ now + timeframe_minutes tf * c.dedup_window_bars * minute
    → let (made, u) =
        insert_fields c new_id now m strategy symbol side signal_type source timeframe ts t in
      is_some made ≡ true
      → insert_fields c next_id then_ m strategy symbol side signal_type source timeframe
          (some ts')
          u
        ≡ (none, u)
insert_fields-repeat c m new_id next_id now then_ ts' (some strategy) (some symbol) (some side)
      (some signal_type) (some source) (some timeframe) (some ts) t {kind} {tf} e1 h1 e2 e3 h2 h3
      made =
    insert_signal-repeat c m strategy symbol side signal_type source timeframe new_id next_id now
      then_ ts ts' t (ground arith) (ground arith) h2 (let e : timeframe ≡ tf = cc in rw e h3) made
insert_fields-repeat c m new_id next_id now then_ ts' _ _ _ _ _ _ _ t e1 h1 e2 e3 h2 h3 made = cc

-- A strategy's entry or scale-in that was created at `now` blocks the same request at any later
-- signal time within the window: it creates nothing.
pub create_signal-repeat :
    (c : Config) (owners : List Owner) (new_id next_id : Uid) (now then_ ts' : Time) (r : Request)
    (t : Table) {kind : SignalType} {tf : Timeframe}
    → r.signal_type ≡ some kind
    → is_exit kind ≡ false
    → r.source ≡ some Source.strategy
    → r.timeframe ≡ some tf
    → 0 < c.dedup_window_bars
    → ts' ≤ now + timeframe_minutes tf * c.dedup_window_bars * minute
    → is_some (create_signal c owners new_id now r t).0 ≡ true
    → let u = (create_signal c owners new_id now r t).1 in
      create_signal c owners next_id then_ (at_time ts' r) u ≡ (none, u)
unfolding create_signal
create_signal-repeat c owners new_id next_id now then_ ts' r t {kind} {tf} e1 h1 e2 e3 h2 h3 made =
    ground (
      arith,
      insert_fields-repeat c r.market new_id next_id now then_ ts' r.strategy_id r.symbol r.side
          r.signal_type r.source r.timeframe r.ts t {kind = kind} {tf = tf} e1 h1 e2 e3 h2 h3,
    )
