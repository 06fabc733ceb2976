-- ===== src/Strategies/Runner.antt =====
-- The strategy runner, backend/app/strategies/runner.py: which strategies are due, one evaluation of
-- a strategy over its symbols with the signals that it creates, and the counting of errors up to the
-- pause. What `get_bars` gives of a symbol is a parameter, `none` where the body of the loop raises.
-- The strategies that run at the same time are taken one after the other. Events, evaluation records
-- and the shadow exits write nothing that is read here.
pub mod Clock
pub mod Counting
pub mod Pausing
mod Tests
use ratatoskr_v.Base.{
  ℕ, suc, ◌+◌, ◌*◌, ◌/◌, ◌%◌, Bool, true, false, Option, none, some, List, [], ◌∷◌, ◌++◌, ◌&&◌,
  ◌||◌, not, leb, ltb, ◌==◌, if◌then◌else◌, is_some, length,
}
use ratatoskr_v.Domain.{
  Uid, Symbol, Time, minute, Side, buy, sell, SignalType, Source, Timeframe, Market, equities,
  forex, m1, m5, m15, h1, h4, d1,
}
use ratatoskr_v.Decimal.{Decimal}
use ratatoskr_v.MarketData.{Bar}
use ratatoskr_v.Portfolio.{is_long, Position, get_open}
use ratatoskr_v.Signals.{Config, Owner, Signal, Table}
use ratatoskr_v.Signals.Service.{Request, create_signal}
use ratatoskr_v.Strategies.Conditions.{Logic, Items, Values, evaluate}
use ratatoskr_v.Strategies.Models.{Strategy, StrategyStatus, enabled, paused, is_enabled}
use ratatoskr_v.Strategies.Exits.{ExitConfig, ExitReason, position_dict, evaluate_exit}

-- the minute, the hour and the weekday (Monday is 0) of a time; the epoch was a Thursday
unfoldable pub clock_minute : Time → ℕ
clock_minute now = now / minute % 60

unfoldable pub clock_hour : Time → ℕ
clock_hour now = now / minute / 60 % 24

unfoldable pub clock_weekday : Time → ℕ
clock_weekday now = (now / minute / 1440 + 3) % 7

-- `_is_due`
unfoldable pub is_due : Timeframe → Time → Bool
is_due m1 now = true
is_due m5 now = clock_minute now % 5 == 0
is_due m15 now = clock_minute now % 15 == 0
is_due h1 now = clock_minute now == 0
is_due h4 now = clock_hour now % 4 == 0 && clock_minute now == 0
is_due d1 now = false
is_due Timeframe.other now = false

pub data TradingMode : Type 0 where
  regular extended custom other_mode : TradingMode

-- the market of a strategy, `both` for equities and forex
pub data StrategyMarket : Type 0 where
  trades_forex trades_equities trades_both trades_other : StrategyMarket

abbrev pub forex_open : ℕ → ℕ → Bool
forex_open weekday hour =
    if weekday == 5
    then false
    else if weekday == 6
    then leb 22 hour
    else if weekday == 4
    then ltb hour 22
    else true

abbrev pub equities_open : TradingMode → ℕ → ℕ → Bool
equities_open mode weekday hour = if leb 5 weekday then false else elim mode [
  | regular ↦ leb 13 hour && ltb hour 21
  | extended ↦ leb 8 hour && ltb hour 24
  | custom ↦ true
  | other_mode ↦ true
]

-- `_is_market_open`
unfoldable pub is_market_open : StrategyMarket → TradingMode → Time → Bool
is_market_open trades_forex mode now = forex_open (clock_weekday now) (clock_hour now)
is_market_open trades_equities mode now = equities_open mode (clock_weekday now) (clock_hour now)
is_market_open trades_both mode now = equities_open mode (clock_weekday now) (clock_hour now)
is_market_open trades_other mode now = true

-- The configuration, with its symbols resolved.
pub record RunConfig : Type 0 where
  pub market : StrategyMarket
  pub trading_mode : TradingMode
  pub timeframe : Timeframe
  pub symbols : List Symbol
  pub entry_conditions : Option (Logic × Items)
  pub entry_side : Side
  pub exits : ExitConfig

-- `_evaluate_entry`
unfoldable pub evaluate_entry : Values → RunConfig → List Bar → Bool
evaluate_entry v c bars = elim c.entry_conditions [
  | none ↦ false
  | some e ↦ evaluate v (e.0) (e.1) bars
]

-- The data of `_emit_signal`.
unfoldable pub strategy_request : Strategy → RunConfig → Symbol → Side → SignalType → Time → Request
strategy_request s c symbol side signal_type now = record {
  strategy_id = some s.id;
  strategy_version = some s.current_version;
  symbol = some symbol;
  market = s.market;
  timeframe = some c.timeframe;
  side = some side;
  signal_type = some signal_type;
  source = some Source.strategy;
  ts = some now;
}

-- `details[symbol]["status"]`
pub data SymbolStatus : Type 0 where
  no_data no_signal entry_signal entry_signal_rejected : SymbolStatus
  position_held exit_signal exit_signal_rejected error : SymbolStatus

-- What an evaluation changes, and its counters.
pub record Evaluation : Type 0 where
  pub table : Table
  pub next_id : Uid
  pub extremes : Symbol → Option Decimal
  pub signals_emitted : ℕ
  pub exits_triggered : ℕ
  pub errors : ℕ
  pub details : List SymbolStatus

abbrev pub with_status : SymbolStatus → Evaluation → Evaluation
with_status status e = record e { details = e.details ++ status ∷ [] }

-- an entry signal is created, or refused by the service
unfoldable pub after_entry : Option Signal × Table → Evaluation → Evaluation
after_entry (none, t) e = with_status entry_signal_rejected (record e { table = t })
after_entry (some s, t) e =
    with_status entry_signal
      (record e { table = t; next_id = e.next_id + 1; signals_emitted = e.signals_emitted + 1 })

unfoldable pub after_exit : Option Signal × Table → Evaluation → Evaluation
after_exit (none, t) e = with_status exit_signal_rejected (record e { table = t })
after_exit (some s, t) e =
    with_status exit_signal
      (record e { table = t; next_id = e.next_id + 1; exits_triggered = e.exits_triggered + 1 })

-- What an evaluation reads: the service's configuration and owners, the values of indicators and
-- formulas, the positions, and the bars of a symbol.
pub record Inputs : Type 0 where
  pub signal_config : Config
  pub owners : List Owner
  pub values : Values
  pub positions : List Position
  pub get_bars : Symbol → Option (List Bar)

unfoldable pub step_entry :
    Inputs → Time → Strategy → RunConfig → Symbol → List Bar → Evaluation → Evaluation
step_entry i now s c symbol bars e =
    if evaluate_entry i.values c bars
    then after_entry
        (create_signal i.signal_config i.owners e.next_id now
          (strategy_request s c symbol c.entry_side SignalType.entry now) e.table)
        e
    else with_status no_signal e

-- the exit of a position, whose reason does not change the signal
unfoldable pub finish_exit :
    Inputs
    → Time
    → Strategy
    → RunConfig
    → Symbol
    → Position
    → Option ExitReason
    → Evaluation
    → Evaluation
finish_exit i now s c symbol p none e = with_status position_held e
finish_exit i now s c symbol p (some reason) e =
    after_exit
      (create_signal i.signal_config i.owners e.next_id now
        (strategy_request s c symbol (if is_long p.side then sell else buy) SignalType.exit now)
        e.table)
      e

abbrev pub keep_extreme :
    Symbol → Option Decimal → (Symbol → Option Decimal) → Symbol → Option Decimal
keep_extreme symbol d extremes s = if s == symbol then d else extremes s

unfoldable pub step_exit :
    Inputs → Time → Strategy → RunConfig → Symbol → List Bar → Position → Evaluation → Evaluation
step_exit i now s c symbol bars p e =
    let r = evaluate_exit i.values c.exits bars (position_dict p) (e.extremes symbol) in
    finish_exit i now s c symbol p (r.0)
      (record e { extremes = keep_extreme symbol (r.1) e.extremes })

-- the body of the loop over the symbols
unfoldable pub evaluate_symbol :
    Inputs → Time → Strategy → RunConfig → Symbol → Evaluation → Evaluation
evaluate_symbol i now s c symbol e = elim (i.get_bars symbol) [
  | none ↦ with_status error (record e { errors = e.errors + 1 })
  | some [] ↦ with_status no_data e
  | some (b ∷ bars) ↦ elim (get_open s.id symbol i.positions) [
    | none ↦ step_entry i now s c symbol (b ∷ bars) e
    | some p ↦ step_exit i now s c symbol (b ∷ bars) p e
  ]
]

abbrev pub evaluate_symbols :
    Inputs → Time → Strategy → RunConfig → List Symbol → Evaluation → Evaluation
evaluate_symbols i now s c [] e = e
evaluate_symbols i now s c (x ∷ xs) e =
    evaluate_symbols i now s c xs (evaluate_symbol i now s c x e)

pub data EvaluationStatus : Type 0 where
  market_closed no_symbols success partial_success failed : EvaluationStatus

unfoldable pub status_of : ℕ → ℕ → EvaluationStatus
status_of errors symbols =
    if ltb 0 errors && errors == symbols
    then failed
    else if ltb 0 errors
    then partial_success
    else success

-- the counters of a new evaluation
abbrev pub start : Evaluation → Evaluation
start e = record e { signals_emitted = 0; exits_triggered = 0; errors = 0; details = [] }

-- `evaluate_strategy`
unfoldable pub evaluate_strategy :
    Inputs → Time → Strategy → RunConfig → Evaluation → EvaluationStatus × Evaluation
evaluate_strategy i now s c e =
    if not (is_market_open c.market c.trading_mode now)
    then (market_closed, start e)
    else elim c.symbols [
      | [] ↦ (no_symbols, start e)
      | x ∷ xs ↦
          let r = evaluate_symbols i now s c (x ∷ xs) (start e) in
          (status_of r.errors (length (x ∷ xs)), r)
    ]

-- `_handle_auto_pause`
unfoldable pub handle_auto_pause : Strategy → Strategy
handle_auto_pause s = record s { status = paused; auto_pause_error_count = 0 }

-- What `run_evaluation_cycle` does with the result of a strategy, which raised or did not.
unfoldable pub after_result : ℕ → Time → Bool → Strategy → Strategy
after_result threshold now raised s =
    let counted = record s { auto_pause_error_count = s.auto_pause_error_count + 1 } in
    if raised
    then (if leb threshold (s.auto_pause_error_count + 1)
        then handle_auto_pause counted
        else counted)
    else record s { auto_pause_error_count = 0; last_evaluated_at = some now }

-- A strategy in a cycle: only one that is enabled and due is evaluated.
unfoldable pub cycle_strategy : ℕ → Time → Timeframe → Bool → Strategy → Strategy
cycle_strategy threshold now timeframe raised s =
    if is_enabled s.status && is_due timeframe now then after_result threshold now raised s else s
