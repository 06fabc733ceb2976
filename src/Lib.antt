-- ===== src/Lib.antt =====
-- A verification library for the trading core of Ratatoskr: the way of a signal from its creation
-- through the risk engine and the paper trading service to a position in the portfolio.
--
-- The program, and how its parts interact. A strategy, a user or the safety monitor creates a
-- signal (backend/app/signals). A timer takes the pending signals, oldest first, to the risk engine
-- (backend/app/risk), which runs its checks, writes a decision and moves the signal to a status of
-- its own. A second timer takes the approved signals to the paper trading service
-- (backend/app/paper_trading): it makes an order, checks the cash, submits the order to an executor,
-- records the fill and tells the portfolio (backend/app/portfolio), which opens, changes or closes a
-- position, books the cash and writes the ledger of realized gains. Beside it, the market data module
-- (backend/app/market_data) builds the bars of the higher timeframes from those of a minute. The
-- strategies (backend/app/strategies) read them: the runner evaluates each strategy that is due, with
-- conditions over indicators and formulas for its entries and with prices for its exits, creates the
-- signals and pauses a strategy that fails again and again; the safety monitor watches the positions
-- of those that are paused.
--
-- The files.
--   Base          names that all modules share, lists as tables, integers over the native numbers
--   Decimal       Python's `decimal` in the default context: 28 digits, rounded half to even, with
--                 the laws of its order and of its signs
--   Domain        the words that the modules exchange
--   Signals       models.py, config.py and repository.py; Signals.Service is dedup.py and service.py
--   Risk          checks/base.py and models.py; Risk.Checks is checks/*.py, Risk.Pipeline is
--                 `evaluate_signal`, `_evaluate_exit_fast_path` and `evaluate_pending_signals` of
--                 service.py, Risk.KillSwitch its kill switches, Risk.Drawdown is monitoring/*.py
--   PaperTrading  models.py and config.py; Fills is fill_simulation/*.py, Cash is cash_manager.py,
--                 Quantity is `_determine_qty`, ForexPool is forex_pool/*.py, Executors is
--                 executors/*.py, Service is `process_signal` and `process_approved_signals`
--   Portfolio     models.py and repository.py; FillProcessor is fill_processor.py with
--                 `PnlLedger.record_close` of pnl.py, Dividends is dividends.py, Options is
--                 options_lifecycle.py, and MarkToMarket is mark_to_market.py
--   MarketData    models.py and repository.py as far as bars go; Aggregation is
--                 aggregation/engine.py
--   Strategies    Conditions is conditions/engine.py; Formulas is formulas/parser.py, with the
--                 children Tokenizer, Parser, Operations, Evaluator and Validation, and with Printer,
--                 a printer that the code does not have; Indicators is indicators/compute.py with
--                 Momentum, Oscillators and Strength; Exits is `_evaluate_exit` of runner.py with
--                 what it calls, Runner the rest of that file, Models is models.py, and
--                 SafetyMonitor is safety_monitor.py
-- A function of the model has the name of the Python function. A table of the database is a list of
-- rows in the order of insertion, an operation is a function from the tables it reads and writes, and
-- an error that Python raises is a value. The ids that the database gives, the clock and the answers
-- of other services are arguments. What each file proves stands in its children.
--
-- Bounds. Every loop of the code runs over a list and is a recursion over it; rounding drops excess
-- digits with the number itself for fuel, which is enough (Decimal.Digits). The parser of formulas
-- calls itself on the same tokens and runs on fuel, six for each token and six more, which is enough
-- (Strategies.Formulas.Parser.Total). Time is in microseconds since the epoch.
--
-- Not modelled. Audit events, logs, snapshots and metrics, which only record; splits, and the reads
-- of the portfolio; the shadow positions and the reconciliation of paper trading; the HTTP routers;
-- the adapters, streams and backfill of market data; the Bollinger bands, which take a square root;
-- the validation of strategy configurations and the normalization of their keys; the backtesting,
-- authentication and observability modules; concurrency between sessions, since each call runs in
-- one database transaction. A Decimal has no NaN, no infinity and no bound on its exponent, and a
-- division by zero, which the code guards, gives zero. A stored value keeps the digits that the
-- code computes: the rounding to the scale of its column, `Numeric(18, 2)` for amounts and
-- `Numeric(18, 8)` for prices and quantities, is the database's and is not applied. The broker's
-- interface, the registry of indicators, and what indicators and formulas give to the condition
-- engine, are parameters. Python's recursion limit, which a deeply nested formula
-- reaches, is not modelled. Of the constraints of the database, the unique signal of decisions and of
-- orders and the foreign key of an order's decision are.
pub mod Base
pub mod Decimal
pub mod Domain
pub mod Signals
pub mod Risk
pub mod PaperTrading
pub mod Portfolio
pub mod MarketData
pub mod Strategies
