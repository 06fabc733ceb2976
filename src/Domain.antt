-- ===== src/Domain.antt =====
-- The words that the modules exchange: sides, signal types, sources, markets and timeframes. The
-- program keeps them as strings; a word that it does not know is `other`.
use ratatoskr_v.Base.{ℕ, Bool, true, false}

-- Ids (UUID) and symbols are only compared.
abbrev pub Uid : Type 0
Uid = ℕ

abbrev pub Symbol : Type 0
Symbol = ℕ

-- Microseconds since the epoch.
abbrev pub Time : Type 0
Time = ℕ

abbrev pub second : Time
second = 1000000

abbrev pub minute : Time
minute = 60000000

pub data Side : Type 0 where
  buy sell : Side

pub data SignalType : Type 0 where
  entry exit scale_in scale_out : SignalType

pub data Source : Type 0 where
  strategy manual safety system : Source

pub data Market : Type 0 where
  equities options forex other : Market

pub data Timeframe : Type 0 where
  m1 m5 m15 h1 h4 d1 other : Timeframe

-- `a == b` on these words, by their numbers
abbrev pub side_code : Side → ℕ
side_code buy = 0
side_code sell = 1

abbrev pub type_code : SignalType → ℕ
type_code entry = 0
type_code exit = 1
type_code scale_in = 2
type_code scale_out = 3

abbrev pub is_buy : Side → Bool
is_buy buy = true
is_buy sell = false

abbrev pub is_forex : Market → Bool
is_forex forex = true
is_forex _ = false

-- `signal_type in ("exit", "scale_out")`
abbrev pub is_exit : SignalType → Bool
is_exit exit = true
is_exit scale_out = true
is_exit _ = false
