-- ===== src/MarketData.antt =====
-- The market data module, backend/app/market_data, as far as it is modelled: the table of bars.
pub mod Aggregation
use ratatoskr_v.Base.{
  ℕ, zero, suc, Bool, true, false, Option, none, some, List, [], ◌∷◌, ◌&&◌, leb, ltb, ◌==◌,
  if◌then◌else◌, select, update_first, is_some, find, ◌++◌,
}
use ratatoskr_v.Domain.{Symbol, Time, Market, Timeframe, m1, m5, m15, h1, h4, d1}
use ratatoskr_v.Decimal.{Decimal}

-- `OHLCVBar`, less its source.
pub record Bar : Type 0 where
  pub symbol : Symbol
  pub market : Market
  pub timeframe : Timeframe
  pub ts : Time
  pub open_price : Decimal
  pub high : Decimal
  pub low : Decimal
  pub close : Decimal
  pub volume : Decimal
  pub is_aggregated : Bool

abbrev pub timeframe_code : Timeframe → ℕ
timeframe_code m1 = 1
timeframe_code m5 = 2
timeframe_code m15 = 3
timeframe_code h1 = 4
timeframe_code h4 = 5
timeframe_code d1 = 6
timeframe_code Timeframe.other = 0

-- The rows that `get_bars` asks for. Both ends are included.
abbrev pub is_between : Symbol → Timeframe → Time → Time → Bar → Bool
is_between symbol timeframe start end b =
    b.symbol == symbol
    && timeframe_code b.timeframe == timeframe_code timeframe
    && leb start b.ts
    && leb b.ts end

-- `order_by(ts.desc())`
unfoldable pub insert_by_ts : Bar → List Bar → List Bar
insert_by_ts b [] = b ∷ []
insert_by_ts b (x ∷ xs) =
    let rest = insert_by_ts b xs in if leb x.ts b.ts then b ∷ x ∷ xs else x ∷ rest

unfoldable pub newest_first : List Bar → List Bar
newest_first [] = []
newest_first (x ∷ xs) = insert_by_ts x (newest_first xs)

-- `limit(n)`
unfoldable pub take : ℕ → List Bar → List Bar
take zero xs = []
take (suc n) [] = []
take (suc n) (x ∷ xs) = x ∷ take n xs

unfoldable pub get_bars : Symbol → Timeframe → ℕ → Time → Time → List Bar → List Bar
get_bars symbol timeframe limit start end t =
    take limit (newest_first (select (is_between symbol timeframe start end) t))

-- The unique key of a row.
abbrev pub is_same_bar : Bar → Bar → Bool
is_same_bar b x =
    x.symbol == b.symbol && timeframe_code x.timeframe == timeframe_code b.timeframe && x.ts == b.ts

-- `upsert_bars` of one bar: an existing row keeps its market.
unfoldable pub upsert_bar : Bar → List Bar → List Bar
upsert_bar b t =
    if is_some (find (is_same_bar b) t)
    then update_first (is_same_bar b) (λ x. record b { market = x.market }) t
    else t ++ b ∷ []
