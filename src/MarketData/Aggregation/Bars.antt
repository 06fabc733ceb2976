-- ===== src/MarketData/Aggregation/Bars.antt =====
-- The bars that `aggregate_window` (aggregation/engine.py) makes.
use ratatoskr_v.Base.{
  ℕ, zero, suc, ◌+◌, ◌*◌, ◌≡◌, refl, sym, subst, Bool, true, some, List, [], ◌∷◌, leb, arith,
  Bool-cases, inl, inr, All, All-weaken, select,
}
use ratatoskr_v.Domain.{Symbol, Time, minute, Timeframe, m1}
use ratatoskr_v.Decimal.{Decimal}
use ratatoskr_v.Decimal.Order.{
  Le, is_le_refl, is_le_trans, le-max_left, le-max_right, min-le_left, min-le_right,
}
use ratatoskr_v.MarketData.{Bar, is_between, insert_by_ts, newest_first, take, get_bars}
use ratatoskr_v.MarketData.Aggregation.{
  window_minutes, first_open, highest, lowest, aggregate, aggregate_window,
}

-- The prices of a bar lie between its low and its high.
pub record IsBar (b : Bar) : Type 0 where
  pub low_open : Le b.low b.open_price
  pub open_high : Le b.open_price b.high
  pub low_close : Le b.low b.close
  pub close_high : Le b.close b.high

-- The range of a bar lies within the range from `low` to `high`.
abbrev pub IsWithin : Decimal → Decimal → Bar → Type 0
IsWithin low high b = Le low b.low × Le b.high high

IsWithin-widen :
    (low high low' high' : Decimal) (b : Bar)
    → Le low' low
    → Le high high'
    → IsWithin low high b
    → IsWithin low' high' b
IsWithin-widen low high low' high' b l h w =
    (is_le_trans low' low b.low l w.0, is_le_trans b.high high high' w.1 h)

aggregate-IsWithin :
    (b : Bar) (bs : List Bar) → All (IsWithin (lowest b bs) (highest b bs)) (b ∷ bs)
unfolding lowest highest
aggregate-IsWithin b [] = ((is_le_refl b.low, is_le_refl b.high), tt)
aggregate-IsWithin b (x ∷ bs) = (
  (min-le_left b.low (lowest x bs), le-max_left b.high (highest x bs)),
  All-weaken (IsWithin (lowest x bs) (highest x bs)) _ (x ∷ bs)
      (λ y w.
        IsWithin-widen _ _ _ _ y (min-le_right b.low (lowest x bs))
          (le-max_right b.high (highest x bs)) w)
      (aggregate-IsWithin x bs),
)

first_open-IsWithin :
    (b : Bar) (bs : List Bar)
    → All IsBar (b ∷ bs)
    → Le (lowest b bs) (first_open b bs) × Le (first_open b bs) (highest b bs)
unfolding lowest highest first_open
first_open-IsWithin b [] h = (h.0.low_open, h.0.open_high)
first_open-IsWithin b (x ∷ bs) h =
    let w = first_open-IsWithin x bs h.1 in
    (
      is_le_trans _ _ _ (min-le_right b.low (lowest x bs)) w.0,
      is_le_trans _ _ _ w.1 (le-max_right b.high (highest x bs)),
    )

aggregate-IsBar :
    (symbol : Symbol) (timeframe : Timeframe) (start : Time) (b : Bar) (bs : List Bar)
    → All IsBar (b ∷ bs)
    → IsBar (aggregate symbol timeframe start b bs)
unfolding aggregate
aggregate-IsBar symbol timeframe start b bs h =
    let w = aggregate-IsWithin b bs in
    let o = first_open-IsWithin b bs h in
    record {
      low_open = o.0;
      open_high = o.1;
      low_close = is_le_trans _ _ _ w.0.0 h.0.low_close;
      close_high = is_le_trans _ _ _ h.0.close_high w.0.1;
    }

-- The rows of a query keep what holds of the table.
module _ (P : Bar → Type 0) where
  All-select :
      (p : Bar → Bool) (t : List Bar) → All P t → All (λ b. P b × (p b ≡ true)) (select p t)
  All-select p [] h = tt
  All-select p (x ∷ t) h = elim (Bool-cases (p x)) [
    | inl hit ↦ rw hit ((h.0, hit), All-select p t h.1)
    | inr miss ↦ rw miss (All-select p t h.1)
  ]

  All-insert_by_ts : (b : Bar) (t : List Bar) → P b → All P t → All P (insert_by_ts b t)
  unfolding insert_by_ts
  All-insert_by_ts b [] p h = (p, tt)
  All-insert_by_ts b (x ∷ t) p h = elim (Bool-cases (leb x.ts b.ts)) [
    | inl older ↦ rw older (p, h)
    | inr newer ↦ rw newer (h.0, All-insert_by_ts b t p h.1)
  ]

  All-newest_first : (t : List Bar) → All P t → All P (newest_first t)
  unfolding newest_first
  All-newest_first [] h = tt
  All-newest_first (x ∷ t) h = All-insert_by_ts x (newest_first t) h.0 (All-newest_first t h.1)

  All-take : (n : ℕ) (t : List Bar) → All P t → All P (take n t)
  unfolding take
  All-take zero t h = tt
  All-take (suc n) [] h = tt
  All-take (suc n) (x ∷ t) h = (h.0, All-take n t h.1)

-- The bars of a minute that a window is made of.
abbrev pub minute_bars : Symbol → Timeframe → Time → List Bar → List Bar
minute_bars symbol timeframe start t =
    get_bars symbol m1 (window_minutes timeframe) start (start + window_minutes timeframe * minute)
      t

-- A bar of the symbol and of one minute, from the start of the window to its end.
abbrev pub IsInWindow : Symbol → Timeframe → Time → Bar → Type 0
IsInWindow symbol timeframe start b =
    IsBar b × (is_between symbol m1 start (start + window_minutes timeframe * minute) b ≡ true)

minute_bars-IsInWindow :
    (symbol : Symbol) (timeframe : Timeframe) (start : Time) (t : List Bar)
    → All IsBar t
    → All (IsInWindow symbol timeframe start) (minute_bars symbol timeframe start t)
unfolding get_bars
minute_bars-IsInWindow symbol timeframe start t h =
    let P : Bar → Type 0 = IsInWindow symbol timeframe start in
    All-take P _ _ (All-newest_first P _ (All-select IsBar _ t h))

-- A bar that is given is the aggregate of the bars of its window, of which there is one at least.
made_of :
    (symbol : Symbol) (timeframe : Timeframe) (start : Time) (t : List Bar) {bar : Bar}
    {next : List Bar}
    → aggregate_window symbol timeframe start t ≡ (some bar, next)
    → (l : List Bar) → minute_bars symbol timeframe start t ≡ l
    → (b : Bar) × (bs : List Bar) × (l ≡ b ∷ bs) × (aggregate symbol timeframe start b bs ≡ bar)
unfolding aggregate_window window_minutes
made_of symbol timeframe start t {bar} {next} e [] l = absurd (ground arith)
made_of symbol timeframe start t {bar} {next} e (b ∷ bs) l = (b, bs, refl, ground arith)

-- The bar that `aggregate_window` gives is sound and covers the bars that it is made of: where the prices of every
-- stored bar lie between its low and its high, so do those of the new bar, and the bars that it is
-- made of are bars of one minute of the symbol, from the start of the window to its end, the minute
-- that begins at the end included, whose ranges lie within the range of the new bar. Whether every
-- minute of the window has a bar is not asked.
pub aggregate_window-IsBar :
    (symbol : Symbol) (timeframe : Timeframe) (start : Time) (t : List Bar) {bar : Bar}
    {next : List Bar}
    → All IsBar t
    → aggregate_window symbol timeframe start t ≡ (some bar, next)
    → IsBar bar
      × All (IsInWindow symbol timeframe start) (minute_bars symbol timeframe start t)
      × All (IsWithin bar.low bar.high) (minute_bars symbol timeframe start t)
unfolding aggregate lowest highest
aggregate_window-IsBar symbol timeframe start t {bar} {next} h e =
    let bars = minute_bars symbol timeframe start t in
    let (b, bs, l, made) = made_of symbol timeframe start t {bar = bar} {next = next} e bars refl in
    let used = minute_bars-IsInWindow symbol timeframe start t h in
    let sound : All IsBar (b ∷ bs) =
      subst (All IsBar) l
        (All-weaken (IsInWindow symbol timeframe start) IsBar bars (λ x w. w.0) used) in
    (
      subst IsBar made (aggregate-IsBar symbol timeframe start b bs sound),
      used,
      subst (λ x. All (IsWithin x.low x.high) bars) made
          (subst (All (IsWithin (lowest b bs) (highest b bs))) (sym l) (aggregate-IsWithin b bs)),
    )
