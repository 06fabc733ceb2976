-- ===== src/Strategies/Exits/Trailing.antt =====
-- The trailing stop of `_evaluate_exit` (strategies/runner.py): what it keeps, and when.
use ratatoskr_v.Base.{
  ◌≡◌, inl, inr, refl, ap, ◌∙◌, true, false, Option, none, some, List, [], ◌∷◌, if◌then◌else◌,
  or_else, arith, Bool-cases, Option-cases,
}
use ratatoskr_v.Decimal.{Decimal, is_le, is_lt}
use ratatoskr_v.Decimal.Order.{Le, is_le_refl}
use ratatoskr_v.MarketData.{Bar}
use ratatoskr_v.Portfolio.{PositionSide, long, short}
use ratatoskr_v.Strategies.Conditions.{Values}
use ratatoskr_v.Strategies.Indicators.{last}
use ratatoskr_v.Strategies.Exits.{
  ExitConfig, PositionDict, either, is_beyond, next_extreme, conditions_hold, stop_loss_fires,
  take_profit_fires, trailing_stop_fires, is_enabled, evaluate_late, evaluate_exit_at,
  evaluate_exit,
}

-- no number is beyond itself
is_beyond_irrefl : (side : PositionSide) (close : Decimal) → is_beyond side close close ≡ false
unfolding is_beyond is_lt
is_beyond_irrefl long close = ground (arith)
is_beyond_irrefl short close = ground (arith)

next_extreme-none : (side : PositionSide) (close : Decimal) → next_extreme side close none ≡ none
unfolding next_extreme
next_extreme-none side close = rw (is_beyond_irrefl side close) refl

evaluate_late-none :
    (c : ExitConfig) (p : PositionDict) (close : Decimal) → (evaluate_late c p close none).1 ≡ none
unfolding evaluate_late
evaluate_late-none c p close =
    let kept : (if is_enabled (either c.trailing_stop c.risk_trailing_stop)
          then next_extreme p.side close none
          else none)
        ≡ none =
      ground (arith, next_extreme-none p.side close) in
    elim (Bool-cases
      (trailing_stop_fires (either c.trailing_stop c.risk_trailing_stop) p.side close none)) [
        | inl e ↦ rw (e, evaluate_late) kept
        | inr e ↦ rw (e, evaluate_late) kept
      ]

evaluate_exit_at-none :
    (v : Values) (c : ExitConfig) (bars : List Bar) (p : PositionDict) (close : Decimal)
    → (evaluate_exit_at v c bars p none close).1 ≡ none
unfolding evaluate_exit_at
evaluate_exit_at-none v c bars p close =
    let stop = either c.stop_loss c.risk_stop_loss in
    elim (Bool-cases (conditions_hold v c.exit_conditions bars)) [
      | inl e ↦ rw (e, evaluate_exit_at) refl
      | inr e ↦ elim (Bool-cases (stop_loss_fires stop p close bars)) [
        | inl d ↦ rw (e, d, evaluate_exit_at) refl
        | inr d ↦
            elim (Bool-cases
              (take_profit_fires (either c.take_profit c.risk_take_profit) stop p close bars)) [
                | inl b ↦ rw (e, d, b, evaluate_exit_at) refl
                | inr b ↦ rw (e, d, b, evaluate_exit_at) (evaluate_late-none c p close)
              ]
      ]
    ]

evaluate_exit-none :
    (v : Values) (c : ExitConfig) (bars : List Bar) (p : PositionDict)
    → (evaluate_exit v c bars p none).1 ≡ none
unfolding evaluate_exit
evaluate_exit-none v c bars p = elim (Option-cases (last bars)) [
  | inl e ↦ rw (e, evaluate_exit) refl
  | inr (b, e) ↦ rw (e, evaluate_exit) (evaluate_exit_at-none v c bars p b.close)
]

-- The extreme price that is kept after a position is evaluated on one list of bars after the other.
abbrev pub extreme_after :
    Values → ExitConfig → PositionDict → Option Decimal → List (List Bar) → Option Decimal
extreme_after v c p stored [] = stored
extreme_after v c p stored (bars ∷ more) =
    extreme_after v c p ((evaluate_exit v c bars p stored).1) more

-- The extreme price of a trailing stop is never kept: a strategy's state that has none for the symbol
-- has none after any sequence of evaluations, whatever the prices do, since the value that is missing
-- counts as the close and only a close beyond it is written.
pub extreme_after-none :
    (v : Values) (c : ExitConfig) (p : PositionDict) (evaluations : List (List Bar))
    → extreme_after v c p none evaluations ≡ none
extreme_after-none v c p [] = refl
extreme_after-none v c p (bars ∷ more) =
    ap (λ o. extreme_after v c p o more) (evaluate_exit-none v c bars p)
    ∙ extreme_after-none v c p more

-- `a` is at least as far as `b` in the direction of the side.
abbrev pub NotBehind : PositionSide → Decimal → Decimal → Type 0
NotBehind long a b = Le b a
NotBehind short a b = Le a b

NotBehind-refl : (side : PositionSide) (a : Decimal) → NotBehind side a a
NotBehind-refl long a = is_le_refl a
NotBehind-refl short a = is_le_refl a

NotBehind-of_beyond :
    (side : PositionSide) (a b : Decimal) → is_beyond side a b ≡ true → NotBehind side a b
unfolding is_beyond is_lt is_le
NotBehind-of_beyond long a b h = ground (arith)
NotBehind-of_beyond short a b h = ground (arith)

NotBehind-of_not_beyond :
    (side : PositionSide) (a b : Decimal) → is_beyond side a b ≡ false → NotBehind side b a
unfolding is_beyond is_lt is_le
NotBehind-of_not_beyond long a b h = ground (arith)
NotBehind-of_not_beyond short a b h = ground (arith)

-- A trailing stop only tightens: an extreme price that is kept moves to one that is not behind it and
-- not behind the close, in the direction of the position.
next_extreme-NotBehind :
    (side : PositionSide) (close stored : Decimal)
    → let next = or_else (next_extreme side close (some stored)) close in
      NotBehind side next stored × NotBehind side next close
unfolding next_extreme
next_extreme-NotBehind side close stored = elim (Bool-cases (is_beyond side close stored)) [
  | inl e ↦
      rw (e, next_extreme) (NotBehind-of_beyond side close stored e, NotBehind-refl side close)
  | inr e ↦
      rw (e, next_extreme) (NotBehind-refl side stored, NotBehind-of_not_beyond side close stored e)
]
