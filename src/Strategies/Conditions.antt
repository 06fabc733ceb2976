-- ===== src/Strategies/Conditions.antt =====
-- The condition engine, backend/app/strategies/conditions/engine.py. What an indicator or a formula
-- computes of a list of bars is given; `none` stands for a value that is missing and for one whose
-- computation raises, which both make a condition false. The cache only keeps values that would be
-- computed again.
pub mod Meaning
pub mod Crossing
mod Tests
use ratatoskr_v.Base.{
  ℕ, suc, Bool, true, false, Option, none, some, List, [], ◌∷◌, ◌&&◌, ◌||◌, ltb, if◌then◌else◌,
  length,
}
use ratatoskr_v.Domain.{Uid}
use ratatoskr_v.Decimal.{Decimal, is_le, is_lt, is_eq}
use ratatoskr_v.MarketData.{Bar}

-- An operand by its `type`. An indicator stands for its key, parameters and output.
pub data Operand : Type 0 where
  value : Option Decimal → Operand
  indicator : Uid → Operand
  formula : Uid → Operand
  unknown : Operand

pub data Operator : Type 0 where
  crosses_above crosses_below between outside : Operator
  greater_than less_than greater_than_or_equal less_than_or_equal equal other : Operator

-- The right side is an operand, or a range with the keys `min` and `max`.
pub record Right : Type 0 where
  pub operand : Operand
  pub range_min : Option Decimal
  pub range_max : Option Decimal

pub record Condition : Type 0 where
  pub operator : Operator
  pub left : Operand
  pub right : Right

pub data Logic : Type 0 where
  all_of any_of other : Logic

-- An item of a group is a condition or a group.
mutual
  pub data Item : Type 0 where
    condition : Condition → Item
    group : Logic → Items → Item

  pub data Items : Type 0 where
    no_items : Items
    more : Item → Items → Items

-- What the registry of indicators and the formula parser compute.
pub record Values : Type 0 where
  pub indicator_value : Uid → List Bar → Option Decimal
  pub formula_value : Uid → List Bar → Option Decimal

-- `_resolve_operand`
unfoldable pub resolve_operand : Values → Operand → List Bar → Option Decimal
resolve_operand v (value d) bars = d
resolve_operand v (indicator i) bars = v.indicator_value i bars
resolve_operand v (formula i) bars = v.formula_value i bars
resolve_operand v unknown bars = none

-- `bars[:-1]`
unfoldable pub without_last : List Bar → List Bar
without_last [] = []
without_last (x ∷ []) = []
without_last (x ∷ y ∷ xs) = x ∷ without_last (y ∷ xs)

-- `_resolve_series`: the current and the previous value
unfoldable pub resolve_series : Values → Operand → List Bar → Option Decimal × Option Decimal
resolve_series v o bars =
    if ltb (length bars) 2
    then (none, none)
    else (resolve_operand v o bars, resolve_operand v o (without_last bars))

-- A test of two values, false where one is missing.
abbrev pub test : (Decimal → Decimal → Bool) → Option Decimal → Option Decimal → Bool
test p (some a) (some b) = p a b
test p _ _ = false

-- `_apply_operator` on single values
unfoldable pub compare : Operator → Option Decimal → Option Decimal → Bool
compare greater_than l r = test (λ a b. is_lt b a) l r
compare less_than l r = test is_lt l r
compare greater_than_or_equal l r = test (λ a b. is_le b a) l r
compare less_than_or_equal l r = test is_le l r
compare equal l r = test is_eq l r
compare _ l r = false

-- `prev_l <= prev_r and curr_l > curr_r`, and the other way round
unfoldable pub crosses :
    (Decimal → Decimal → Bool)
    → (Decimal → Decimal → Bool)
    → Option Decimal × Option Decimal
    → Option Decimal × Option Decimal
    → Bool
crosses before after l r = test before (l.1) (r.1) && test after (l.0) (r.0)

-- `between`; `outside` asks for `left < r_min or left > r_max`.
unfoldable pub in_range : Bool → Option Decimal → Right → Bool
in_range inside none r = false
in_range inside (some a) r =
    test (λ low high. if inside then is_le low a && is_le a high else is_lt a low || is_lt high a)
      r.range_min r.range_max

-- `_evaluate_condition`, by its operator
unfoldable pub evaluate_operator : Values → List Bar → Operand → Right → Operator → Bool
evaluate_operator v bars l r crosses_above =
    crosses is_le (λ a b. is_lt b a) (resolve_series v l bars) (resolve_series v r.operand bars)
evaluate_operator v bars l r crosses_below =
    crosses (λ a b. is_le b a) is_lt (resolve_series v l bars) (resolve_series v r.operand bars)
evaluate_operator v bars l r between = in_range true (resolve_operand v l bars) r
evaluate_operator v bars l r outside = in_range false (resolve_operand v l bars) r
evaluate_operator v bars l r o =
    compare o (resolve_operand v l bars) (resolve_operand v r.operand bars)

abbrev pub evaluate_condition : Values → List Bar → Condition → Bool
evaluate_condition v bars c = evaluate_operator v bars c.left c.right c.operator

-- `_evaluate_group` on one item: the results of all items of a group are computed, then joined.
unfoldable mutual
  pub evaluate_item : Values → List Bar → Item → Bool
  evaluate_item v bars (condition c) = evaluate_condition v bars c
  evaluate_item v bars (group logic no_items) = true
  evaluate_item v bars (group all_of (more i items)) =
      evaluate_item v bars i && evaluate_all v bars items
  evaluate_item v bars (group any_of (more i items)) =
      evaluate_item v bars i || evaluate_any v bars items
  evaluate_item v bars (group Logic.other (more i items)) = false

  -- `all(results)`
  pub evaluate_all : Values → List Bar → Items → Bool
  evaluate_all v bars no_items = true
  evaluate_all v bars (more i items) = evaluate_item v bars i && evaluate_all v bars items

  -- `any(results)`
  pub evaluate_any : Values → List Bar → Items → Bool
  evaluate_any v bars no_items = false
  evaluate_any v bars (more i items) = evaluate_item v bars i || evaluate_any v bars items

-- `evaluate`
unfoldable pub evaluate : Values → Logic → Items → List Bar → Bool
evaluate v logic items bars = evaluate_item v bars (group logic items)
