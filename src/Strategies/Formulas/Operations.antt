-- ===== src/Strategies/Formulas/Operations.antt =====
-- What `Evaluator` of formulas/parser.py does with values, bars and indicators. The registry of indicators is given by their definitions; an
-- indicator computes of the bars and its parameters. The cache keeps values that would be computed
-- again of the same bars, and is left out.
use ratatoskr_v.Base.{
  ℕ, zero, suc, ◌-◌, Bool, false, Option, none, some, List, [], ◌∷◌, ◌&&◌, ◌||◌, not, leb,
  if◌then◌else◌, length,
}
use ratatoskr_v.Base.Int.{ℤ, pos, negsuc}
use ratatoskr_v.Decimal.{
  Decimal, decimal_zero, decimal_one, add, sub, mul, div, rem, minus, is_le, is_lt, is_eq, trunc,
}
use ratatoskr_v.MarketData.{Bar}
use ratatoskr_v.Strategies.Indicators.{
  Source, close_source, open_source, high_source, low_source, other_source, get_source_value,
}
use ratatoskr_v.Strategies.Formulas.{
  Text, same_text, Op, op_or, op_and, op_eq, op_ne, op_gt, op_lt, op_ge, op_le, op_add, op_sub,
  op_mul, op_div, op_mod, UnaryOp, negation, word_open, word_high, word_low, word_close,
  word_volume, word_abs, word_min, word_max, word_prev, word_crosses_above, word_crosses_below,
}

-- A parameter's value: an option of a `select`, an `int`, or the `float` of a number, which is kept
-- as that number.
pub data ParamValue : Type 0 where
  option_value : Text → ParamValue
  int_value : ℤ → ParamValue
  float_value : Decimal → ParamValue

pub data ParamType : Type 0 where
  int_param float_param select_param other_param : ParamType

pub record ParamDef : Type 0 where
  pub name : Text
  pub type : ParamType
  pub options : List Text
  pub default : ParamValue

abbrev pub Params : Type 0
Params = List (Text × ParamValue)

-- What `compute_fn` gives: one value, a dictionary of values, or an exception.
pub data Computed : Type 0 where
  single : Option Decimal → Computed
  outputs : List (Text × Option Decimal) → Computed
  raises : Computed

-- `outputs[0]` is `first_output`, none where it is `"number"` or missing.
pub record IndicatorDef : Type 0 where
  pub params : List ParamDef
  pub first_output : Option Text
  pub compute : List Bar → Params → Computed

pub record Registry : Type 0 where
  pub get : Text → Option IndicatorDef

abbrev pub last_bar : List Bar → Option Bar
last_bar [] = none
last_bar (b ∷ []) = some b
last_bar (b ∷ c ∷ bars) = last_bar (c ∷ bars)

-- The source that `get_source_value` takes a bar field for: it does not know the volume, which gets
-- its last case.
unfoldable pub source_of : Text → Option Source
source_of w =
    if same_text w word_open
    then some open_source
    else if same_text w word_high
    then some high_source
    else if same_text w word_low
    then some low_source
    else if same_text w word_close
    then some close_source
    else if same_text w word_volume
    then some other_source
    else none

-- the value of a bar field
unfoldable pub bar_field : Text → Bar → Option Decimal
bar_field w b = elim (source_of w) [ none ↦ none | some s ↦ some (get_source_value s b) ]

abbrev pub has_param : Text → Params → Bool
has_param w [] = false
has_param w (p ∷ ps) = same_text w (p.0) || has_param w ps

abbrev pub output_of : Text → List (Text × Option Decimal) → Option Decimal
output_of w [] = none
output_of w (p ∷ ps) = if same_text w (p.0) then p.1 else output_of w ps

abbrev pub first_value : List (Text × Option Decimal) → Option Decimal
first_value [] = none
first_value (p ∷ ps) = p.1

-- The value of an indicator without parameters: the first of a dictionary.
unfoldable pub bare_value : Computed → Option Decimal
bare_value (single v) = v
bare_value (outputs vs) = first_value vs
bare_value raises = none

-- The value of an indicator call: the first output by the definition.
unfoldable pub call_value : Option Text → Computed → Option Decimal
call_value first (single v) = v
call_value none (outputs vs) = first_value vs
call_value (some w) (outputs vs) = output_of w vs
call_value first raises = none

-- `_resolve_identifier`
unfoldable pub resolve_identifier : Registry → List Bar → Text → Option Decimal
resolve_identifier reg bars w = elim (last_bar bars) [
  | none ↦ none
  | some b ↦ elim (bar_field w b) [
    | some v ↦ some v
    | none ↦ elim (reg.get w) [ none ↦ none | some d ↦ bare_value (d.compute bars []) ]
  ]
]

abbrev pub truth : Bool → Decimal
truth b = if b then decimal_one else decimal_zero

abbrev pub is_zero : Decimal → Bool
is_zero a = is_eq a decimal_zero

-- `_eval_binary` on two values
unfoldable pub apply_binary : Op → Decimal → Decimal → Option Decimal
apply_binary op_add a b = some (add a b)
apply_binary op_sub a b = some (sub a b)
apply_binary op_mul a b = some (mul a b)
apply_binary op_div a b = if is_zero b then none else some (div a b)
apply_binary op_mod a b = if is_zero b then none else rem a b
apply_binary op_gt a b = some (truth (is_lt b a))
apply_binary op_lt a b = some (truth (is_lt a b))
apply_binary op_ge a b = some (truth (is_le b a))
apply_binary op_le a b = some (truth (is_le a b))
apply_binary op_eq a b = some (truth (is_eq a b))
apply_binary op_ne a b = some (truth (not (is_eq a b)))
apply_binary op_and a b = some (truth (not (is_zero a) && not (is_zero b)))
apply_binary op_or a b = some (truth (not (is_zero a) || not (is_zero b)))

abbrev pub on_both :
    (Decimal → Decimal → Option Decimal) → Option Decimal → Option Decimal → Option Decimal
on_both f (some a) (some b) = f a b
on_both f _ _ = none

-- `_eval_unary` on a value
unfoldable pub apply_unary : UnaryOp → Option Decimal → Option Decimal
apply_unary u none = none
apply_unary UnaryOp.minus (some a) = some (minus a)
apply_unary negation (some a) = some (truth (is_zero a))

-- Python's `min` and `max` of the values that are there; `none` of no value
abbrev pub fold_best :
    (Decimal → Decimal → Decimal) → Option Decimal → List (Option Decimal) → Option Decimal
fold_best f best [] = best
fold_best f best (none ∷ vs) = fold_best f best vs
fold_best f none (some v ∷ vs) = fold_best f (some v) vs
fold_best f (some b) (some v ∷ vs) = fold_best f (some (f b v)) vs

-- `int(n_val) if n_val is not None else 1`
unfoldable pub steps_back : Option Decimal → ℤ
steps_back none = pos 1
steps_back (some v) = (trunc v).coef

abbrev pub take : ℕ → List Bar → List Bar
take zero bars = []
take (suc n) [] = []
take (suc n) (b ∷ bars) = b ∷ take n bars

-- `self._bars[:-n]`, behind the test `n >= len(self._bars)`
unfoldable pub previous_bars : ℤ → List Bar → Option (List Bar)
previous_bars (pos zero) bars = if leb (length bars) 0 then none else some []
previous_bars (pos (suc n)) bars =
    if leb (length bars) (suc n) then none else some (take (length bars - suc n) bars)
previous_bars (negsuc n) bars = some (take (suc n) bars)

-- `1` where the first pair was in the relation before and is in the other one now
unfoldable pub crossed :
    (Decimal → Decimal → Bool)
    → (Decimal → Decimal → Bool)
    → Option Decimal
    → Option Decimal
    → Option Decimal
    → Option Decimal
    → Option Decimal
crossed before after (some a) (some b) (some c) (some d) = some (truth (before c d && after a b))
crossed before after _ _ _ _ = none

pub data Callee : Type 0 where
  fn_abs fn_min fn_max fn_prev fn_crosses_above fn_crosses_below fn_indicator : Callee

-- the chain of `if name == ...`
unfoldable pub callee_of : Text → Callee
callee_of w =
    if same_text w word_abs
    then fn_abs
    else if same_text w word_min
    then fn_min
    else if same_text w word_max
    then fn_max
    else if same_text w word_prev
    then fn_prev
    else if same_text w word_crosses_above
    then fn_crosses_above
    else if same_text w word_crosses_below
    then fn_crosses_below
    else fn_indicator
