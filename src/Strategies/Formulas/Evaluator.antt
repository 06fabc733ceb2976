-- ===== src/Strategies/Formulas/Evaluator.antt =====
-- `Evaluator.evaluate` of formulas/parser.py by recursion on the tree, and the functions `evaluate`
-- and `validate` of `FormulaParser`.
use ratatoskr_v.Base.{
  Bool, true, false, Option, none, some, List, [], ◌∷◌, ◌++◌, ◌&&◌, ◌||◌, not, ltb, if◌then◌else◌,
  length, is_some,
}
use ratatoskr_v.Decimal.{Decimal, absolute, is_le, is_lt, max, min, trunc}
use ratatoskr_v.MarketData.{Bar}
use ratatoskr_v.Strategies.Conditions.{without_last}
use ratatoskr_v.Strategies.Formulas.{
  Text, is_among, Node, number_node, boolean_node, binary_node, unary_node, call_node,
  identifier_node, Nodes, no_nodes, node, Result, ok, err, ◌>>=◌, builtin_functions,
}
use ratatoskr_v.Strategies.Formulas.Tokenizer.{tokenize}
use ratatoskr_v.Strategies.Formulas.Parser.{parse}
use ratatoskr_v.Strategies.Formulas.Operations.{
  option_value, int_value, float_value, int_param, float_param, select_param, ParamDef, Params,
  IndicatorDef, Registry, has_param, call_value, resolve_identifier, truth, apply_binary, on_both,
  apply_unary, fold_best, steps_back, previous_bars, crossed, fn_abs, fn_min, fn_max, fn_prev,
  fn_crosses_above, fn_crosses_below, fn_indicator, callee_of,
}

-- The `select` parameter that an argument's name is an option of, and that has no value yet.
unfoldable pub matching_select : List ParamDef → Params → Text → Option Text
matching_select [] params w = none
matching_select (p ∷ ps) params w = elim p.type [
  | select_param ↦
      if not (has_param p.name params) && is_among w p.options
      then some p.name
      else matching_select ps params w
  | _ ↦ matching_select ps params w
]

-- Numbers go to the numeric parameters by their order, the others keep their place: the `i`-th
-- number belongs to the `i`-th numeric parameter.
unfoldable pub assign_numbers : List ParamDef → List Decimal → Params → Params
assign_numbers [] numbers params = params
assign_numbers (p ∷ ps) [] params = params
assign_numbers (p ∷ ps) (v ∷ numbers) params = elim p.type [
  | int_param ↦ assign_numbers ps numbers (
      if has_param p.name params
      then params
      else params ++ (p.name, int_value ((trunc v).coef)) ∷ [])
  | float_param ↦
      assign_numbers ps numbers
        (if has_param p.name params then params else params ++ (p.name, float_value v) ∷ [])
  | _ ↦ assign_numbers ps (v ∷ numbers) params
]

unfoldable pub apply_defaults : List ParamDef → Params → Params
apply_defaults [] params = params
apply_defaults (p ∷ ps) params =
    apply_defaults ps
      (if has_param p.name params then params else params ++ (p.name, p.default) ∷ [])

-- The parameters of an indicator call, and its value.
unfoldable pub run_indicator : IndicatorDef → List Bar → Params → List Decimal → Option Decimal
run_indicator d bars params numbers =
    call_value d.first_output
      (d.compute bars (apply_defaults d.params (assign_numbers d.params numbers params)))

abbrev pub append_some : List Decimal → Option Decimal → List Decimal
append_some vs none = vs
append_some vs (some v) = vs ++ v ∷ []

abbrev pub map_some : (Decimal → Decimal) → Option Decimal → Option Decimal
map_some f none = none
map_some f (some v) = some (f v)

-- `evaluate`, whose last case is `_eval_function`, by the function
unfoldable mutual
  pub evaluate : Registry → Node → List Bar → Option Decimal
  evaluate reg (number_node d) bars = some d
  evaluate reg (boolean_node b) bars = some (truth b)
  evaluate reg (identifier_node w) bars = resolve_identifier reg bars w
  evaluate reg (unary_node u n) bars = apply_unary u (evaluate reg n bars)
  evaluate reg (binary_node o l r) bars =
      on_both (apply_binary o) (evaluate reg l bars) (evaluate reg r bars)
  evaluate reg (call_node w ns) bars = elim (callee_of w) [
    | fn_abs ↦ evaluate_abs reg ns bars
    | fn_min ↦ fold_best min none (evaluate_all reg ns bars)
    | fn_max ↦ fold_best max none (evaluate_all reg ns bars)
    | fn_prev ↦ evaluate_prev reg ns bars
    | fn_crosses_above ↦ evaluate_cross reg is_le (λ a b. is_lt b a) ns bars
    | fn_crosses_below ↦ evaluate_cross reg (λ a b. is_le b a) is_lt ns bars
    | fn_indicator ↦ elim (reg.get w) [
      | none ↦ none
      | some d ↦ evaluate_indicator reg d ns bars [] []
    ]
  ]

  pub evaluate_abs : Registry → Nodes → List Bar → Option Decimal
  evaluate_abs reg no_nodes bars = none
  evaluate_abs reg (node a no_nodes) bars = map_some absolute (evaluate reg a bars)
  evaluate_abs reg (node a (node b ns)) bars = none

  pub evaluate_prev : Registry → Nodes → List Bar → Option Decimal
  evaluate_prev reg no_nodes bars = none
  evaluate_prev reg (node a ns) bars = elim (ltb (length bars) 2) [
    | true ↦ none
    | false ↦ elim (previous_bars (steps_back (evaluate_first reg ns bars)) bars) [
      | none ↦ none
      | some before ↦ evaluate reg a before
    ]
  ]

  pub evaluate_all : Registry → Nodes → List Bar → List (Option Decimal)
  evaluate_all reg no_nodes bars = []
  evaluate_all reg (node n ns) bars = evaluate reg n bars ∷ evaluate_all reg ns bars

  -- the second argument of `prev`, if there is one
  pub evaluate_first : Registry → Nodes → List Bar → Option Decimal
  evaluate_first reg no_nodes bars = none
  evaluate_first reg (node n ns) bars = evaluate reg n bars

  -- `crosses_above` and `crosses_below`, which take two arguments
  pub evaluate_cross :
      Registry
      → (Decimal → Decimal → Bool)
      → (Decimal → Decimal → Bool)
      → Nodes
      → List Bar
      → Option Decimal
  evaluate_cross reg before after no_nodes bars = none
  evaluate_cross reg before after (node a no_nodes) bars = none
  evaluate_cross reg before after (node a (node b no_nodes)) bars = elim (ltb (length bars) 2) [
    | true ↦ none
    | false ↦
        crossed before after (evaluate reg a bars) (evaluate reg b bars)
          (evaluate reg a (without_last bars)) (evaluate reg b (without_last bars))
  ]
  evaluate_cross reg before after (node a (node b (node c ns))) bars = none

  -- The arguments of an indicator, from the parameters and numbers that are found.
  pub evaluate_indicator :
      Registry → IndicatorDef → Nodes → List Bar → Params → List Decimal → Option Decimal
  evaluate_indicator reg d no_nodes bars params numbers = run_indicator d bars params numbers
  evaluate_indicator reg d (node (identifier_node w) ns) bars params numbers =
      elim (matching_select d.params params w) [
        | some name ↦
            evaluate_indicator reg d ns bars (params ++ (name, option_value w) ∷ []) numbers
        | none ↦
            evaluate_indicator reg d ns bars params
              (append_some numbers (resolve_identifier reg bars w))
      ]
  evaluate_indicator reg d (node n ns) bars params numbers =
      evaluate_indicator reg d ns bars params (append_some numbers (evaluate reg n bars))

-- `_allowed_functions`
unfoldable pub is_allowed : Registry → Text → Bool
is_allowed reg w = is_some (reg.get w) || is_among w builtin_functions

-- the tree of an expression, which `FormulaParser` makes in both of its functions
unfoldable pub read : Registry → Text → Result Node
read reg s = tokenize s >>= parse (is_allowed reg)

-- `FormulaParser.evaluate`: every exception gives `None`.
unfoldable pub evaluate_formula : Registry → Text → List Bar → Option Decimal
evaluate_formula reg s bars = elim (read reg s) [ err e ↦ none | ok n ↦ evaluate reg n bars ]
