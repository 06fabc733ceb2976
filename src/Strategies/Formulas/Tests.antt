-- ===== src/Strategies/Formulas/Tests.antt =====
-- The formula language on small expressions.
use ratatoskr_v.Base.{ℕ, ◌≡◌, refl, true, false, none, some, List, [], ◌∷◌}
use ratatoskr_v.Base.Int.{pos}
use ratatoskr_v.Domain.{equities, m1}
use ratatoskr_v.Decimal.{of_ℕ, decimals, decimal_one}
use ratatoskr_v.MarketData.{Bar}
use ratatoskr_v.Strategies.Conditions.{without_last, crosses}
use ratatoskr_v.Strategies.Indicators.{get_source_value}
use ratatoskr_v.Strategies.Formulas.{
  Text, op_mul, op_sub, eof, Node, number_node, binary_node, identifier_node, ok, word_close,
  word_volume, word_open,
}
use ratatoskr_v.Strategies.Formulas.Tokenizer.{
  is_space, is_digit, is_alpha, is_name_start, is_name_part, is_number_part, span, next_is_digit,
  is_number_start, double_operator, single_lexeme, scan_operator, scan, tokenize_from, tokenize,
}
use ratatoskr_v.Strategies.Formulas.Tokenizer.Spelling.{Tokenizes, tokenize-Covers}
use ratatoskr_v.Strategies.Formulas.Parser.{
  decimal_from, decimal_of, precedence, binary_operator, operator_at, unary_operator, expect_rparen,
  parse_expression, parse_operators, parse_unary, parse_primary, parse_name, parse_args,
  parse_more_args, finish, parse,
}
use ratatoskr_v.Strategies.Formulas.Parser.Total.{IsSettled}
use ratatoskr_v.Strategies.Formulas.Printer.{
  digits, last_digits, print_decimal, print_operator, print_unary, print, print_args, print_more,
  IsWritable, AllWritable, place,
}
use ratatoskr_v.Strategies.Formulas.Printer.Enough.{parse-print}
use ratatoskr_v.Strategies.Formulas.Operations.{
  Registry, source_of, bar_field, bare_value, call_value, resolve_identifier, apply_binary,
  apply_unary, steps_back, previous_bars, crossed, callee_of,
}
use ratatoskr_v.Strategies.Formulas.Evaluator.{
  matching_select, assign_numbers, apply_defaults, run_indicator, evaluate, evaluate_abs,
  evaluate_prev, evaluate_all, evaluate_first, evaluate_cross, evaluate_indicator, is_allowed, read,
  evaluate_formula,
}
use ratatoskr_v.Strategies.Formulas.Validation.{
  forbidden, lower, has_dunder, is_break, split_from, is_refused, is_blank, raised, verdict_of,
  validate, rejected,
}
use ratatoskr_v.Strategies.Formulas.Laws.{read-IsSettled}
use ratatoskr_v.Strategies.Formulas.Crossing.{call_of, prev_of}

unfoldable formulas : Unit {0}
unfolding decimals without_last crosses is_space is_digit is_alpha is_name_start is_name_part
    is_number_part span next_is_digit is_number_start double_operator single_lexeme scan_operator
    scan tokenize_from tokenize decimal_from decimal_of precedence binary_operator operator_at
    unary_operator expect_rparen parse_expression parse_operators parse_unary parse_primary
    parse_name parse_args parse_more_args finish parse digits last_digits print_decimal
    print_operator print_unary print print_args print_more IsWritable AllWritable place source_of
    get_source_value bar_field bare_value call_value resolve_identifier apply_binary apply_unary
    steps_back previous_bars crossed callee_of matching_select assign_numbers apply_defaults
    run_indicator evaluate evaluate_abs evaluate_prev evaluate_all evaluate_first evaluate_cross
    evaluate_indicator is_allowed read evaluate_formula forbidden lower has_dunder is_break
    split_from is_refused is_blank verdict_of validate
formulas = tt

-- a registry without indicators
abbrev bare : Registry
bare = record { get = λ _. none }

abbrev bar : ℕ → Bar
bar price = record {
  symbol = 50;
  market = equities;
  timeframe = m1;
  ts = 0;
  open_price = of_ℕ 1;
  high = of_ℕ price;
  low = of_ℕ 1;
  close = of_ℕ price;
  volume = of_ℕ 5000;
  is_aggregated = false;
}

abbrev rising : List Bar
rising = bar 7 ∷ bar 8 ∷ bar 9 ∷ bar 10 ∷ []

-- close - 2.5 * (open - close)
abbrev difference : Text
difference =
    b'c' ∷ b'l' ∷ b'o' ∷ b's' ∷ b'e' ∷ b' ' ∷ b'-' ∷ b' ' ∷ b'2' ∷ b'.' ∷ b'5' ∷ b' ' ∷ b'*' ∷ b' '
    ∷ b'(' ∷ b'o' ∷ b'p' ∷ b'e' ∷ b'n' ∷ b' ' ∷ b'-' ∷ b' ' ∷ b'c' ∷ b'l' ∷ b'o' ∷ b's' ∷ b'e'
    ∷ b')' ∷ []

abbrev difference_tree : Node
difference_tree = binary_node op_sub (identifier_node word_close) (
    binary_node op_mul (number_node (record { coef = pos 25; scale = 1 }))
      (binary_node op_sub (identifier_node word_open) (identifier_node word_close)))

difference_is_read : read bare difference ≡ ok difference_tree
unfolding formulas
difference_is_read = refl

difference_value :
    evaluate_formula bare difference rising ≡ some (record { coef = pos 325; scale = 1 })
unfolding formulas
difference_value = refl

-- a - b - c groups to the left
left_grouping :
    read bare (b'a' ∷ b'-' ∷ b'b' ∷ b'-' ∷ b'c' ∷ [])
    ≡ ok (
        binary_node op_sub
          (binary_node op_sub (identifier_node (b'a' ∷ [])) (identifier_node (b'b' ∷ [])))
          (identifier_node (b'c' ∷ [])))
unfolding formulas
left_grouping = refl

difference_tree-IsWritable : IsWritable (is_allowed bare) difference_tree
unfolding formulas
difference_tree-IsWritable = ((refl, refl), (refl, ((refl, refl), (refl, refl))))

parse-print_example :
    parse (is_allowed bare) (place (λ i. i) 0 (print 0 difference_tree (eof ∷ [])))
    ≡ ok difference_tree
parse-print_example =
    parse-print (is_allowed bare) (λ i. i) difference_tree difference_tree-IsWritable

tokenize-Covers_example : Tokenizes 0 difference (tokenize difference)
tokenize-Covers_example = tokenize-Covers difference

read-IsSettled_example : IsSettled (read bare difference)
read-IsSettled_example = read-IsSettled bare difference

-- A number with two points makes `validate` raise: it is not a value error.
abbrev two_points : Text
two_points = b'1' ∷ b'.' ∷ b'2' ∷ b'.' ∷ b'3' ∷ []

two_points_raise : validate bare two_points ≡ raised
unfolding formulas
two_points_raise = refl

-- A forbidden word is refused, and so is an unknown character.
import_is_refused :
    validate bare (b'i' ∷ b'm' ∷ b'p' ∷ b'o' ∷ b'r' ∷ b't' ∷ b' ' ∷ b'o' ∷ b's' ∷ []) ≡ rejected
unfolding formulas
import_is_refused = refl

-- The identifier `volume` has the value of the close.
volume_is_close : evaluate bare (identifier_node word_volume) rising ≡ some (of_ℕ 10)
unfolding formulas
volume_is_close = refl

-- `prev(close, 0)` has no value.
no_step : evaluate bare (prev_of 0 (identifier_node word_close)) rising ≡ none
unfolding formulas
no_step = refl

crossing_is_seen :
    evaluate bare (call_of true (identifier_node word_close) (number_node (of_ℕ 9))) rising
    ≡ some decimal_one
unfolding formulas
crossing_is_seen = refl
