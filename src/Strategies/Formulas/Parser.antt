-- ===== src/Strategies/Formulas/Parser.antt =====
-- `Parser` of formulas/parser.py. A parser's state is the list of the tokens from `_pos` on.
pub mod Total
pub mod Fuel
use ratatoskr_v.Base.{
  ℕ, zero, suc, ◌+◌, ◌-◌, ◌*◌, Bool, true, false, Option, none, some, List, [], ◌∷◌, ◌||◌, ◌==◌,
  leb, if◌then◌else◌, length,
}
use ratatoskr_v.Base.Int.{pos}
use ratatoskr_v.Decimal.{Decimal}
use ratatoskr_v.Strategies.Formulas.{
  Text, same_text, Op, op_or, op_and, op_eq, op_ne, op_gt, op_lt, op_ge, op_le, op_add, op_sub,
  op_mul, op_div, op_mod, UnaryOp, minus, negation, Lexeme, number, identifier, operator, lparen,
  rparen, comma, eof, Token, Node, number_node, boolean_node, binary_node, unary_node, call_node,
  identifier_node, Nodes, no_nodes, node, Error, unexpected_token, expected_rparen,
  unknown_function, invalid_decimal, no_token, no_fuel, Result, ok, err, ◌>>=◌, word_and, word_or,
  word_not, word_true, word_false,
}

-- `Decimal(tok.value)` on a text of digits and points, from the digits read so far: two points
-- raise. The flag says whether the point is passed.
unfoldable pub decimal_from : ℕ → ℕ → Bool → Text → Result Decimal
decimal_from coef scale after_point [] = ok (record { coef = pos coef; scale = scale })
decimal_from coef scale after_point (c ∷ s) = elim (c == b'.') [
  | true ↦ elim after_point [ true ↦ err invalid_decimal | false ↦ decimal_from coef scale true s ]
  | false ↦
      decimal_from (coef * 10 + (c - 48)) (if after_point then suc scale else scale) after_point s
]

unfoldable pub decimal_of : Text → Result Decimal
decimal_of s = decimal_from 0 0 false s

-- `_PRECEDENCE`
unfoldable pub precedence : Op → ℕ
precedence op_or = 1
precedence op_and = 2
precedence op_eq = 3
precedence op_ne = 3
precedence op_gt = 4
precedence op_lt = 4
precedence op_ge = 4
precedence op_le = 4
precedence op_add = 5
precedence op_sub = 5
precedence op_mul = 6
precedence op_div = 6
precedence op_mod = 6

-- The binary operator that a token is, if any.
unfoldable pub binary_operator : Lexeme → Option Op
binary_operator (identifier w) =
    if same_text w word_and then some op_and else if same_text w word_or then some op_or else none
binary_operator (operator o) = some o
binary_operator _ = none

-- The operator, if it binds as tightly as `min_prec` asks.
abbrev pub if_binds : ℕ → Option Op → Option Op
if_binds min none = none
if_binds min (some o) = if leb min (precedence o) then some o else none

unfoldable pub operator_at : ℕ → Lexeme → Option Op
operator_at min l = if_binds min (binary_operator l)

unfoldable pub unary_operator : Lexeme → Option UnaryOp
unary_operator (operator op_sub) = some minus
unary_operator (identifier w) = if same_text w word_not then some negation else none
unary_operator _ = none

abbrev pub is_lparen : Lexeme → Bool
is_lparen lparen = true
is_lparen _ = false

abbrev pub is_rparen : Lexeme → Bool
is_rparen rparen = true
is_rparen _ = false

abbrev pub is_comma : Lexeme → Bool
is_comma comma = true
is_comma _ = false

abbrev pub is_eof : Lexeme → Bool
is_eof eof = true
is_eof _ = false

-- `_expect(TOKEN_RPAREN)`
unfoldable pub expect_rparen : List Token → Result (List Token)
expect_rparen [] = err no_token
expect_rparen (t ∷ ts) = if is_rparen t.lexeme then ok ts else err (expected_rparen t.position)

abbrev pub boolean_of : Text → Option Bool
boolean_of w =
    if same_text w word_true then some true else if same_text w word_false then some false else none

-- `args.append`, before the arguments that follow
abbrev pub add_arg : Node → Nodes × List Token → Nodes × List Token
add_arg n more = (node n (more.0), more.1)

-- The parser's functions, whose argument `allowed` is the test for the allowed functions. Each call
-- uses one unit of fuel.
unfoldable mutual
  pub parse_expression : (Text → Bool) → ℕ → ℕ → List Token → Result (Node × List Token)
  parse_expression allowed zero min ts = err no_fuel
  parse_expression allowed (suc f) min ts =
      parse_unary allowed f ts >>= λ r. parse_operators allowed f min (r.0) (r.1)

  -- the loop of `_parse_expression`, with the node that it has built
  pub parse_operators : (Text → Bool) → ℕ → ℕ → Node → List Token → Result (Node × List Token)
  parse_operators allowed zero min left ts = err no_fuel
  parse_operators allowed (suc f) min left [] = err no_token
  parse_operators allowed (suc f) min left (t ∷ ts) = elim (operator_at min t.lexeme) [
    | none ↦ ok (left, t ∷ ts)
    | some o ↦ parse_expression allowed f (suc (precedence o)) ts >>= λ r.
        parse_operators allowed f min (binary_node o left (r.0)) (r.1)
  ]

  pub parse_unary : (Text → Bool) → ℕ → List Token → Result (Node × List Token)
  parse_unary allowed zero ts = err no_fuel
  parse_unary allowed (suc f) [] = err no_token
  parse_unary allowed (suc f) (t ∷ ts) = elim (unary_operator t.lexeme) [
    | some u ↦ parse_unary allowed f ts >>= λ r. ok (unary_node u (r.0), r.1)
    | none ↦ parse_primary allowed f t.lexeme t.position ts
  ]

  -- `_parse_primary`, by the current token
  pub parse_primary : (Text → Bool) → ℕ → Lexeme → ℕ → List Token → Result (Node × List Token)
  parse_primary allowed zero l i ts = err no_fuel
  parse_primary allowed (suc f) (number w) i ts =
      decimal_of w >>= λ value. ok (number_node value, ts)
  parse_primary allowed (suc f) (identifier w) i ts = elim (boolean_of w) [
    | some b ↦ ok (boolean_node b, ts)
    | none ↦ parse_name allowed f w i ts
  ]
  parse_primary allowed (suc f) lparen i ts =
      parse_expression allowed f 0 ts >>= λ r. expect_rparen (r.1) >>= λ rest. ok (r.0, rest)
  parse_primary allowed (suc f) l i ts = err (unexpected_token i)

  -- a function call or an identifier, whose name at position `i` is passed
  pub parse_name : (Text → Bool) → ℕ → Text → ℕ → List Token → Result (Node × List Token)
  parse_name allowed zero w i ts = err no_fuel
  parse_name allowed (suc f) w i [] = err no_token
  parse_name allowed (suc f) w i (t ∷ ts) = elim (is_lparen t.lexeme) [
    | false ↦ ok (identifier_node w, t ∷ ts)
    | true ↦ elim (allowed w) [
      | false ↦ err (unknown_function i)
      | true ↦ parse_args allowed f ts >>= λ r.
          expect_rparen (r.1) >>= λ rest. ok (call_node w (r.0), rest)
    ]
  ]

  pub parse_args : (Text → Bool) → ℕ → List Token → Result (Nodes × List Token)
  parse_args allowed zero ts = err no_fuel
  parse_args allowed (suc f) [] = err no_token
  parse_args allowed (suc f) (t ∷ ts) = elim (is_rparen t.lexeme) [
    | true ↦ ok (no_nodes, t ∷ ts)
    | false ↦ parse_expression allowed f 0 (t ∷ ts) >>= λ r.
        parse_more_args allowed f (r.1) >>= λ more. ok (add_arg (r.0) more)
  ]

  -- the loop of `_parse_args`: the arguments after the first
  pub parse_more_args : (Text → Bool) → ℕ → List Token → Result (Nodes × List Token)
  parse_more_args allowed zero ts = err no_fuel
  parse_more_args allowed (suc f) [] = err no_token
  parse_more_args allowed (suc f) (t ∷ ts) = elim (is_comma t.lexeme) [
    | false ↦ ok (no_nodes, t ∷ ts)
    | true ↦ parse_expression allowed f 0 ts >>= λ r.
        parse_more_args allowed f (r.1) >>= λ more. ok (add_arg (r.0) more)
  ]

-- the check of `parse` that nothing is left
unfoldable pub finish : Node × List Token → Result Node
finish (n, []) = err no_token
finish (n, t ∷ ts) = if is_eof t.lexeme then ok n else err (unexpected_token t.position)

-- `parse`. At most six calls are made between two tokens.
unfoldable pub parse : (Text → Bool) → List Token → Result Node
parse allowed ts = parse_expression allowed (6 * length ts + 6) 0 ts >>= finish
