-- ===== src/Strategies/Formulas/Printer.antt =====
-- A printer of syntax trees, with as few parentheses as the precedences of formulas/parser.py
-- allow. The repository has none: it says which text stands for a tree, and the parser is measured
-- against it.
pub mod Numbers
pub mod Runs
pub mod Follows
pub mod RoundTrip
pub mod Enough
use ratatoskr_v.Base.{
  ℕ, zero, suc, ◌+◌, ◌/◌, ◌%◌, ◌^◌, ◌≡◌, Bool, true, false, none, List, [], ◌∷◌, ◌++◌, ltb, leb,
  if◌then◌else◌,
}
use ratatoskr_v.Base.Int.{pos, magnitude}
use ratatoskr_v.Decimal.{Decimal}
use ratatoskr_v.Strategies.Formulas.{
  Text, same_text, Op, op_or, op_and, op_eq, op_ne, op_gt, op_lt, op_ge, op_le, op_add, op_sub,
  op_mul, op_div, op_mod, UnaryOp, minus, negation, Lexeme, number, identifier, operator, lparen,
  rparen, comma, eof, Token, Node, number_node, boolean_node, binary_node, unary_node, call_node,
  identifier_node, Nodes, no_nodes, node, word_and, word_or, word_not, word_true, word_false,
}
use ratatoskr_v.Strategies.Formulas.Parser.{precedence, boolean_of}

-- The digits of a number, before a text.
unfoldable pub digits : ℕ → ℕ → Text → Text
digits zero n s = s
digits (suc f) n s =
    let more = digits f (n / 10) ((48 + n % 10) ∷ s) in if ltb n 10 then (48 + n) ∷ s else more

-- the last `k` digits
unfoldable pub last_digits : ℕ → ℕ → Text → Text
last_digits zero n s = s
last_digits (suc k) n s = last_digits k (n / 10) ((48 + n % 10) ∷ s)

unfoldable pub print_decimal : ℕ → ℕ → Text
print_decimal coef zero = digits (suc coef) coef []
print_decimal coef (suc k) =
    let whole = coef / 10 ^ suc k in
    digits (suc whole) whole (b'.' ∷ last_digits (suc k) (coef % 10 ^ suc k) [])

unfoldable pub print_operator : Op → Lexeme
print_operator op_and = identifier word_and
print_operator op_or = identifier word_or
print_operator o = operator o

unfoldable pub print_unary : UnaryOp → Lexeme
print_unary minus = operator op_sub
print_unary negation = identifier word_not

-- The lexemes of a tree before the lexemes `rest`, where an operator that binds less tightly than
-- `min` stands in parentheses.
unfoldable mutual
  pub print : ℕ → Node → List Lexeme → List Lexeme
  print min (number_node d) rest = number (print_decimal (magnitude d.coef) d.scale) ∷ rest
  print min (boolean_node b) rest = identifier (if b then word_true else word_false) ∷ rest
  print min (binary_node o l r) rest =
      if leb min (precedence o)
      then print (precedence o) l (print_operator o ∷ print (suc (precedence o)) r rest)
      else lparen
        ∷ print (precedence o) l (print_operator o ∷ print (suc (precedence o)) r (rparen ∷ rest))
  print min (unary_node u n) rest = print_unary u ∷ print 7 n rest
  print min (call_node w ns) rest = identifier w ∷ lparen ∷ print_args ns (rparen ∷ rest)
  print min (identifier_node w) rest = identifier w ∷ rest

  pub print_args : Nodes → List Lexeme → List Lexeme
  print_args no_nodes rest = rest
  print_args (node n ns) rest = print 0 n (print_more ns rest)

  pub print_more : Nodes → List Lexeme → List Lexeme
  print_more no_nodes rest = rest
  print_more (node n ns) rest = comma ∷ print 0 n (print_more ns rest)

-- A name that is none of the words `true`, `false` and `not`.
abbrev pub IsName : Text → Type 0
IsName w = (boolean_of w ≡ none) × (same_text w word_not ≡ false)

-- The trees that a text can stand for: numbers are not negative, names are none of those words, and
-- functions are allowed.
unfoldable mutual
  pub IsWritable : (Text → Bool) → Node → Type 0
  IsWritable allowed (number_node d) = d.coef ≡ pos (magnitude d.coef)
  IsWritable allowed (boolean_node b) = Unit
  IsWritable allowed (binary_node o l r) = IsWritable allowed l × IsWritable allowed r
  IsWritable allowed (unary_node u n) = IsWritable allowed n
  IsWritable allowed (call_node w ns) = (allowed w ≡ true) × IsName w × AllWritable allowed ns
  IsWritable allowed (identifier_node w) = IsName w

  pub AllWritable : (Text → Bool) → Nodes → Type 0
  AllWritable allowed no_nodes = Unit
  AllWritable allowed (node n ns) = IsWritable allowed n × AllWritable allowed ns

-- Lexemes as tokens at any positions, which the function `at` gives.
unfoldable pub place : (ℕ → ℕ) → ℕ → List Lexeme → List Token
place at i [] = []
place at i (l ∷ ls) = record { lexeme = l; position = at i } ∷ place at (suc i) ls
