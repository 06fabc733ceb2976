-- ===== src/Strategies/Formulas.antt =====
-- The formula language, backend/app/strategies/formulas/parser.py: tokens, syntax trees, errors and
-- the public functions. A text is the list of its code points; the texts are in ASCII, so that the
-- letters, digits and spaces which Python finds outside ASCII do not occur. The children are the
-- tokenizer, the parser, a printer that the parser is measured against, and the evaluator.
pub mod Tokenizer
pub mod Parser
pub mod Printer
pub mod Operations
pub mod Evaluator
pub mod Validation
pub mod Laws
pub mod Crossing
mod Tests
use ratatoskr_v.Base.{ℕ, Bool, true, false, List, [], ◌∷◌, ◌&&◌, ◌||◌, ◌==◌}
use ratatoskr_v.Decimal.{Decimal}

abbrev pub Text : Type 0
Text = List ℕ

abbrev pub same_text : Text → Text → Bool
same_text [] [] = true
same_text (a ∷ s) (b ∷ t) = a == b && same_text s t
same_text _ _ = false

abbrev pub is_among : Text → List Text → Bool
is_among w [] = false
is_among w (x ∷ xs) = same_text w x || is_among w xs

-- The operators of `_PRECEDENCE`: `and`, `or` and those of `_OPERATORS`.
pub data Op : Type 0 where
  op_or op_and op_eq op_ne op_gt op_lt op_ge op_le op_add op_sub op_mul op_div op_mod : Op

pub data UnaryOp : Type 0 where
  minus negation : UnaryOp

-- A token's type, and its value where the type does not give it.
pub data Lexeme : Type 0 where
  number : Text → Lexeme
  identifier : Text → Lexeme
  operator : Op → Lexeme
  lparen rparen comma eof : Lexeme

pub record Token : Type 0 where
  pub lexeme : Lexeme
  pub position : ℕ

-- `ASTNode`
mutual
  pub data Node : Type 0 where
    number_node : Decimal → Node
    boolean_node : Bool → Node
    binary_node : Op → Node → Node → Node
    unary_node : UnaryOp → Node → Node
    call_node : Text → Nodes → Node
    identifier_node : Text → Node

  pub data Nodes : Type 0 where
    no_nodes : Nodes
    node : Node → Nodes → Nodes

-- What is raised: the parse errors with their position; `InvalidOperation` of `Decimal`, and the
-- `IndexError` of a token that is not there. `no_fuel` is the model's, and does not occur.
pub data Error : Type 0 where
  unexpected_character unexpected_token expected_rparen unknown_function : ℕ → Error
  invalid_decimal no_token no_fuel : Error

pub data Result {ℓ} (A : Type ℓ) : Type ℓ where
  ok : A → Result A
  err : Error → Result A

infixl 5 ◌>>=◌
abbrev pub ◌>>=◌ {ℓ κ} : {A : Type ℓ} {B : Type κ} → Result A → (A → Result B) → Result B
ok a >>= f = f a
err e >>= f = err e

-- the words with a meaning of their own, `_KEYWORDS`
abbrev pub word_and : Text
word_and = b'a' ∷ b'n' ∷ b'd' ∷ []

abbrev pub word_or : Text
word_or = b'o' ∷ b'r' ∷ []

abbrev pub word_not : Text
word_not = b'n' ∷ b'o' ∷ b't' ∷ []

abbrev pub word_true : Text
word_true = b't' ∷ b'r' ∷ b'u' ∷ b'e' ∷ []

abbrev pub word_false : Text
word_false = b'f' ∷ b'a' ∷ b'l' ∷ b's' ∷ b'e' ∷ []

-- `_BAR_FIELDS`, `_MATH_FUNCTIONS` and `_SPECIAL_FUNCTIONS`
abbrev pub word_open : Text
word_open = b'o' ∷ b'p' ∷ b'e' ∷ b'n' ∷ []

abbrev pub word_high : Text
word_high = b'h' ∷ b'i' ∷ b'g' ∷ b'h' ∷ []

abbrev pub word_low : Text
word_low = b'l' ∷ b'o' ∷ b'w' ∷ []

abbrev pub word_close : Text
word_close = b'c' ∷ b'l' ∷ b'o' ∷ b's' ∷ b'e' ∷ []

abbrev pub word_volume : Text
word_volume = b'v' ∷ b'o' ∷ b'l' ∷ b'u' ∷ b'm' ∷ b'e' ∷ []

abbrev pub word_abs : Text
word_abs = b'a' ∷ b'b' ∷ b's' ∷ []

abbrev pub word_min : Text
word_min = b'm' ∷ b'i' ∷ b'n' ∷ []

abbrev pub word_max : Text
word_max = b'm' ∷ b'a' ∷ b'x' ∷ []

abbrev pub word_prev : Text
word_prev = b'p' ∷ b'r' ∷ b'e' ∷ b'v' ∷ []

abbrev pub word_crosses_above : Text
word_crosses_above =
    b'c' ∷ b'r' ∷ b'o' ∷ b's' ∷ b's' ∷ b'e' ∷ b's' ∷ b'_' ∷ b'a' ∷ b'b' ∷ b'o' ∷ b'v' ∷ b'e' ∷ []

abbrev pub word_crosses_below : Text
word_crosses_below =
    b'c' ∷ b'r' ∷ b'o' ∷ b's' ∷ b's' ∷ b'e' ∷ b's' ∷ b'_' ∷ b'b' ∷ b'e' ∷ b'l' ∷ b'o' ∷ b'w' ∷ []

abbrev pub bar_fields : List Text
bar_fields = word_open ∷ word_high ∷ word_low ∷ word_close ∷ word_volume ∷ []

abbrev pub builtin_functions : List Text
builtin_functions =
    word_abs ∷ word_min ∷ word_max ∷ word_prev ∷ word_crosses_above ∷ word_crosses_below ∷ []
