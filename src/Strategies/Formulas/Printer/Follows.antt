-- ===== src/Strategies/Formulas/Printer/Follows.antt =====
-- What may stand after a printed tree (formulas/parser.py), and how printed operators are read.
use ratatoskr_v.Base.{
  ℕ, suc, ◌≤◌, ◌≡◌, inl, inr, refl, false, none, some, List, [], ◌∷◌, leb, arith, Option-cases,
}
use ratatoskr_v.Strategies.Formulas.{
  Op, op_or, op_and, op_eq, op_ne, op_gt, op_lt, op_ge, op_le, op_add, op_sub, op_mul, op_div,
  op_mod, UnaryOp, minus, negation, Lexeme, number, identifier, operator, lparen, rparen, comma,
  eof,
}
use ratatoskr_v.Strategies.Formulas.Parser.{
  precedence, binary_operator, operator_at, unary_operator, is_lparen,
}
use ratatoskr_v.Strategies.Formulas.Printer.{print_operator, print_unary}

binary_operator-print_operator : (o : Op) → binary_operator (print_operator o) ≡ some o
unfolding binary_operator print_operator
binary_operator-print_operator op_or = refl
binary_operator-print_operator op_and = refl
binary_operator-print_operator op_eq = refl
binary_operator-print_operator op_ne = refl
binary_operator-print_operator op_gt = refl
binary_operator-print_operator op_lt = refl
binary_operator-print_operator op_ge = refl
binary_operator-print_operator op_le = refl
binary_operator-print_operator op_add = refl
binary_operator-print_operator op_sub = refl
binary_operator-print_operator op_mul = refl
binary_operator-print_operator op_div = refl
binary_operator-print_operator op_mod = refl

binary_no_call : (l : Lexeme) {o : Op} → binary_operator l ≡ some o → is_lparen l ≡ false
unfolding binary_operator
binary_no_call lparen h = cc
binary_no_call (number w) h = refl
binary_no_call (identifier w) h = refl
binary_no_call (operator o) h = refl
binary_no_call rparen h = refl
binary_no_call comma h = refl
binary_no_call eof h = refl

pub unary_operator-print_unary : (u : UnaryOp) → unary_operator (print_unary u) ≡ some u
unfolding unary_operator print_unary
unary_operator-print_unary minus = refl
unary_operator-print_unary negation = refl

-- The lexemes after a tree that is printed for `q`: they are there, they do not make a name a call,
-- and they start with no operator that binds as tightly as `q`.
abbrev pub Follows : ℕ → List Lexeme → Type 0
Follows q [] = ⊥
Follows q (l ∷ ls) = (is_lparen l ≡ false) × (operator_at q l ≡ none)

operator_at_weaken :
    (p q : ℕ) (l : Lexeme) → p ≤ q → operator_at p l ≡ none → operator_at q l ≡ none
unfolding operator_at
operator_at_weaken p q l le h = elim (Option-cases (binary_operator l)) [
  | inl e ↦ rw e refl
  | inr (o, e) ↦ ground (arith)
]

pub Follows-weaken : (p q : ℕ) (ls : List Lexeme) → p ≤ q → Follows p ls → Follows q ls
Follows-weaken p q [] le h = h
Follows-weaken p q (l ∷ ls) le h = (h.0, operator_at_weaken p q l le h.1)

pub operator_at-print_operator :
    (min : ℕ) (o : Op) → min ≤ precedence o → operator_at min (print_operator o) ≡ some o
unfolding operator_at
operator_at-print_operator min o le = rw (binary_operator-print_operator o) (ground (arith))

pub operator-Follows :
    (o : Op) (ls : List Lexeme) → Follows (suc (precedence o)) (print_operator o ∷ ls)
unfolding operator_at
operator-Follows o ls = (
  binary_no_call (print_operator o) (binary_operator-print_operator o),
  rw (binary_operator-print_operator o) (ground (arith)),
)

-- Every operator binds less tightly than the unary ones.
pub precedence_lt : (o : Op) → leb 7 (precedence o) ≡ false
unfolding precedence
precedence_lt op_or = refl
precedence_lt op_and = refl
precedence_lt op_eq = refl
precedence_lt op_ne = refl
precedence_lt op_gt = refl
precedence_lt op_lt = refl
precedence_lt op_ge = refl
precedence_lt op_le = refl
precedence_lt op_add = refl
precedence_lt op_sub = refl
precedence_lt op_mul = refl
precedence_lt op_div = refl
precedence_lt op_mod = refl
