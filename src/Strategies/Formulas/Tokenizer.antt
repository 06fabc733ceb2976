-- ===== src/Strategies/Formulas/Tokenizer.antt =====
-- `Tokenizer.tokenize` of formulas/parser.py.
pub mod Spelling
use ratatoskr_v.Base.{
  ℕ, zero, suc, ◌+◌, Bool, true, false, Option, none, some, List, [], ◌∷◌, ◌&&◌, ◌||◌, ◌==◌, leb,
  if◌then◌else◌, length,
}
use ratatoskr_v.Strategies.Formulas.{
  Text, Op, op_eq, op_ne, op_gt, op_lt, op_ge, op_le, op_add, op_sub, op_mul, op_div, op_mod,
  Lexeme, number, identifier, operator, lparen, rparen, comma, eof, Token, Error,
  unexpected_character, no_fuel, Result, ok, err, ◌>>=◌,
}

-- `str.isspace`, `str.isdigit` and `str.isalpha` on an ASCII character
unfoldable pub is_space : ℕ → Bool
is_space c = c == 32 || leb 9 c && leb c 13 || leb 28 c && leb c 31

unfoldable pub is_digit : ℕ → Bool
is_digit c = leb 48 c && leb c 57

unfoldable pub is_alpha : ℕ → Bool
is_alpha c = leb 65 c && leb c 90 || leb 97 c && leb c 122

-- a character that starts an identifier, and one that continues it
unfoldable pub is_name_start : ℕ → Bool
is_name_start c = is_alpha c || c == b'_'

unfoldable pub is_name_part : ℕ → Bool
is_name_part c = is_alpha c || is_digit c || c == b'_'

unfoldable pub is_number_part : ℕ → Bool
is_number_part c = is_digit c || c == b'.'

-- What a `while` loop over characters passes, and what it leaves.
unfoldable pub span : (ℕ → Bool) → Text → Text × Text
span p [] = ([], [])
span p (c ∷ s) = if p c then (c ∷ (span p s).0, (span p s).1) else ([], c ∷ s)

unfoldable pub next_is_digit : Text → Bool
next_is_digit [] = false
next_is_digit (c ∷ s) = is_digit c

-- `ch.isdigit() or (ch == "." and ...)`
unfoldable pub is_number_start : ℕ → Text → Bool
is_number_start c s = is_digit c || c == b'.' && next_is_digit s

-- the operators of two characters
unfoldable pub double_operator : ℕ → Text → Option Op
double_operator c [] = none
double_operator c (d ∷ s) =
    if d == b'='
    then if c == b'>'
      then some op_ge
      else if c == b'<'
      then some op_le
      else if c == b'='
      then some op_eq
      else if c == b'!'
      then some op_ne
      else none
    else none

-- the lexemes of one character
unfoldable pub single_lexeme : ℕ → Option Lexeme
single_lexeme c =
    if c == b'+'
    then some (operator op_add)
    else if c == b'-'
    then some (operator op_sub)
    else if c == b'*'
    then some (operator op_mul)
    else if c == b'/'
    then some (operator op_div)
    else if c == b'%'
    then some (operator op_mod)
    else if c == b'>'
    then some (operator op_gt)
    else if c == b'<'
    then some (operator op_lt)
    else if c == b'('
    then some lparen
    else if c == b')'
    then some rparen
    else if c == b','
    then some comma
    else none

-- One round of the loop on the text from its character `c` on: the token, if the round makes one,
-- and what the round passes, which is not empty.
pub data Round : Type 0 where
  skip : Text → Round
  token : Lexeme → ℕ → Text → Round
  stop : Round

-- the text after the second character
abbrev pub rest_of : Text → Text
rest_of [] = []
rest_of (c ∷ s) = s

unfoldable pub scan_operator : ℕ → Text → Round
scan_operator c s = elim (double_operator c s) [
  | some o ↦ token (operator o) 2 (rest_of s)
  | none ↦ elim (single_lexeme c) [ some l ↦ token l 1 s | none ↦ stop ]
]

unfoldable pub scan : ℕ → Text → Round
scan c s =
    if is_space c
    then skip s
    else if is_number_start c s
    then (let w = span is_number_part s in token (number (c ∷ w.0)) (suc (length (w.0))) (w.1))
    else if is_name_start c
    then (let w = span is_name_part s in token (identifier (c ∷ w.0)) (suc (length (w.0))) (w.1))
    else scan_operator c s

abbrev pub at_position : Lexeme → ℕ → Token
at_position l i = record { lexeme = l; position = i }

-- The loop from position `i` on. The fuel is the length of the text, since each round passes a
-- character.
unfoldable pub tokenize_from : ℕ → ℕ → Text → Result (List Token)
tokenize_from f i [] = ok (at_position eof i ∷ [])
tokenize_from zero i (c ∷ s) = err no_fuel
tokenize_from (suc f) i (c ∷ s) = elim (scan c s) [
  | skip rest ↦ tokenize_from f (suc i) rest
  | token l width rest ↦
      tokenize_from f (i + width) rest >>= λ tokens. ok (at_position l i ∷ tokens)
  | stop ↦ err (unexpected_character i)
]

unfoldable pub tokenize : Text → Result (List Token)
tokenize s = tokenize_from (length s) 0 s
