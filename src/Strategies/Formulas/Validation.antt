-- ===== src/Strategies/Formulas/Validation.antt =====
-- `FormulaParser.validate` of formulas/parser.py. The messages are left out: an expression is
-- accepted, rejected with at least one message, or the call raises.
use ratatoskr_v.Base.{
  ℕ, ◌+◌, Bool, true, false, List, [], ◌∷◌, ◌++◌, ◌&&◌, ◌||◌, not, leb, ◌==◌, if◌then◌else◌,
}
use ratatoskr_v.Strategies.Formulas.{
  Text, is_among, bar_fields, Node, unexpected_character, unexpected_token, expected_rparen,
  unknown_function, invalid_decimal, no_token, no_fuel, Result, ok, err,
}
use ratatoskr_v.Strategies.Formulas.Tokenizer.{is_space}
use ratatoskr_v.Strategies.Formulas.Operations.{Registry}
use ratatoskr_v.Strategies.Formulas.Evaluator.{is_allowed, read}

-- `_FORBIDDEN`
unfoldable pub forbidden : List Text
forbidden =
    (b'i' ∷ b'm' ∷ b'p' ∷ b'o' ∷ b'r' ∷ b't' ∷ [])
    ∷ (b'e' ∷ b'x' ∷ b'e' ∷ b'c' ∷ [])
    ∷ (b'e' ∷ b'v' ∷ b'a' ∷ b'l' ∷ [])
    ∷ (b'c' ∷ b'o' ∷ b'm' ∷ b'p' ∷ b'i' ∷ b'l' ∷ b'e' ∷ [])
    ∷ (b'o' ∷ b'p' ∷ b'e' ∷ b'n' ∷ [])
    ∷ (b'p' ∷ b'r' ∷ b'i' ∷ b'n' ∷ b't' ∷ [])
    ∷ (b'i' ∷ b'n' ∷ b'p' ∷ b'u' ∷ b't' ∷ [])
    ∷ (b'l' ∷ b'a' ∷ b'm' ∷ b'b' ∷ b'd' ∷ b'a' ∷ [])
    ∷ (b'c' ∷ b'l' ∷ b'a' ∷ b's' ∷ b's' ∷ [])
    ∷ (b'd' ∷ b'e' ∷ b'f' ∷ [])
    ∷ (b'f' ∷ b'o' ∷ b'r' ∷ [])
    ∷ (b'w' ∷ b'h' ∷ b'i' ∷ b'l' ∷ b'e' ∷ [])
    ∷ (b'i' ∷ b'f' ∷ [])
    ∷ (b'e' ∷ b'l' ∷ b's' ∷ b'e' ∷ [])
    ∷ (b'e' ∷ b'l' ∷ b'i' ∷ b'f' ∷ [])
    ∷ (b't' ∷ b'r' ∷ b'y' ∷ [])
    ∷ (b'e' ∷ b'x' ∷ b'c' ∷ b'e' ∷ b'p' ∷ b't' ∷ [])
    ∷ (b'f' ∷ b'i' ∷ b'n' ∷ b'a' ∷ b'l' ∷ b'l' ∷ b'y' ∷ [])
    ∷ (b'w' ∷ b'i' ∷ b't' ∷ b'h' ∷ [])
    ∷ (b'y' ∷ b'i' ∷ b'e' ∷ b'l' ∷ b'd' ∷ [])
    ∷ (b'r' ∷ b'e' ∷ b't' ∷ b'u' ∷ b'r' ∷ b'n' ∷ [])
    ∷ (b'r' ∷ b'a' ∷ b'i' ∷ b's' ∷ b'e' ∷ [])
    ∷ (b'd' ∷ b'e' ∷ b'l' ∷ [])
    ∷ (b'g' ∷ b'l' ∷ b'o' ∷ b'b' ∷ b'a' ∷ b'l' ∷ [])
    ∷ (b'n' ∷ b'o' ∷ b'n' ∷ b'l' ∷ b'o' ∷ b'c' ∷ b'a' ∷ b'l' ∷ [])
    ∷ (b'a' ∷ b's' ∷ b's' ∷ b'e' ∷ b'r' ∷ b't' ∷ [])
    ∷ (b'p' ∷ b'a' ∷ b's' ∷ b's' ∷ [])
    ∷ (b'b' ∷ b'r' ∷ b'e' ∷ b'a' ∷ b'k' ∷ [])
    ∷ (b'c' ∷ b'o' ∷ b'n' ∷ b't' ∷ b'i' ∷ b'n' ∷ b'u' ∷ b'e' ∷ [])
    ∷ (b'_' ∷ b'_' ∷ [])
    ∷ (b'g' ∷ b'e' ∷ b't' ∷ b'a' ∷ b't' ∷ b't' ∷ b'r' ∷ [])
    ∷ (b's' ∷ b'e' ∷ b't' ∷ b'a' ∷ b't' ∷ b't' ∷ b'r' ∷ [])
    ∷ (b'd' ∷ b'e' ∷ b'l' ∷ b'a' ∷ b't' ∷ b't' ∷ b'r' ∷ [])
    ∷ (b'g' ∷ b'l' ∷ b'o' ∷ b'b' ∷ b'a' ∷ b'l' ∷ b's' ∷ [])
    ∷ (b'l' ∷ b'o' ∷ b'c' ∷ b'a' ∷ b'l' ∷ b's' ∷ [])
    ∷ (b'v' ∷ b'a' ∷ b'r' ∷ b's' ∷ [])
    ∷ []

-- `str.lower` in ASCII
unfoldable pub lower : Text → Text
lower [] = []
lower (c ∷ s) = (if leb 65 c && leb c 90 then c + 32 else c) ∷ lower s

-- `"__" in word`
unfoldable pub has_dunder : Text → Bool
has_dunder [] = false
has_dunder (c ∷ []) = false
has_dunder (c ∷ d ∷ s) = c == b'_' && d == b'_' || has_dunder (d ∷ s)

-- white space, and the parentheses that are replaced by it
unfoldable pub is_break : ℕ → Bool
is_break c = is_space c || c == b'(' || c == b')'

abbrev pub add_word : Text → List Text → List Text
add_word [] ws = ws
add_word (c ∷ s) ws = (c ∷ s) ∷ ws

-- `split()`, with the word read so far
unfoldable pub split_from : Text → Text → List Text
split_from word [] = add_word word []
split_from word (c ∷ s) =
    if is_break c then add_word word (split_from [] s) else split_from (word ++ c ∷ []) s

-- a word for which `validate` has a message
unfoldable pub is_refused : Registry → Text → Bool
is_refused reg word =
    not (is_among (lower word) bar_fields || is_allowed reg (lower word))
    && (is_among (lower word) forbidden || has_dunder word)

abbrev pub any_refused : Registry → List Text → Bool
any_refused reg [] = false
any_refused reg (w ∷ ws) = is_refused reg w || any_refused reg ws

-- `not expression or not expression.strip()`
unfoldable pub is_blank : Text → Bool
is_blank [] = true
is_blank (c ∷ s) = is_space c && is_blank s

pub data Verdict : Type 0 where
  accepted rejected raised : Verdict

-- `except ValueError`: the parse errors are values of it, `InvalidOperation` and `IndexError` not.
unfoldable pub verdict_of : Result Node → Verdict
verdict_of (ok n) = accepted
verdict_of (err invalid_decimal) = raised
verdict_of (err no_token) = raised
verdict_of (err no_fuel) = raised
verdict_of (err (unexpected_character i)) = rejected
verdict_of (err (unexpected_token i)) = rejected
verdict_of (err (expected_rparen i)) = rejected
verdict_of (err (unknown_function i)) = rejected

unfoldable pub validate : Registry → Text → Verdict
validate reg s =
    if is_blank s
    then rejected
    else if any_refused reg (split_from [] s)
    then rejected
    else verdict_of (read reg s)
