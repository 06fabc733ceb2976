-- ===== src/Strategies/Formulas/Laws.antt =====
-- The formula language of formulas/parser.py from text to value.
use ratatoskr_v.Base.{ℕ, ◌≡◌, inl, inr, refl, true, List, [], arith, Bool-cases}
use ratatoskr_v.Strategies.Formulas.{
  Text, Token, Node, Error, unexpected_character, unexpected_token, expected_rparen,
  unknown_function, invalid_decimal, no_token, no_fuel, Result, ok, err, ◌>>=◌,
}
use ratatoskr_v.Strategies.Formulas.Tokenizer.{tokenize}
use ratatoskr_v.Strategies.Formulas.Tokenizer.Spelling.{
  Covers, covers_end, covers_space, covers_token, Tokenizes, IsRefusal, tokenize-Covers,
}
use ratatoskr_v.Strategies.Formulas.Parser.{parse}
use ratatoskr_v.Strategies.Formulas.Parser.Total.{is_ended, IsRaised, IsSettled, parse-IsSettled}
use ratatoskr_v.Strategies.Formulas.Operations.{Registry}
use ratatoskr_v.Strategies.Formulas.Evaluator.{is_allowed, read}
use ratatoskr_v.Strategies.Formulas.Validation.{
  any_refused, split_from, is_blank, Verdict, accepted, rejected, raised, verdict_of, validate,
}

Covers-is_ended : {i : ℕ} {t : Text} {ts : List Token} → Covers i t ts → is_ended ts ≡ true
Covers-is_ended covers_end = refl
Covers-is_ended (covers_space e h) = Covers-is_ended h
Covers-is_ended (covers_token l e s h) = ground (arith, Covers-is_ended h)

refusal-IsRaised : (e : Error) → IsRefusal e → IsRaised e
refusal-IsRaised (unexpected_character i) h = tt
refusal-IsRaised (unexpected_token i) h = absurd h
refusal-IsRaised (expected_rparen i) h = absurd h
refusal-IsRaised (unknown_function i) h = absurd h
refusal-IsRaised invalid_decimal h = absurd h
refusal-IsRaised no_token h = absurd h
refusal-IsRaised no_fuel h = absurd h

read_cases :
    (reg : Registry) (t : Text) (r : Result (List Token))
    → Tokenizes 0 t r
    → IsSettled (r >>= parse (is_allowed reg))
read_cases reg t (ok ts) h = parse-IsSettled (is_allowed reg) ts (Covers-is_ended h)
read_cases reg t (err e) h = refusal-IsRaised e h

-- Reading an expression ends: for every text, tokenizer and parser give a tree or one of the errors
-- that the code raises; the loops and the recursion do not go on for ever, and no token is read
-- behind the last one.
pub read-IsSettled : (reg : Registry) (t : Text) → IsSettled (read reg t)
unfolding read
read-IsSettled reg t = read_cases reg t (tokenize t) (tokenize-Covers t)

-- What `verdict_of` says of the result.
abbrev pub Explains : Verdict → Result Node → Type 0
Explains accepted r = (n : Node) × (r ≡ ok n)
Explains rejected r = Unit
Explains raised r = r ≡ err invalid_decimal

verdict_of-Explains : (r : Result Node) → IsSettled r → Explains (verdict_of r) r
unfolding verdict_of
verdict_of-Explains (ok n) h = (n, refl)
verdict_of-Explains (err (unexpected_character i)) h = tt
verdict_of-Explains (err (unexpected_token i)) h = tt
verdict_of-Explains (err (expected_rparen i)) h = tt
verdict_of-Explains (err (unknown_function i)) h = tt
verdict_of-Explains (err invalid_decimal) h = refl
verdict_of-Explains (err no_token) h = absurd h
verdict_of-Explains (err no_fuel) h = absurd h

-- An expression that `validate` accepts is one that `evaluate` can read: it has a tree. And
-- `validate` raises only for a number that is none, such as `1.2.3`.
pub validate-Explains : (reg : Registry) (t : Text) → Explains (validate reg t) (read reg t)
unfolding validate
validate-Explains reg t = elim (Bool-cases (is_blank t)) [
  | inl e ↦ rw (e, validate, Explains) tt
  | inr e ↦ elim (Bool-cases (any_refused reg (split_from [] t))) [
    | inl d ↦ rw (e, d, validate, Explains) tt
    | inr d ↦ rw (e, d, validate) (verdict_of-Explains (read reg t) (read-IsSettled reg t))
  ]
]
