-- ===== src/Strategies/Formulas/Parser/Total.antt =====
-- The parser of formulas/parser.py reads no token that is not there, and it ends.
use ratatoskr_v.Base.{
  ℕ, zero, suc, ◌+◌, ◌-◌, ◌*◌, ◌==◌, ap, is_some, ◌<◌, ◌≤◌, ◌≡◌, ◌⊎◌, inl, inr, refl, Bool, true,
  false, some, List, [], ◌∷◌, if◌then◌else◌, length, arith, Bool-cases, Option-cases,
}
use ratatoskr_v.Decimal.{Decimal}
use ratatoskr_v.Strategies.Formulas.{
  Text, Op, UnaryOp, Lexeme, number, identifier, operator, lparen, rparen, comma, eof, Token, Node,
  binary_node, Error, invalid_decimal, no_token, no_fuel, Result, ok, err, ◌>>=◌,
}
use ratatoskr_v.Strategies.Formulas.Parser.{
  decimal_from, decimal_of, precedence, binary_operator, operator_at, unary_operator, is_lparen,
  is_rparen, is_comma, is_eof, expect_rparen, boolean_of, parse_expression, parse_operators,
  parse_unary, parse_primary, parse_name, parse_args, parse_more_args, finish, parse,
}

-- The last token, or an earlier one, ends the input.
abbrev pub is_ended : List Token → Bool
is_ended [] = false
is_ended (t ∷ ts) = if is_eof t.lexeme then true else is_ended ts

-- An error of the program's, and not a token that is missing or the end of the fuel.
abbrev pub IsRaised : Error → Type 0
IsRaised no_token = ⊥
IsRaised no_fuel = ⊥
IsRaised _ = Unit

-- A result that leaves fewer tokens than `n`, with the end among them, or that is an error of the
-- program's.
abbrev pub Progress {ℓ} : {A : Type ℓ} → ℕ → Result (A × List Token) → Type 0
Progress n (ok r) = (length (r.1) < n) × (is_ended (r.1) ≡ true)
Progress n (err e) = IsRaised e

module _ {A : Type 0} {B : Type 0} where
  Progress-bind :
      (m n : ℕ) (r : Result (A × List Token)) (f : A × List Token → Result (B × List Token))
      → Progress m r
      → ((x : A × List Token) → length (x.1) < m → is_ended (x.1) ≡ true → Progress n (f x))
      → Progress n (r >>= f)
  Progress-bind m n (ok x) f h k = k x h.0 h.1
  Progress-bind m n (err e) f h k = h

Progress-weaken :
    {A : Type 0} (m n : ℕ) (r : Result (A × List Token)) → m ≤ n → Progress m r → Progress n r
Progress-weaken m n (ok x) le h = (omega (arith, le, h.0), h.1)
Progress-weaken m n (err e) le h = h

-- A token that is passed is not the last one.
is_ended-rest :
    (t : Token) (ts : List Token)
    → is_eof t.lexeme ≡ false
    → is_ended (t ∷ ts) ≡ true
    → is_ended ts ≡ true
is_ended-rest t ts e h = ground (arith)

-- A test that the end does not pass tells that a token is not the end.
not_is_eof : (p : Lexeme → Bool) (l : Lexeme) → p eof ≡ false → p l ≡ true → is_eof l ≡ false
not_is_eof p eof h e = cc
not_is_eof p (number w) h e = refl
not_is_eof p (identifier w) h e = refl
not_is_eof p (operator o) h e = refl
not_is_eof p lparen h e = refl
not_is_eof p rparen h e = refl
not_is_eof p comma h e = refl

module _ (p : Lexeme → Bool) (p_eof : p eof ≡ false) where
  -- A token that passes such a test is passed.
  is_ended_advance :
      (t : Token) (ts : List Token)
      → p t.lexeme ≡ true
      → is_ended (t ∷ ts) ≡ true
      → is_ended ts ≡ true
  is_ended_advance t ts e h = ground (arith, not_is_eof p t.lexeme p_eof e)

operator_at_advance :
    (min : ℕ) (t : Token) (ts : List Token) {o : Op}
    → operator_at min t.lexeme ≡ some o
    → is_ended (t ∷ ts) ≡ true
    → is_ended ts ≡ true
unfolding operator_at binary_operator
operator_at_advance min t ts e =
    is_ended_advance (λ l. is_some (operator_at min l)) refl t ts (ap is_some e)

unary_operator_advance :
    (t : Token) (ts : List Token) {u : UnaryOp}
    → unary_operator t.lexeme ≡ some u
    → is_ended (t ∷ ts) ≡ true
    → is_ended ts ≡ true
unfolding unary_operator
unary_operator_advance t ts e =
    is_ended_advance (λ l. is_some (unary_operator l)) refl t ts (ap is_some e)

decimal_from_cases :
    (coef scale : ℕ) (after : Bool) (s : Text)
    → ((d : Decimal) × (decimal_from coef scale after s ≡ ok d))
      ⊎ (decimal_from coef scale after s ≡ err invalid_decimal)
unfolding decimal_from
decimal_from_cases coef scale after [] = inl (_, refl)
decimal_from_cases coef scale after (c ∷ s) = elim (Bool-cases (c == b'.')) [
  | inl e ↦ elim (Bool-cases after) [
    | inl a ↦ rw (e, a, decimal_from) (inr refl)
    | inr a ↦ rw (e, a, decimal_from) (decimal_from_cases coef scale true s)
  ]
  | inr e ↦
      rw (e, decimal_from)
        (decimal_from_cases (coef * 10 + (c - 48)) (if after then suc scale else scale) after s)
]

decimal_of_cases :
    (s : Text) → ((d : Decimal) × (decimal_of s ≡ ok d)) ⊎ (decimal_of s ≡ err invalid_decimal)
unfolding decimal_of
decimal_of_cases s = decimal_from_cases 0 0 false s

expect_rparen-Progress :
    {A : Type 0} (a : A) (n : ℕ) (ts : List Token)
    → length ts ≤ n
    → is_ended ts ≡ true
    → Progress n (expect_rparen ts >>= λ rest. ok (a, rest))
unfolding expect_rparen
expect_rparen-Progress a n [] le h = cc
expect_rparen-Progress a n (t ∷ ts) le h = elim (Bool-cases (is_rparen t.lexeme)) [
  | inl e ↦
      rw (e, Progress, expect_rparen) (omega (arith, le), is_ended_advance is_rparen refl t ts e h)
  | inr e ↦ rw (e, Progress, expect_rparen) tt
]

module _ (allowed : Text → Bool) where
  mutual
    unfolding parse_expression parse_operators parse_unary parse_primary parse_name parse_args
        parse_more_args

    pub expression-Progress :
        (f min : ℕ) (ts : List Token)
        → 6 * length ts + 3 ≤ f
        → is_ended ts ≡ true
        → Progress (length ts) (parse_expression allowed f min ts)
    expression-Progress zero min ts le h = absurd (omega (arith, le))
    expression-Progress (suc f) min ts le h =
        Progress-bind (length ts) (length ts) _ _ (unary-Progress f ts (omega (arith, le)) h)
          λ x lt e. operators-Progress f min (x.0) (x.1) (length ts) lt (omega (arith, le, lt)) e

    operators-Progress :
        (f min : ℕ) (left : Node) (ts : List Token) (n : ℕ)
        → length ts < n
        → 6 * length ts + 1 ≤ f
        → is_ended ts ≡ true
        → Progress n (parse_operators allowed f min left ts)
    operators-Progress zero min left ts n lt le h = absurd (omega (arith, le))
    operators-Progress (suc f) min left [] n lt le h = cc
    operators-Progress (suc f) min left (t ∷ ts) n lt le h =
        elim (Option-cases (operator_at min t.lexeme)) [
          | inl e ↦ rw (e, Progress, parse_operators) (lt, h)
          | inr (o, e) ↦
              let rest : is_ended ts ≡ true = operator_at_advance min t ts e h in
              rw (e, Progress, parse_operators)
                (Progress-bind (length ts) n _ _
                  (expression-Progress f (suc (precedence o)) ts (omega (arith, le)) rest)
                  λ x less x_ended.
                    operators-Progress f min (binary_node o left (x.0)) (x.1) n
                      (omega (arith, lt, less)) (omega (arith, le, less)) x_ended)
        ]

    unary-Progress :
        (f : ℕ) (ts : List Token)
        → 6 * length ts + 2 ≤ f
        → is_ended ts ≡ true
        → Progress (length ts) (parse_unary allowed f ts)
    unary-Progress zero ts le h = absurd (omega (arith, le))
    unary-Progress (suc f) [] le h = cc
    unary-Progress (suc f) (t ∷ ts) le h = elim (Option-cases (unary_operator t.lexeme)) [
      | inl e ↦
          rw (e, Progress, parse_unary)
            (primary-Progress f t.lexeme t.position ts (omega (arith, le)) h)
      | inr (u, e) ↦
          let rest : is_ended ts ≡ true = unary_operator_advance t ts e h in
          rw (e, Progress, parse_unary)
            (Progress-bind (length ts) (suc (length ts)) _ _
              (unary-Progress f ts (omega (arith, le)) rest)
              λ x less x_ended. (omega (arith, less), x_ended))
    ]

    primary-Progress :
        (f : ℕ) (l : Lexeme) (i : ℕ) (ts : List Token)
        → 6 * length ts + 7 ≤ f
        → (if is_eof l then true else is_ended ts) ≡ true
        → Progress (suc (length ts)) (parse_primary allowed f l i ts)
    primary-Progress zero l i ts le h = absurd (omega (arith, le))
    primary-Progress (suc f) (number w) i ts le h = elim (decimal_of_cases w) [
      | inl (d, e) ↦ rw (e, Progress, parse_primary) (omega arith, h)
      | inr e ↦ rw (e, Progress, parse_primary) tt
    ]
    primary-Progress (suc f) (identifier w) i ts le h = elim (Option-cases (boolean_of w)) [
      | inl e ↦ rw (e, Progress, parse_primary) (name-Progress f w i ts (omega (arith, le)) h)
      | inr (b, e) ↦ rw (e, Progress, parse_primary) (omega arith, h)
    ]
    primary-Progress (suc f) lparen i ts le h =
        Progress-bind (length ts) (suc (length ts)) _ _
          (expression-Progress f 0 ts (omega (arith, le)) h)
          λ x less x_ended. expect_rparen-Progress (x.0) _ (x.1) (omega (arith, less)) x_ended
    primary-Progress (suc f) (operator o) i ts le h = tt
    primary-Progress (suc f) rparen i ts le h = tt
    primary-Progress (suc f) comma i ts le h = tt
    primary-Progress (suc f) eof i ts le h = tt

    name-Progress :
        (f : ℕ) (w : Text) (i : ℕ) (ts : List Token)
        → 6 * length ts + 6 ≤ f
        → is_ended ts ≡ true
        → Progress (suc (length ts)) (parse_name allowed f w i ts)
    name-Progress zero w i ts le h = absurd (omega (arith, le))
    name-Progress (suc f) w i [] le h = cc
    name-Progress (suc f) w i (t ∷ ts) le h = elim (Bool-cases (is_lparen t.lexeme)) [
      | inr e ↦ rw (e, Progress, parse_name) (omega arith, h)
      | inl e ↦ elim (Bool-cases (allowed w)) [
        | inr a ↦ rw (e, a, Progress, parse_name) tt
        | inl a ↦
            let rest : is_ended ts ≡ true = is_ended_advance is_lparen refl t ts e h in
            rw (e, a, Progress, parse_name)
              (Progress-bind (suc (length ts)) (suc (suc (length ts))) _ _
                (args-Progress f ts (omega (arith, le)) rest)
                λ x less x_ended. expect_rparen-Progress _ _ (x.1) (omega (arith, less)) x_ended)
      ]
    ]

    args-Progress :
        (f : ℕ) (ts : List Token)
        → 6 * length ts + 4 ≤ f
        → is_ended ts ≡ true
        → Progress (suc (length ts)) (parse_args allowed f ts)
    args-Progress zero ts le h = absurd (omega (arith, le))
    args-Progress (suc f) [] le h = cc
    args-Progress (suc f) (t ∷ ts) le h = elim (Bool-cases (is_rparen t.lexeme)) [
      | inl e ↦ rw (e, Progress, parse_args) (omega arith, h)
      | inr e ↦
          rw (e, Progress, parse_args)
            (Progress-bind (suc (length ts)) (suc (suc (length ts))) _ _
              (expression-Progress f 0 (t ∷ ts) (omega (arith, le)) h)
              λ x less x_ended.
                Progress-bind (suc (length (x.1))) (suc (suc (length ts))) _ _
                  (more_args-Progress f (x.1) (omega (arith, le, less)) x_ended)
                  λ y y_less y_ended. (omega (arith, less, y_less), y_ended))
    ]

    more_args-Progress :
        (f : ℕ) (ts : List Token)
        → 6 * length ts + 3 ≤ f
        → is_ended ts ≡ true
        → Progress (suc (length ts)) (parse_more_args allowed f ts)
    more_args-Progress zero ts le h = absurd (omega (arith, le))
    more_args-Progress (suc f) [] le h = cc
    more_args-Progress (suc f) (t ∷ ts) le h = elim (Bool-cases (is_comma t.lexeme)) [
      | inr e ↦ rw (e, Progress, parse_more_args) (omega arith, h)
      | inl e ↦
          let rest : is_ended ts ≡ true = is_ended_advance is_comma refl t ts e h in
          rw (e, Progress, parse_more_args)
            (Progress-bind (length ts) (suc (suc (length ts))) _ _
              (expression-Progress f 0 ts (omega (arith, le)) rest)
              λ x less x_ended.
                Progress-bind (suc (length (x.1))) (suc (suc (length ts))) _ _
                  (more_args-Progress f (x.1) (omega (arith, le, less)) x_ended)
                  λ y y_less y_ended. (omega (arith, less, y_less), y_ended))
    ]

-- A value, or an error that the code raises.
abbrev pub IsSettled : Result Node → Type 0
IsSettled (ok n) = Unit
IsSettled (err e) = IsRaised e

finish-IsSettled :
    (n : ℕ) (r : Result (Node × List Token)) → Progress n r → IsSettled (r >>= finish)
unfolding finish
finish-IsSettled n (err e) h = h
finish-IsSettled n (ok (x, [])) h = cc
finish-IsSettled n (ok (x, t ∷ ts)) h = elim (Bool-cases (is_eof t.lexeme)) [
  | inl e ↦ rw (e, IsSettled, finish) tt
  | inr e ↦ rw (e, IsSettled, finish) tt
]

-- The parser's fuel is enough, and it reads no token behind the last one: on tokens with an end
-- token among them, `parse` gives a tree or one of the errors that the code raises.
pub parse-IsSettled :
    (allowed : Text → Bool) (ts : List Token) → is_ended ts ≡ true → IsSettled (parse allowed ts)
unfolding parse
parse-IsSettled allowed ts h =
    finish-IsSettled (length ts) _
      (expression-Progress allowed (6 * length ts + 6) 0 ts (omega arith) h)
