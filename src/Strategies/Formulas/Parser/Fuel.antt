-- ===== src/Strategies/Formulas/Parser/Fuel.antt =====
-- More fuel does not change what the parser of formulas/parser.py gives.
use ratatoskr_v.Base.{
  ℕ, zero, suc, ◌≤◌, ◌≡◌, ◌⊎◌, inl, inr, refl, sym, Bool, List, [], ◌∷◌, arith, Bool-cases,
  Option-cases,
}
use ratatoskr_v.Strategies.Formulas.{
  Text, Lexeme, number, identifier, operator, lparen, rparen, comma, eof, Token, Node, binary_node,
  no_fuel, Result, ok, err, ◌>>=◌,
}
use ratatoskr_v.Strategies.Formulas.Parser.{
  precedence, operator_at, unary_operator, is_lparen, is_rparen, is_comma, boolean_of,
  parse_expression, parse_operators, parse_unary, parse_primary, parse_name, parse_args,
  parse_more_args,
}

-- The second result is the first, unless that ran out of fuel.
abbrev pub Stable {ℓ} : {A : Type ℓ} → Result A → Result A → Type ℓ
Stable r s = (r ≡ err no_fuel) ⊎ (r ≡ s)

pub ok-Stable {ℓ} : {A : Type ℓ} (r s : Result A) {a : A} → Stable r s → r ≡ ok a → s ≡ ok a
ok-Stable r s (inl e) h = cc
ok-Stable r s (inr e) h = cc

Stable-bind {ℓ κ} :
    {A : Type ℓ} {B : Type κ} (r s : Result A) (f g : A → Result B)
    → Stable r s
    → ((a : A) → Stable (f a) (g a))
    → Stable (r >>= f) (s >>= g)
Stable-bind r s f g (inl e) k = inl (rw e refl)
Stable-bind (ok a) s f g (inr e) k = rw (sym e) (k a)
Stable-bind (err c) s f g (inr e) k = rw (sym e) (inr refl)

module _ (allowed : Text → Bool) where
  mutual
    unfolding parse_expression parse_operators parse_unary parse_primary parse_name parse_args
        parse_more_args

    pub expression-Stable :
        (f g min : ℕ) (ts : List Token)
        → f ≤ g
        → Stable (parse_expression allowed f min ts) (parse_expression allowed g min ts)
    expression-Stable zero g min ts le = inl refl
    expression-Stable (suc f) zero min ts le = absurd (omega (arith, le))
    expression-Stable (suc f) (suc g) min ts le =
        Stable-bind _ _ _ _ (unary-Stable f g ts (omega (arith, le)))
          λ x. operators-Stable f g min (x.0) (x.1) (omega (arith, le))

    pub operators-Stable :
        (f g min : ℕ) (left : Node) (ts : List Token)
        → f ≤ g
        → Stable (parse_operators allowed f min left ts) (parse_operators allowed g min left ts)
    operators-Stable zero g min left ts le = inl refl
    operators-Stable (suc f) zero min left ts le = absurd (omega (arith, le))
    operators-Stable (suc f) (suc g) min left [] le = inr refl
    operators-Stable (suc f) (suc g) min left (t ∷ ts) le =
        elim (Option-cases (operator_at min t.lexeme)) [
          | inl e ↦ rw (e, parse_operators) (inr refl)
          | inr (o, e) ↦
              rw (e, parse_operators)
                (Stable-bind _ _ _ _
                  (expression-Stable f g (suc (precedence o)) ts (omega (arith, le)))
                  λ x.
                    operators-Stable f g min (binary_node o left (x.0)) (x.1) (omega (arith, le)))
        ]

    pub unary-Stable :
        (f g : ℕ) (ts : List Token)
        → f ≤ g
        → Stable (parse_unary allowed f ts) (parse_unary allowed g ts)
    unary-Stable zero g ts le = inl refl
    unary-Stable (suc f) zero ts le = absurd (omega (arith, le))
    unary-Stable (suc f) (suc g) [] le = inr refl
    unary-Stable (suc f) (suc g) (t ∷ ts) le = elim (Option-cases (unary_operator t.lexeme)) [
      | inl e ↦ rw (e, parse_unary) (primary-Stable f g t.lexeme t.position ts (omega (arith, le)))
      | inr (u, e) ↦
          rw (e, parse_unary)
            (Stable-bind _ _ _ _ (unary-Stable f g ts (omega (arith, le))) λ x. inr refl)
    ]

    pub primary-Stable :
        (f g : ℕ) (l : Lexeme) (i : ℕ) (ts : List Token)
        → f ≤ g
        → Stable (parse_primary allowed f l i ts) (parse_primary allowed g l i ts)
    primary-Stable zero g l i ts le = inl refl
    primary-Stable (suc f) zero l i ts le = absurd (omega (arith, le))
    primary-Stable (suc f) (suc g) (number w) i ts le = inr refl
    primary-Stable (suc f) (suc g) (identifier w) i ts le = elim (Option-cases (boolean_of w)) [
      | inl e ↦ rw (e, parse_primary) (name-Stable f g w i ts (omega (arith, le)))
      | inr (b, e) ↦ rw (e, parse_primary) (inr refl)
    ]
    primary-Stable (suc f) (suc g) lparen i ts le =
        Stable-bind _ _ _ _ (expression-Stable f g 0 ts (omega (arith, le))) λ x. inr refl
    primary-Stable (suc f) (suc g) (operator o) i ts le = inr refl
    primary-Stable (suc f) (suc g) rparen i ts le = inr refl
    primary-Stable (suc f) (suc g) comma i ts le = inr refl
    primary-Stable (suc f) (suc g) eof i ts le = inr refl

    pub name-Stable :
        (f g : ℕ) (w : Text) (i : ℕ) (ts : List Token)
        → f ≤ g
        → Stable (parse_name allowed f w i ts) (parse_name allowed g w i ts)
    name-Stable zero g w i ts le = inl refl
    name-Stable (suc f) zero w i ts le = absurd (omega (arith, le))
    name-Stable (suc f) (suc g) w i [] le = inr refl
    name-Stable (suc f) (suc g) w i (t ∷ ts) le = elim (Bool-cases (is_lparen t.lexeme)) [
      | inr e ↦ rw (e, parse_name) (inr refl)
      | inl e ↦ elim (Bool-cases (allowed w)) [
        | inr a ↦ rw (e, a, parse_name) (inr refl)
        | inl a ↦
            rw (e, a, parse_name)
              (Stable-bind _ _ _ _ (args-Stable f g ts (omega (arith, le))) λ x. inr refl)
      ]
    ]

    pub args-Stable :
        (f g : ℕ) (ts : List Token)
        → f ≤ g
        → Stable (parse_args allowed f ts) (parse_args allowed g ts)
    args-Stable zero g ts le = inl refl
    args-Stable (suc f) zero ts le = absurd (omega (arith, le))
    args-Stable (suc f) (suc g) [] le = inr refl
    args-Stable (suc f) (suc g) (t ∷ ts) le = elim (Bool-cases (is_rparen t.lexeme)) [
      | inl e ↦ rw (e, parse_args) (inr refl)
      | inr e ↦
          rw (e, parse_args)
            (Stable-bind _ _ _ _ (expression-Stable f g 0 (t ∷ ts) (omega (arith, le))) λ x.
              Stable-bind _ _ _ _ (more_args-Stable f g (x.1) (omega (arith, le))) λ y. inr refl)
    ]

    pub more_args-Stable :
        (f g : ℕ) (ts : List Token)
        → f ≤ g
        → Stable (parse_more_args allowed f ts) (parse_more_args allowed g ts)
    more_args-Stable zero g ts le = inl refl
    more_args-Stable (suc f) zero ts le = absurd (omega (arith, le))
    more_args-Stable (suc f) (suc g) [] le = inr refl
    more_args-Stable (suc f) (suc g) (t ∷ ts) le = elim (Bool-cases (is_comma t.lexeme)) [
      | inr e ↦ rw (e, parse_more_args) (inr refl)
      | inl e ↦
          rw (e, parse_more_args)
            (Stable-bind _ _ _ _ (expression-Stable f g 0 ts (omega (arith, le))) λ x.
              Stable-bind _ _ _ _ (more_args-Stable f g (x.1) (omega (arith, le))) λ y. inr refl)
    ]
