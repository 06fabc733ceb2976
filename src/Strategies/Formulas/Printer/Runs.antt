-- ===== src/Strategies/Formulas/Printer/Runs.antt =====
-- Runs of the parser of formulas/parser.py with enough fuel, put together from runs of its parts.
use ratatoskr_v.Base.{ℕ, suc, ◌+◌, ◌≤◌, ◌≡◌, refl, Bool, true, false, none, some, List, ◌∷◌, arith}
use ratatoskr_v.Strategies.Formulas.{
  Text, Op, UnaryOp, number, identifier, lparen, Token, Node, number_node, boolean_node,
  binary_node, unary_node, call_node, identifier_node, Nodes, no_nodes, node, Result, ok, ◌>>=◌,
}
use ratatoskr_v.Strategies.Formulas.Parser.{
  add_arg, precedence, operator_at, unary_operator, is_lparen, is_rparen, is_comma, boolean_of,
  expect_rparen, decimal_of, parse_expression, parse_operators, parse_unary, parse_primary,
  parse_name, parse_args, parse_more_args,
}
use ratatoskr_v.Strategies.Formulas.Parser.Fuel.{
  Stable, ok-Stable, expression-Stable, operators-Stable, unary-Stable, more_args-Stable,
}
use ratatoskr_v.Decimal.{Decimal}

-- With some fuel, the result is `a`.
abbrev pub Runs {ℓ} : {A : Type ℓ} → (ℕ → Result A) → A → Type ℓ
Runs g a = (f : ℕ) × (g f ≡ ok a)

-- More fuel does not change a result.
abbrev pub IsStable {ℓ} : {A : Type ℓ} → (ℕ → Result A) → Type ℓ
IsStable g = (f k : ℕ) → f ≤ k → Stable (g f) (g k)

module _ {ℓ κ} {A : Type ℓ} {B : Type κ} where
  Runs-bind :
      (g : ℕ → Result A) (h : ℕ → A → Result B) (a : A) (b : B)
      → IsStable g
      → IsStable (λ f. h f a)
      → Runs g a
      → Runs (λ f. h f a) b
      → Runs (λ f. g f >>= h f) b
  Runs-bind g h a b sg sh x y =
      let f = x.0 + y.0 in
      (
        f,
        joined f (ok-Stable _ _ (sg (x.0) f (omega arith)) (x.1))
            (ok-Stable _ _ (sh (y.0) f (omega arith)) (y.1)),
      )
    where
      joined : (f : ℕ) → g f ≡ ok a → h f a ≡ ok b → (g f >>= h f) ≡ ok b
      joined f e d = rw e d

module _ (allowed : Text → Bool) where
  pub Runs-expression :
      (min : ℕ) (ts us : List Token) (n : Node) (r : Node × List Token)
      → Runs (λ f. parse_unary allowed f ts) (n, us)
      → Runs (λ f. parse_operators allowed f min n us) r
      → Runs (λ f. parse_expression allowed f min ts) r
  unfolding parse_expression
  Runs-expression min ts us n r x y =
      let z =
        Runs-bind (λ f. parse_unary allowed f ts) (λ f a. parse_operators allowed f min (a.0) (a.1))
          (n, us) r (λ f k. unary-Stable allowed f k ts)
          (λ f k. operators-Stable allowed f k min n us) x y in
      (suc (z.0), z.1)

  pub Runs-operators :
      (min : ℕ) (t : Token) (ts us : List Token) (left right : Node) (o : Op)
      (r : Node × List Token)
      → operator_at min t.lexeme ≡ some o
      → Runs (λ f. parse_expression allowed f (suc (precedence o)) ts) (right, us)
      → Runs (λ f. parse_operators allowed f min (binary_node o left right) us) r
      → Runs (λ f. parse_operators allowed f min left (t ∷ ts)) r
  unfolding parse_operators
  Runs-operators min t ts us left right o r e x y =
      let z =
        Runs-bind (λ f. parse_expression allowed f (suc (precedence o)) ts)
          (λ f a. parse_operators allowed f min (binary_node o left (a.0)) (a.1)) (right, us) r
          (λ f k. expression-Stable allowed f k (suc (precedence o)) ts)
          (λ f k. operators-Stable allowed f k min (binary_node o left right) us) x y in
      (suc (z.0), rw (e, parse_operators) z.1)

  pub Runs-stop :
      (min : ℕ) (t : Token) (ts : List Token) (n : Node)
      → operator_at min t.lexeme ≡ none
      → Runs (λ f. parse_operators allowed f min n (t ∷ ts)) (n, t ∷ ts)
  unfolding parse_operators
  Runs-stop min t ts n e = (1, rw (e, parse_operators) refl)

  pub Runs-unary :
      (t : Token) (ts us : List Token) (u : UnaryOp) (n : Node)
      → unary_operator t.lexeme ≡ some u
      → Runs (λ f. parse_unary allowed f ts) (n, us)
      → Runs (λ f. parse_unary allowed f (t ∷ ts)) (unary_node u n, us)
  unfolding parse_unary
  Runs-unary t ts us u n e x = (suc (x.0), rw (e, parse_unary) (rw (x.1) refl))

  pub Runs-primary :
      (t : Token) (ts : List Token) (r : Node × List Token)
      → unary_operator t.lexeme ≡ none
      → Runs (λ f. parse_primary allowed f t.lexeme t.position ts) r
      → Runs (λ f. parse_unary allowed f (t ∷ ts)) r
  unfolding parse_unary
  Runs-primary t ts r e x = (suc (x.0), rw (e, parse_unary) x.1)

  pub Runs-number :
      (w : Text) (i : ℕ) (ts : List Token) (d : Decimal)
      → decimal_of w ≡ ok d
      → Runs (λ f. parse_primary allowed f (number w) i ts) (number_node d, ts)
  unfolding parse_primary
  Runs-number w i ts d e = (1, rw (e, parse_primary) refl)

  pub Runs-boolean :
      (w : Text) (i : ℕ) (ts : List Token) (b : Bool)
      → boolean_of w ≡ some b
      → Runs (λ f. parse_primary allowed f (identifier w) i ts) (boolean_node b, ts)
  unfolding parse_primary
  Runs-boolean w i ts b e = (1, rw (e, parse_primary) refl)

  Runs-name :
      (w : Text) (i : ℕ) (ts : List Token) (r : Node × List Token)
      → boolean_of w ≡ none
      → Runs (λ f. parse_name allowed f w i ts) r
      → Runs (λ f. parse_primary allowed f (identifier w) i ts) r
  unfolding parse_primary
  Runs-name w i ts r e x = (suc (x.0), rw (e, parse_primary) x.1)

  no_call :
      (w : Text) (i : ℕ) (t : Token) (ts : List Token)
      → is_lparen t.lexeme ≡ false
      → Runs (λ f. parse_name allowed f w i (t ∷ ts)) (identifier_node w, t ∷ ts)
  unfolding parse_name
  no_call w i t ts d = (1, rw (d, parse_name) refl)

  pub Runs-identifier :
      (w : Text) (i : ℕ) (t : Token) (ts : List Token)
      → boolean_of w ≡ none
      → is_lparen t.lexeme ≡ false
      → Runs (λ f. parse_primary allowed f (identifier w) i (t ∷ ts)) (identifier_node w, t ∷ ts)
  Runs-identifier w i t ts e d = Runs-name w i (t ∷ ts) _ e (no_call w i t ts d)

  expected :
      (t : Token) (ts : List Token) → is_rparen t.lexeme ≡ true → expect_rparen (t ∷ ts) ≡ ok ts
  unfolding expect_rparen
  expected t ts e = rw e refl

  -- `(`, an expression, `)`
  pub Runs-group :
      (i : ℕ) (t : Token) (ts us : List Token) (n : Node)
      → is_rparen t.lexeme ≡ true
      → Runs (λ f. parse_expression allowed f 0 ts) (n, t ∷ us)
      → Runs (λ f. parse_primary allowed f lparen i ts) (n, us)
  unfolding parse_primary
  Runs-group i t ts us n e x = (suc (x.0), rw (x.1) (rw (expected t us e) refl))

  called :
      (w : Text) (i : ℕ) (s t : Token) (ts us : List Token) (ns : Nodes)
      → allowed w ≡ true
      → is_lparen s.lexeme ≡ true
      → is_rparen t.lexeme ≡ true
      → Runs (λ f. parse_args allowed f ts) (ns, t ∷ us)
      → Runs (λ f. parse_name allowed f w i (s ∷ ts)) (call_node w ns, us)
  unfolding parse_name
  called w i s t ts us ns a l d x =
      (suc (x.0), rw (l, a, parse_name) (rw (x.1) (rw (expected t us d) refl)))

  -- a name, `(`, arguments, `)`
  pub Runs-call :
      (w : Text) (i : ℕ) (s t : Token) (ts us : List Token) (ns : Nodes)
      → boolean_of w ≡ none
      → allowed w ≡ true
      → is_lparen s.lexeme ≡ true
      → is_rparen t.lexeme ≡ true
      → Runs (λ f. parse_args allowed f ts) (ns, t ∷ us)
      → Runs (λ f. parse_primary allowed f (identifier w) i (s ∷ ts)) (call_node w ns, us)
  Runs-call w i s t ts us ns e a l d x =
      Runs-name w i (s ∷ ts) _ e (called w i s t ts us ns a l d x)

  pub Runs-no_args :
      (t : Token) (ts : List Token)
      → is_rparen t.lexeme ≡ true
      → Runs (λ f. parse_args allowed f (t ∷ ts)) (no_nodes, t ∷ ts)
  unfolding parse_args
  Runs-no_args t ts e = (1, rw (e, parse_args) refl)

  module _ (ts us vs : List Token) (n : Node) (ns : Nodes)
      (first : Runs (λ f. parse_expression allowed f 0 ts) (n, us))
      (others : Runs (λ f. parse_more_args allowed f us) (ns, vs)) where
    Runs-both :
        Runs {A = Nodes × List Token}
          (λ f. parse_expression allowed f 0 ts >>= λ r.
            parse_more_args allowed f (r.1) >>= λ more. ok (add_arg (r.0) more))
          (node n ns, vs)
    Runs-both =
        let f = first.0 + others.0 in
        (
          f,
          joined f
              (ok-Stable _ _ (expression-Stable allowed (first.0) f 0 ts (omega arith)) (first.1))
              (ok-Stable _ _ (more_args-Stable allowed (others.0) f us (omega arith)) (others.1)),
        )
      where
        joined :
            (f : ℕ)
            → parse_expression allowed f 0 ts ≡ ok (n, us)
            → parse_more_args allowed f us ≡ ok (ns, vs)
            → (parse_expression allowed f 0 ts >>= λ r.
                parse_more_args allowed f (r.1) >>= λ more. ok (add_arg (r.0) more))
              ≡ ok (node n ns, vs)
        joined f e d = rw e (rw d refl)

  pub Runs-more_args :
      (t : Token) (ts us vs : List Token) (n : Node) (ns : Nodes)
      → is_comma t.lexeme ≡ true
      → Runs (λ f. parse_expression allowed f 0 ts) (n, us)
      → Runs (λ f. parse_more_args allowed f us) (ns, vs)
      → Runs (λ f. parse_more_args allowed f (t ∷ ts)) (node n ns, vs)
  unfolding parse_more_args
  Runs-more_args t ts us vs n ns e x y =
      let z = Runs-both ts us vs n ns x y in (suc (z.0), rw (e, parse_more_args) z.1)

  pub Runs-no_more_args :
      (t : Token) (ts : List Token)
      → is_comma t.lexeme ≡ false
      → Runs (λ f. parse_more_args allowed f (t ∷ ts)) (no_nodes, t ∷ ts)
  unfolding parse_more_args
  Runs-no_more_args t ts e = (1, rw (e, parse_more_args) refl)

  pub Runs-args :
      (t : Token) (ts us vs : List Token) (n : Node) (ns : Nodes)
      → is_rparen t.lexeme ≡ false
      → Runs (λ f. parse_expression allowed f 0 (t ∷ ts)) (n, us)
      → Runs (λ f. parse_more_args allowed f us) (ns, vs)
      → Runs (λ f. parse_args allowed f (t ∷ ts)) (node n ns, vs)
  unfolding parse_args
  Runs-args t ts us vs n ns e x y =
      let z = Runs-both (t ∷ ts) us vs n ns x y in (suc (z.0), rw (e, parse_args) z.1)
