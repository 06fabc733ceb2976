-- ===== src/Strategies/Formulas/Printer/Enough.antt =====
-- The fuel that `parse` of formulas/parser.py is given suffices for a printed tree.
use ratatoskr_v.Base.{
  ℕ, suc, ◌+◌, ◌*◌, ◌≡◌, inl, inr, refl, subst, ◌∙◌, Bool, true, List, [], ◌∷◌, leb, length, arith,
  Bool-cases,
}
use ratatoskr_v.Strategies.Formulas.{
  Text, Lexeme, rparen, eof, Token, Node, number_node, boolean_node, binary_node, unary_node,
  call_node, identifier_node, Nodes, no_nodes, node, no_fuel, Result, ok, err,
}
use ratatoskr_v.Strategies.Formulas.Parser.{precedence, parse_expression, finish, parse}
use ratatoskr_v.Strategies.Formulas.Parser.Total.{is_ended, Progress, expression-Progress}
use ratatoskr_v.Strategies.Formulas.Parser.Fuel.{Stable, ok-Stable, expression-Stable}
use ratatoskr_v.Strategies.Formulas.Printer.{print, print_args, print_more, IsWritable, place}
use ratatoskr_v.Strategies.Formulas.Printer.RoundTrip.{print-Runs}

module _ (at : ℕ → ℕ) where
  -- The end is among the lexemes.
  abbrev Ended : List Lexeme → Type 0
  Ended ls = (k : ℕ) → is_ended (place at k ls) ≡ true

  Ended-cons : (l : Lexeme) (ls : List Lexeme) → Ended ls → Ended (l ∷ ls)
  unfolding place
  Ended-cons l ls h k = ground (arith, h (suc k))

  pub Ended-eof : Ended (eof ∷ [])
  unfolding place
  Ended-eof k = refl

  mutual
    unfolding print

    pub print-Ended : (n : Node) (q : ℕ) (rest : List Lexeme) → Ended rest → Ended (print q n rest)
    print-Ended (number_node d) q rest h = Ended-cons _ rest h
    print-Ended (boolean_node b) q rest h = Ended-cons _ rest h
    print-Ended (binary_node o l r) q rest h = elim (Bool-cases (leb q (precedence o))) [
      | inl e ↦
          rw e (print-Ended l _ _ (Ended-cons _ _ (print-Ended r (suc (precedence o)) rest h)))
      | inr e ↦ rw e (
          Ended-cons _ _ (
            print-Ended l _ _
              (Ended-cons _ _ (print-Ended r (suc (precedence o)) _ (Ended-cons rparen rest h)))))
    ]
    print-Ended (unary_node u n) q rest h = Ended-cons _ _ (print-Ended n 7 rest h)
    print-Ended (call_node w ns) q rest h =
        Ended-cons _ _ (Ended-cons _ _ (args-Ended ns _ (Ended-cons rparen rest h)))
    print-Ended (identifier_node w) q rest h = Ended-cons _ rest h

    args-Ended : (ns : Nodes) (rest : List Lexeme) → Ended rest → Ended (print_args ns rest)
    args-Ended no_nodes rest h = h
    args-Ended (node n ns) rest h = print-Ended n 0 _ (more-Ended ns rest h)

    more-Ended : (ns : Nodes) (rest : List Lexeme) → Ended rest → Ended (print_more ns rest)
    more-Ended no_nodes rest h = h
    more-Ended (node n ns) rest h = Ended-cons _ _ (print-Ended n 0 _ (more-Ended ns rest h))

not_lost : {A : Type 0} (n : ℕ) (r : Result (A × List Token)) → Progress n r → r ≡ err no_fuel → ⊥
not_lost n r h e = subst (λ s. Progress n s) e h

module _ (allowed : Text → Bool) where
  -- A result that some fuel gives is given by the fuel of `parse`.
  enough :
      (ts : List Token) (r : Node × List Token) (f : ℕ)
      → is_ended ts ≡ true
      → parse_expression allowed f 0 ts ≡ ok r
      → parse_expression allowed (6 * length ts + 6) 0 ts ≡ ok r
  enough ts r f h e =
      let k = 6 * length ts + 6 in
      same (expression-Stable allowed k (f + k) 0 ts (omega arith))
        (not_lost (length ts) _ (expression-Progress allowed k 0 ts (omega arith) h))
        (ok-Stable _ _ (expression-Stable allowed f (f + k) 0 ts (omega arith)) e)
    where
      same :
          {a b : Result (Node × List Token)}
          → Stable a b
          → (a ≡ err no_fuel → ⊥)
          → b ≡ ok r
          → a ≡ ok r
      same (inl lost) found e = absurd (found lost)
      same (inr p) found e = p ∙ e

  -- The parser is the inverse of the printer: the tokens of a printed tree with an end token behind
  -- them, at whatever positions they stand, are parsed to that tree, with the precedences and the
  -- grouping to the left, for every tree that a text can stand for and whose functions are allowed.
  pub parse-print :
      (at : ℕ → ℕ) (n : Node)
      → IsWritable allowed n
      → parse allowed (place at 0 (print 0 n (eof ∷ []))) ≡ ok n
  unfolding parse finish place
  parse-print at n w =
      let x = print-Runs allowed at n w in
      let ended = print-Ended at n 0 (eof ∷ []) (Ended-eof at) 0 in
      rw (enough _ _ ((x.1).0) ended ((x.1).1)) refl
