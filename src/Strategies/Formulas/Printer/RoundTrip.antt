-- ===== src/Strategies/Formulas/Printer/RoundTrip.antt =====
-- The parser of formulas/parser.py reads back what the printer writes.
use ratatoskr_v.Base.{
  ℕ, suc, ◌≤◌, ◌≡◌, inl, inr, refl, sym, ap, ◌∙◌, Bool, true, false, none, List, [], ◌∷◌, leb,
  arith, Bool-cases,
}
use ratatoskr_v.Base.Int.{pos, magnitude}
use ratatoskr_v.Decimal.{Decimal}
use ratatoskr_v.Strategies.Formulas.{
  Text, same_text, Op, UnaryOp, minus, negation, Lexeme, identifier, rparen, eof, Token, Node,
  number_node, boolean_node, binary_node, unary_node, call_node, identifier_node, Nodes, no_nodes,
  node, word_true, word_false, word_not, ok,
}
use ratatoskr_v.Strategies.Formulas.Parser.{
  precedence, binary_operator, operator_at, unary_operator, is_rparen, parse_expression,
  parse_operators, parse_unary, parse_args, parse_more_args,
}
use ratatoskr_v.Strategies.Formulas.Printer.{
  print_operator, print_unary, print, print_args, print_more, IsName, IsWritable, AllWritable,
  place,
}
use ratatoskr_v.Strategies.Formulas.Printer.Numbers.{decimal_of-print_decimal}
use ratatoskr_v.Strategies.Formulas.Printer.Follows.{
  precedence_lt, unary_operator-print_unary, Follows, Follows-weaken, operator_at-print_operator,
  operator-Follows,
}
use ratatoskr_v.Strategies.Formulas.Printer.Runs.{
  Runs, Runs-expression, Runs-operators, Runs-stop, Runs-unary, Runs-primary, Runs-number,
  Runs-boolean, Runs-identifier, Runs-group, Runs-call, Runs-no_args, Runs-args, Runs-more_args,
  Runs-no_more_args,
}

-- The first lexeme of a tree does not end a list of arguments.
Starts : List Lexeme → Type 0
Starts [] = ⊥
Starts (l ∷ ls) = is_rparen l ≡ false

print-Starts : (q : ℕ) (n : Node) (rest : List Lexeme) → Starts (print q n rest)
unfolding Starts print print_unary
print-Starts q (number_node d) rest = refl
print-Starts q (boolean_node b) rest = refl
print-Starts q (binary_node o l r) rest = elim (Bool-cases (leb q (precedence o))) [
  | inl e ↦ rw (e, Starts) (print-Starts (precedence o) l _)
  | inr e ↦ rw (e, Starts) refl
]
print-Starts q (unary_node minus n) rest = refl
print-Starts q (unary_node negation n) rest = refl
print-Starts q (call_node w ns) rest = refl
print-Starts q (identifier_node w) rest = refl

module _ (allowed : Text → Bool) (at : ℕ → ℕ) where
  -- The unary level reads the tree as it is printed for the tightest operator.
  abbrev Reads : Node → Type 0
  Reads n =
      (k q : ℕ) (rest : List Lexeme)
      → Follows q rest
      → (j : ℕ) × Runs (λ f. parse_unary allowed f (place at k (print 7 n rest)))
          (n, place at j rest)

  -- An expression that starts with the printed tree goes on with the tree as its left side.
  abbrev Continues : Node → Type 0
  Continues n =
      (q min k : ℕ) (rest : List Lexeme)
      → min ≤ q
      → Follows (suc q) rest
      → (j : ℕ) × ((r : Node × List Token)
          → Runs (λ f. parse_operators allowed f min n (place at j rest)) r
          → Runs (λ f. parse_expression allowed f min (place at k (print q n rest))) r)

  stop_place :
      (q j : ℕ) (n : Node) (rest : List Lexeme)
      → Follows q rest
      → Runs (λ f. parse_operators allowed f q n (place at j rest)) (n, place at j rest)
  unfolding place
  stop_place q j n [] h = absurd h
  stop_place q j n (l ∷ ls) h = Runs-stop allowed q _ _ n h.1

  Continues-of_Reads :
      (n : Node) (q min k : ℕ) (rest : List Lexeme)
      → Reads n
      → print q n rest ≡ print 7 n rest
      → Follows (suc q) rest
      → (j : ℕ) × ((r : Node × List Token)
          → Runs (λ f. parse_operators allowed f min n (place at j rest)) r
          → Runs (λ f. parse_expression allowed f min (place at k (print q n rest))) r)
  Continues-of_Reads n q min k rest reads e h =
      let x = reads k (suc q) rest h in
      (x.0, λ r run. rw e (Runs-expression allowed min _ (place at (x.0) rest) n r (x.1) run))

  -- The two sides and the operator between them, without parentheses.
  binary_lem :
      (o : Op) (l r : Node) (min k : ℕ) (rest : List Lexeme)
      → Continues l
      → Continues r
      → min ≤ precedence o
      → Follows (suc (precedence o)) rest
      → (j : ℕ) × ((a : Node × List Token)
          → Runs (λ f. parse_operators allowed f min (binary_node o l r) (place at j rest)) a
          → Runs
              (λ f. parse_expression allowed f min (
                place at k
                  (print (precedence o) l (print_operator o ∷ print (suc (precedence o)) r rest))))
              a)
  unfolding place
  binary_lem o l r min k rest left right le h =
      let p = precedence o in
      let x = left p min k _ le (operator-Follows o (print (suc p) r rest)) in
      let y =
        right (suc p) (suc p) (suc (x.0)) rest (omega arith)
          (Follows-weaken (suc p) (suc (suc p)) rest (omega arith) h) in
      (
        y.0,
        λ a run. x.1 a (
            Runs-operators allowed min _ _ (place at (y.0) rest) l r o a
              (operator_at-print_operator min o le)
              (y.1 (r, place at (y.0) rest) (stop_place (suc p) (y.0) r rest h)) run),
      )

  with_Continues :
      (n : Node)
      → ((q : ℕ) (rest : List Lexeme) → print q n rest ≡ print 7 n rest)
      → Reads n
      → Reads n × Continues n
  with_Continues n same reads =
      (reads, λ q min k rest le h. Continues-of_Reads n q min k rest reads (same q rest) h)

  number-Reads : (d : Decimal) → d.coef ≡ pos (magnitude d.coef) → Reads (number_node d)
  unfolding print place unary_operator
  number-Reads d e k q rest h = (
    suc k,
    Runs-primary allowed _ _ _ refl (
        Runs-number allowed _ _ _ d (
          decimal_of-print_decimal (magnitude d.coef) d.scale
          ∙ ap (λ c. ok (record { coef = c; scale = d.scale })) (sym e))),
  )

  boolean-Reads : (b : Bool) → Reads (boolean_node b)
  unfolding print place unary_operator
  boolean-Reads true k q rest h =
      (suc k, Runs-primary allowed _ _ _ refl (Runs-boolean allowed word_true _ _ true refl))
  boolean-Reads false k q rest h =
      (suc k, Runs-primary allowed _ _ _ refl (Runs-boolean allowed word_false _ _ false refl))

  name_no_unary : (w : Text) → same_text w word_not ≡ false → unary_operator (identifier w) ≡ none
  unfolding unary_operator
  name_no_unary w e = rw e refl

  identifier-Reads : (w : Text) → IsName w → Reads (identifier_node w)
  unfolding print place
  identifier-Reads w name k q [] h = absurd h
  identifier-Reads w name k q (l ∷ ls) h = (
    suc k,
    Runs-primary allowed _ _ _ (name_no_unary w name.1)
        (Runs-identifier allowed w _ _ _ name.0 h.0),
  )

  unary-Reads : (u : UnaryOp) (n : Node) → Reads n → Reads (unary_node u n)
  unfolding print place
  unary-Reads u n reads k q rest h =
      let x = reads (suc k) q rest h in
      (x.0, Runs-unary allowed _ _ _ u n (unary_operator-print_unary u) (x.1))

  binary-Reads : (o : Op) (l r : Node) → Continues l → Continues r → Reads (binary_node o l r)
  unfolding print place unary_operator operator_at binary_operator
  binary-Reads o l r left right k q rest h =
      let x = binary_lem o l r 0 (suc k) (rparen ∷ rest) left right (omega arith) (refl, refl) in
      (
        suc (x.0),
        rw (precedence_lt o) (
            Runs-primary allowed _ _ _ refl (
              Runs-group allowed _ _ _ _ _ refl
                (x.1 _ (Runs-stop allowed 0 _ _ (binary_node o l r) refl)))),
      )

  binary-Continues :
      (o : Op) (l r : Node) → Continues l → Continues r → Continues (binary_node o l r)
  unfolding print
  binary-Continues o l r left right q min k rest le h = elim (Bool-cases (leb q (precedence o))) [
    | inl e ↦ rw e (
        binary_lem o l r min k rest left right (ground (arith))
          (Follows-weaken (suc q) (suc (precedence o)) rest (ground (arith)) h))
    | inr e ↦
        Continues-of_Reads (binary_node o l r) q min k rest (binary-Reads o l r left right)
          (rw (e, precedence_lt o) refl) h
  ]

  -- Arguments are read up to the parenthesis that closes them.
  abbrev ReadsArgs : Nodes → Type 0
  ReadsArgs ns =
      (k : ℕ) (rest : List Lexeme)
      → (j : ℕ) × Runs (λ f. parse_args allowed f (place at k (print_args ns (rparen ∷ rest))))
          (ns, place at j (rparen ∷ rest))

  abbrev ReadsMore : Nodes → Type 0
  ReadsMore ns =
      (k : ℕ) (rest : List Lexeme)
      → (j : ℕ) × Runs (λ f. parse_more_args allowed f (place at k (print_more ns (rparen ∷ rest))))
          (ns, place at j (rparen ∷ rest))

  call-Reads :
      (w : Text) (ns : Nodes) → allowed w ≡ true → IsName w → ReadsArgs ns → Reads (call_node w ns)
  unfolding print place
  call-Reads w ns a name reads k q rest h =
      let x = reads (suc (suc k)) rest in
      (
        suc (x.0),
        Runs-primary allowed _ _ _ (name_no_unary w name.1)
            (Runs-call allowed w _ _ _ _ _ ns name.0 a refl refl (x.1)),
      )

  print_more-Follows : (ns : Nodes) (rest : List Lexeme) → Follows 0 (print_more ns (rparen ∷ rest))
  unfolding print operator_at binary_operator
  print_more-Follows no_nodes rest = (refl, refl)
  print_more-Follows (node n ns) rest = (refl, refl)

  -- an argument, up to the comma or the parenthesis behind it
  argument :
      (n : Node) (ns : Nodes) (k : ℕ) (rest : List Lexeme)
      → Continues n
      → (j : ℕ) × Runs
          (λ f.
            parse_expression allowed f 0 (place at k (print 0 n (print_more ns (rparen ∷ rest)))))
          (n, place at j (print_more ns (rparen ∷ rest)))
  argument n ns k rest continues =
      let follows = print_more-Follows ns rest in
      let x = continues 0 0 k _ (omega arith) (Follows-weaken 0 1 _ (omega arith) follows) in
      (x.0, x.1 _ (stop_place 0 (x.0) n _ follows))

  more-Reads : (n : Node) (ns : Nodes) → Continues n → ReadsMore ns → ReadsMore (node n ns)
  unfolding print place
  more-Reads n ns continues reads k rest =
      let x = argument n ns (suc k) rest continues in
      let y = reads (x.0) rest in (y.0, Runs-more_args allowed _ _ _ _ n ns refl (x.1) (y.1))

  args_place :
      (ls : List Lexeme) (k : ℕ) (us vs : List Token) (n : Node) (ns : Nodes)
      → Starts ls
      → Runs (λ f. parse_expression allowed f 0 (place at k ls)) (n, us)
      → Runs (λ f. parse_more_args allowed f us) (ns, vs)
      → Runs (λ f. parse_args allowed f (place at k ls)) (node n ns, vs)
  unfolding Starts place
  args_place [] k us vs n ns starts = absurd starts
  args_place (l ∷ ls) k us vs n ns starts = Runs-args allowed _ _ us vs n ns starts

  args-Reads : (n : Node) (ns : Nodes) → Continues n → ReadsMore ns → ReadsArgs (node n ns)
  unfolding print
  args-Reads n ns continues reads k rest =
      let x = argument n ns k rest continues in
      let y = reads (x.0) rest in (y.0, args_place _ k _ _ n ns (print-Starts 0 n _) (x.1) (y.1))

  no_args-Reads : ReadsArgs no_nodes
  unfolding print place
  no_args-Reads k rest = (k, Runs-no_args allowed _ _ refl)

  no_more-Reads : ReadsMore no_nodes
  unfolding print place
  no_more-Reads k rest = (k, Runs-no_more_args allowed _ _ refl)

  mutual
    unfolding IsWritable print

    node-Reads : (n : Node) → IsWritable allowed n → Reads n × Continues n
    node-Reads (number_node d) w = with_Continues _ (λ q rest. refl) (number-Reads d w)
    node-Reads (boolean_node b) w = with_Continues _ (λ q rest. refl) (boolean-Reads b)
    node-Reads (binary_node o l r) w =
        let x = node-Reads l w.0 in
        let y = node-Reads r w.1 in (binary-Reads o l r x.1 y.1, binary-Continues o l r x.1 y.1)
    node-Reads (unary_node u n) w =
        with_Continues _ (λ q rest. refl) (unary-Reads u n (node-Reads n w).0)
    node-Reads (call_node f ns) w =
        with_Continues _ (λ q rest. refl) (call-Reads f ns w.0 w.1 (nodes-Reads ns w.2).0)
    node-Reads (identifier_node i) w = with_Continues _ (λ q rest. refl) (identifier-Reads i w)

    nodes-Reads : (ns : Nodes) → AllWritable allowed ns → ReadsArgs ns × ReadsMore ns
    nodes-Reads no_nodes w = (no_args-Reads, no_more-Reads)
    nodes-Reads (node n ns) w =
        let x = (node-Reads n w.0).1 in
        let y = (nodes-Reads ns w.1).1 in (args-Reads n ns x y, more-Reads n ns x y)

  -- What is printed is read back with some fuel, up to the end token.
  pub print-Runs :
      (n : Node)
      → IsWritable allowed n
      → (j : ℕ) × Runs
          (λ f. parse_expression allowed f 0 (place at 0 (print 0 n (eof ∷ []))))
          (n, place at j (eof ∷ []))
  unfolding operator_at binary_operator
  print-Runs n w =
      let x = (node-Reads n w).1 0 0 0 (eof ∷ []) (omega arith) (refl, refl) in
      (x.0, x.1 _ (stop_place 0 (x.0) n (eof ∷ []) (refl, refl)))
