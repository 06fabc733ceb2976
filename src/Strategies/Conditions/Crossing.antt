-- ===== src/Strategies/Conditions/Crossing.antt =====
-- Crossovers, as the condition engine (conditions/engine.py) sees them from bar to bar.
use ratatoskr_v.Base.{
  ◌+◌, ◌≡◌, ◌⊎◌, refl, ap, Bool, true, false, Option, none, some, List, [], ◌∷◌, ◌++◌, ltb, arith,
  length,
}
use ratatoskr_v.Decimal.{Decimal, is_le, is_lt}
use ratatoskr_v.Decimal.Order.{is_lt-not-is_le}
use ratatoskr_v.MarketData.{Bar}
use ratatoskr_v.Strategies.Conditions.{
  Operand, Operator, crosses_above, crosses_below, between, outside, greater_than, less_than,
  greater_than_or_equal, less_than_or_equal, equal, evaluate_operator, Right, Condition, Values,
  resolve_operand, without_last, resolve_series, crosses, evaluate_condition,
}

without_last-append : (bars : List Bar) (b : Bar) → without_last (bars ++ b ∷ []) ≡ bars
unfolding without_last
without_last-append [] b = refl
without_last-append (x ∷ []) b = refl
without_last-append (x ∷ y ∷ bars) b = ap (λ l. x ∷ l) (without_last-append (y ∷ bars) b)

-- Two tests of the same values, of which one excludes the other.
crosses-again :
    (before after : Decimal → Decimal → Bool) (l r l' r' : Option Decimal × Option Decimal)
    → ((a b : Decimal) → after a b ≡ true → before a b ≡ false)
    → crosses before after l r ≡ true
    → l'.1 ≡ l.0
    → r'.1 ≡ r.0
    → crosses before after l' r' ≡ false
unfolding crosses
crosses-again before after (some a, some a1) (some b, some b1) l' r' h e p q =
    rw (p, q) (ground (arith, h a b))
crosses-again before after (none, _) r l' r' h e p q = ground arith
crosses-again before after (some a, none) r l' r' h e p q = ground arith
crosses-again before after (some a, some a1) (none, _) l' r' h e p q = ground arith
crosses-again before after (some a, some a1) (some b, none) l' r' h e p q = ground arith

length-snoc : (bars : List Bar) (b : Bar) → length (bars ++ b ∷ []) ≡ length bars + 1
length-snoc [] b = omega arith
length-snoc (x ∷ bars) b = omega (arith, length-snoc bars b)

-- What was current is previous when a bar has been added.
resolve_series-next :
    (v : Values) (o : Operand) (bars : List Bar) (b : Bar)
    → ltb (length bars) 2 ≡ false
    → (resolve_series v o (bars ++ b ∷ [])).1 ≡ (resolve_series v o bars).0
unfolding resolve_series
resolve_series-next v o bars b h =
    rw (h, more_than_two) (ap (resolve_operand v o) (without_last-append bars b))
  where
    more_than_two : ltb (length (bars ++ b ∷ [])) 2 ≡ false
    more_than_two = ground (arith, length-snoc bars b)

above-not_below : (a b : Decimal) → is_lt b a ≡ true → is_le a b ≡ false
above-not_below a b h = ground (arith, is_lt-not-is_le b a)

below-not_above : (a b : Decimal) → is_lt a b ≡ true → is_le b a ≡ false
below-not_above a b h = ground (arith, is_lt-not-is_le a b)

-- A crossover needs two bars.
crosses-long :
    (before after : Decimal → Decimal → Bool) (v : Values) (l r : Operand) (bars : List Bar)
    → crosses before after (resolve_series v l bars) (resolve_series v r bars) ≡ true
    → ltb (length bars) 2 ≡ false
unfolding crosses resolve_series
crosses-long before after v l r bars h = ground arith

crosses-once :
    (before after : Decimal → Decimal → Bool) (v : Values) (l r : Operand) (bars : List Bar)
    (b : Bar)
    → ((x y : Decimal) → after x y ≡ true → before x y ≡ false)
    → crosses before after (resolve_series v l bars) (resolve_series v r bars) ≡ true
    → crosses before after
        (resolve_series v l (bars ++ b ∷ []))
        (resolve_series v r (bars ++ b ∷ []))
      ≡ false
crosses-once before after v l r bars b h e =
    let long = crosses-long before after v l r bars e in
    crosses-again before after _ _ _ _ h e (resolve_series-next v l bars b long)
      (resolve_series-next v r bars b long)

evaluate_operator-once :
    (v : Values) (bars : List Bar) (b : Bar) (l : Operand) (r : Right) (o : Operator)
    → (o ≡ crosses_above) ⊎ (o ≡ crosses_below)
    → evaluate_operator v bars l r o ≡ true
    → evaluate_operator v (bars ++ b ∷ []) l r o ≡ false
unfolding evaluate_operator
evaluate_operator-once v bars b l r crosses_above _ e =
    crosses-once is_le (λ x y. is_lt y x) v l r.operand bars b above-not_below e
evaluate_operator-once v bars b l r crosses_below _ e =
    crosses-once (λ x y. is_le y x) is_lt v l r.operand bars b below-not_above e
evaluate_operator-once v bars b l r between h e = absurd (ground arith)
evaluate_operator-once v bars b l r outside h e = absurd (ground arith)
evaluate_operator-once v bars b l r greater_than h e = absurd (ground arith)
evaluate_operator-once v bars b l r less_than h e = absurd (ground arith)
evaluate_operator-once v bars b l r greater_than_or_equal h e = absurd (ground arith)
evaluate_operator-once v bars b l r less_than_or_equal h e = absurd (ground arith)
evaluate_operator-once v bars b l r equal h e = absurd (ground arith)
evaluate_operator-once v bars b l r Operator.other h e = absurd (ground arith)

-- A crossing condition that holds on some bars does not hold when the next bar is added: each
-- crossover fires on one bar only.
evaluate_condition-once :
    (v : Values) (bars : List Bar) (b : Bar) (c : Condition)
    → (c.operator ≡ crosses_above) ⊎ (c.operator ≡ crosses_below)
    → evaluate_condition v bars c ≡ true
    → evaluate_condition v (bars ++ b ∷ []) c ≡ false
evaluate_condition-once v bars b c = evaluate_operator-once v bars b c.left c.right c.operator
