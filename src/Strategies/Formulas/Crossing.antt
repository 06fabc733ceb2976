-- ===== src/Strategies/Formulas/Crossing.antt =====
-- The functions of formulas/parser.py that look back in time, `crosses_above`, `crosses_below` and
-- `prev`, and the crossovers of conditions/engine.py.
use ratatoskr_v.Base.{
  ℕ, zero, suc, ◌+◌, ◌-◌, ◌≤◌, ◌<◌, ◌≡◌, inl, inr, refl, sym, ap, ◌∙◌, Bool, true, false, Option,
  none, some, List, [], ◌∷◌, ◌&&◌, ltb, if◌then◌else◌, length, arith, Bool-cases,
}
use ratatoskr_v.Base.Int.{pos}
use ratatoskr_v.Decimal.{Decimal, of_ℕ, decimal_zero, is_le, is_lt, trunc}
use ratatoskr_v.MarketData.{Bar}
use ratatoskr_v.Strategies.Conditions.{without_last, crosses}
use ratatoskr_v.Strategies.Formulas.{
  Node, number_node, call_node, no_nodes, node, word_prev, word_crosses_above, word_crosses_below,
}
use ratatoskr_v.Strategies.Formulas.Operations.{
  Registry, truth, take, previous_bars, steps_back, crossed, callee_of,
}
use ratatoskr_v.Strategies.Formulas.Evaluator.{
  evaluate, evaluate_prev, evaluate_first, evaluate_cross,
}

-- The value is there and not zero: how a condition reads a formula's truth.
abbrev pub is_true : Option Decimal → Bool
is_true none = false
is_true (some v) = is_lt decimal_zero v

truth-is_true : (b : Bool) → is_true (some (truth b)) ≡ b
unfolding is_lt
truth-is_true true = refl
truth-is_true false = refl

-- The current and the previous value of a tree, as `_resolve_series` of the engine resolves an
-- operand that is the formula.
abbrev pub series : Registry → Node → List Bar → Option Decimal × Option Decimal
series reg n bars =
    if ltb (length bars) 2
    then (none, none)
    else (evaluate reg n bars, evaluate reg n (without_last bars))

abbrev pub call_of : Bool → Node → Node → Node
call_of above a b =
    call_node (if above then word_crosses_above else word_crosses_below) (node a (node b no_nodes))

module _ (before after : Decimal → Decimal → Bool) where
  crossed-crosses :
      (a b c d : Option Decimal)
      → is_true (crossed before after a b c d) ≡ crosses before after (a, c) (b, d)
  unfolding crossed crosses
  crossed-crosses (some a) (some b) (some c) (some d) = truth-is_true (before c d && after a b)
  crossed-crosses none b c d = ground (arith)
  crossed-crosses (some a) none c d = ground (arith)
  crossed-crosses (some a) (some b) none d = refl
  crossed-crosses (some a) (some b) (some c) none = refl

  evaluate_cross-crosses :
      (reg : Registry) (a b : Node) (bars : List Bar)
      → is_true (evaluate_cross reg before after (node a (node b no_nodes)) bars)
        ≡ crosses before after (series reg a bars) (series reg b bars)
  unfolding evaluate_cross crosses
  evaluate_cross-crosses reg a b bars = elim (Bool-cases (ltb (length bars) 2)) [
    | inl e ↦ rw (e, evaluate_cross, series) refl
    | inr e ↦ rw (e, evaluate_cross, series) (crossed-crosses _ _ _ _)
  ]

-- The language and the condition engine agree on crossovers: the calls `crosses_above(a, b)` and
-- `crosses_below(a, b)` are true exactly when the engine's crossover of the two formulas, on their
-- current and previous values, is.
pub evaluate-crosses :
    (reg : Registry) (a b : Node) (bars : List Bar)
    → (is_true (evaluate reg (call_of true a b) bars)
        ≡ crosses is_le (λ x y. is_lt y x) (series reg a bars) (series reg b bars))
      × (is_true (evaluate reg (call_of false a b) bars)
          ≡ crosses (λ x y. is_le y x) is_lt (series reg a bars) (series reg b bars))
unfolding evaluate callee_of
evaluate-crosses reg a b bars = (
  evaluate_cross-crosses is_le (λ x y. is_lt y x) reg a b bars,
  evaluate_cross-crosses (λ x y. is_le y x) is_lt reg a b bars,
)

abbrev pub prev_of : ℕ → Node → Node
prev_of n a = call_node word_prev (node a (node (number_node (of_ℕ n)) no_nodes))

steps_back_lem : (n : ℕ) → steps_back (some (of_ℕ n)) ≡ pos n
unfolding steps_back trunc
steps_back_lem n = ap pos (omega arith)

previous_bars_lem :
    (n : ℕ) (bars : List Bar)
    → 1 ≤ n
    → n < length bars
    → previous_bars (pos n) bars ≡ some (take (length bars - n) bars)
unfolding previous_bars
previous_bars_lem zero bars h k = absurd (omega (arith, h))
previous_bars_lem (suc n) bars h k = ground (arith)

back_lem :
    (reg : Registry) (n : ℕ) (a : Node) (bars : List Bar)
    → 1 ≤ n
    → n < length bars
    → evaluate_prev reg (node a (node (number_node (of_ℕ n)) no_nodes)) bars
      ≡ evaluate reg a (take (length bars - n) bars)
unfolding evaluate_prev evaluate_first evaluate
back_lem reg n a bars h k =
    let two : ltb (length bars) 2 ≡ false = ground (arith) in
    let steps : previous_bars (steps_back (some (of_ℕ n))) bars
        ≡ some (take (length bars - n) bars) =
      ap (λ z. previous_bars z bars) (steps_back_lem n) ∙ previous_bars_lem n bars h k in
    rw (two, steps, evaluate_prev) refl

-- A step back of at least one bar that is in range.
prev_lem :
    (reg : Registry) (n : ℕ) (a : Node) (bars : List Bar)
    → 1 ≤ n
    → n < length bars
    → evaluate reg (prev_of n a) bars ≡ evaluate reg a (take (length bars - n) bars)
unfolding evaluate callee_of
prev_lem reg n a bars h k = back_lem reg n a bars h k

length-take : (n : ℕ) (bars : List Bar) → n ≤ length bars → length (take n bars) ≡ n
length-take zero bars h = refl
length-take (suc n) [] h = absurd (omega (arith, h))
length-take (suc n) (b ∷ bars) h = omega (arith, length-take n bars (omega (arith, h)))

take-take : (i j : ℕ) (bars : List Bar) → i ≤ j → take i (take j bars) ≡ take i bars
take-take zero j bars h = refl
take-take (suc i) zero bars h = absurd (omega (arith, h))
take-take (suc i) (suc j) [] h = refl
take-take (suc i) (suc j) (b ∷ bars) h = ap (λ bs. b ∷ bs) (take-take i j bars (omega (arith, h)))

-- Steps back add up: `prev(prev(a, n), m)` is `prev(a, m + n)` for steps of at least one bar whose
-- sum is in the range of the bars.
prev-prev :
    (reg : Registry) (m n : ℕ) (a : Node) (bars : List Bar)
    → 1 ≤ m
    → 1 ≤ n
    → m + n < length bars
    → evaluate reg (prev_of m (prev_of n a)) bars ≡ evaluate reg (prev_of (m + n) a) bars
prev-prev reg m n a bars h k lt =
    let outer = prev_lem reg m (prev_of n a) bars h (omega (arith, lt)) in
    let cut = length-take (length bars - m) bars (omega arith) in
    let inner = prev_lem reg n a (take (length bars - m) bars) k (omega (arith, lt, cut)) in
    let same = take-take (length bars - m - n) (length bars - m) bars (omega arith) in
    let whole = prev_lem reg (m + n) a bars (omega (arith, h)) lt in
    outer
    ∙ inner
    ∙ ap (λ x. evaluate reg a (take (x - n) (take (length bars - m) bars))) cut
    ∙ ap (λ bs. evaluate reg a bs) same
    ∙ ap (λ x. evaluate reg a (take x bars)) (omega arith)
    ∙ sym whole
