-- ===== src/Strategies/Conditions/Meaning.antt =====
-- What the conditions of a strategy mean, and that the condition engine (conditions/engine.py)
-- decides it.
use ratatoskr_v.Base.{
  ◌≡◌, ◌↔◌, ◌⊎◌, inl, inr, refl, sym, ap, subst, ◌∙◌, or_else, Bool, true, false, Option, none,
  some, List, ◌&&◌, ◌||◌, arith, Bool-cases,
}
use ratatoskr_v.Decimal.{Decimal, is_le, is_lt, is_eq}
use ratatoskr_v.Decimal.Order.{Le}
use ratatoskr_v.MarketData.{Bar}
use ratatoskr_v.Strategies.Conditions.{
  Operand, Operator, crosses_above, crosses_below, between, outside, greater_than, less_than,
  greater_than_or_equal, less_than_or_equal, equal, Right, Logic, all_of, any_of, Item, condition,
  group, Items, no_items, more, Values, resolve_operand, resolve_series, test, compare, crosses,
  in_range, evaluate_operator, evaluate_item, evaluate_all, evaluate_any, evaluate,
}

abbrev pub Lt : Decimal → Decimal → Type 0
Lt a b = is_lt a b ≡ true

-- Both values are there and in the relation.
abbrev pub Related : (Decimal → Decimal → Type 0) → Option Decimal → Option Decimal → Type 0
Related R l r = (a : Decimal) × (b : Decimal) × (l ≡ some a) × (r ≡ some b) × R a b

-- The operand is there, and so is the range; the operand lies in it, or not.
abbrev pub Ranged : (Decimal → Decimal → Decimal → Type 0) → Option Decimal → Right → Type 0
Ranged R l r = (a : Decimal) × (l ≡ some a) × Related (R a) r.range_min r.range_max

-- What a condition says.
abbrev pub Says : Values → List Bar → Operand → Right → Operator → Type 0
Says v bars l r crosses_above =
    Related Le ((resolve_series v l bars).1) ((resolve_series v r.operand bars).1)
    × Related (λ a b. Lt b a) ((resolve_series v l bars).0) ((resolve_series v r.operand bars).0)
Says v bars l r crosses_below =
    Related (λ a b. Le b a) ((resolve_series v l bars).1) ((resolve_series v r.operand bars).1)
    × Related Lt ((resolve_series v l bars).0) ((resolve_series v r.operand bars).0)
Says v bars l r between = Ranged (λ a low high. Le low a × Le a high) (resolve_operand v l bars) r
Says v bars l r outside = Ranged (λ a low high. Lt a low ⊎ Lt high a) (resolve_operand v l bars) r
Says v bars l r greater_than =
    Related (λ a b. Lt b a) (resolve_operand v l bars) (resolve_operand v r.operand bars)
Says v bars l r less_than = Related Lt (resolve_operand v l bars) (resolve_operand v r.operand bars)
Says v bars l r greater_than_or_equal =
    Related (λ a b. Le b a) (resolve_operand v l bars) (resolve_operand v r.operand bars)
Says v bars l r less_than_or_equal =
    Related Le (resolve_operand v l bars) (resolve_operand v r.operand bars)
Says v bars l r equal =
    Related (λ a b. is_eq a b ≡ true) (resolve_operand v l bars) (resolve_operand v r.operand bars)
Says v bars l r Operator.other = ⊥

-- What an item says: a group without items holds, `and` asks for every item, `or` for one of them,
-- and no group of another logic holds.
unfoldable mutual
  pub Holds : Values → List Bar → Item → Type 0
  Holds v bars (condition c) = Says v bars c.left c.right c.operator
  Holds v bars (group logic no_items) = Unit
  Holds v bars (group all_of (more i items)) = Holds v bars i × AllHold v bars items
  Holds v bars (group any_of (more i items)) = Holds v bars i ⊎ AnyHolds v bars items
  Holds v bars (group Logic.other (more i items)) = ⊥

  pub AllHold : Values → List Bar → Items → Type 0
  AllHold v bars no_items = Unit
  AllHold v bars (more i items) = Holds v bars i × AllHold v bars items

  pub AnyHolds : Values → List Bar → Items → Type 0
  AnyHolds v bars no_items = ⊥
  AnyHolds v bars (more i items) = Holds v bars i ⊎ AnyHolds v bars items

false≢true : false ≡ true → ⊥
false≢true e = cc

none≢some : (a : Decimal) → none ≡ some a → ⊥
none≢some a e = cc

module _ (p : Decimal → Decimal → Bool) (R : Decimal → Decimal → Type 0)
    (decides : (a b : Decimal) → (p a b ≡ true) ↔ R a b) where
  Related-passes : (a b : Decimal) → Related R (some a) (some b) → p a b ≡ true
  Related-passes a b x =
      subst (λ y. p a y ≡ true) (sym (ap (λ o. or_else o b) x.3))
        (subst (λ y. p y x.1 ≡ true) (sym (ap (λ o. or_else o a) x.2)) ((decides x.0 x.1).1 x.4))

  test-Related : (l r : Option Decimal) → (test p l r ≡ true) ↔ Related R l r
  test-Related (some a) (some b) =
      (λ h. (a, b, refl, refl, (decides a b).0 h), λ x. Related-passes a b x)
  test-Related none r = (λ h. absurd (false≢true h), λ x. absurd (none≢some x.0 x.2))
  test-Related (some a) none = (λ h. absurd (false≢true h), λ x. absurd (none≢some x.1 x.3))

-- Conjunction and disjunction of decided statements.
module _ {ℓ κ} {A : Type ℓ} {B : Type κ} (a b : Bool) where
  and-Both : ((a ≡ true) ↔ A) → ((b ≡ true) ↔ B) → ((a && b) ≡ true) ↔ (A × B)
  and-Both h k = (λ e. (h.0 (ground arith), k.0 (ground arith)), λ x. both (h.1 x.0) (k.1 x.1))
    where
      both : a ≡ true → b ≡ true → (a && b) ≡ true
      both e f = ground arith

  or-Either : ((a ≡ true) ↔ A) → ((b ≡ true) ↔ B) → ((a || b) ≡ true) ↔ (A ⊎ B)
  or-Either h k = (λ e. which (Bool-cases a) e, λ x. back x)
    where
      which : (a ≡ true) ⊎ (a ≡ false) → (a || b) ≡ true → A ⊎ B
      which (inl t) e = inl (h.0 t)
      which (inr f) e = inr (k.0 (ground arith))

      back : A ⊎ B → (a || b) ≡ true
      back (inl x) = first (h.1 x)
        where
          first : a ≡ true → (a || b) ≡ true
          first e = ground arith
      back (inr y) = second (k.1 y)
        where
          second : b ≡ true → (a || b) ≡ true
          second e = ground arith

same : (x : Bool) → (x ≡ true) ↔ (x ≡ true)
same x = (λ h. h, λ h. h)

crosses-Says :
    (before after : Decimal → Decimal → Bool) (l r : Option Decimal × Option Decimal)
    → (crosses before after l r ≡ true) ↔ (
        Related (λ a b. before a b ≡ true) (l.1) (r.1)
        × Related (λ a b. after a b ≡ true) (l.0) (r.0))
unfolding crosses
crosses-Says before after l r =
    and-Both (test before (l.1) (r.1)) (test after (l.0) (r.0))
      (test-Related before _ (λ a b. same (before a b)) (l.1) (r.1))
      (test-Related after _ (λ a b. same (after a b)) (l.0) (r.0))

module _ (inside : Bool) (R : Decimal → Decimal → Decimal → Type 0)
    (p : Decimal → Decimal → Decimal → Bool)
    (decides : (a low high : Decimal) → (p a low high ≡ true) ↔ R a low high)
    (is_test : (a : Decimal) (r : Right)
      → in_range inside (some a) r ≡ test (p a) r.range_min r.range_max) where
  in_range-Ranged : (l : Option Decimal) (r : Right) → (in_range inside l r ≡ true) ↔ Ranged R l r
  unfolding in_range
  in_range-Ranged none r = (λ h. absurd (false≢true h), λ x. absurd (none≢some x.0 x.1))
  in_range-Ranged (some a) r =
      let t = test-Related (p a) (R a) (decides a) r.range_min r.range_max in
      (λ h. (a, refl, t.0 (sym (is_test a r) ∙ h)), λ x. is_test a r ∙ t.1 (moved x))
    where
      moved : Ranged R (some a) r → Related (R a) r.range_min r.range_max
      moved x =
          subst (λ y. Related (R y) r.range_min r.range_max) (sym (ap (λ o. or_else o a) x.1)) x.2

evaluate_operator-Says :
    (v : Values) (bars : List Bar) (l : Operand) (r : Right) (o : Operator)
    → (evaluate_operator v bars l r o ≡ true) ↔ Says v bars l r o
unfolding evaluate_operator compare in_range
evaluate_operator-Says v bars l r crosses_above = crosses-Says is_le (λ a b. is_lt b a) _ _
evaluate_operator-Says v bars l r crosses_below = crosses-Says (λ a b. is_le b a) is_lt _ _
evaluate_operator-Says v bars l r between =
    in_range-Ranged true _ (λ a low high. is_le low a && is_le a high)
      (λ a low high. and-Both (is_le low a) (is_le a high) (same _) (same _)) (λ a r. refl) _ r
evaluate_operator-Says v bars l r outside =
    in_range-Ranged false _ (λ a low high. is_lt a low || is_lt high a)
      (λ a low high. or-Either (is_lt a low) (is_lt high a) (same _) (same _)) (λ a r. refl) _ r
evaluate_operator-Says v bars l r greater_than =
    test-Related (λ a b. is_lt b a) _ (λ a b. same (is_lt b a)) _ _
evaluate_operator-Says v bars l r less_than = test-Related is_lt _ (λ a b. same (is_lt a b)) _ _
evaluate_operator-Says v bars l r greater_than_or_equal =
    test-Related (λ a b. is_le b a) _ (λ a b. same (is_le b a)) _ _
evaluate_operator-Says v bars l r less_than_or_equal =
    test-Related is_le _ (λ a b. same (is_le a b)) _ _
evaluate_operator-Says v bars l r equal = test-Related is_eq _ (λ a b. same (is_eq a b)) _ _
evaluate_operator-Says v bars l r Operator.other = (λ h. absurd (false≢true h), λ x. absurd x)

mutual
  unfolding evaluate_item Holds

  item-Holds :
      (v : Values) (bars : List Bar) (i : Item) → (evaluate_item v bars i ≡ true) ↔ Holds v bars i
  item-Holds v bars (condition c) = evaluate_operator-Says v bars c.left c.right c.operator
  item-Holds v bars (group logic no_items) = (λ _. tt, λ _. refl)
  item-Holds v bars (group all_of (more i items)) =
      and-Both _ _ (item-Holds v bars i) (all-Hold v bars items)
  item-Holds v bars (group any_of (more i items)) =
      or-Either _ _ (item-Holds v bars i) (any-Holds v bars items)
  item-Holds v bars (group Logic.other (more i items)) = (λ h. absurd (false≢true h), λ x. absurd x)

  all-Hold :
      (v : Values) (bars : List Bar) (items : Items)
      → (evaluate_all v bars items ≡ true) ↔ AllHold v bars items
  all-Hold v bars no_items = (λ _. tt, λ _. refl)
  all-Hold v bars (more i items) = and-Both _ _ (item-Holds v bars i) (all-Hold v bars items)

  any-Holds :
      (v : Values) (bars : List Bar) (items : Items)
      → (evaluate_any v bars items ≡ true) ↔ AnyHolds v bars items
  any-Holds v bars no_items = (λ h. absurd (false≢true h), λ x. absurd x)
  any-Holds v bars (more i items) = or-Either _ _ (item-Holds v bars i) (any-Holds v bars items)

-- The engine decides what a group of conditions says: it answers true exactly when the group holds
-- by the meaning of its comparisons, ranges, crossovers and nested groups, where a condition with
-- a missing value does not hold.
pub evaluate-Holds :
    (v : Values) (logic : Logic) (items : Items) (bars : List Bar)
    → (evaluate v logic items bars ≡ true) ↔ Holds v bars (group logic items)
unfolding evaluate
evaluate-Holds v logic items bars = item-Holds v bars (group logic items)
