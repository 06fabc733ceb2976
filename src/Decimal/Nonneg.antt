-- ===== src/Decimal/Nonneg.antt =====
-- Operations that do not lead below zero.
use native.Mathlib.Nat.{mul-pos}
use ratatoskr_v.Base.{
  ℕ, suc, ◌<◌, subst, ◌+◌, ◌*◌, ◌^◌, ◌≤◌, ◌≡◌, inl, inr, refl, ◌==◌, arith, Bool-cases, leb→le,
}
use ratatoskr_v.Base.Int.{ℤ, pos, negsuc, magnitude, pos_part, neg_part, sub_ℕ}
use ratatoskr_v.Decimal.{Decimal, add, neg, sub, div, abs, absolute, max, is_le, place}
use ratatoskr_v.Decimal.Order.{Le, le-max_right}
use ratatoskr_v.Decimal.Sign.{
  IsNonneg, place-IsNonneg, round-IsNonneg, sub_ℕ-nonneg, neg_part-swap, pos_part-swap, pow-pos,
}

sub_ℕ-le : (p q : ℕ) → q ≤ p → neg_part (sub_ℕ p q) ≡ 0
sub_ℕ-le p q h = ground arith

pub sub-IsNonneg : (a b : Decimal) → Le b a → IsNonneg (sub a b)
unfolding sub add neg is_le
sub-IsNonneg a b h =
    round-IsNonneg _ _
      (sub_ℕ-le _ _ (rw (neg_part-swap b.coef, pos_part-swap b.coef) (omega (arith, leb→le _ _ h))))

placed : (z : ℤ) (m up down : ℕ) → neg_part z ≡ 0 → IsNonneg (place z m up down)
placed (pos n) m up down h = place-IsNonneg n m up down
placed (negsuc n) m up down h = absurd (omega (arith, h))

pub div-IsNonneg : (a b : Decimal) → IsNonneg a → IsNonneg b → IsNonneg (div a b)
unfolding div
div-IsNonneg a b h k = elim (Bool-cases (magnitude b.coef == 0)) [
  | inl e ↦ rw (e, div) refl
  | inr e ↦
      rw (e, div)
        (placed _ _ _ _ (
          sub_ℕ-nonneg (pos_part a.coef * pos_part b.coef + neg_part a.coef * neg_part b.coef) _
            (rw (h, k) (omega arith))))
]

pub absolute-IsNonneg : (a : Decimal) → IsNonneg (absolute a)
unfolding absolute abs
absolute-IsNonneg a = round-IsNonneg _ _ refl

not_below :
    (z : ℤ) (p v w : ℕ) → 0 < v → p + neg_part z * v ≤ pos_part z * v + 0 * w → neg_part z ≡ 0
not_below (pos n) p v w h k = refl
not_below (negsuc n) p v w h k = absurd (omega (arith, k, mul-pos (suc-pos n) h))
  where
    suc-pos : (n : ℕ) → 0 < suc n
    suc-pos n = omega arith

pub Le-IsNonneg : (a b : Decimal) → IsNonneg a → Le a b → IsNonneg b
unfolding is_le
Le-IsNonneg a b h k =
    not_below b.coef (pos_part a.coef * 10 ^ b.scale) (10 ^ a.scale) (10 ^ b.scale)
      (pow-pos a.scale)
      (subst
        (λ n.
          pos_part a.coef * 10 ^ b.scale + neg_part b.coef * 10 ^ a.scale
          ≤ pos_part b.coef * 10 ^ a.scale + n * 10 ^ b.scale)
        h (leb→le _ _ k))

pub max-IsNonneg : (a b : Decimal) → IsNonneg b → IsNonneg (max a b)
max-IsNonneg a b h = Le-IsNonneg b (max a b) h (le-max_right a b)
