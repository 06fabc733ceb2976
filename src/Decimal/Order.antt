-- ===== src/Decimal/Order.antt =====
-- The comparisons of decimals are a total order on the numbers that they stand for.
use native.Mathlib.Nat.{le_of_mul-le-mul_right, mul-le-mul_right, one-le-pow}
use ratatoskr_v.Base.{ℕ, ◌+◌, ◌*◌, ◌^◌, ◌≤◌, ◌<◌, ◌≡◌, true, false, not, arith, leb, leb→le}
use ratatoskr_v.Base.Int.{pos_part, neg_part}
use ratatoskr_v.Decimal.{Decimal, is_le, is_lt, is_eq, max, min}

-- `a <= b`, as a type
abbrev pub Le : Decimal → Decimal → Type 0
Le a b = is_le a b ≡ true

pub is_le_refl : (a : Decimal) → Le a a
unfolding is_le
is_le_refl a = ground arith

pub is_le_total : (a b : Decimal) → is_le a b ≡ false → Le b a
unfolding is_le
is_le_total a b h = ground arith

-- `a < b` is the negation of `b <= a`.
pub is_lt-not-is_le : (a b : Decimal) → is_lt a b ≡ not (is_le b a)
unfolding is_lt is_le
is_lt-not-is_le a b = ground arith

-- equality is order both ways
is_eq-Le : (a b : Decimal) → is_eq a b ≡ true → Le a b × Le b a
unfolding is_eq is_le
is_eq-Le a b h = ground arith

pow-pos : (s : ℕ) → 0 < 10 ^ s
pow-pos s = one-le-pow s 10 (omega arith)

-- Three cross-multiplied differences, with `u`, `v` and `w` the powers of ten.
cross_trans :
    (pa na pb nb pc nc u v w : ℕ)
    → 0 < v
    → pa * v + nb * u ≤ pb * u + na * v
    → pb * w + nc * v ≤ pc * v + nb * w
    → pa * w + nc * u ≤ pc * u + na * w
cross_trans pa na pb nb pc nc u v w vpos h k =
    le_of_mul-le-mul_right (omega (arith, mul-le-mul_right w h, mul-le-mul_right u k)) vpos

pub is_le_trans : (a b c : Decimal) → Le a b → Le b c → Le a c
unfolding is_le
is_le_trans a b c h k =
    let goal =
      cross_trans (pos_part a.coef) (neg_part a.coef) (pos_part b.coef) (neg_part b.coef)
        (pos_part c.coef) (neg_part c.coef) (10 ^ a.scale) (10 ^ b.scale) (10 ^ c.scale)
        (pow-pos b.scale) (leb→le _ _ h) (leb→le _ _ k) in
    le→leb _ _ goal
  where
    le→leb : (m n : ℕ) → m ≤ n → leb m n ≡ true
    le→leb m n q = ground arith

pub le-max_left : (a b : Decimal) → Le a (max a b)
unfolding max is_lt is_le
le-max_left a b = ground arith

pub le-max_right : (a b : Decimal) → Le b (max a b)
unfolding max is_lt is_le
le-max_right a b = ground arith

pub min-le_left : (a b : Decimal) → Le (min a b) a
unfolding min is_lt is_le
min-le_left a b = ground arith

pub min-le_right : (a b : Decimal) → Le (min a b) b
unfolding min is_lt is_le
min-le_right a b = ground arith
