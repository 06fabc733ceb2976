-- ===== src/Decimal/Sign.antt =====
-- Rounding keeps the sign of a number, and no number other than zero is rounded to zero.
use native.Mathlib.Nat.{
  div-div-eq-div-mul, one-le-pow, pow-succ', mul-pos, zero-div, zero-mod, zero-mul,
}
use ratatoskr_v.Base.{
  ℕ, zero, suc, ◌+◌, ◌*◌, ◌/◌, ◌^◌, ◌≤◌, ◌<◌, ◌≡◌, inl, inr, true, ltb, leb, arith, Bool-cases,
  ◌==◌, ltb→lt, sym,
}
use ratatoskr_v.Base.Int.{ℤ, pos, negsuc, magnitude, pos_part, neg_part, sub_ℕ}
use ratatoskr_v.Decimal.{
  Decimal, coef_limit, excess, half_even, place, round, add, neg, sub, mul, div, lift, is_lt, is_le,
  decimal_zero,
}

abbrev pub IsNonneg : Decimal → Type 0
IsNonneg d = neg_part d.coef ≡ 0

abbrev pub IsPositive : Decimal → Type 0
IsPositive d = 0 < pos_part d.coef

pub div-le-half_even : (n d : ℕ) → n / d ≤ half_even n d
unfolding half_even
div-le-half_even n d = ground arith

-- What is left of a number above zero, when its excess digits are dropped, is above zero.
pub div-excess_pos : (f n : ℕ) → 0 < n → 0 < n / 10 ^ excess f n
unfolding excess coef_limit
div-excess_pos zero n h = omega arith
div-excess_pos (suc f) n h = elim (Bool-cases (ltb n (10 ^ 28))) [
  | inl small ↦ rw (small, excess) (omega arith)
  | inr large ↦
      let k = excess f (n / 10) in
      rw (large, excess, pow-succ' 10 k, sym (div-div-eq-div-mul n 10 (10 ^ k)))
        (div-excess_pos f (n / 10) (ground arith))
]

pub pow-pos : (s : ℕ) → 0 < 10 ^ s
pow-pos s = one-le-pow s 10 (omega arith)

place-IsPositive : (n m up down : ℕ) → 0 < m → IsPositive (place (pos n) m up down)
unfolding place
place-IsPositive n m up down h = elim (Bool-cases (leb up down)) [
  | inl low ↦ rw low h
  | inr high ↦ rw high (mul-pos h (pow-pos _))
]

pub place-IsNonneg : (n m up down : ℕ) → IsNonneg (place (pos n) m up down)
unfolding place
place-IsNonneg n m up down = ground arith

round-IsPositive : (z : ℤ) (s : ℕ) → 0 < pos_part z → IsPositive (round z s)
unfolding round
round-IsPositive (pos n) s h =
    place-IsPositive n _ _ s
      (omega (arith, div-le-half_even n (10 ^ excess n n), div-excess_pos n n h))
round-IsPositive (negsuc n) s h = absurd (omega arith)

pub round-IsNonneg : (z : ℤ) (s : ℕ) → neg_part z ≡ 0 → IsNonneg (round z s)
unfolding round
round-IsNonneg (pos n) s h = place-IsNonneg n _ _ s
round-IsNonneg (negsuc n) s h = absurd (omega arith)

pub sub_ℕ-nonneg : (p q : ℕ) → q ≡ 0 → neg_part (sub_ℕ p q) ≡ 0
sub_ℕ-nonneg p q h = ground arith

sub_ℕ-pos : (p q : ℕ) → q < p → 0 < pos_part (sub_ℕ p q)
sub_ℕ-pos p q h = ground arith

-- A sum of numbers that are not negative is not negative; so for products.
pub add-IsNonneg : (a b : Decimal) → IsNonneg a → IsNonneg b → IsNonneg (add a b)
unfolding add
add-IsNonneg a b h k =
    let u = 10 ^ b.scale in
    let v = 10 ^ a.scale in
    round-IsNonneg _ _
      (sub_ℕ-nonneg (pos_part a.coef * u + pos_part b.coef * v) _ (rw (h, k) (omega arith)))

pub mul-IsNonneg : (a b : Decimal) → IsNonneg a → IsNonneg b → IsNonneg (mul a b)
unfolding mul
mul-IsNonneg a b h k = round-IsNonneg _ _ (
    sub_ℕ-nonneg (pos_part a.coef * pos_part b.coef + neg_part a.coef * neg_part b.coef) _
      (rw (h, k) (omega arith)))

pub neg_part-swap : (z : ℤ) → neg_part (sub_ℕ (neg_part z) (pos_part z)) ≡ pos_part z
neg_part-swap (pos n) = ground arith
neg_part-swap (negsuc n) = ground arith

pub pos_part-swap : (z : ℤ) → pos_part (sub_ℕ (neg_part z) (pos_part z)) ≡ neg_part z
pos_part-swap (pos n) = ground arith
pos_part-swap (negsuc n) = ground arith

-- A difference is above zero where the first number is the larger.
pub sub-IsPositive : (a b : Decimal) → is_lt b a ≡ true → IsPositive (sub a b)
unfolding sub add neg is_lt
sub-IsPositive a b h =
    round-IsPositive _ _ (
      sub_ℕ-pos _ _ (rw (neg_part-swap b.coef, pos_part-swap b.coef) (omega (arith, ltb→lt _ _ h))))

pub IsPositive-of_lt : (a : Decimal) → is_lt decimal_zero a ≡ true → IsPositive a
unfolding is_lt
IsPositive-of_lt a h = ground arith

lt_of_IsPositive : (a : Decimal) → IsPositive a → is_lt decimal_zero a ≡ true
unfolding is_lt
lt_of_IsPositive a h = ground arith

-- The number is zero.
abbrev pub IsZero : Decimal → Type 0
IsZero d = d.coef ≡ pos 0

pub half_even-zero : (d : ℕ) → half_even 0 d ≡ 0
unfolding half_even
half_even-zero d = rw (zero-div d, zero-mod d) (ground arith)

place-IsZero : (z : ℤ) (up down : ℕ) → IsZero (place z 0 up down)
unfolding place
place-IsZero z up down = ground arith

round-IsZero : (z : ℤ) (s : ℕ) → z ≡ pos 0 → IsZero (round z s)
unfolding round excess
round-IsZero z s h = rw (h, half_even-zero) (place-IsZero _ _ _)

pub mul-IsZero_left : (a b : Decimal) → IsZero a → IsZero (mul a b)
unfolding mul
mul-IsZero_left a b h = round-IsZero _ _ (rw h (ground arith))

pub mul-IsZero_right : (a b : Decimal) → IsZero b → IsZero (mul a b)
unfolding mul
mul-IsZero_right a b h = round-IsZero _ _ (rw h (ground arith))

pub div-IsZero : (a b : Decimal) → IsZero a → IsZero (div a b)
unfolding div
div-IsZero a b h =
    let q = magnitude b.coef in
    let s = lift q q in
    elim (Bool-cases (q == 0)) [
      | inl none_left ↦ rw (none_left, div)
      | inr some_left ↦
          rw (some_left, div)
            (rw (h, zero-mul (10 ^ s), zero-div q) (rw half_even-zero (place-IsZero _ _ _)))
    ]

pub is_le-zero : (d : Decimal) → IsZero d → is_le d decimal_zero ≡ true
unfolding is_le
is_le-zero d h = rw h (ground arith)

pub IsNonneg-of_IsPositive : (a : Decimal) → IsPositive a → IsNonneg a
IsNonneg-of_IsPositive a h = ground arith

pub pos-mul_pow : (m s : ℕ) → 0 < m → 0 < m * 10 ^ s
pos-mul_pow m s h = mul-pos h (pow-pos s)

-- A sum of numbers above zero is above zero.
pub add-IsPositive : (a b : Decimal) → IsPositive a → IsPositive b → IsPositive (add a b)
unfolding add
add-IsPositive a b h k =
    let u = 10 ^ b.scale in
    let v = 10 ^ a.scale in
    round-IsPositive _ _ (
      sub_ℕ-pos (pos_part a.coef * u + pos_part b.coef * v) _ (
        rw (IsNonneg-of_IsPositive a h, IsNonneg-of_IsPositive b k)
          (omega (arith, pos-mul_pow (pos_part a.coef) b.scale h))))
