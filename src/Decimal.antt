-- ===== src/Decimal.antt =====
-- Python's `decimal.Decimal` in its default context: a number is coef / 10 ^ scale, comparisons
-- are exact, and the result of an operation is rounded to 28 significant digits, half to even.
-- Two decimals that differ in trailing zeros are one number; NaN, infinities and the bounds of the
-- exponent do not occur in the program's data.
pub mod Order
pub mod Digits
pub mod Sign
pub mod Nonneg
pub mod Percent
mod Tests
use ratatoskr_v.Base.{
  ℕ, zero, suc, ◌+◌, ◌-◌, ◌*◌, ◌/◌, ◌%◌, ◌^◌, Bool, true, false, Option, none, some, ltb, leb, ◌==◌,
  if◌then◌else◌,
}
use ratatoskr_v.Base.Int.{ℤ, pos, pos_part, neg_part, sub_ℕ, magnitude, with_sign}

pub record Decimal : Type 0 where
  pub coef : ℤ
  pub scale : ℕ

-- `Decimal(n)` for a natural number
abbrev pub of_ℕ : ℕ → Decimal
of_ℕ n = record { coef = pos n; scale = 0 }

-- `Decimal("0")`
abbrev pub decimal_zero : Decimal
decimal_zero = of_ℕ 0

-- `Decimal("1")`
abbrev pub decimal_one : Decimal
decimal_one = of_ℕ 1

-- the coefficients that fit in 28 digits are below this
unfoldable pub coef_limit : ℕ
coef_limit = 10 ^ 28

-- how many digits are too many; the fuel `n` suffices, since each round divides by ten
unfoldable pub excess : ℕ → ℕ → ℕ
unfolding coef_limit
excess zero n = 0
excess (suc f) n = elim (ltb n coef_limit) [ true ↦ 0 | false ↦ suc (excess f (n / 10)) ]

-- n / d to the nearest integer, ties to the even one
unfoldable pub half_even : ℕ → ℕ → ℕ
half_even n d =
    let q = n / d in
    let r = n % d in if ltb (r + r) d then q else if ltb d (r + r) then q + 1 else q + q % 2

-- ±m · 10 ^ up / 10 ^ down, with the sign of `z`
unfoldable pub place : ℤ → ℕ → ℕ → ℕ → Decimal
place z m up down =
    if leb up down
    then record { coef = with_sign z m; scale = down - up }
    else record { coef = with_sign z (m * 10 ^ (up - down)); scale = 0 }

-- the context's rounding
unfoldable pub round : ℤ → ℕ → Decimal
round z s = let m = magnitude z in let k = excess m m in place z (half_even m (10 ^ k)) k s

unfoldable pub add : Decimal → Decimal → Decimal
add a b =
    let u = 10 ^ b.scale in
    let v = 10 ^ a.scale in
    round
      (sub_ℕ (pos_part a.coef * u + pos_part b.coef * v)
        (neg_part a.coef * u + neg_part b.coef * v))
      (a.scale + b.scale)

unfoldable pub neg : Decimal → Decimal
neg a = record { coef = sub_ℕ (neg_part a.coef) (pos_part a.coef); scale = a.scale }

unfoldable pub sub : Decimal → Decimal → Decimal
unfolding add neg
sub a b = add a (neg b)

unfoldable pub mul : Decimal → Decimal → Decimal
mul a b =
    round
      (sub_ℕ (pos_part a.coef * pos_part b.coef + neg_part a.coef * neg_part b.coef)
        (pos_part a.coef * neg_part b.coef + neg_part a.coef * pos_part b.coef))
      (a.scale + b.scale)

-- The number of digits that are brought up before dividing: 28, and those of the divisor.
unfoldable pub lift : ℕ → ℕ → ℕ
lift zero q = 28
lift (suc f) q = elim (q == 0) [ true ↦ 28 | false ↦ suc (lift f (q / 10)) ]

-- `a / b`. A zero divisor raises in Python; the callers of this function test for it.
unfoldable pub div : Decimal → Decimal → Decimal
div a b =
    let p = magnitude a.coef in
    let q = magnitude b.coef in
    let s = lift q q in
    let n = p * 10 ^ s in
    let k = excess (n / q) (n / q) in
    let sign =
      sub_ℕ (pos_part a.coef * pos_part b.coef + neg_part a.coef * neg_part b.coef)
        (pos_part a.coef * neg_part b.coef + neg_part a.coef * pos_part b.coef) in
    if q == 0
    then decimal_zero
    else place sign (half_even n (q * 10 ^ k)) (b.scale + k) (s + a.scale)

-- `abs(a)`
unfoldable pub abs : Decimal → Decimal
abs a = record { coef = pos (magnitude a.coef); scale = a.scale }

-- `a <= b`, `a < b` and `a == b`, which are exact
unfoldable pub is_le : Decimal → Decimal → Bool
is_le a b =
    leb (pos_part a.coef * 10 ^ b.scale + neg_part b.coef * 10 ^ a.scale)
      (pos_part b.coef * 10 ^ a.scale + neg_part a.coef * 10 ^ b.scale)

unfoldable pub is_lt : Decimal → Decimal → Bool
is_lt a b =
    ltb (pos_part a.coef * 10 ^ b.scale + neg_part b.coef * 10 ^ a.scale)
      (pos_part b.coef * 10 ^ a.scale + neg_part a.coef * 10 ^ b.scale)

unfoldable pub is_eq : Decimal → Decimal → Bool
is_eq a b =
    pos_part a.coef * 10 ^ b.scale + neg_part b.coef * 10 ^ a.scale
    == pos_part b.coef * 10 ^ a.scale + neg_part a.coef * 10 ^ b.scale

-- Python's `max(a, b)` and `min(a, b)`, which keep the first of two equal numbers
unfoldable pub max : Decimal → Decimal → Decimal
unfolding is_lt
max a b = if is_lt a b then b else a

unfoldable pub min : Decimal → Decimal → Decimal
unfolding is_lt
min a b = if is_lt b a then b else a

-- `Decimal(str(int(a)))`
unfoldable pub trunc : Decimal → Decimal
trunc a = record { coef = with_sign a.coef (magnitude a.coef / 10 ^ a.scale); scale = 0 }

-- `a % b`, with the sign of `a`. `none` stands for the raise of a quotient with more than 28 digits;
-- the callers test for a zero divisor.
unfoldable pub rem : Decimal → Decimal → Option Decimal
unfolding coef_limit round
rem a b =
    let n = magnitude a.coef * 10 ^ b.scale in
    let d = magnitude b.coef * 10 ^ a.scale in
    if d == 0
    then none
    else if ltb (n / d) coef_limit
    then some (round (with_sign a.coef (n % d)) (a.scale + b.scale))
    else none

-- `-a` and `abs(a)` where they may round: they round to the context as the other operations do.
unfoldable pub minus : Decimal → Decimal
unfolding neg round
minus a = round ((neg a).coef) a.scale

unfoldable pub absolute : Decimal → Decimal
unfolding abs round
absolute a = round ((abs a).coef) a.scale

-- To be named on the `unfolding` line of a test.
unfoldable pub decimals : Unit {0}
unfolding coef_limit excess half_even place round lift add neg sub mul div abs is_le is_lt is_eq max
    min trunc rem minus absolute
decimals = tt
