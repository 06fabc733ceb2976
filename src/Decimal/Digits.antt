-- ===== src/Decimal/Digits.antt =====
-- The digits of a rounded number: the fuel of `excess` is enough.
use native.Mathlib.Nat.{div-div-eq-div-mul, pow-succ'}
use ratatoskr_v.Base.{
  ℕ, zero, suc, ◌*◌, ◌/◌, ◌^◌, ◌<◌, inl, inr, ltb, arith, Bool-cases, ltb→lt, sym,
}
use ratatoskr_v.Decimal.{coef_limit, excess}

lt_pow : (n : ℕ) → n < 10 ^ n
lt_pow zero = omega arith
lt_pow (suc n) = rw (pow-succ' 10 n) (omega (arith, lt_pow n))

-- With fuel for its digits, a number is cut to 28 of them.
excess_lem : (f n : ℕ) → n < 10 ^ 28 * 10 ^ f → n / 10 ^ excess f n < 10 ^ 28
unfolding excess coef_limit
excess_lem zero n h = omega arith
excess_lem (suc f) n h = elim (Bool-cases (ltb n (10 ^ 28))) [
  | inl small ↦ rw (small, excess) (omega (arith, ltb→lt n (10 ^ 28) small))
  | inr large ↦
      let k = excess f (n / 10) in
      rw (large, excess, pow-succ' 10 k, sym (div-div-eq-div-mul n 10 (10 ^ k)))
        (excess_lem f (n / 10) (tenth h))
]
  where
    tenth : n < 10 ^ 28 * 10 ^ suc f → n / 10 < 10 ^ 28 * 10 ^ f
    tenth e = omega (arith, e, pow-succ' 10 f)

-- The fuel that `round` gives is enough.
excess_enough : (n : ℕ) → n / 10 ^ excess n n < 10 ^ 28
excess_enough n = excess_lem n n (omega (arith, lt_pow n))
