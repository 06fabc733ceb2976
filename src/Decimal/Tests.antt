-- ===== src/Decimal/Tests.antt =====
-- The decimal arithmetic on small inputs.
use ratatoskr_v.Base.{◌≡◌, refl, true}
use ratatoskr_v.Base.Int.{pos, negsuc}
use ratatoskr_v.Decimal.{of_ℕ, add, sub, mul, div, is_eq, decimals}

third : div (of_ℕ 1) (of_ℕ 3) ≡ record { coef = pos 3333333333333333333333333333; scale = 28 }
unfolding decimals
third = refl

two_thirds :
    is_eq (div (of_ℕ 2) (of_ℕ 3)) (record { coef = pos 6666666666666666666666666667; scale = 28 })
    ≡ true
unfolding decimals
two_thirds = refl

cents :
    is_eq
      (mul (record { coef = pos 1050; scale = 2 }) (of_ℕ 3))
      (record { coef = pos 315; scale = 1 })
    ≡ true
unfolding decimals
cents = refl

difference :
    is_eq
      (sub (of_ℕ 1) (record { coef = pos 25; scale = 1 }))
      (record { coef = negsuc 14; scale = 1 })
    ≡ true
unfolding decimals
difference = refl

large_sum :
    is_eq (add (of_ℕ 9999999999999999999999999999) (of_ℕ 6)) (of_ℕ 10000000000000000000000000000)
    ≡ true
unfolding decimals
large_sum = refl
