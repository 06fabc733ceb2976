-- ===== src/Decimal/Percent.antt =====
-- Rounded quotients that stay below one hundred.
use native.Mathlib.Nat.{
  mul-pos, one-le-pow, div-add-mod', le_of_mul-le-mul_right, mul-le-mul_right, add-mul, mul-le-mul,
  pow-succ', mul_assoc, mod-lt,
}
use ratatoskr_v.Base.{
  ℕ, zero, suc, ◌+◌, ◌-◌, ◌*◌, ◌/◌, ◌%◌, ◌^◌, ◌≤◌, ◌<◌, ◌≡◌, inl, inr, sym, ap, subst, ◌∙◌, ltb,
  leb, ◌==◌, arith, Bool-cases, leb→le, ltb→lt, if◌then◌else◌,
}
use ratatoskr_v.Base.Int.{ℤ, pos, negsuc, magnitude, pos_part, neg_part, sub_ℕ}
use ratatoskr_v.Decimal.{
  Decimal, of_ℕ, add, neg, sub, div, round, is_le, half_even, excess, lift, place, decimal_one,
}
use ratatoskr_v.Decimal.Order.{Le}
use ratatoskr_v.Decimal.Sign.{
  IsNonneg, neg_part-swap, pos_part-swap, div-le-half_even, div-excess_pos,
}

module _ (n d : ℕ) (positive : 0 < d) where
  half_even-bounds :
      (n / d ≤ half_even n d)
      × (half_even n d ≤ n / d + 1)
      × ((2 * (n % d) < d) → half_even n d ≤ n / d)
  unfolding half_even
  half_even-bounds = (ground (arith), ground (arith), λ h. at_low h)
    where
      at_low :
          2 * (n % d) < d
          → (if ltb (n % d + n % d) d
              then n / d
              else if ltb d (n % d + n % d)
              then n / d + 1
              else n / d + n / d % 2)
            ≤ n / d
      at_low h = ground (arith)

  -- the nearest integer is below an integer that the quotient is below
  half_even-le : (x : ℕ) → n ≤ x * d → half_even n d ≤ x
  half_even-le x k = elim (Bool-cases (ltb (n / d) x)) [
    | inl e ↦ omega (arith, ltb→lt _ _ e, half_even-bounds.1)
    | inr e ↦
        let large : x ≤ n / d = ground (arith) in
        let product : x * d ≤ n / d * d = mul-le-mul_right d large in
        let exact : n % d ≡ 0 = omega (arith, product, k, div-add-mod' n d) in
        let under : n / d * d ≤ x * d = omega (arith, k, div-add-mod' n d) in
        let small : n / d ≤ x = le_of_mul-le-mul_right under positive in
        omega (arith, half_even-bounds.2 (omega (arith, exact, positive)), small)
  ]

  -- and it is at most half above the quotient
  half_even-near : 2 * (half_even n d * d) ≤ 2 * n + d
  half_even-near = elim (Bool-cases (ltb (2 * (n % d)) d)) [
    | inl e ↦
        let below = mul-le-mul_right d (half_even-bounds.2 (ltb→lt _ _ e)) in
        omega (arith, below, div-add-mod' n d)
    | inr e ↦
        let below = mul-le-mul_right d (half_even-bounds.1) in
        let half : d ≤ 2 * (n % d) = ground (arith) in
        omega (arith, below, half, div-add-mod' n d, add-mul (n / d) 1 d)
  ]

pow_plus : (i j : ℕ) → 10 ^ (i + j) ≡ 10 ^ i * 10 ^ j
pow_plus zero j =
    let start : 10 ^ (0 + j) ≡ 10 ^ j = ap (λ k. 10 ^ k) (omega arith) in omega (arith, start)
pow_plus (suc i) j =
    let next : 10 ^ (suc i + j) ≡ 10 ^ suc (i + j) = ap (λ k. 10 ^ k) (omega arith) in
    next
    ∙ pow-succ' 10 (i + j)
    ∙ ap (λ x. 10 * x) (pow_plus i j)
    ∙ sym (mul_assoc 10 (10 ^ i) (10 ^ j))
    ∙ ap (λ x. x * 10 ^ j) (sym (pow-succ' 10 i))

-- A rounded quotient of at most a hundred, in units of 10 ^ -s, is at most a hundred.
module _ (n d u s : ℕ) (top : n ≤ 100 * 10 ^ s) (bottom : 10 ^ u ≤ d) where
  positive : 0 < d
  positive = omega (arith, bottom, one-le-pow u 10 (omega arith))

  fine : u ≤ s → half_even n d ≤ 100 * 10 ^ (s - u)
  fine h =
      let parts : 10 ^ s ≡ 10 ^ (s - u) * 10 ^ u =
        ap (λ k. 10 ^ k) (omega (arith, h)) ∙ pow_plus (s - u) u in
      let product =
        mul-le-mul {n₁ = 10 ^ (s - u)} {m₁ = 10 ^ u} {n₂ = 10 ^ (s - u)} {m₂ = d} (omega arith)
          bottom in
      half_even-le n d positive (100 * 10 ^ (s - u)) (omega (arith, top, parts, product))

  apart : (t : ℕ) → u ≡ t + s → 10 ^ t * 10 ^ s ≤ d
  apart t e = omega (arith, bottom, ap (λ k. 10 ^ k) e, pow_plus t s)

  vanishes : 1000 * 10 ^ s ≤ d → half_even n d ≡ 0
  vanishes h = elim (Bool-cases (half_even n d == 0)) [
    | inl e ↦ ground (arith)
    | inr e ↦
        let one : 1 ≤ half_even n d = ground (arith) in
        let product : 1 * d ≤ half_even n d * d = mul-le-mul_right d one in
        absurd (
          omega
            (arith, h, top, product, half_even-near n d positive, one-le-pow s 10 (omega arith)))
  ]

  coarse : (t : ℕ) → u ≡ suc t + s → half_even n d * 10 ^ suc t ≤ 100
  coarse zero e = omega (arith, half_even-le n d positive 10 (omega (arith, top, apart 1 e)))
  coarse (suc zero) e = omega (arith, half_even-le n d positive 1 (omega (arith, top, apart 2 e)))
  coarse (suc (suc t)) e =
      let large : 1000 * 10 ^ s ≤ 10 ^ suc (suc (suc t)) * 10 ^ s = mul-le-mul_right (10 ^ s) (
        omega (
          arith,
          pow-succ' 10 (suc (suc t)),
          pow-succ' 10 (suc t),
          pow-succ' 10 t,
          one-le-pow t 10 (omega arith),
        )) in
      rw (vanishes (omega (arith, large, apart (suc (suc (suc t))) e))) (omega arith)

pub place-le_hundred :
    (z n d u s : ℕ)
    → n ≤ 100 * 10 ^ s
    → 10 ^ u ≤ d
    → Le (place (pos z) (half_even n d) u s) (of_ℕ 100)
unfolding place is_le
place-le_hundred z n d u s top bottom = elim (Bool-cases (leb u s)) [
  | inl e ↦ let bound = fine n d u s top bottom (leb→le _ _ e) in rw (e, place) (ground (arith))
  | inr e ↦
      let gap : u ≡ suc (u - s - 1) + s = ground (arith) in
      let power : 10 ^ suc (u - s - 1) ≡ 10 ^ (u - s) = ap (λ k. 10 ^ k) (ground (arith)) in
      let bound : half_even n d * 10 ^ (u - s) ≤ 100 =
        subst (λ k. half_even n d * k ≤ 100) power (coarse n d u s top bottom (u - s - 1) gap) in
      rw (e, place) (ground (arith))
]

sub_ℕ_zero : (m : ℕ) → pos_part (sub_ℕ 0 m) ≡ 0
sub_ℕ_zero m = ground (arith)

place_below : (z m u s : ℕ) → Le (place (negsuc z) m u s) (of_ℕ 100)
unfolding place is_le
place_below z m u s = elim (Bool-cases (leb u s)) [
  | inl e ↦ rw (e, place) (ground (arith, sub_ℕ_zero m))
  | inr e ↦ rw (e, place) (ground (arith, sub_ℕ_zero (m * 10 ^ (u - s))))
]

place_le_hundred :
    (z : ℤ) (n d u s : ℕ)
    → n ≤ 100 * 10 ^ s
    → 10 ^ u ≤ d
    → Le (place z (half_even n d) u s) (of_ℕ 100)
place_le_hundred (pos z) n d u s top bottom = place-le_hundred z n d u s top bottom
place_le_hundred (negsuc z) n d u s top bottom = place_below z (half_even n d) u s

round-le_hundred : (z : ℤ) (s : ℕ) → magnitude z ≤ 100 * 10 ^ s → Le (round z s) (of_ℕ 100)
unfolding round
round-le_hundred z s h = place_le_hundred z (magnitude z) _ _ s h (omega arith)

magnitude-ge : (z : ℤ) (n : ℕ) → n + neg_part z ≤ pos_part z → n ≤ magnitude z
magnitude-ge (pos z) n h = omega (arith, h)
magnitude-ge (negsuc z) n h = absurd (omega (arith, h))

pub div-le_hundred : (a : Decimal) → Le decimal_one a → Le (div (of_ℕ 100) a) (of_ℕ 100)
unfolding div is_le
div-le_hundred a h = elim (Bool-cases (magnitude a.coef == 0)) [
  | inl e ↦ rw (e, div) (ground (arith))
  | inr e ↦
      let k =
        excess (100 * 10 ^ lift (magnitude a.coef) (magnitude a.coef) / magnitude a.coef)
          (100 * 10 ^ lift (magnitude a.coef) (magnitude a.coef) / magnitude a.coef) in
      let size : 10 ^ a.scale ≤ magnitude a.coef =
        magnitude-ge a.coef (10 ^ a.scale) (omega (arith, leb→le _ _ h)) in
      let bottom : 10 ^ (a.scale + k) ≤ magnitude a.coef * 10 ^ k =
        omega (arith, pow_plus a.scale k, mul-le-mul_right (10 ^ k) size) in
      let s = lift (magnitude a.coef) (magnitude a.coef) in
      let top : 100 * 10 ^ s ≤ 100 * 10 ^ (s + 0) =
        omega (arith, ap (λ j. 10 ^ j) {x = s + 0} {y = s} (omega arith)) in
      rw (e, div) (place_le_hundred _ (100 * 10 ^ s) _ (a.scale + k) (s + 0) top bottom)
]

sub_ℕ-magnitude : (p q : ℕ) → q ≤ p → magnitude (sub_ℕ p q) ≤ p
sub_ℕ-magnitude p q h = ground (arith)

pub sub-le_hundred : (a : Decimal) → IsNonneg a → Le a (of_ℕ 100) → Le (sub (of_ℕ 100) a) (of_ℕ 100)
unfolding sub add neg is_le
sub-le_hundred a h k = round-le_hundred _ _ (
    rw (neg_part-swap a.coef, pos_part-swap a.coef)
      (omega (
        arith,
        h,
        ap (λ j. 10 ^ j) {x = 0 + a.scale} {y = a.scale} (omega arith),
        sub_ℕ-magnitude (100 * 10 ^ a.scale + neg_part a.coef * 1)
            (0 * 10 ^ a.scale + pos_part a.coef * 1) (omega (arith, leb→le _ _ k, h)),
      )))

div-ge : (n d x : ℕ) → 0 < d → x * d ≤ n → x ≤ n / d
div-ge n d x positive h = elim (Bool-cases (ltb (n / d) x)) [
  | inr e ↦ ground (arith)
  | inl e ↦
      let next : (n / d + 1) * d ≤ x * d = mul-le-mul_right d (omega (arith, ltb→lt _ _ e)) in
      absurd (omega (arith, next, h, div-add-mod' n d, add-mul (n / d) 1 d, mod-lt n positive))
]

-- Rounding does not lead below one.
place-ge_one :
    (z n k s : ℕ)
    → 10 ^ s ≤ n
    → 1 ≤ n / 10 ^ k
    → Le decimal_one (place (pos z) (half_even n (10 ^ k)) k s)
unfolding place is_le
place-ge_one z n k s h one = elim (Bool-cases (leb k s)) [
  | inl e ↦
      let parts : 10 ^ s ≡ 10 ^ (s - k) * 10 ^ k =
        ap (λ j. 10 ^ j) {x = s} {y = s - k + k} (ground (arith)) ∙ pow_plus (s - k) k in
      let bound =
        div-ge n (10 ^ k) (10 ^ (s - k)) (one-le-pow k 10 (omega arith))
          (omega (arith, h, parts)) in
      let rounded = div-le-half_even n (10 ^ k) in rw (e, place) (ground (arith))
  | inr e ↦
      let bound : 0 < half_even n (10 ^ k) * 10 ^ (k - s) =
        mul-pos (omega (arith, one, div-le-half_even n (10 ^ k)))
          (one-le-pow (k - s) 10 (omega arith)) in
      rw (e, place) (ground (arith))
]

round-ge_one : (z : ℤ) (s : ℕ) → 10 ^ s ≤ pos_part z → Le decimal_one (round z s)
unfolding round
round-ge_one (pos n) s h =
    place-ge_one n n (excess n n) s h
      (div-excess_pos n n (omega (arith, h, one-le-pow s 10 (omega arith))))
round-ge_one (negsuc n) s h = absurd (omega (arith, h, one-le-pow s 10 (omega arith)))

sub_ℕ-ge : (p q : ℕ) → q ≡ 0 → p ≤ pos_part (sub_ℕ p q)
sub_ℕ-ge p q h = ground (arith)

pub Le-add_one : (a : Decimal) → IsNonneg a → Le decimal_one (add decimal_one a)
unfolding add is_le
Le-add_one a h = round-ge_one _ _ (
    omega (
      arith,
      ap (λ j. 10 ^ j) {x = 0 + a.scale} {y = a.scale} (omega arith),
      sub_ℕ-ge (1 * 10 ^ a.scale + pos_part a.coef * 1) (0 * 10 ^ a.scale + neg_part a.coef * 1)
          (omega (arith, h)),
    ))
