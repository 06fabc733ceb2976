-- ===== src/Strategies/Formulas/Printer/Numbers.antt =====
-- Printed numbers are read back (`Decimal(tok.value)` of formulas/parser.py).
use native.Mathlib.Nat.{pow-succ', mod-lt, one-le-pow, div-add-mod'}
use ratatoskr_v.Base.{
  ℕ, zero, suc, ◌+◌, ◌-◌, ◌*◌, ◌/◌, ◌%◌, ◌^◌, ◌<◌, ◌≡◌, refl, ap, ◌∙◌, Bool, true, false, [], ◌∷◌,
  ltb, ◌==◌, if◌then◌else◌, arith, Bool-cases, inl, inr,
}
use ratatoskr_v.Base.Int.{pos}
use ratatoskr_v.Strategies.Formulas.{Text, ok}
use ratatoskr_v.Strategies.Formulas.Parser.{decimal_from, decimal_of}
use ratatoskr_v.Strategies.Formulas.Printer.{digits, last_digits, print_decimal}

-- a digit is read
decimal_from-digit :
    (coef scale : ℕ) (after : Bool) (d : ℕ) (s : Text)
    → d < 10
    → decimal_from coef scale after ((48 + d) ∷ s)
      ≡ decimal_from (coef * 10 + d) (if after then suc scale else scale) after s
unfolding decimal_from
decimal_from-digit coef scale after d s h =
    let no_point : (48 + d == b'.') ≡ false = ground (arith) in
    let value : 48 + d - 48 ≡ d = omega arith in rw (no_point, value, decimal_from) refl

-- the digits before the point
decimal_from-digits :
    (f n : ℕ) (s : Text) → n < f → decimal_from 0 0 false (digits f n s) ≡ decimal_from n 0 false s
unfolding digits
decimal_from-digits zero n s h = absurd (omega (arith, h))
decimal_from-digits (suc f) n s h = elim (Bool-cases (ltb n 10)) [
  | inl e ↦ rw e (
      decimal_from-digit 0 0 false n s (ground (arith))
      ∙ ap (λ m. decimal_from m 0 false s) (omega arith))
  | inr e ↦ rw e (
      decimal_from-digits f (n / 10) ((48 + n % 10) ∷ s) (ground (arith))
      ∙ decimal_from-digit (n / 10) 0 false (n % 10) s (omega arith)
      ∙ ap (λ m. decimal_from m 0 false s) (omega arith))
]

pair : {a b c d : ℕ} → a ≡ b → c ≡ d → ◌≡◌ {A = ℕ × ℕ} (a, c) (b, d)
pair p q = λ i. (p i, q i)

-- the digits behind the point
decimal_from-last_digits :
    (k coef scale n : ℕ) (s : Text)
    → n < 10 ^ k
    → decimal_from coef scale true (last_digits k n s)
      ≡ decimal_from (coef * 10 ^ k + n) (scale + k) true s
unfolding last_digits
decimal_from-last_digits zero coef scale n s h =
    ap (λ m. decimal_from (m.0) (m.1) true s) (pair (omega (arith, h)) (omega arith))
decimal_from-last_digits (suc k) coef scale n s h =
    decimal_from-last_digits k coef scale (n / 10) ((48 + n % 10) ∷ s)
      (omega (arith, h, pow-succ' 10 k))
    ∙ decimal_from-digit (coef * 10 ^ k + n / 10) (scale + k) true (n % 10) s (omega arith)
    ∙ ap (λ m. decimal_from (m.0) (m.1) true s)
        (pair (rw (pow-succ' 10 k) (omega arith)) (omega arith))

pub decimal_of-print_decimal :
    (coef scale : ℕ)
    → decimal_of (print_decimal coef scale) ≡ ok (record { coef = pos coef; scale = scale })
unfolding decimal_of print_decimal decimal_from
decimal_of-print_decimal coef zero = decimal_from-digits (suc coef) coef [] (omega arith) ∙ refl
decimal_of-print_decimal coef (suc k) =
    decimal_from-digits (suc whole) whole (b'.' ∷ last_digits (suc k) part []) (omega arith)
    ∙ decimal_from-last_digits (suc k) whole 0 part []
        (mod-lt coef (one-le-pow (suc k) 10 (omega arith)))
    ∙ ap (λ m. ok (record { coef = pos (m.0); scale = m.1 }))
        (pair (div-add-mod' coef (10 ^ suc k)) (omega arith))
  where
    whole : ℕ
    whole = coef / 10 ^ suc k

    part : ℕ
    part = coef % 10 ^ suc k
