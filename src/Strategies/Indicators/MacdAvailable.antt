-- ===== src/Strategies/Indicators/MacdAvailable.antt =====
-- When the MACD of indicators/compute.py has a value.
use ratatoskr_v.Base.{
  ℕ, zero, suc, ◌+◌, ◌-◌, ◌≤◌, ◌<◌, ◌≡◌, inl, inr, refl, ap, ◌∙◌, true, false, Option, none, some,
  List, [], ◌∷◌, ltb, leb, length, map, is_some, arith, Bool-cases,
}
use ratatoskr_v.Decimal.{Decimal, add, sub, mul}
use ratatoskr_v.Strategies.Indicators.Available.{length-drop, last-is_some}
use ratatoskr_v.MarketData.{Bar}
use ratatoskr_v.Strategies.Indicators.{get_source_value, drop, last, get, mean, close_source}
use ratatoskr_v.Strategies.Indicators.Momentum.{
  ema_values, ema_series, aligned, macd_from, macd_of, signal_line_of, compute_macd,
}

get_some : {A : Type 0} (n : ℕ) (xs : List A) → n < length xs → (a : A) × (get n xs ≡ some a)
get_some n [] h = absurd (omega (arith, h))
get_some zero (x ∷ xs) h = (x, refl)
get_some (suc n) (x ∷ xs) h = get_some n xs (omega (arith, h))

length-ema_values :
    (mult ema : Decimal) (vs : List Decimal) → length (ema_values mult ema vs) ≡ length vs + 1
length-ema_values mult ema [] = refl
length-ema_values mult ema (v ∷ vs) =
    omega (arith, length-ema_values mult (add (mul (sub v ema) mult) ema) vs)

length-map : {A B : Type 0} (f : A → B) (xs : List A) → length (map f xs) ≡ length xs
length-map f [] = refl
length-map f (x ∷ xs) = omega (arith, length-map f xs)

-- an average has a value from the first full period on
ema_series-some :
    (values : List Decimal) (n : ℕ)
    → (es : List Decimal) × (ema_series values (suc n) ≡ some es)
      × (length es ≡ length values - suc n + 1)
unfolding ema_series mean
ema_series-some values n = (
  _,
  refl,
  length-ema_values _ _ (drop (suc n) values) ∙ ap (λ k. k + 1) (length-drop (suc n) values),
)

-- Each slow average has a fast one beside it.
macd_from-some :
    (fast slow i : ℕ) (fasts slows : List Decimal)
    → fast ≤ slow
    → slow + i + length slows ≤ length fasts + fast
    → (ds : List Decimal) × (macd_from fast slow i fasts slows ≡ some ds)
      × (length ds ≡ length slows)
unfolding macd_from aligned
macd_from-some fast slow i fasts [] le h = ([], refl, refl)
macd_from-some fast slow i fasts (s ∷ slows) le h =
    let rest = macd_from-some fast slow (suc i) fasts slows le (omega (arith, h)) in
    let x = get_some (slow + i - fast) fasts (omega (arith, le, h)) in
    let inside : leb fast (slow + i) ≡ true = ground (arith) in
    let found : aligned fast slow i fasts ≡ some x.0 = rw (inside, aligned) x.1 in
    (sub (x.0) s ∷ rest.0, rw (found, macd_from) (rw rest.1 refl), omega (arith, rest.2))

macd_of-is_some :
    (a b : Option Decimal) → is_some a ≡ true → is_some b ≡ true → is_some (macd_of a b) ≡ true
macd_of-is_some (some a) (some b) h k = refl
macd_of-is_some none b h k = cc
macd_of-is_some (some a) none h k = cc

last-is_some_nonempty : (xs : List Decimal) → 1 ≤ length xs → is_some (last xs) ≡ true
last-is_some_nonempty [] h = absurd (omega (arith, h))
last-is_some_nonempty (x ∷ xs) h = last-is_some x xs

signal_line_of-is_some :
    (n : ℕ) (macds : List Decimal)
    → suc n ≤ length macds
    → is_some (signal_line_of (suc n) macds) ≡ true
signal_line_of-is_some n [] h = absurd (omega (arith, h))
signal_line_of-is_some n (m ∷ ms) h =
    let long : ltb (length (m ∷ ms)) (suc n) ≡ false = ground (arith) in
    let es = ema_series-some (m ∷ ms) n in
    rw (long, es.1, signal_line_of)
      (macd_of-is_some (last (m ∷ ms)) (last (es.0)) (last-is_some m ms)
        (last-is_some_nonempty (es.0) (omega (arith, es.2))))

-- The MACD has a value exactly from `slow + signal - 1` bars on, for positive periods of which the
-- fast one is not the longer: each index into the fast averages is in range.
pub compute_macd-is_some :
    (bars : List Bar) (fast slow signal : ℕ)
    → fast ≤ slow
    → is_some (compute_macd bars (suc fast) (suc slow) (suc signal))
      ≡ leb (suc slow + suc signal) (length bars + 1)
unfolding compute_macd
compute_macd-is_some bars fast slow signal le =
    elim (Bool-cases (ltb (length bars + 1) (suc slow + suc signal))) [
      | inl e ↦ rw (e, compute_macd) (ground (arith))
      | inr e ↦
          let values = map (get_source_value close_source) bars in
          let fasts = ema_series-some values fast in
          let slows = ema_series-some values slow in
          let enough : suc slow + suc signal ≤ length bars + 1 = ground (arith) in
          let macds =
            macd_from-some (suc fast) (suc slow) 0 (fasts.0) (slows.0) (omega (arith, le)) (
              omega
                (arith, le, fasts.2, slows.2, length-map (get_source_value close_source) bars)) in
          rw (e, fasts.1, slows.1, macds.1, compute_macd)
            (signal_line_of-is_some signal (macds.0) (
                omega (
                  arith,
                  enough,
                  macds.2,
                  slows.2,
                  length-map (get_source_value close_source) bars,
                ))
              ∙ ground (arith))
    ]
