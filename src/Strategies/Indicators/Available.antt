-- ===== src/Strategies/Indicators/Available.antt =====
-- When the indicators of indicators/compute.py have a value.
use ratatoskr_v.Base.{
  ℕ, zero, suc, ◌+◌, ◌-◌, ◌≤◌, ◌≡◌, inl, inr, refl, ◌∙◌, true, false, Option, none, some, List, [],
  ◌∷◌, ltb, leb, ◌==◌, length, map, is_some, All, leb→le, arith, Bool-cases, Option-cases,
}
use ratatoskr_v.Decimal.{Decimal}
use ratatoskr_v.MarketData.{Bar}
use ratatoskr_v.Strategies.Indicators.{
  Source, first, drop, last_of, last, windows, mean, compute_sma, compute_ema, compute_volume_sma,
  compute_obv,
}
use ratatoskr_v.Strategies.Indicators.Momentum.{compute_rsi, compute_mfi}
use ratatoskr_v.Strategies.Indicators.Oscillators.{
  on_window, raw_k, all_some, stochastic_of, slowed, compute_stochastic, williams,
  compute_williams_r, compute_atr,
}

module _ {ℓ} {A : Type ℓ} where
  pub last-is_some : (x : A) (xs : List A) → is_some (last (x ∷ xs)) ≡ true
  last-is_some x [] = refl
  last-is_some x (y ∷ xs) = last-is_some y xs

  pub length-drop : (n : ℕ) (xs : List A) → length (drop n xs) ≡ length xs - n
  length-drop zero xs = omega arith
  length-drop (suc n) [] = omega arith
  length-drop (suc n) (x ∷ xs) = omega (arith, length-drop n xs)

  length-first : (n : ℕ) (xs : List A) → n ≤ length xs → length (first n xs) ≡ n
  length-first zero xs h = refl
  length-first (suc n) [] h = absurd (omega (arith, h))
  length-first (suc n) (x ∷ xs) h = omega (arith, length-first n xs (omega (arith, h)))

  length-windows : (n : ℕ) (xs : List A) → 1 ≤ n → length (windows n xs) ≡ length xs + 1 - n
  length-windows n [] h = omega (arith, h)
  length-windows n (x ∷ xs) h = ground (arith, length-windows n xs h)

on_window-is_some :
    (f : Decimal → Decimal → Decimal → Decimal) (bars : List Bar)
    → 1 ≤ length bars
    → is_some (on_window f bars) ≡ true
on_window-is_some f [] h = absurd (omega (arith, h))
on_window-is_some f (b ∷ bars) h = elim (Option-cases (last (b ∷ bars))) [
  | inl e ↦ absurd (no_last e (last-is_some b bars))
  | inr (c, e) ↦ rw (e, on_window) refl
]
  where
    no_last : {o : Option Bar} → o ≡ none → is_some o ≡ true → ⊥
    no_last e h = cc

williams-is_some :
    (bars : List Bar) (n : ℕ)
    → is_some (compute_williams_r bars (suc n)) ≡ leb (suc n) (length bars)
unfolding compute_williams_r
williams-is_some bars n = elim (Bool-cases (ltb (length bars) (suc n))) [
  | inl e ↦ rw (e, compute_williams_r) (ground (arith))
  | inr e ↦
      let positive : (suc n == 0) ≡ false = ground (arith) in
      rw (e, positive, compute_williams_r)
        (on_window-is_some williams (last_of (suc n) bars) (enough (ground (arith)))
          ∙ ground (arith))
]
  where
    enough : suc n ≤ length bars → 1 ≤ length (last_of (suc n) bars)
    enough h = omega (arith, h, length-drop (length bars - suc n) bars)

-- The simple averages, the exponential average, RSI, ATR, Williams' %R, the money flow and the
-- balance volume have a value exactly from as many bars on as their documentation asks for.
compute_is_some :
    (bars : List Bar) (n : ℕ) (source : Source)
    → (is_some (compute_sma bars (suc n) source) ≡ leb (suc n) (length bars))
      × (is_some (compute_ema bars (suc n) source) ≡ leb (suc n) (length bars))
      × (is_some (compute_volume_sma bars (suc n)) ≡ leb (suc n) (length bars))
      × (is_some (compute_williams_r bars (suc n)) ≡ leb (suc n) (length bars))
      × (is_some (compute_rsi bars (suc n) source) ≡ leb (suc n + 1) (length bars))
      × (is_some (compute_atr bars (suc n)) ≡ leb (suc n + 1) (length bars))
      × (is_some (compute_mfi bars (suc n)) ≡ leb (suc n + 1) (length bars))
      × (is_some (compute_obv bars) ≡ leb 2 (length bars))
unfolding compute_sma compute_ema compute_volume_sma compute_williams_r compute_rsi compute_atr
    compute_mfi compute_obv mean
compute_is_some bars n source = (
  ground (arith),
  ground (arith),
  ground (arith),
  williams-is_some bars n,
  ground (arith),
  ground (arith),
  ground (arith),
  ground (arith),
)

-- A value of every element is a list of values, as long.
all_some-map :
    {A : Type 0} (n : ℕ) (f : List A → Option Decimal) (xs : List (List A))
    → ((w : List A) → length w ≡ n → is_some (f w) ≡ true)
    → All (λ w. length w ≡ n) xs
    → (ys : List Decimal) × (all_some (map f xs) ≡ some ys) × (length ys ≡ length xs)
all_some-map n f [] h k = ([], refl, refl)
all_some-map n f (w ∷ ws) h k = elim (Option-cases (f w)) [
  | inl e ↦ absurd (no_value e (h w k.0))
  | inr (v, e) ↦
      let rest = all_some-map n f ws h k.1 in
      (v ∷ rest.0, rw (e, all_some) (rw rest.1 refl), omega (arith, rest.2))
]
  where
    no_value : {o : Option Decimal} → o ≡ none → is_some o ≡ true → ⊥
    no_value e h = cc

windows-All : {A : Type 0} (n : ℕ) (xs : List A) → All (λ w. length w ≡ n) (windows n xs)
windows-All n [] = tt
windows-All n (x ∷ xs) = elim (Bool-cases (leb n (length (x ∷ xs)))) [
  | inl e ↦ rw (e, windows) (length-first n (x ∷ xs) (leb→le _ _ e), windows-All n xs)
  | inr e ↦ rw (e, windows) (windows-All n xs)
]

stochastic_of-is_some :
    (n : ℕ) (ks : List Decimal) → suc n ≤ length ks → is_some (stochastic_of (suc n) ks) ≡ true
unfolding mean
stochastic_of-is_some n [] h = absurd (omega (arith, h))
stochastic_of-is_some n (k ∷ ks) h = elim (Option-cases (last (k ∷ ks))) [
  | inl e ↦ absurd (no_last e (last-is_some k ks))
  | inr (l, e) ↦
      let long : ltb (length (k ∷ ks)) (suc n) ≡ false = ground (arith) in
      rw (long, e, stochastic_of) refl
]
  where
    no_last : {o : Option Decimal} → o ≡ none → is_some o ≡ true → ⊥
    no_last e h = cc

mean_some : (n : ℕ) (vs : List Decimal) → is_some (mean (suc n) vs) ≡ true
unfolding mean
mean_some n vs = refl

slowed-is_some :
    (d s : ℕ) (raws : List Decimal)
    → suc s + d ≤ length raws
    → is_some (slowed (suc s) (suc d) raws) ≡ true
slowed-is_some d s raws h =
    let long : ltb (length raws) (suc s) ≡ false = ground (arith) in
    let ks =
      all_some-map (suc s) (mean (suc s)) (windows (suc s) raws) (λ w _. mean_some s w)
        (windows-All (suc s) raws) in
    rw (long, ks.1, slowed)
      (stochastic_of-is_some d (ks.0)
        (omega (arith, h, ks.2, length-windows (suc s) raws (omega arith))))

-- The stochastic oscillator has a value exactly from `k_period + slowing + d_period - 2` bars on,
-- for positive periods: no window is empty, and each series is long enough for the next one.
compute_stochastic-is_some :
    (bars : List Bar) (k d s : ℕ)
    → is_some (compute_stochastic bars (suc k) (suc d) (suc s))
      ≡ leb (suc k + suc s + suc d) (length bars + 2)
unfolding compute_stochastic
compute_stochastic-is_some bars k d s =
    elim (Bool-cases (ltb (length bars + 2) (suc k + suc s + suc d))) [
      | inl e ↦ rw (e, compute_stochastic) (ground (arith))
      | inr e ↦
          let raws =
            all_some-map (suc k) (on_window raw_k) (windows (suc k) bars)
              (λ w h. on_window-is_some raw_k w (omega (arith, h))) (windows-All (suc k) bars) in
          rw (e, raws.1, compute_stochastic)
            (slowed-is_some d s (raws.0)
                (omega (arith, ltb-ge e, raws.2, length-windows (suc k) bars (omega arith)))
              ∙ ground (arith))
    ]
  where
    ltb-ge :
        ltb (length bars + 2) (suc k + suc s + suc d) ≡ false
        → suc k + suc s + suc d ≤ length bars + 2
    ltb-ge e = ground (arith)
