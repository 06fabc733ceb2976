-- ===== src/Base/Lists.antt =====
-- Lists that stand for tables and Python lists: rows are found, counted and updated by a test.
use Prim.Native.Nat.{ℕ, suc, ◌+◌}
use mathlib.Core.Path.{◌≡◌, refl, ap}
use mathlib.Core.Bool.{Bool, true}
use mathlib.Core.Logic.{inl, inr}
use mathlib.Core.Option.{Option, none, some}
use mathlib.Core.List.{List, [], ◌∷◌, ◌++◌}
use native.Mathlib.Omega.{arith}
use ratatoskr_v.Base.Tests.{if◌then◌else◌, Bool-cases}

module _ {ℓ} {A : Type ℓ} where
  abbrev pub length : List A → ℕ
  length [] = 0
  length (x ∷ xs) = suc (length xs)

  -- the first row that passes
  abbrev pub find : (A → Bool) → List A → Option A
  find p [] = none
  find p (x ∷ xs) = if p x then some x else find p xs

  -- the rows that pass, in order
  abbrev pub select : (A → Bool) → List A → List A
  select p [] = []
  select p (x ∷ xs) = let rest = select p xs in if p x then x ∷ rest else rest

  -- how many rows pass
  abbrev pub count : (A → Bool) → List A → ℕ
  count p [] = 0
  count p (x ∷ xs) = (if p x then 1 else 0) + count p xs

  -- every row that passes is changed
  abbrev pub update_where : (A → Bool) → (A → A) → List A → List A
  update_where p f [] = []
  update_where p f (x ∷ xs) = (if p x then f x else x) ∷ update_where p f xs

  -- the first row that passes is changed: an object that a query by its key gave is assigned to
  abbrev pub update_first : (A → Bool) → (A → A) → List A → List A
  update_first p f [] = []
  update_first p f (x ∷ xs) = if p x then f x ∷ xs else x ∷ update_first p f xs

  -- A predicate on every element, by recursion, which the tactics read and build.
  abbrev pub All {κ} : (A → Type κ) → List A → Type κ
  All P [] = Unit
  All P (x ∷ xs) = P x × All P xs

  pub All-append {κ} : (P : A → Type κ) (xs ys : List A) → All P xs → All P ys → All P (xs ++ ys)
  All-append P [] ys hx hy = hy
  All-append P (x ∷ xs) ys hx hy = (hx.0, All-append P xs ys hx.1 hy)

  pub All-weaken {κ μ} :
      (P : A → Type κ) (Q : A → Type μ) (xs : List A) → ((a : A) → P a → Q a) → All P xs → All Q xs
  All-weaken P Q [] f h = tt
  All-weaken P Q (x ∷ xs) f h = (f x h.0, All-weaken P Q xs f h.1)

  pub find-passes : (p : A → Bool) (xs : List A) {a : A} → find p xs ≡ some a → p a ≡ true
  find-passes p [] {a} h = cc
  find-passes p (x ∷ xs) {a} h = ground (arith, find-passes p xs {a = a})

  pub count-append : (p : A → Bool) (xs ys : List A) → count p (xs ++ ys) ≡ count p xs + count p ys
  count-append p [] ys = omega arith
  count-append p (x ∷ xs) ys = omega (arith, count-append p xs ys)

  pub count-of_find-none : (p : A → Bool) (xs : List A) → find p xs ≡ none → count p xs ≡ 0
  count-of_find-none p [] h = refl
  count-of_find-none p (x ∷ xs) h = ground (arith, count-of_find-none p xs)

  -- The row that the query finds is the row that the change hits.
  pub All-update_first {κ} :
      (P : A → Type κ) (p : A → Bool) (change : A → A) (xs : List A)
      → ((x : A) → find p xs ≡ some x → P x → P (change x))
      → All P xs
      → All P (update_first p change xs)
  All-update_first P p change [] h s = tt
  All-update_first P p change (x ∷ xs) h s = elim (Bool-cases (p x)) [
    | inl hit ↦ rw hit (h x (rw hit refl) s.0, s.1)
    | inr miss ↦ rw miss (s.0, All-update_first P p change xs (λ y e. h y (rw miss e)) s.1)
  ]

  pub count-update_first :
      (q p : A → Bool) (change : A → A) (xs : List A)
      → ((x : A) → q (change x) ≡ q x)
      → count q (update_first p change xs) ≡ count q xs
  count-update_first q p change [] h = refl
  count-update_first q p change (x ∷ xs) h = ground (arith, h x, count-update_first q p change xs)

  pub length-append : (xs ys : List A) → length (xs ++ ys) ≡ length xs + length ys
  length-append [] ys = omega arith
  length-append (x ∷ xs) ys = omega (arith, length-append xs ys)

  pub append-nil : (xs : List A) → xs ++ [] ≡ xs
  append-nil [] = refl
  append-nil (x ∷ xs) = ap (λ ys. x ∷ ys) (append-nil xs)
