-- ===== src/Signals/Expiry.antt =====
-- The expiry job (expiry.py) and the queue of pending signals.
use ratatoskr_v.Base.{
  ◌≤◌, ◌≡◌, refl, ◌∙◌, Bool, ◌&&◌, [], ◌∷◌, arith, Bool-cases, inl, inr, count, select,
  update_where, leb, if◌then◌else◌, All, All-weaken, leb→le,
}
use native.Mathlib.Nat.{le_trans}
use ratatoskr_v.Domain.{Time}
use ratatoskr_v.Signals.{
  Signal, Table, is_pending, is_stale, expire_stale, with_status, expired, get_pending_signals,
  sort_by_created, insert_by_created,
}

-- A row after the job: stale ones are expired, the others untouched.
abbrev pub Expired : Time → Signal → Signal → Type 0
Expired now s t = t ≡ (if is_stale now s then with_status expired s else s)

abbrev pub Rowwise : (Signal → Signal → Type 0) → Table → Table → Type 0
Rowwise R [] [] = Unit
Rowwise R (x ∷ xs) (y ∷ ys) = R x y × Rowwise R xs ys
Rowwise R _ _ = ⊥

Rowwise-Expired : (now : Time) (t : Table) → Rowwise (Expired now) t (expire_stale now t).1
unfolding expire_stale
Rowwise-Expired now [] = tt
Rowwise-Expired now (x ∷ t) = (refl, Rowwise-Expired now t)

none_stale : (now : Time) (t : Table) → count (is_stale now) (expire_stale now t).1 ≡ 0
unfolding expire_stale
none_stale now [] = refl
none_stale now (x ∷ t) = elim (Bool-cases (is_stale now x)) [
  | inl stale ↦ rw stale (omega (arith, none_stale now t))
  | inr fresh ↦ rw fresh (rw fresh (omega (arith, none_stale now t)))
]

update_where-none :
    (p : Signal → Bool) (f : Signal → Signal) (t : Table) → count p t ≡ 0 → update_where p f t ≡ t
update_where-none p f [] h = refl
update_where-none p f (x ∷ t) h = ground (arith, update_where-none p f t)

settled :
    (now : Time) (t : Table) → expire_stale now (expire_stale now t).1 ≡ (0, (expire_stale now t).1)
settled now t =
    let u = (expire_stale now t).1 in
    unfold expire_stale in
    λ i. (
      none_stale now t i,
      update_where-none (is_stale now) (with_status expired) u (none_stale now t) i,
    )

-- The job expires the stale rows and nothing else, leaves none behind, reports how many there
-- were, and finds nothing when it runs again at the same time.
expire_stale_lem :
    (now : Time) (t : Table)
    → let (n, u) = expire_stale now t in
      Rowwise (Expired now) t u
      × (n ≡ count (is_stale now) t)
      × (count (is_stale now) u ≡ 0)
      × (expire_stale now u ≡ (0, u))
expire_stale_lem now t = (Rowwise-Expired now t, counted, none_stale now t, settled now t)
  where
    counted : (expire_stale now t).0 ≡ count (is_stale now) t
    counted = unfold expire_stale in refl

-- Every row is created no later than the rows after it.
abbrev pub IsFifo : Table → Type 0
IsFifo [] = Unit
IsFifo (x ∷ xs) = All (λ y. x.created_at ≤ y.created_at) xs × IsFifo xs

insert-All :
    (P : Signal → Type 0) (s : Signal) (t : Table) → P s → All P t → All P (insert_by_created s t)
unfolding insert_by_created
insert-All P s [] p h = (p, tt)
insert-All P s (x ∷ t) p h = elim (Bool-cases (leb s.created_at x.created_at)) [
  | inl low ↦ rw low (p, h)
  | inr high ↦ rw high (h.0, insert-All P s t p h.1)
]

insert-IsFifo : (s : Signal) (t : Table) → IsFifo t → IsFifo (insert_by_created s t)
unfolding insert_by_created
insert-IsFifo s [] h = (tt, tt)
insert-IsFifo s (x ∷ t) h = elim (Bool-cases (leb s.created_at x.created_at)) [
  | inl low ↦
      rw low ((leb→le _ _ low, All-weaken _ _ t (λ y q. le_trans (leb→le _ _ low) q) h.0), h)
  | inr high ↦ rw high (insert-All _ s t (ground arith) h.0, insert-IsFifo s t h.1)
]

-- Every row that is given is handed out, as often.
count-insert :
    (p : Signal → Bool) (s : Signal) (t : Table) → count p (insert_by_created s t) ≡ count p (s ∷ t)
unfolding insert_by_created
count-insert p s [] = refl
count-insert p s (x ∷ t) = elim (Bool-cases (leb s.created_at x.created_at)) [
  | inl low ↦ rw low
  | inr high ↦ rw high (omega (arith, count-insert p s t))
]

count-sort : (p : Signal → Bool) (t : Table) → count p (sort_by_created t) ≡ count p t
unfolding sort_by_created
count-sort p [] = refl
count-sort p (x ∷ t) = omega (arith, count-insert p x (sort_by_created t), count-sort p t)

count-select : (p q : Signal → Bool) (t : Table) → count p (select q t) ≡ count (λ s. q s && p s) t
count-select p q [] = refl
count-select p q (x ∷ t) = ground (arith, count-select p q t)

sort-IsFifo : (t : Table) → IsFifo (sort_by_created t)
unfolding sort_by_created
sort-IsFifo [] = tt
sort-IsFifo (x ∷ t) = insert-IsFifo x (sort_by_created t) (sort-IsFifo t)

-- The risk engine is given the pending signals and no others, each as often as it stands in the
-- table, the oldest first.
get_pending_signals-IsFifo :
    (t : Table)
    → IsFifo (get_pending_signals t)
      × ((p : Signal → Bool)
          → count p (get_pending_signals t) ≡ count (λ s. is_pending s.status && p s) t)
unfolding get_pending_signals
get_pending_signals-IsFifo t = (
  sort-IsFifo (select (λ s. is_pending s.status) t),
  λ p. count-sort p (select (λ s. is_pending s.status) t) ∙ count-select p _ t,
)
