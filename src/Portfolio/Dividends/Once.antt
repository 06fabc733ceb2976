-- ===== src/Portfolio/Dividends/Once.antt =====
-- A dividend is announced once: `process_ex_date` of portfolio/dividends.py.
use ratatoskr_v.Base.{
  ℕ, ◌≤◌, ◌≡◌, refl, true, List, [], ◌∷◌, ◌++◌, ◌==◌, is_some, find, select, count, count-append,
  count-of_find-none, All, All-weaken, arith,
}
use ratatoskr_v.Domain.{Uid}
use ratatoskr_v.Portfolio.{Position}
use ratatoskr_v.Portfolio.Dividends.{
  Announcement, Payment, is_holder, is_payment_of, new_payment, announce, announce_to,
  announce_each, process_ex_date,
}

-- A position has a payment of an announcement.
abbrev pub HasPayment : Uid → Uid → List Payment → Type 0
HasPayment position announcement xs = is_some (find (is_payment_of position announcement) xs) ≡ true

-- A position has at most one payment of an announcement.
abbrev pub IsUnique : List Payment → Type 0
IsUnique xs = (i j : Uid) → count (is_payment_of i j) xs ≤ 1

module _ (user : Uid) where
  found-append : (i j : Uid) (xs ys : List Payment) → HasPayment i j xs → HasPayment i j (xs ++ ys)
  found-append i j [] ys h = cc
  found-append i j (x ∷ xs) ys h = ground (arith, found-append i j xs ys)

  found-last :
      (a : Announcement) (p : Position) (xs : List Payment)
      → HasPayment p.id a.id (xs ++ new_payment user a p ∷ [])
  unfolding new_payment
  found-last a p [] = ground arith
  found-last a p (x ∷ xs) = ground (arith, found-last a p xs)

  announce-keeps :
      (i j : Uid) (a : Announcement) (p : Position) (xs : List Payment)
      → HasPayment i j xs
      → HasPayment i j (announce user a p xs)
  unfolding announce
  announce-keeps i j a p xs h = ground (arith, found-append i j xs (new_payment user a p ∷ []))

  announce-HasPayment :
      (a : Announcement) (p : Position) (xs : List Payment)
      → HasPayment p.id a.id (announce user a p xs)
  unfolding announce
  announce-HasPayment a p xs = ground (arith, found-last a p xs)

  announce-again :
      (a : Announcement) (p : Position) (xs : List Payment)
      → HasPayment p.id a.id xs
      → announce user a p xs ≡ xs
  unfolding announce
  announce-again a p xs h = rw (h, announce) refl

  announce-IsUnique :
      (a : Announcement) (p : Position) (xs : List Payment)
      → IsUnique xs
      → IsUnique (announce user a p xs)
  unfolding announce new_payment
  announce-IsUnique a p xs unique i j = ground (
    arith,
    unique i j,
    count-of_find-none (is_payment_of p.id a.id) xs,
    count-append (is_payment_of i j) xs (new_payment user a p ∷ []),
  )

  announce_to-keeps :
      (i j : Uid) (a : Announcement) (ps : List Position) (xs : List Payment)
      → HasPayment i j xs
      → HasPayment i j (announce_to user a ps xs)
  announce_to-keeps i j a [] xs h = h
  announce_to-keeps i j a (p ∷ ps) xs h =
      announce_to-keeps i j a ps (announce user a p xs) (announce-keeps i j a p xs h)

  announce_each-keeps :
      (i j : Uid) (ps : List Position) (news : List Announcement) (xs : List Payment)
      → HasPayment i j xs
      → HasPayment i j (announce_each user ps news xs)
  announce_each-keeps i j ps [] xs h = h
  announce_each-keeps i j ps (a ∷ news) xs h =
      announce_each-keeps i j ps news _
        (announce_to-keeps i j a (select (is_holder user a.symbol) ps) xs h)

  announce_to-IsUnique :
      (a : Announcement) (ps : List Position) (xs : List Payment)
      → IsUnique xs
      → IsUnique (announce_to user a ps xs)
  announce_to-IsUnique a [] xs h = h
  announce_to-IsUnique a (p ∷ ps) xs h =
      announce_to-IsUnique a ps (announce user a p xs) (announce-IsUnique a p xs h)

  announce_each-IsUnique :
      (ps : List Position) (news : List Announcement) (xs : List Payment)
      → IsUnique xs
      → IsUnique (announce_each user ps news xs)
  announce_each-IsUnique ps [] xs h = h
  announce_each-IsUnique ps (a ∷ news) xs h =
      announce_each-IsUnique ps news _
        (announce_to-IsUnique a (select (is_holder user a.symbol) ps) xs h)

  -- Each of the positions has a payment of the announcement.
  abbrev pub Covered : Announcement → List Position → List Payment → Type 0
  Covered a ps xs = All (λ p. HasPayment p.id a.id xs) ps

  announce_to-Covered :
      (a : Announcement) (ps : List Position) (xs : List Payment)
      → Covered a ps (announce_to user a ps xs)
  announce_to-Covered a [] xs = tt
  announce_to-Covered a (p ∷ ps) xs = (
    announce_to-keeps p.id a.id a ps (announce user a p xs) (announce-HasPayment a p xs),
    announce_to-Covered a ps (announce user a p xs),
  )

  announce_to-again :
      (a : Announcement) (ps : List Position) (xs : List Payment)
      → Covered a ps xs
      → announce_to user a ps xs ≡ xs
  announce_to-again a [] xs h = refl
  announce_to-again a (p ∷ ps) xs h = rw (announce-again a p xs h.0) (announce_to-again a ps xs h.1)

  -- Each announcement is covered for its holders.
  abbrev pub AllCovered : List Position → List Announcement → List Payment → Type 0
  AllCovered ps news xs = All (λ a. Covered a (select (is_holder user a.symbol) ps) xs) news

  announce_each-AllCovered :
      (ps : List Position) (news : List Announcement) (xs : List Payment)
      → AllCovered ps news (announce_each user ps news xs)
  announce_each-AllCovered ps [] xs = tt
  announce_each-AllCovered ps (a ∷ news) xs =
      let holders = select (is_holder user a.symbol) ps in
      let ys = announce_to user a holders xs in
      (
        All-weaken (λ p. HasPayment p.id a.id ys)
            (λ p. HasPayment p.id a.id (announce_each user ps news ys)) holders
            (λ p h. announce_each-keeps p.id a.id ps news ys h) (announce_to-Covered a holders xs),
        announce_each-AllCovered ps news ys,
      )

  announce_each-again :
      (ps : List Position) (news : List Announcement) (xs : List Payment)
      → AllCovered ps news xs
      → announce_each user ps news xs ≡ xs
  announce_each-again ps [] xs h = refl
  announce_each-again ps (a ∷ news) xs h =
      rw (announce_to-again a (select (is_holder user a.symbol) ps) xs h.0)
        (announce_each-again ps news xs h.1)

-- A dividend is announced once: where no position has two payments of one announcement, none has
-- after `process_ex_date`, every open position of the user in a symbol whose announcement goes ex
-- today has its payment, also one that was opened today, and to run the job again on the same day changes nothing.
pub process_ex_date-IsUnique :
    (today : ℕ) (user : Uid) (news : List Announcement) (ps : List Position) (xs : List Payment)
    → IsUnique xs
    → IsUnique (process_ex_date today user news ps xs)
      × (AllCovered user ps
            (select (λ a. a.ex_date == today) news)
            (process_ex_date today user news ps xs)
          × (process_ex_date today user news ps (process_ex_date today user news ps xs)
              ≡ process_ex_date today user news ps xs))
unfolding process_ex_date
process_ex_date-IsUnique today user news ps xs h =
    let due = select (λ a. a.ex_date == today) news in
    let covered = announce_each-AllCovered user ps due xs in
    (
      announce_each-IsUnique user ps due xs h,
      (covered, announce_each-again user ps due (announce_each user ps due xs) covered),
    )
