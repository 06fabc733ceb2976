-- ===== src/Portfolio/Dividends/Credits.antt =====
-- The credits of dividends: `process_payable_date` of portfolio/dividends.py.
use ratatoskr_v.Base.{
  ℕ, ◌≡◌, refl, ap, ◌∙◌, Option, none, some, List, [], ◌∷◌, ◌==◌, if◌then◌else◌, select,
  update_where, update_first, arith,
}
use ratatoskr_v.Domain.{Uid, Time}
use ratatoskr_v.Decimal.{Decimal, add}
use ratatoskr_v.Portfolio.{Position, Portfolio, AccountScope, equities_scope}
use ratatoskr_v.Portfolio.FillProcessor.Money.{balance_in, booked, is_booked_on, update_balance_lem}
use ratatoskr_v.Portfolio.Dividends.{
  Payment, is_payable, receive, credit_payment, credit_payments, mark_paid, process_payable_date,
}

-- What the bookings of the payments, in their order, make of a balance.
abbrev pub booked_all : List Payment → Option Decimal → Option Decimal
booked_all [] b = b
booked_all (x ∷ xs) b = booked_all xs (booked x.net_amount b)

-- The dividends of the first position with an id, if there is one.
abbrev pub dividends_of : Uid → List Position → Option Decimal
dividends_of i [] = none
dividends_of i (p ∷ ps) = if p.id == i then some p.total_dividends_received else dividends_of i ps

-- What a payment makes of the dividends of a position.
abbrev pub with_payment : Uid → Payment → Option Decimal → Option Decimal
with_payment i x none = none
with_payment i x (some d) = some (if x.position_id == i then add d x.net_amount else d)

-- What the payments make of them, in their order.
abbrev pub received : Uid → List Payment → Option Decimal → Option Decimal
received i [] d = d
received i (x ∷ xs) d = received i xs (with_payment i x d)

none_payable :
    (today : ℕ) (now : Time) (user : Uid) (xs : List Payment)
    → select (is_payable today user) (update_where (is_payable today user) (mark_paid now) xs) ≡ []
none_payable today now user [] = refl
none_payable today now user (x ∷ xs) = ground (arith, none_payable today now user xs)

marked_again :
    (today : ℕ) (now later : Time) (user : Uid) (xs : List Payment)
    → update_where
        (is_payable today user)
        (mark_paid later)
        (update_where (is_payable today user) (mark_paid now) xs)
      ≡ update_where (is_payable today user) (mark_paid now) xs
marked_again today now later user [] = refl
marked_again today now later user (x ∷ xs) = ground (arith, marked_again today now later user xs)

dividends_of-receive :
    (i : Uid) (x : Payment) (ps : List Position)
    → dividends_of i (update_first (λ p. p.id == x.position_id) (receive x.net_amount) ps)
      ≡ with_payment i x (dividends_of i ps)
dividends_of-receive i x [] = refl
dividends_of-receive i x (p ∷ ps) = ground (arith, dividends_of-receive i x ps)

module _ (user : Uid) where
  credit_payments-dividends :
      (i : Uid) (xs : List Payment) (pf : Portfolio)
      → dividends_of i (credit_payments user xs pf).positions
        ≡ received i xs (dividends_of i pf.positions)
  unfolding credit_payment
  credit_payments-dividends i [] pf = refl
  credit_payments-dividends i (x ∷ xs) pf =
      credit_payments-dividends i xs (credit_payment user x pf)
      ∙ ap (received i xs) (dividends_of-receive i x pf.positions)

  credit_payments-balance :
      (s : AccountScope) (u : Uid) (xs : List Payment) (pf : Portfolio)
      → balance_in s u (credit_payments user xs pf).cash ≡ (
          if is_booked_on equities_scope user s u
          then booked_all xs (balance_in s u pf.cash)
          else balance_in s u pf.cash)
  unfolding credit_payment
  credit_payments-balance s u [] pf = ground arith
  credit_payments-balance s u (x ∷ xs) pf = ground (
    arith,
    credit_payments-balance s u xs (credit_payment user x pf),
    update_balance_lem equities_scope user x.net_amount s u pf.cash,
  )

-- Paying dividends. The net amounts of the payments that are due are booked, in their order, on
-- the user's balance of the equities scope, which is opened where there is none, and on no other
-- balance; they are added to the dividends of their positions and of no others; and no payment is
-- made twice: to run the job again, at whatever time of the day, changes nothing.
pub process_payable_date-once :
    (today : ℕ) (now later : Time) (user : Uid) (xs : List Payment) (pf : Portfolio)
    (s : AccountScope) (u i : Uid)
    → let r : List Payment × Portfolio = process_payable_date today now user xs pf in
      let due : List Payment = select (is_payable today user) xs in
      (balance_in s u (r.1).cash ≡ (
        if is_booked_on equities_scope user s u
        then booked_all due (balance_in s u pf.cash)
        else balance_in s u pf.cash))
      × ((dividends_of i (r.1).positions ≡ received i due (dividends_of i pf.positions))
          × (process_payable_date today later user (r.0) (r.1) ≡ r))
unfolding process_payable_date
process_payable_date-once today now later user xs pf s u i =
    let due = select (is_payable today user) xs in
    (
      credit_payments-balance user s u due pf,
      (
        credit_payments-dividends user i due pf,
        rw (marked_again today now later user xs, none_payable today now user xs) refl,
      ),
    )
