-- ===== src/Portfolio/Dividends.antt =====
-- Dividends, backend/app/portfolio/dividends.py: `process_ex_date` and `process_payable_date` for a
-- user, with DividendAnnouncement and DividendPayment. Dates are day numbers, and `is_paid` is
-- `status == "paid"`, the other status is `pending`. The listings and summaries are left out.
pub mod Once
pub mod Credits
mod Tests
use ratatoskr_v.Base.{
  ℕ, Bool, true, false, Option, none, some, List, [], ◌∷◌, ◌++◌, ◌&&◌, not, leb, ◌==◌,
  if◌then◌else◌, is_some, find, select, update_where, update_first,
}
use ratatoskr_v.Domain.{Uid, Symbol, Time}
use ratatoskr_v.Decimal.{Decimal, add, mul}
use ratatoskr_v.Portfolio.{Position, Portfolio, equities_scope, update_balance}

pub record Announcement : Type 0 where
  pub id : Uid
  pub symbol : Symbol
  pub ex_date : ℕ
  pub payable_date : ℕ
  pub cash_amount : Decimal

pub record Payment : Type 0 where
  pub position_id : Uid
  pub announcement_id : Uid
  pub user_id : Uid
  pub symbol : Symbol
  pub ex_date : ℕ
  pub payable_date : ℕ
  pub shares_held : Decimal
  pub amount_per_share : Decimal
  pub gross_amount : Decimal
  pub net_amount : Decimal
  pub is_paid : Bool
  pub paid_at : Option Time

abbrev pub is_holder : Uid → Symbol → Position → Bool
is_holder user symbol p = p.user_id == user && p.symbol == symbol && p.is_open

abbrev pub is_payment_of : Uid → Uid → Payment → Bool
is_payment_of position announcement x =
    x.position_id == position && x.announcement_id == announcement

unfoldable pub new_payment : Uid → Announcement → Position → Payment
new_payment user a p = record {
  position_id = p.id;
  announcement_id = a.id;
  user_id = user;
  symbol = a.symbol;
  ex_date = a.ex_date;
  payable_date = a.payable_date;
  shares_held = p.qty;
  amount_per_share = a.cash_amount;
  gross_amount = mul p.qty a.cash_amount;
  net_amount = mul p.qty a.cash_amount;
  is_paid = false;
  paid_at = none;
}

-- the body of the inner loop: a payment that exists is not made again
unfoldable pub announce : Uid → Announcement → Position → List Payment → List Payment
announce user a p xs =
    if is_some (find (is_payment_of p.id a.id) xs) then xs else xs ++ new_payment user a p ∷ []

abbrev pub announce_to : Uid → Announcement → List Position → List Payment → List Payment
announce_to user a [] xs = xs
announce_to user a (p ∷ ps) xs = announce_to user a ps (announce user a p xs)

abbrev pub announce_each : Uid → List Position → List Announcement → List Payment → List Payment
announce_each user ps [] xs = xs
announce_each user ps (a ∷ news) xs =
    announce_each user ps news (announce_to user a (select (is_holder user a.symbol) ps) xs)

-- `process_ex_date`
unfoldable pub process_ex_date :
    ℕ → Uid → List Announcement → List Position → List Payment → List Payment
process_ex_date today user news ps xs =
    announce_each user ps (select (λ a. a.ex_date == today) news) xs

abbrev pub is_payable : ℕ → Uid → Payment → Bool
is_payable today user x = x.user_id == user && not x.is_paid && leb x.payable_date today

abbrev pub receive : Decimal → Position → Position
receive amount p = record p { total_dividends_received = add p.total_dividends_received amount }

-- the body of the loop, less the status of the payment
unfoldable pub credit_payment : Uid → Payment → Portfolio → Portfolio
credit_payment user x pf = record pf {
  cash = update_balance equities_scope user x.net_amount pf.cash;
  positions = update_first (λ p. p.id == x.position_id) (receive x.net_amount) pf.positions;
}

abbrev pub credit_payments : Uid → List Payment → Portfolio → Portfolio
credit_payments user [] pf = pf
credit_payments user (x ∷ xs) pf = credit_payments user xs (credit_payment user x pf)

abbrev pub mark_paid : Time → Payment → Payment
mark_paid now x = record x { is_paid = true; paid_at = some now }

-- `process_payable_date`
unfoldable pub process_payable_date :
    ℕ → Time → Uid → List Payment → Portfolio → List Payment × Portfolio
process_payable_date today now user xs pf = (
  update_where (is_payable today user) (mark_paid now) xs,
  credit_payments user (select (is_payable today user) xs) pf,
)
