-- ===== src/Portfolio/Options/Settlement.antt =====
-- What the expiration of options (portfolio/options_lifecycle.py) leaves behind.
use ratatoskr_v.Base.{
  ℕ, ◌≡◌, refl, sym, ap, ◌∙◌, subst, Option, none, some, List, [], ◌∷◌, ◌==◌, find, select, map,
  arith, Option-cases, inl, inr, All-update_first, count-update_first,
}
use ratatoskr_v.Domain.{Uid, Symbol, Time}
use ratatoskr_v.Decimal.{Decimal}
use ratatoskr_v.Portfolio.{Position, Portfolio, CashBalance}
use ratatoskr_v.Portfolio.FillProcessor.Invariant.{IsWellFormed, IsSound, KeepsKey, count-KeepsKey}
use ratatoskr_v.Portfolio.FillProcessor.Ledger.{
  IsReconciled, has_id, Books, change-Agrees, some-injective,
}
use ratatoskr_v.Portfolio.Options.{
  Contract, has_position_id, is_expiring, settlement, expired, expiry_entry, settle,
  expire_position, expire_positions, check_expirations,
}

-- The portfolio is in order, and its cash is the given one.
abbrev pub IsInOrder : List CashBalance → Portfolio → Type 0
IsInOrder cash pf = IsWellFormed pf × (IsReconciled pf × (pf.cash ≡ cash))

expired-Books :
    (now : Time) (v : Decimal) (p : Position) → Books (expiry_entry now v p) (expired now v) p
unfolding expired expiry_entry
expired-Books now v p = (refl, refl, refl)

expired-IsSound : (now : Time) (v : Decimal) (p : Position) → IsSound (expired now v p)
unfolding expired
expired-IsSound now v p = refl

expired-KeepsKey : (now : Time) (v : Decimal) → KeepsKey (expired now v)
unfolding expired
expired-KeepsKey now v p strategy symbol h = ground arith

settle-IsInOrder :
    (cash : List CashBalance) (now : Time) (i : Uid) (settled : Option Decimal) (p : Position)
    (pf : Portfolio)
    → find (has_position_id i) pf.positions ≡ some p
    → IsInOrder cash pf
    → IsInOrder cash (settle now i settled p pf)
unfolding settle
settle-IsInOrder cash now i none p pf found h = h
settle-IsInOrder cash now i (some v) p pf found h = (
  record {
    sound =
        All-update_first IsSound (has_position_id i) (expired now v) pf.positions
          (λ q _ _. expired-IsSound now v q) h.0.sound;
    single = λ strategy symbol. omega (
      arith,
      count-KeepsKey (has_position_id i) (expired now v) strategy symbol pf.positions
          (expired-KeepsKey now v),
      h.0.single strategy symbol,
    );
  },
  (
    record {
      unique = λ id.
          rw
            (count-update_first (has_id id) (has_position_id i) (expired now v) pf.positions
              (λ x. ap (λ j. j == id) (expired-Books now v x).1))
            (h.1.0.unique id);
      agrees =
          change-Agrees (has_position_id i) (expired now v) pf.ledger (expiry_entry now v p) p
            pf.positions found
            (λ q e.
              subst (Books (expiry_entry now v p) (expired now v))
                (some-injective {p = p} {q = q} (sym found ∙ e)) (expired-Books now v p))
            h.1.0.unique h.1.0.agrees;
    },
    h.1.1,
  ),
)

module _ (contract_of : Uid → Option Contract) (price_of : Symbol → Option Decimal) (now : Time)
    (cash : List CashBalance) where
  expire_position-IsInOrder :
      (i : Uid) (pf : Portfolio)
      → IsInOrder cash pf
      → IsInOrder cash (expire_position contract_of price_of now i pf)
  unfolding expire_position
  expire_position-IsInOrder i pf h = elim (Option-cases (find (has_position_id i) pf.positions)) [
    | inl missing ↦ rw (missing, expire_position) h
    | inr (p, found) ↦
        rw (found, expire_position)
          (settle-IsInOrder cash now i (settlement price_of (contract_of i) p) p pf found h)
  ]

  expire_positions-IsInOrder :
      (is : List Uid) (pf : Portfolio)
      → IsInOrder cash pf
      → IsInOrder cash (expire_positions contract_of price_of now is pf)
  expire_positions-IsInOrder [] pf h = h
  expire_positions-IsInOrder (i ∷ is) pf h =
      expire_positions-IsInOrder is (expire_position contract_of price_of now i pf)
        (expire_position-IsInOrder i pf h)

-- The expiration of options keeps the portfolio in order: a well-formed portfolio stays so, and one that is reconciled with its
-- ledger stays so, each realized gain being booked once. It moves no cash: also a position that
-- ends in the money is closed without a credit or debit of its value.
pub check_expirations-IsInOrder :
    (contract_of : Uid → Option Contract) (price_of : Symbol → Option Decimal) (now : Time)
    (today : ℕ) (user : Uid) (pf : Portfolio)
    → IsWellFormed pf
    → IsReconciled pf
    → IsInOrder pf.cash (check_expirations contract_of price_of now today user pf)
unfolding check_expirations
check_expirations-IsInOrder contract_of price_of now today user pf w r =
    expire_positions-IsInOrder contract_of price_of now pf.cash
      (map (λ p. p.id) (select (is_expiring today user contract_of) pf.positions)) pf (w, (r, refl))
