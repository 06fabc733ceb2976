-- ===== src/Portfolio/MarkToMarket/Tracking.antt =====
-- What a cycle of mark_to_market.py keeps: the extreme prices of the positions, the books, and the
-- peak of the equity.
use ratatoskr_v.Base.{
  ◌≡◌, refl, sym, ap, ◌∙◌, Bool, true, false, Option, some, List, [], ◌∷◌, ◌==◌, if◌then◌else◌,
  or_else, count, map, arith, Bool-cases, inl, inr, All,
}
use ratatoskr_v.Domain.{Uid, Symbol, Time}
use ratatoskr_v.Decimal.{Decimal, add, is_lt}
use ratatoskr_v.Decimal.Order.{Le, is_le_refl, is_lt-not-is_le, is_le_total}
use ratatoskr_v.Portfolio.{Position, PnlEntry, Portfolio, is_open_for}
use ratatoskr_v.Portfolio.FillProcessor.Invariant.{IsWellFormed, IsSound}
use ratatoskr_v.Portfolio.FillProcessor.Ledger.{IsReconciled, Agrees, has_id, realized_in}
use ratatoskr_v.Portfolio.MarkToMarket.{
  is_marked, mark_at, mark_position, run_cycle, total_cash, positions_value, update_peak_equity,
}

module _ {ℓ} {A : Type ℓ} where
  All-map {κ} :
      (P : A → Type κ) (f : A → A) (xs : List A)
      → ((x : A) → P x → P (f x))
      → All P xs
      → All P (map f xs)
  All-map P f [] h a = tt
  All-map P f (x ∷ xs) h a = (h x a.0, All-map P f xs h a.1)

  count-map :
      (p : A → Bool) (f : A → A) (xs : List A)
      → ((x : A) → p (f x) ≡ p x)
      → count p (map f xs) ≡ count p xs
  count-map p f [] h = refl
  count-map p f (x ∷ xs) h = ground (arith, h x, count-map p f xs h)

-- The lowest price is at most the current one, which is at most the highest.
abbrev pub IsTracked : Position → Type 0
IsTracked p =
    Le p.lowest_price_since_entry p.current_price × Le p.current_price p.highest_price_since_entry

le_of_not-lt : (a b : Decimal) → is_lt a b ≡ false → Le b a
le_of_not-lt a b h = ground (arith, is_lt-not-is_le a b)

is_lt-Le : (a b : Decimal) → is_lt a b ≡ true → Le a b
is_lt-Le a b h = ground (arith, is_lt-not-is_le a b, is_le_total b a)

raise-le : (high price : Decimal) → Le price (if is_lt high price then price else high)
raise-le high price = elim (Bool-cases (is_lt high price)) [
  | inl beyond ↦ rw beyond (is_le_refl price)
  | inr within ↦ rw within (le_of_not-lt high price within)
]

lower-le : (low price : Decimal) → Le (if is_lt price low then price else low) price
lower-le low price = elim (Bool-cases (is_lt price low)) [
  | inl beyond ↦ rw beyond (is_le_refl price)
  | inr within ↦ rw within (le_of_not-lt price low within)
]

mark_at-IsTracked : (price : Decimal) (p : Position) → IsTracked (mark_at price p)
unfolding mark_at
mark_at-IsTracked price p =
    (lower-le p.lowest_price_since_entry price, raise-le p.highest_price_since_entry price)

module _ (now : Time) (close_of : Symbol → Option Decimal) where
  -- What a cycle makes of a position: the columns of the books are kept.
  abbrev Keeps : Position → Position → Type 0
  Keeps p q =
      (q.id ≡ p.id)
      × (q.strategy_id ≡ p.strategy_id)
      × (q.symbol ≡ p.symbol)
      × (q.qty ≡ p.qty)
      × (q.is_open ≡ p.is_open)
      × (q.realized_pnl ≡ p.realized_pnl)

  either-Keeps :
      (marked : Bool) (price : Decimal) (p : Position)
      → Keeps p (if marked then mark_at price p else p)
  unfolding mark_at
  either-Keeps true price p = (refl, refl, refl, refl, refl, refl)
  either-Keeps false price p = (refl, refl, refl, refl, refl, refl)

  mark_position-Keeps : (p : Position) → Keeps p (mark_position now close_of p)
  unfolding mark_position
  mark_position-Keeps p = either-Keeps (is_marked now close_of p) (or_else (close_of p.symbol) _) p

  mark_position-IsTracked : (p : Position) → IsTracked p → IsTracked (mark_position now close_of p)
  unfolding mark_position
  mark_position-IsTracked p h = elim (Bool-cases (is_marked now close_of p)) [
    | inl marked ↦ rw (marked, mark_position) (mark_at-IsTracked (or_else (close_of p.symbol) _) p)
    | inr skipped ↦ rw (skipped, mark_position) h
  ]

  mark_position-IsSound : (p : Position) → IsSound p → IsSound (mark_position now close_of p)
  mark_position-IsSound p h = let k = mark_position-Keeps p in rw (k.3, k.4) h

  mark_position-Agrees :
      (ledger : List PnlEntry) (p : Position)
      → Agrees ledger p
      → Agrees ledger (mark_position now close_of p)
  mark_position-Agrees ledger p h =
      let k = mark_position-Keeps p in k.5 ∙ h ∙ ap (realized_in ledger) (sym k.0)

  mark_position-is_open_for :
      (strategy : Uid) (symbol : Symbol) (p : Position)
      → is_open_for strategy symbol (mark_position now close_of p) ≡ is_open_for strategy symbol p
  mark_position-is_open_for strategy symbol p =
      let k = mark_position-Keeps p in rw (k.1, k.2, k.4) refl

-- A cycle of mark to market keeps the books: where the portfolio is well formed, reconciled with
-- its ledger, and the current price of every position lies between its lowest and its highest one,
-- all of this holds of the positions after the cycle, at whatever prices.
pub run_cycle-IsTracked :
    (now : Time) (close_of : Symbol → Option Decimal) (pf : Portfolio)
    → IsWellFormed pf
    → IsReconciled pf
    → All IsTracked pf.positions
    → let next : Portfolio = record pf { positions = (run_cycle now close_of pf.positions).0 } in
      IsWellFormed next × (IsReconciled next × All IsTracked next.positions)
unfolding run_cycle
run_cycle-IsTracked now close_of pf w r t = (
  record {
    sound =
        All-map IsSound (mark_position now close_of) pf.positions
          (mark_position-IsSound now close_of) w.sound;
    single = λ strategy symbol.
        rw
          (count-map (is_open_for strategy symbol) (mark_position now close_of) pf.positions
            (mark_position-is_open_for now close_of strategy symbol))
          (w.single strategy symbol);
  },
  (
    record {
      unique = λ id.
          rw
            (count-map (has_id id) (mark_position now close_of) pf.positions
              (λ p. ap (λ i. i == id) (mark_position-Keeps now close_of p).0))
            (r.unique id);
      agrees =
          All-map (Agrees pf.ledger) (mark_position now close_of) pf.positions
            (mark_position-Agrees now close_of pf.ledger) r.agrees;
    },
    All-map IsTracked (mark_position now close_of) pf.positions
        (mark_position-IsTracked now close_of) t,
  ),
)

raised-Le :
    (peak equity : Decimal)
    → let next : Decimal = or_else (if is_lt peak equity then some equity else some peak) peak in
      Le peak next × Le equity next
raised-Le peak equity = elim (Bool-cases (is_lt peak equity)) [
  | inl higher ↦ rw higher (is_lt-Le peak equity higher, is_le_refl equity)
  | inr lower ↦ rw lower (is_le_refl peak, le_of_not-lt peak equity lower)
]

-- A stored peak of the equity only rises, and is at least the equity.
update_peak_equity-Le :
    (user : Uid) (pf : Portfolio) (peak : Decimal)
    → let next : Decimal = or_else (update_peak_equity user pf (some peak)) peak in
      Le peak next × Le (add (total_cash user pf.cash) (positions_value user pf.positions)) next
unfolding update_peak_equity
update_peak_equity-Le user pf peak =
    raised-Le peak (add (total_cash user pf.cash) (positions_value user pf.positions))
