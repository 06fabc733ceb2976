-- ===== src/Portfolio/FillProcessor/Ledger.antt =====
-- The ledger of realized gains (pnl.py) against the positions that the fill processor writes.
use ratatoskr_v.Base.{
  ◌≤◌, ◌<◌, ◌≡◌, refl, sym, ap, ◌∙◌, Bool, Option, none, some, List, [], ◌∷◌, ◌++◌, ◌==◌,
  if◌then◌else◌, find, count, update_first, arith, Bool-cases, inl, inr, All, All-append,
  count-append, All-update_first, count-update_first, append-nil, subst,
}
use ratatoskr_v.Domain.{Uid}
use ratatoskr_v.Decimal.{Decimal, decimal_zero, add, is_le}
use ratatoskr_v.PaperTrading.{Order, Fill}
use ratatoskr_v.Portfolio.{Position, PnlEntry, Portfolio, is_open_for, get_open}
use ratatoskr_v.Portfolio.FillProcessor.{
  order_qty, determine_scenario, same_direction, process_entry, process_scale_in, process_scale_out,
  process_full_exit, update_unrealized_pnl, record_close, close_entry, apply_scenario, process_fill,
  change_open,
}

-- The net gains that the ledger books for a position, added up in the order of the entries.
abbrev pub realized_from : Uid → Decimal → List PnlEntry → Decimal
realized_from id acc [] = acc
realized_from id acc (e ∷ es) =
    realized_from id (if e.position_id == id then add acc e.net_pnl else acc) es

abbrev pub realized_in : List PnlEntry → Uid → Decimal
realized_in ledger id = realized_from id decimal_zero ledger

-- The realized gain of the position is what the ledger books for it.
abbrev pub Agrees : List PnlEntry → Position → Type 0
Agrees ledger p = p.realized_pnl ≡ realized_in ledger p.id

abbrev pub has_id : Uid → Position → Bool
has_id id p = p.id == id

-- Ids are unique, and every position agrees with the ledger.
pub record IsReconciled (pf : Portfolio) : Type 0 where
  pub unique : (id : Uid) → count (has_id id) pf.positions ≤ 1
  pub agrees : All (Agrees pf.ledger) pf.positions

abbrev pub is_entry_of : Uid → PnlEntry → Bool
is_entry_of id e = e.position_id == id

-- A new id is neither that of a position nor that of a ledger entry.
pub record IsFresh (id : Uid) (pf : Portfolio) : Type 0 where
  pub no_position : count (has_id id) pf.positions ≡ 0
  pub no_entry : count (is_entry_of id) pf.ledger ≡ 0

realized_from-append :
    (id : Uid) (acc : Decimal) (ledger : List PnlEntry) (e : PnlEntry)
    → realized_from id acc (ledger ++ e ∷ []) ≡ (
        if e.position_id == id
        then add (realized_from id acc ledger) e.net_pnl
        else realized_from id acc ledger)
realized_from-append id acc [] e = refl
realized_from-append id acc (x ∷ ledger) e =
    realized_from-append id (if x.position_id == id then add acc x.net_pnl else acc) ledger e

realized_from-fresh :
    (id : Uid) (acc : Decimal) (ledger : List PnlEntry)
    → count (is_entry_of id) ledger ≡ 0
    → realized_from id acc ledger ≡ acc
realized_from-fresh id acc [] h = refl
realized_from-fresh id acc (x ∷ ledger) h = ground (arith, realized_from-fresh id acc ledger)

-- An entry of another position leaves the agreement.
others-Agree :
    (ledger : List PnlEntry) (e : PnlEntry) (ps : List Position)
    → count (has_id e.position_id) ps ≡ 0
    → All (Agrees ledger) ps
    → All (Agrees (ledger ++ e ∷ [])) ps
others-Agree ledger e [] h a = tt
others-Agree ledger e (x ∷ ps) h a = (
  ground (arith, realized_from-append x.id decimal_zero ledger e, a.0),
  others-Agree ledger e ps (ground arith) a.1,
)

-- The query for the open position is by its key.
find-has_id :
    (p : Position → Bool) (ps : List Position) (x : Position)
    → find p ps ≡ some x
    → 0 < count (has_id x.id) ps
find-has_id p [] x h = cc
find-has_id p (y ∷ ps) x h = ground (arith, find-has_id p ps x)

-- The change books the gain of the entry on the position of the entry.
abbrev pub Books : PnlEntry → (Position → Position) → Position → Type 0
Books e change x =
    (e.position_id ≡ x.id)
    × ((change x).id ≡ x.id)
    × ((change x).realized_pnl ≡ add x.realized_pnl e.net_pnl)

booked-Agrees :
    (change : Position → Position) (ledger : List PnlEntry) (e : PnlEntry) (x : Position)
    → Books e change x
    → Agrees ledger x
    → Agrees (ledger ++ e ∷ []) (change x)
booked-Agrees change ledger e x b a =
    b.2 ∙ ground (arith, realized_from-append (change x).id decimal_zero ledger e, b.0, b.1, a)

-- The change of the open position and the entry of its gain keep the agreement.
pub change-Agrees :
    (p : Position → Bool) (change : Position → Position) (ledger : List PnlEntry) (e : PnlEntry)
    (x : Position) (ps : List Position)
    → find p ps ≡ some x
    → ((y : Position) → find p ps ≡ some y → Books e change y)
    → ((id : Uid) → count (has_id id) ps ≤ 1)
    → All (Agrees ledger) ps
    → All (Agrees (ledger ++ e ∷ [])) (update_first p change ps)
change-Agrees p change ledger e x [] found b single a = cc
change-Agrees p change ledger e x (y ∷ ps) found b single a = elim (Bool-cases (p y)) [
  | inl hit ↦
      let now : Books e change y = b y (rw hit refl) in
      rw hit (
        booked-Agrees change ledger e y now a.0,
        others-Agree ledger e ps (ground (arith, single y.id, now.0)) a.1,
      )
  | inr miss ↦
      let there : find p ps ≡ some x = ground arith in
      let now : Books e change x = b x found in
      rw miss (
        ground (
          arith,
          realized_from-append y.id decimal_zero ledger e,
          find-has_id p ps x there,
          single x.id,
          now.0,
          a.0,
        ),
        change-Agrees p change ledger e x ps there (λ z h. b z (rw miss h))
            (λ id. omega (arith, single id)) a.1,
      )
]

pub some-injective : {p q : Position} → some p ≡ some q → p ≡ q
some-injective {p} {q} h = ground arith

scale_out-Books : (f : Fill) (p : Position) → Books (close_entry f p f.qty) (process_scale_out f) p
unfolding process_scale_out record_close update_unrealized_pnl
scale_out-Books f p = (refl, refl, refl)

full_exit-Books :
    (exit_reason : Option Uid) (f : Fill) (p : Position)
    → Books (close_entry f p p.qty) (process_full_exit exit_reason f) p
unfolding process_full_exit record_close
full_exit-Books exit_reason f p = (refl, refl, refl)

module _ (o : Order) (pf : Portfolio) (r : IsReconciled pf) where
  -- A change with an entry of the ledger, of the open position that it was made for.
  booking-IsReconciled :
      (change : Position → Position) (e : PnlEntry) (p : Position)
      → get_open o.strategy_id o.symbol pf.positions ≡ some p
      → Books e change p
      → ((x : Position) → (change x).id ≡ x.id)
      → IsReconciled (change_open o change (e ∷ []) pf)
  unfolding get_open
  booking-IsReconciled change e p found b keeps = record {
    unique = λ id.
        rw
          (count-update_first (has_id id) (is_open_for o.strategy_id o.symbol) change pf.positions
            (λ x. ap (λ i. i == id) (keeps x)))
          (r.unique id);
    agrees =
        change-Agrees (is_open_for o.strategy_id o.symbol) change pf.ledger e p pf.positions found
          (λ y h. subst (Books e change) (some-injective {p = p} {q = y} (sym found ∙ h)) b)
          r.unique r.agrees;
  }

  -- A change that realizes nothing.
  quiet-IsReconciled :
      (change : Position → Position)
      → ((x : Position) → (change x).id ≡ x.id)
      → ((x : Position) → (change x).realized_pnl ≡ x.realized_pnl)
      → IsReconciled (change_open o change [] pf)
  quiet-IsReconciled change keeps same = record {
    unique = λ id.
        rw
          (count-update_first (has_id id) (is_open_for o.strategy_id o.symbol) change pf.positions
            (λ x. ap (λ i. i == id) (keeps x)))
          (r.unique id);
    agrees = rw (append-nil pf.ledger) (
        All-update_first (Agrees pf.ledger) (is_open_for o.strategy_id o.symbol) change pf.positions
          (λ x _ a. same x ∙ a ∙ ap (realized_in pf.ledger) (sym (keeps x))) r.agrees);
  }

  new-IsReconciled :
      (new_id user : Uid) (f : Fill)
      → IsFresh new_id pf
      → IsReconciled (record pf { positions = pf.positions ++ process_entry new_id user f o ∷ [] })
  unfolding process_entry
  new-IsReconciled new_id user f fresh = record {
    unique = λ id.
        rw (count-append (has_id id) pf.positions _)
          (ground (arith, r.unique id, fresh.no_position));
    agrees =
        All-append (Agrees pf.ledger) pf.positions _ r.agrees
          (sym (realized_from-fresh new_id decimal_zero pf.ledger fresh.no_entry), tt);
  }

scale_in-keeps :
    (f : Fill) (x : Position)
    → ((process_scale_in f x).id ≡ x.id) × ((process_scale_in f x).realized_pnl ≡ x.realized_pnl)
unfolding process_scale_in update_unrealized_pnl
scale_in-keeps f x = (refl, refl)

apply-IsReconciled :
    (new_id user : Uid) (exit_reason : Option Uid) (f : Fill) (o : Order) (pf : Portfolio)
    {existing : Option Position}
    → get_open o.strategy_id o.symbol pf.positions ≡ existing
    → IsFresh new_id pf
    → IsReconciled pf
    → IsReconciled
        (apply_scenario new_id user exit_reason f o (determine_scenario existing o) existing pf)
unfolding apply_scenario determine_scenario
apply-IsReconciled new_id user exit_reason f o pf {existing = none} e h r =
    new-IsReconciled o pf r new_id user f h
apply-IsReconciled new_id user exit_reason f o pf {existing = some p} e h r =
    elim (Bool-cases (same_direction p o)) [
      | inl same ↦
          rw (same, apply_scenario)
            (quiet-IsReconciled o pf r (process_scale_in f) (λ x. (scale_in-keeps f x).0)
              (λ x. (scale_in-keeps f x).1))
      | inr opposite ↦ elim (Bool-cases (is_le p.qty (order_qty o))) [
        | inl whole ↦
            rw (opposite, whole, apply_scenario)
              (booking-IsReconciled o pf r (process_full_exit exit_reason f) (close_entry f p p.qty)
                p e (full_exit-Books exit_reason f p) (λ x. (full_exit-Books exit_reason f x).1))
        | inr part ↦
            rw (opposite, part, apply_scenario)
              (booking-IsReconciled o pf r (process_scale_out f) (close_entry f p f.qty) p e
                (scale_out-Books f p) (λ x. (scale_out-Books f x).1))
      ]
    ]

-- A fill keeps the ledger and the positions reconciled: the ids of the positions are unique, and
-- the realized gain of each position, open or closed, is the sum of the net gains that the ledger
-- books for it, added up in the order of the entries. The id of a new position is fresh.
pub process_fill-IsReconciled :
    (new_id user : Uid) (exit_reason : Option Uid) (f : Fill) (o : Order) (pf : Portfolio)
    → IsFresh new_id pf
    → IsReconciled pf
    → IsReconciled (process_fill new_id user exit_reason f o pf)
unfolding process_fill
process_fill-IsReconciled new_id user exit_reason f o pf h r =
    let done = apply-IsReconciled new_id user exit_reason f o pf refl h r in
    record { unique = done.unique; agrees = done.agrees }
