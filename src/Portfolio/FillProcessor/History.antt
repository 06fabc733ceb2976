-- ===== src/Portfolio/FillProcessor/History.antt =====
-- Sequences of fills: what is once closed or booked stays as it is.
use ratatoskr_v.Base.{
  ◌≡◌, refl, sym, ap, ◌∙◌, true, false, Option, none, some, List, [], ◌∷◌, ◌++◌, update_first,
  arith, Bool-cases, inl, inr, append-nil,
}
use ratatoskr_v.Domain.{Uid, Symbol}
use ratatoskr_v.PaperTrading.{Order, Fill}
use ratatoskr_v.Portfolio.{Position, PnlEntry, Portfolio, is_open_for, get_open}
use ratatoskr_v.Portfolio.FillProcessor.{
  Scenario, scale_in, scale_out, full_exit, determine_scenario, process_entry, process_scale_in,
  process_scale_out, process_full_exit, update_unrealized_pnl, close_entry, apply_scenario,
  process_fill, change_open,
}
use ratatoskr_v.Portfolio.FillProcessor.Invariant.{
  IsWellFormed, IsFilledBy, process_fill-IsWellFormed,
}
use ratatoskr_v.Portfolio.FillProcessor.Ledger.{IsReconciled, IsFresh, process_fill-IsReconciled}

-- A call of `process_fill`.
pub record Event : Type 0 where
  pub new_id : Uid
  pub user : Uid
  pub exit_reason : Option Uid
  pub fill : Fill
  pub order : Order

abbrev pub process : Event → Portfolio → Portfolio
process e = process_fill e.new_id e.user e.exit_reason e.fill e.order

abbrev pub process_all : List Event → Portfolio → Portfolio
process_all [] pf = pf
process_all (e ∷ es) pf = process_all es (process e pf)

-- Every event is a whole fill with a fresh id when its turn comes.
abbrev pub AreValid : List Event → Portfolio → Type 0
AreValid [] pf = Unit
AreValid (e ∷ es) pf = IsFilledBy e.fill e.order × IsFresh e.new_id pf × AreValid es (process e pf)

-- The rows are still there, under their ids, and those of closed positions are the same.
abbrev pub Keeps : List Position → List Position → Type 0
Keeps [] qs = Unit
Keeps (p ∷ ps) [] = ⊥
Keeps (p ∷ ps) (q ∷ qs) = (q.id ≡ p.id) × (p.is_open ≡ false → q ≡ p) × Keeps ps qs

-- The entries are still there, in their places.
abbrev pub IsPrefix : List PnlEntry → List PnlEntry → Type 0
IsPrefix xs ys = (rest : List PnlEntry) × (ys ≡ xs ++ rest)

pub record IsKept (before after : Portfolio) : Type 0 where
  pub positions_kept : Keeps before.positions after.positions
  pub ledger_kept : IsPrefix before.ledger after.ledger

Keeps-append : (ps new : List Position) → Keeps ps (ps ++ new)
Keeps-append [] new = tt
Keeps-append (p ∷ ps) new = (refl, λ _. refl, Keeps-append ps new)

Keeps-refl : (ps : List Position) → Keeps ps ps
Keeps-refl [] = tt
Keeps-refl (p ∷ ps) = (refl, λ _. refl, Keeps-refl ps)

Keeps-trans : (ps qs rs : List Position) → Keeps ps qs → Keeps qs rs → Keeps ps rs
Keeps-trans [] qs rs h k = tt
Keeps-trans (p ∷ ps) [] rs h k = absurd h
Keeps-trans (p ∷ ps) (q ∷ qs) [] h k = absurd k
Keeps-trans (p ∷ ps) (q ∷ qs) (r ∷ rs) h k = (
  k.0 ∙ h.0,
  λ closed. k.1 (ap (λ x. x.is_open) (h.1 closed) ∙ closed) ∙ h.1 closed,
  Keeps-trans ps qs rs h.2 k.2,
)

IsPrefix-append : (xs ys : List PnlEntry) → IsPrefix xs (xs ++ ys)
IsPrefix-append xs ys = (ys, refl)

append_assoc : (xs ys zs : List PnlEntry) → (xs ++ ys) ++ zs ≡ xs ++ (ys ++ zs)
append_assoc [] ys zs = refl
append_assoc (x ∷ xs) ys zs = ap (λ l. x ∷ l) (append_assoc xs ys zs)

IsPrefix-trans : (xs ys zs : List PnlEntry) → IsPrefix xs ys → IsPrefix ys zs → IsPrefix xs zs
IsPrefix-trans xs ys zs h k = (h.0 ++ k.0, k.1 ∙ ap (λ l. l ++ k.0) h.1 ∙ append_assoc xs h.0 k.0)

IsKept-trans : (a b c : Portfolio) → IsKept a b → IsKept b c → IsKept a c
IsKept-trans a b c h k = record {
  positions_kept =
      Keeps-trans a.positions b.positions c.positions h.positions_kept k.positions_kept;
  ledger_kept = IsPrefix-trans a.ledger b.ledger c.ledger h.ledger_kept k.ledger_kept;
}

-- A change of an open row keeps all the others.
Keeps-update_first :
    (strategy : Uid) (symbol : Symbol) (change : Position → Position) (ps : List Position)
    → ((x : Position) → (change x).id ≡ x.id)
    → Keeps ps (update_first (is_open_for strategy symbol) change ps)
Keeps-update_first strategy symbol change [] h = tt
Keeps-update_first strategy symbol change (x ∷ ps) h =
    elim (Bool-cases (is_open_for strategy symbol x)) [
      | inl hit ↦ rw hit (h x, λ closed. absurd (open-not_closed hit closed), Keeps-refl ps)
      | inr miss ↦ rw miss (refl, λ _. refl, Keeps-update_first strategy symbol change ps h)
    ]
  where
    open-not_closed : is_open_for strategy symbol x ≡ true → x.is_open ≡ false → ⊥
    open-not_closed hit closed = ground arith

change_open-IsKept :
    (o : Order) (change : Position → Position) (entries : List PnlEntry) (pf : Portfolio)
    → ((x : Position) → (change x).id ≡ x.id)
    → IsKept pf (change_open o change entries pf)
change_open-IsKept o change entries pf h = record {
  positions_kept = Keeps-update_first o.strategy_id o.symbol change pf.positions h;
  ledger_kept = IsPrefix-append pf.ledger entries;
}

scale_in-id : (f : Fill) (x : Position) → (process_scale_in f x).id ≡ x.id
unfolding process_scale_in update_unrealized_pnl
scale_in-id f x = refl

scale_out-id : (f : Fill) (x : Position) → (process_scale_out f x).id ≡ x.id
unfolding process_scale_out update_unrealized_pnl
scale_out-id f x = refl

full_exit-id :
    (exit_reason : Option Uid) (f : Fill) (x : Position)
    → (process_full_exit exit_reason f x).id ≡ x.id
unfolding process_full_exit
full_exit-id exit_reason f x = refl

new-IsKept :
    (p : Position) (pf : Portfolio) → IsKept pf (record pf { positions = pf.positions ++ p ∷ [] })
new-IsKept p pf = record {
  positions_kept = Keeps-append pf.positions (p ∷ []);
  ledger_kept = ([], sym (append-nil pf.ledger));
}

apply-IsKept :
    (new_id user : Uid) (exit_reason : Option Uid) (f : Fill) (o : Order) (case : Scenario)
    (existing : Option Position) (pf : Portfolio)
    → IsKept pf (apply_scenario new_id user exit_reason f o case existing pf)
unfolding apply_scenario
apply-IsKept new_id user exit_reason f o scale_in (some p) pf =
    change_open-IsKept o (process_scale_in f) [] pf (scale_in-id f)
apply-IsKept new_id user exit_reason f o scale_out (some p) pf =
    change_open-IsKept o (process_scale_out f) (close_entry f p f.qty ∷ []) pf (scale_out-id f)
apply-IsKept new_id user exit_reason f o full_exit (some p) pf =
    change_open-IsKept o (process_full_exit exit_reason f) (close_entry f p p.qty ∷ []) pf
      (full_exit-id exit_reason f)
apply-IsKept new_id user exit_reason f o Scenario.entry (some p) pf =
    new-IsKept (process_entry new_id user f o) pf
apply-IsKept new_id user exit_reason f o Scenario.entry none pf =
    new-IsKept (process_entry new_id user f o) pf
apply-IsKept new_id user exit_reason f o scale_in none pf =
    new-IsKept (process_entry new_id user f o) pf
apply-IsKept new_id user exit_reason f o scale_out none pf =
    new-IsKept (process_entry new_id user f o) pf
apply-IsKept new_id user exit_reason f o full_exit none pf =
    new-IsKept (process_entry new_id user f o) pf

process-IsKept : (e : Event) (pf : Portfolio) → IsKept pf (process e pf)
unfolding process_fill
process-IsKept e pf =
    let existing = get_open e.order.strategy_id e.order.symbol pf.positions in
    let kept =
      apply-IsKept e.new_id e.user e.exit_reason e.fill e.order
        (determine_scenario existing e.order) existing pf in
    record { positions_kept = kept.positions_kept; ledger_kept = kept.ledger_kept }

-- Whatever fills are processed in whatever order, every position keeps its row and its id, a
-- position that is closed is never written again, and the entries of the ledger stay in place:
-- the ledger only grows at its end.
process_all-IsKept : (es : List Event) (pf : Portfolio) → IsKept pf (process_all es pf)
process_all-IsKept [] pf = record {
  positions_kept = Keeps-refl pf.positions;
  ledger_kept = ([], sym (append-nil pf.ledger));
}
process_all-IsKept (e ∷ es) pf =
    IsKept-trans pf (process e pf) (process_all es (process e pf)) (process-IsKept e pf)
      (process_all-IsKept es (process e pf))

-- A sequence of valid fills keeps the portfolio well formed and reconciled with its ledger.
process_all-IsSound :
    (es : List Event) (pf : Portfolio)
    → AreValid es pf
    → IsWellFormed pf
    → IsReconciled pf
    → IsWellFormed (process_all es pf) × IsReconciled (process_all es pf)
process_all-IsSound [] pf h w r = (w, r)
process_all-IsSound (e ∷ es) pf h w r =
    process_all-IsSound es (process e pf) h.2
      (process_fill-IsWellFormed e.new_id e.user e.exit_reason e.fill e.order pf h.0 w)
      (process_fill-IsReconciled e.new_id e.user e.exit_reason e.fill e.order pf h.1 r)
