-- ===== src/Portfolio/FillProcessor/Invariant.antt =====
-- The positions that `process_fill` (portfolio/fill_processor.py) leaves behind.
use ratatoskr_v.Base.{
  ◌≤◌, ◌≡◌, refl, Bool, true, false, Option, none, some, List, [], ◌∷◌, ◌++◌, if◌then◌else◌, count,
  update_first, arith, Bool-cases, inl, inr, count-append, All, All-append, find-passes,
  count-of_find-none, All-update_first,
}
use ratatoskr_v.Domain.{Uid, Symbol}
use ratatoskr_v.Decimal.{is_le, is_eq}
use ratatoskr_v.Decimal.Order.{is_lt-not-is_le}
use ratatoskr_v.Decimal.Sign.{IsPositive, IsZero, add-IsPositive, sub-IsPositive}
use ratatoskr_v.PaperTrading.{Order, Fill}
use ratatoskr_v.Portfolio.{Position, PnlEntry, Portfolio, is_open_for, get_open}
use ratatoskr_v.Portfolio.FillProcessor.{
  order_qty, determine_scenario, same_direction, process_entry, process_scale_in, process_scale_out,
  process_full_exit, update_unrealized_pnl, apply_scenario, process_fill, change_open, close_entry,
}

-- An open position has a quantity above zero, a closed one has none.
abbrev pub IsSound : Position → Type 0
IsSound p = if p.is_open then IsPositive p.qty else IsZero p.qty

-- A strategy has at most one open position in a symbol.
abbrev pub IsSingle : List Position → Type 0
IsSingle ps = (strategy : Uid) (symbol : Symbol) → count (is_open_for strategy symbol) ps ≤ 1

pub record IsWellFormed (pf : Portfolio) : Type 0 where
  pub sound : All IsSound pf.positions
  pub single : IsSingle pf.positions

-- What the paper trading service hands over: the order is filled with the quantity of the fill.
pub record IsFilledBy (f : Fill) (o : Order) : Type 0 where
  pub positive : IsPositive f.qty
  pub whole : o.filled_qty ≡ f.qty

-- Changes of a position that keep its key and leave it open at most where it was.
abbrev pub KeepsKey : (Position → Position) → Type 0
KeepsKey change =
    (p : Position) (strategy : Uid) (symbol : Symbol)
    → is_open_for strategy symbol p ≡ false
    → is_open_for strategy symbol (change p) ≡ false

pub count-KeepsKey :
    (p : Position → Bool) (change : Position → Position) (strategy : Uid) (symbol : Symbol)
    (ps : List Position)
    → KeepsKey change
    → count (is_open_for strategy symbol) (update_first p change ps)
      ≤ count (is_open_for strategy symbol) ps
count-KeepsKey p change strategy symbol [] k = omega arith
count-KeepsKey p change strategy symbol (x ∷ ps) k =
    ground (arith, k x strategy symbol, count-KeepsKey p change strategy symbol ps k)

scale_in-KeepsKey : (f : Fill) → KeepsKey (process_scale_in f)
unfolding process_scale_in update_unrealized_pnl
scale_in-KeepsKey f p strategy symbol h = h

scale_out-KeepsKey : (f : Fill) → KeepsKey (process_scale_out f)
unfolding process_scale_out update_unrealized_pnl
scale_out-KeepsKey f p strategy symbol h = h

full_exit-KeepsKey :
    (exit_reason : Option Uid) (f : Fill) → KeepsKey (process_full_exit exit_reason f)
unfolding process_full_exit
full_exit-KeepsKey exit_reason f p strategy symbol h = ground arith

order_qty_lem : (f : Fill) (o : Order) → IsFilledBy f o → order_qty o ≡ f.qty
unfolding order_qty is_eq
order_qty_lem f o h = rw h.whole (ground (arith, h.positive))

is_open_for-is_open :
    (strategy : Uid) (symbol : Symbol) (p : Position)
    → is_open_for strategy symbol p ≡ true
    → p.is_open ≡ true
is_open_for-is_open strategy symbol p h = ground arith

module _ (o : Order) (pf : Portfolio) (w : IsWellFormed pf) where
  -- A change of the open position keeps the portfolio well formed.
  change_open-IsWellFormed :
      (change : Position → Position) (entries : List PnlEntry)
      → KeepsKey change
      → ((p : Position)
          → get_open o.strategy_id o.symbol pf.positions ≡ some p
          → p.is_open ≡ true
          → IsSound p
          → IsSound (change p))
      → IsWellFormed (change_open o change entries pf)
  unfolding get_open
  change_open-IsWellFormed change entries k h = record {
    sound =
        All-update_first IsSound (is_open_for o.strategy_id o.symbol) change pf.positions
          (λ p e. h p e (
            is_open_for-is_open o.strategy_id o.symbol p
              (find-passes (is_open_for o.strategy_id o.symbol) pf.positions {a = p} e)))
          w.sound;
    single = λ strategy symbol. omega (
      arith,
      count-KeepsKey (is_open_for o.strategy_id o.symbol) change strategy symbol pf.positions k,
      w.single strategy symbol,
    );
  }

  entry-IsWellFormed :
      (new_id user : Uid) (f : Fill)
      → get_open o.strategy_id o.symbol pf.positions ≡ none
      → IsFilledBy f o
      → IsWellFormed (record pf { positions = pf.positions ++ process_entry new_id user f o ∷ [] })
  unfolding get_open process_entry
  entry-IsWellFormed new_id user f e h = record {
    sound = All-append IsSound pf.positions _ w.sound (h.positive, tt);
    single = λ strategy symbol. rw (count-append (is_open_for strategy symbol) pf.positions _) (
        ground (
          arith,
          w.single strategy symbol,
          count-of_find-none (is_open_for o.strategy_id o.symbol) pf.positions,
        ));
  }

scale_in-IsSound :
    (f : Fill) (p : Position)
    → IsPositive f.qty
    → p.is_open ≡ true
    → IsSound p
    → IsSound (process_scale_in f p)
unfolding process_scale_in update_unrealized_pnl
scale_in-IsSound f p h e s = ground (arith, add-IsPositive p.qty f.qty)

scale_out-IsSound :
    (f : Fill) (p : Position)
    → is_le p.qty f.qty ≡ false
    → p.is_open ≡ true
    → IsSound (process_scale_out f p)
unfolding process_scale_out update_unrealized_pnl
scale_out-IsSound f p h e = ground (arith, sub-IsPositive p.qty f.qty, is_lt-not-is_le f.qty p.qty)

full_exit-IsSound :
    (exit_reason : Option Uid) (f : Fill) (p : Position)
    → IsSound (process_full_exit exit_reason f p)
unfolding process_full_exit
full_exit-IsSound exit_reason f p = refl

-- The scenario of a fill that meets an open position.
apply-IsWellFormed :
    (new_id user : Uid) (exit_reason : Option Uid) (f : Fill) (o : Order) (pf : Portfolio)
    {existing : Option Position}
    → get_open o.strategy_id o.symbol pf.positions ≡ existing
    → IsFilledBy f o
    → IsWellFormed pf
    → IsWellFormed
        (apply_scenario new_id user exit_reason f o (determine_scenario existing o) existing pf)
unfolding apply_scenario determine_scenario
apply-IsWellFormed new_id user exit_reason f o pf {existing = none} e h w =
    entry-IsWellFormed o pf w new_id user f e h
apply-IsWellFormed new_id user exit_reason f o pf {existing = some p} e h w =
    elim (Bool-cases (same_direction p o)) [
      | inl same ↦
          rw (same, apply_scenario)
            (change_open-IsWellFormed o pf w (process_scale_in f) [] (scale_in-KeepsKey f)
              (λ q _ now_open s. scale_in-IsSound f q h.positive now_open s))
      | inr opposite ↦ elim (Bool-cases (is_le p.qty (order_qty o))) [
        | inl whole ↦
            rw (opposite, whole, apply_scenario)
              (change_open-IsWellFormed o pf w (process_full_exit exit_reason f)
                (close_entry f p p.qty ∷ []) (full_exit-KeepsKey exit_reason f)
                (λ q _ _ _. full_exit-IsSound exit_reason f q))
        | inr part ↦
            rw (opposite, part, apply_scenario)
              (change_open-IsWellFormed o pf w (process_scale_out f) (close_entry f p f.qty ∷ [])
                (scale_out-KeepsKey f)
                (λ q found now_open _. scale_out-IsSound f q (found_part q found part) now_open))
      ]
    ]
  where
    found_part :
        (q : Position)
        → get_open o.strategy_id o.symbol pf.positions ≡ some q
        → is_le p.qty (order_qty o) ≡ false
        → is_le q.qty f.qty ≡ false
    found_part q found part = ground (arith, order_qty_lem f o h)

-- A fill keeps the portfolio well formed: a strategy has at most one open position in a symbol,
-- an open position has a quantity above zero, and a closed one has the quantity zero. The
-- quantity of the fill is above zero and is the filled quantity of the order.
pub process_fill-IsWellFormed :
    (new_id user : Uid) (exit_reason : Option Uid) (f : Fill) (o : Order) (pf : Portfolio)
    → IsFilledBy f o
    → IsWellFormed pf
    → IsWellFormed (process_fill new_id user exit_reason f o pf)
unfolding process_fill
process_fill-IsWellFormed new_id user exit_reason f o pf h w =
    let done = apply-IsWellFormed new_id user exit_reason f o pf refl h w in
    record { sound = done.sound; single = done.single }
