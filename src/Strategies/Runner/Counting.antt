-- ===== src/Strategies/Runner/Counting.antt =====
-- The counters of an evaluation (strategies/runner.py) and the table of signals.
use ratatoskr_v.Base.{
  ℕ, ◌+◌, ◌≡◌, ◌⊎◌, inl, inr, refl, ap, Option, none, some, List, [], ◌∷◌, ◌++◌, if◌then◌else◌,
  is_some, length, length-append, arith, Bool-cases, Option-cases,
}
use ratatoskr_v.Domain.{Uid, Symbol, Time, Side, SignalType, Source, Timeframe, Market}
use ratatoskr_v.MarketData.{Bar}
use ratatoskr_v.Portfolio.{Position, get_open}
use ratatoskr_v.Signals.{Config, Owner, Signal, Table}
use ratatoskr_v.Signals.Service.{
  is_duplicate, validate_signal, insert_signal, insert_fields, create_signal, Request,
}
use ratatoskr_v.Strategies.Models.{Strategy}
use ratatoskr_v.Strategies.Exits.{ExitReason}
use ratatoskr_v.Strategies.Runner.{
  Evaluation, SymbolStatus, no_data, no_signal, entry_signal, entry_signal_rejected, position_held,
  exit_signal, exit_signal_rejected, error, after_entry, after_exit, Inputs, RunConfig,
  evaluate_entry, step_entry, finish_exit, step_exit, evaluate_symbol, evaluate_symbols,
}

-- a row more, if there is a signal
abbrev Grown : Table → Option Signal × Table → Type 0
Grown t r = length (r.1) ≡ length t + (if is_some (r.0) then 1 else 0)

module _ (c : Config) (id : Uid) (now : Time) (m : Market) where
  insert_signal-Grown :
      (strategy : Uid) (symbol : Symbol) (side : Side) (kind : SignalType) (source : Source)
      (tf : Timeframe) (ts : Time) (t : Table)
      → Grown t (insert_signal c id now m strategy symbol side kind source tf ts t)
  unfolding insert_signal
  insert_signal-Grown strategy symbol side kind source tf ts t =
      elim (Option-cases (is_duplicate c strategy symbol side kind source tf ts t)) [
        | inl e ↦ rw (e, Grown, insert_signal) (length-append t _)
        | inr (i, e) ↦ rw (e, Grown, insert_signal) (omega arith)
      ]

  insert_fields-Grown :
      (a : Option Uid) (b : Option Symbol) (d : Option Side) (e : Option SignalType)
      (f : Option Source) (g : Option Timeframe) (h : Option Time) (t : Table)
      → Grown t (insert_fields c id now m a b d e f g h t)
  insert_fields-Grown (some a) (some b) (some d) (some e) (some f) (some g) (some h) t =
      insert_signal-Grown a b d e f g h t
  insert_fields-Grown none b d e f g h t = omega arith
  insert_fields-Grown (some a) none d e f g h t = omega arith
  insert_fields-Grown (some a) (some b) none e f g h t = omega arith
  insert_fields-Grown (some a) (some b) (some d) none f g h t = omega arith
  insert_fields-Grown (some a) (some b) (some d) (some e) none g h t = omega arith
  insert_fields-Grown (some a) (some b) (some d) (some e) (some f) none h t = omega arith
  insert_fields-Grown (some a) (some b) (some d) (some e) (some f) (some g) none t = omega arith

List-cases {ℓ} : {A : Type ℓ} (xs : List A) → (xs ≡ []) ⊎ ((x : A) × (ys : List A) × (xs ≡ x ∷ ys))
List-cases [] = inl refl
List-cases (x ∷ xs) = inr (x, xs, refl)

create_signal-Grown :
    (c : Config) (owners : List Owner) (id : Uid) (now : Time) (r : Request) (t : Table)
    → Grown t (create_signal c owners id now r t)
unfolding create_signal
create_signal-Grown c owners id now r t = elim (List-cases (validate_signal owners now r)) [
  | inl e ↦ rw (e, Grown, create_signal) (insert_fields-Grown c id now r.market _ _ _ _ _ _ _ t)
  | inr (x, xs, e) ↦ rw (e, Grown, create_signal) (omega arith)
]

-- What holds between the counters and the table before and after.
abbrev pub Counted : ℕ → Evaluation → Evaluation → Type 0
Counted n e f =
    (length f.table + (e.signals_emitted + e.exits_triggered)
      ≡ length e.table + (f.signals_emitted + f.exits_triggered))
    × (length f.details ≡ length e.details + n)

with_status-length :
    (status : SymbolStatus) (ds : List SymbolStatus) → length (ds ++ status ∷ []) ≡ length ds + 1
with_status-length status ds = length-append ds (status ∷ [])

moved : {t u : Table} (r : Option Signal × Table) → t ≡ u → Grown t r → Grown u r
moved r e h = omega (arith, ap length e, h)

after_entry-Counted :
    (r : Option Signal × Table) (e f : Evaluation)
    → Grown e.table r
    → Counted 0 e f
    → f.table ≡ e.table
    → Counted 1 e (after_entry r f)
unfolding after_entry
after_entry-Counted (none, t) e f h k same = (
  omega (arith, h, k.0, ap length same),
  omega (arith, k.1, with_status-length entry_signal_rejected f.details),
)
after_entry-Counted (some s, t) e f h k same = (
  omega (arith, h, k.0, ap length same),
  omega (arith, k.1, with_status-length entry_signal f.details),
)

after_exit-Counted :
    (r : Option Signal × Table) (e f : Evaluation)
    → Grown e.table r
    → Counted 0 e f
    → f.table ≡ e.table
    → Counted 1 e (after_exit r f)
unfolding after_exit
after_exit-Counted (none, t) e f h k same = (
  omega (arith, h, k.0, ap length same),
  omega (arith, k.1, with_status-length exit_signal_rejected f.details),
)
after_exit-Counted (some s, t) e f h k same = (
  omega (arith, h, k.0, ap length same),
  omega (arith, k.1, with_status-length exit_signal f.details),
)

module _ (i : Inputs) (now : Time) (s : Strategy) (c : RunConfig) where
  step_entry-Counted :
      (symbol : Symbol) (bars : List Bar) (e : Evaluation)
      → Counted 1 e (step_entry i now s c symbol bars e)
  unfolding step_entry
  step_entry-Counted symbol bars e = elim (Bool-cases (evaluate_entry i.values c bars)) [
    | inl h ↦
        rw (h, Counted, step_entry)
          (after_entry-Counted _ e e (create_signal-Grown i.signal_config i.owners _ now _ e.table)
            (refl, omega arith) refl)
    | inr h ↦ rw (h, Counted, step_entry) (refl, with_status-length no_signal e.details)
  ]

  finish_exit-Counted :
      (symbol : Symbol) (p : Position) (reason : Option ExitReason) (e f : Evaluation)
      → Counted 0 e f
      → f.table ≡ e.table
      → Counted 1 e (finish_exit i now s c symbol p reason f)
  unfolding finish_exit
  finish_exit-Counted symbol p none e f k same =
      (k.0, omega (arith, k.1, with_status-length position_held f.details))
  finish_exit-Counted symbol p (some reason) e f k same =
      after_exit-Counted _ e f
        (moved _ same (create_signal-Grown i.signal_config i.owners _ now _ f.table)) k same

  evaluate_symbol-Counted :
      (symbol : Symbol) (e : Evaluation) → Counted 1 e (evaluate_symbol i now s c symbol e)
  unfolding evaluate_symbol step_exit
  evaluate_symbol-Counted symbol e = elim (Option-cases (i.get_bars symbol)) [
    | inl h ↦ rw (h, Counted, evaluate_symbol) (refl, with_status-length error e.details)
    | inr (bs, h) ↦ elim (List-cases bs) [
      | inl none_there ↦
          rw (h, none_there, Counted, evaluate_symbol) (refl, with_status-length no_data e.details)
      | inr (b, bars, there) ↦ elim (Option-cases (get_open s.id symbol i.positions)) [
        | inl free ↦
            rw (h, there, free, Counted, evaluate_symbol) (step_entry-Counted symbol (b ∷ bars) e)
        | inr (p, held) ↦
            rw (h, there, held, Counted, evaluate_symbol)
              (finish_exit-Counted symbol p _ e _ (refl, omega arith) refl)
      ]
    ]
  ]

  -- The counters of an evaluation are right: over any symbols, the table of signals grows by exactly
  -- the signals and exits that are counted, and each symbol gets one status.
  pub evaluate_symbols-Counted :
      (symbols : List Symbol) (e : Evaluation)
      → Counted (length symbols) e (evaluate_symbols i now s c symbols e)
  evaluate_symbols-Counted [] e = (refl, omega arith)
  evaluate_symbols-Counted (x ∷ xs) e =
      let f = evaluate_symbol i now s c x e in
      let one = evaluate_symbol-Counted x e in
      let rest = evaluate_symbols-Counted xs f in
      (omega (arith, one.0, rest.0), omega (arith, one.1, rest.1))
