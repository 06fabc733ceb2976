-- ===== src/Strategies/SafetyMonitor/Emission.antt =====
-- What a check of safety_monitor.py writes to the table of signals (signals/service.py).
use ratatoskr_v.Base.{
  ◌+◌, ◌-◌, ◌*◌, ◌≡◌, inl, inr, refl, ap, ◌∙◌, Bool, true, false, Option, none, some, List, [], ◌∷◌,
  ◌++◌, ltb, if◌then◌else◌, is_some, select, length, length-append, All, arith, Bool-cases,
  Option-cases,
}
use ratatoskr_v.Domain.{Uid, Time, second, minute, buy, sell, SignalType, Source, m1}
use ratatoskr_v.Portfolio.{is_long, Position}
use ratatoskr_v.Signals.{Config, Owner, Signal, Table}
use ratatoskr_v.Signals.Service.{
  is_duplicate, owner_of, validate_signal, new_signal, insert_signal, insert_fields, Request,
  create_signal,
}
use ratatoskr_v.Strategies.Models.{Strategy, is_orphaned}
use ratatoskr_v.Strategies.Exits.{ExitConfig, ExitReason}
use ratatoskr_v.Strategies.SafetyMonitor.{
  safety_request, Watched, Turn, Check, finish_position, check_position, check_positions,
  check_strategy, check_turns, run_check,
}

abbrev pub IsOwnedBy : List Owner → Strategy → Type 0
IsOwnedBy owners s = is_some (owner_of s.id owners) ≡ true

-- the signal of a safety exit
abbrev pub safety_signal : Config → Uid → Time → Strategy → Position → Signal
safety_signal c id now s p =
    new_signal c id now s.market s.id p.symbol (if is_long p.side then sell else buy)
      SignalType.exit Source.safety m1 now

-- the data of a safety exit is valid
validate-safety :
    (owners : List Owner) (now : Time) (s : Strategy) (p : Position)
    → IsOwnedBy owners s
    → validate_signal owners now (safety_request s p now) ≡ []
unfolding validate_signal safety_request
validate-safety owners now s p h =
    let early : ltb (now + 5 * second) now ≡ false = ground (arith) in
    let late : ltb now (now - 5 * minute) ≡ false = ground (arith) in rw (h, early, late) refl

created :
    (c : Config) (owners : List Owner) (id : Uid) (now : Time) (r : Request) (t : Table)
    → validate_signal owners now r ≡ []
    → create_signal c owners id now r t
      ≡ insert_fields c id now r.market r.strategy_id r.symbol r.side r.signal_type r.source
          r.timeframe r.ts t
unfolding create_signal
created c owners id now r t h = rw (h, create_signal) refl

inserted :
    (c : Config) (id : Uid) (now : Time) (s : Strategy) (p : Position) (t : Table)
    → let r = safety_request s p now in
      (insert_fields c id now r.market r.strategy_id r.symbol r.side r.signal_type r.source
        r.timeframe r.ts t).1
      ≡ t ++ safety_signal c id now s p ∷ []
unfolding safety_request insert_signal is_duplicate
inserted c id now s p t = refl

create_signal-safety :
    (c : Config) (owners : List Owner) (id : Uid) (now : Time) (s : Strategy) (p : Position)
    (t : Table)
    → IsOwnedBy owners s
    → (create_signal c owners id now (safety_request s p now) t).1
      ≡ t ++ safety_signal c id now s p ∷ []
create_signal-safety c owners id now s p t h =
    ap (λ x. x.1)
      (created c owners id now (safety_request s p now) t (validate-safety owners now s p h))
    ∙ inserted c id now s p t

-- as many rows are new as exits are counted
abbrev Balanced : Check → Check → Type 0
Balanced k l = k.exits_triggered + length l.table ≡ l.exits_triggered + length k.table

module _ (c : Config) (owners : List Owner) (now : Time) where
  finish_position-Balanced :
      (s : Strategy) (p : Position) (reason : Option ExitReason) (k : Check)
      → IsOwnedBy owners s
      → Balanced k (finish_position c owners now s p reason k)
  unfolding finish_position
  finish_position-Balanced s p none k h = refl
  finish_position-Balanced s p (some reason) k h =
      let grown =
        ap length (create_signal-safety c owners k.next_id now s p k.table h)
        ∙ length-append k.table (safety_signal c k.next_id now s p ∷ []) in
      omega (arith, grown)

  check_position-Balanced :
      (s : Strategy) (config : ExitConfig) (w : Watched) (k : Check)
      → IsOwnedBy owners s
      → Balanced k (check_position c owners now s config w k)
  unfolding check_position
  check_position-Balanced s config w k h = elim (Option-cases w.price) [
    | inl e ↦ rw (e, Balanced, check_position) refl
    | inr (price, e) ↦
        rw (e, Balanced, check_position) (finish_position-Balanced s w.position _ _ h)
  ]

  check_positions-Balanced :
      (s : Strategy) (config : ExitConfig) (ws : List Watched) (k : Check)
      → IsOwnedBy owners s
      → Balanced k (check_positions c owners now s config ws k)
  check_positions-Balanced s config [] k h = refl
  check_positions-Balanced s config (w ∷ ws) k h =
      let k' = check_position c owners now s config w k in
      omega
        (arith, check_position-Balanced s config w k h, check_positions-Balanced s config ws k' h)

  check_strategy-Balanced :
      (t : Turn) (k : Check)
      → IsOwnedBy owners t.strategy
      → Balanced k (check_strategy c owners now t k)
  unfolding check_strategy
  check_strategy-Balanced t k h = elim (Option-cases t.active_config) [
    | inl e ↦ rw (e, Balanced, check_strategy) refl
    | inr (config, e) ↦
        rw (e, Balanced, check_strategy)
          (check_positions-Balanced t.strategy config t.positions k h)
  ]

  check_turns-Balanced :
      (turns : List Turn) (k : Check)
      → All (λ t. IsOwnedBy owners t.strategy) turns
      → Balanced k (check_turns c owners now turns k)
  check_turns-Balanced [] k h = refl
  check_turns-Balanced (t ∷ ts) k h =
      let k' = check_strategy c owners now t k in
      omega (arith, check_strategy-Balanced t k h.0, check_turns-Balanced ts k' h.1)

All-select :
    {A : Type 0} (P : A → Type 0) (p : A → Bool) (xs : List A) → All P xs → All P (select p xs)
All-select P p [] h = tt
All-select P p (x ∷ xs) h = elim (Bool-cases (p x)) [
  | inl e ↦ rw (e, select) (h.0, All-select P p xs h.1)
  | inr e ↦ rw (e, select) (All-select P p xs h.1)
]

-- Every exit that the safety monitor counts is a signal: where the signal service knows the owner of
-- each strategy, a check makes the table of signals longer by exactly as many rows as it counts
-- exits, so that no safety exit is refused as invalid or dropped as a duplicate.
pub run_check-Balanced :
    (c : Config) (owners : List Owner) (now : Time) (turns : List Turn) (k : Check)
    → All (λ t. IsOwnedBy owners t.strategy) turns
    → let l = run_check c owners now turns k in
      k.exits_triggered + length l.table ≡ l.exits_triggered + length k.table
unfolding run_check
run_check-Balanced c owners now turns k h =
    check_turns-Balanced c owners now (select (λ t. is_orphaned t.strategy.status) turns) k
      (All-select (λ t. IsOwnedBy owners t.strategy) _ turns h)
