-- ===== src/Signals/Lifecycle.antt =====
-- The lifecycle of a signal (service.py, `_VALID_TRANSITIONS`) under every call.
use ratatoskr_v.Base.{
  ◌≡◌, refl, ◌⊎◌, inl, inr, Bool, true, false, none, some, List, [], ◌∷◌, ◌++◌, arith, Bool-cases,
  Option-cases, find, update_where, update_first, subst, sym, ap, ◌∙◌,
}
use ratatoskr_v.Domain.{Uid, Time}
use ratatoskr_v.Signals.{
  Status, risk_approved, risk_modified, risk_rejected, order_filled, order_rejected, Signal, Table,
  Owner, Config, pending, canceled, expired, allowed, is_pending, is_stale, is_pending_of, has_id,
  with_status, get_by_id, update_status, expire_stale, cancel_by_strategy,
}
use ratatoskr_v.Signals.Service.{
  is_owned, insert_signal, new_signal, create_signal, update_signal_status, cancel_signal, Call,
  create, update, cancel, cancel_strategy, expire, call, calls, Request, kept,
}

-- A row after a call: unchanged, or moved along the table of transitions and otherwise unchanged.
abbrev pub Advances : Signal → Signal → Type 0
Advances s t = (t ≡ s) ⊎ ((allowed s.status t.status ≡ true) × (t ≡ with_status t.status s))

-- A table after a call: the old rows have advanced, and the new ones are pending.
abbrev pub Evolves : Table → Table → Type 0
Evolves [] [] = Unit
Evolves [] (y ∷ ys) = (y.status ≡ pending) × Evolves [] ys
Evolves (x ∷ xs) [] = ⊥
Evolves (x ∷ xs) (y ∷ ys) = Advances x y × Evolves xs ys

Evolves-refl : (t : Table) → Evolves t t
Evolves-refl [] = tt
Evolves-refl (x ∷ xs) = (inl refl, Evolves-refl xs)

Evolves-snoc : (t : Table) (s : Signal) → s.status ≡ pending → Evolves t (t ++ s ∷ [])
Evolves-snoc [] s h = (h, tt)
Evolves-snoc (x ∷ xs) s h = (inl refl, Evolves-snoc xs s h)

-- An update of rows whose status may move to `st`.
update_where-Evolves :
    (p : Signal → Bool) (st : Status) (t : Table)
    → ((s : Signal) → p s ≡ true → allowed s.status st ≡ true)
    → Evolves t (update_where p (with_status st) t)
update_where-Evolves p st [] h = tt
update_where-Evolves p st (x ∷ xs) h = elim (Bool-cases (p x)) [
  | inl hit ↦ rw hit (inr (h x hit, refl), update_where-Evolves p st xs h)
  | inr miss ↦ rw miss (inl refl, update_where-Evolves p st xs h)
]

-- The same for the row that a lookup found.
update_first-Evolves :
    (p : Signal → Bool) (st : Status) (t : Table) {s : Signal}
    → find p t ≡ some s
    → allowed s.status st ≡ true
    → Evolves t (update_first p (with_status st) t)
update_first-Evolves p st [] e h = tt
update_first-Evolves p st (x ∷ xs) {s} e h = elim (Bool-cases (p x)) [
  | inl hit ↦
      rw hit (inr (subst (λ y. allowed y.status st ≡ true) (first hit e) h, refl), Evolves-refl xs)
  | inr miss ↦ rw miss (inl refl, update_first-Evolves p st xs {s = s} (rest miss e) h)
]
  where
    first : p x ≡ true → find p (x ∷ xs) ≡ some s → s ≡ x
    first a b = ground arith

    rest : p x ≡ false → find p (x ∷ xs) ≡ some s → find p xs ≡ some s
    rest a b = ground arith

create_signal-Evolves :
    (c : Config) (owners : List Owner) (i : Uid) (now : Time) (r : Request) (t : Table)
    → Evolves t (create_signal c owners i now r t).1
unfolding create_signal insert_signal new_signal
create_signal-Evolves c owners i now r t =
    elim (Option-cases (create_signal c owners i now r t).0) [
      | inl none_made ↦ subst (Evolves t) (sym (unchanged none_made)) (Evolves-refl t)
      | inr (s, made) ↦ subst (Evolves t) (sym (added s made).0) (Evolves-snoc t s (added s made).1)
    ]
  where
    unchanged :
        (create_signal c owners i now r t).0 ≡ none → (create_signal c owners i now r t).1 ≡ t
    unchanged h = ground arith

    added :
        (s : Signal)
        → (create_signal c owners i now r t).0 ≡ some s
        → ((create_signal c owners i now r t).1 ≡ t ++ s ∷ []) × (s.status ≡ pending)
    added s h = ground arith

update_signal_status-Evolves :
    (i : Uid) (st : Status) (t : Table) → Evolves t (kept t (update_signal_status i st t))
unfolding update_signal_status get_by_id update_status
update_signal_status-Evolves i st t = elim (Option-cases (find (has_id i) t)) [
  | inl absent ↦ rw (absent, update_signal_status, kept) (Evolves-refl t)
  | inr (s, e) ↦ elim (Bool-cases (allowed s.status st)) [
    | inl may ↦
        rw (e, update_signal_status)
          (rw (may, kept) (update_first-Evolves (has_id i) st t {s = s} e may))
    | inr never ↦ rw (e, update_signal_status) (rw (never, kept) (Evolves-refl t))
  ]
]

cancel_signal-Evolves :
    (owners : List Owner) (i user : Uid) (t : Table)
    → Evolves t (kept t (cancel_signal owners i user t))
unfolding cancel_signal get_by_id update_status allowed
cancel_signal-Evolves owners i user t = elim (Option-cases (find (has_id i) t)) [
  | inl absent ↦ rw (absent, cancel_signal, kept) (Evolves-refl t)
  | inr (s, e) ↦ elim (Bool-cases (is_owned owners s.strategy_id user)) [
    | inl own ↦ elim (Bool-cases (is_pending s.status)) [
      | inl waits ↦
          rw (e, cancel_signal)
            (rw (own, waits, kept)
              (update_first-Evolves (has_id i) canceled t {s = s} e (cancelable s waits)))
      | inr gone ↦ rw (e, cancel_signal) (rw (own, gone, kept) (Evolves-refl t))
    ]
    | inr foreign ↦ rw (e, cancel_signal) (rw (foreign, kept) (Evolves-refl t))
  ]
]
  where
    cancelable : (s : Signal) → is_pending s.status ≡ true → allowed s.status canceled ≡ true
    cancelable s h = ground arith

-- Every call lets the signals advance along the table of transitions, and adds pending ones only.
pub call-Evolves :
    (c : Config) (owners : List Owner) (k : Call) (t : Table) → Evolves t (call c owners k t)
unfolding call cancel_by_strategy expire_stale allowed
call-Evolves c owners (create i now r) t = create_signal-Evolves c owners i now r t
call-Evolves c owners (update i st) t = update_signal_status-Evolves i st t
call-Evolves c owners (cancel i user) t = cancel_signal-Evolves owners i user t
call-Evolves c owners (cancel_strategy strategy) t =
    update_where-Evolves (is_pending_of strategy) canceled t (λ s h. ground arith)
call-Evolves c owners (expire now) t =
    update_where-Evolves (is_stale now) expired t (λ s h. ground arith)

-- A status that no transition leaves.
abbrev pub IsTerminal : Status → Type 0
IsTerminal st = (next : Status) → allowed st next ≡ false

-- The signal stands in the table, as it is.
abbrev pub Has : Signal → Table → Type 0
Has s [] = ⊥
Has s (x ∷ xs) = (x ≡ s) ⊎ Has s xs

Evolves-Has : (s : Signal) (t u : Table) → IsTerminal s.status → Evolves t u → Has s t → Has s u
Evolves-Has s [] u final e h = absurd h
Evolves-Has s (x ∷ xs) [] final e h = absurd e
Evolves-Has s (x ∷ xs) (y ∷ ys) final e (inr later) = inr (Evolves-Has s xs ys final e.1 later)
Evolves-Has s (x ∷ xs) (y ∷ ys) final e (inl now) = elim e.0 [
  | inl same ↦ inl (same ∙ now)
  | inr moved ↦ absurd (blocked moved.0)
]
  where
    blocked : allowed x.status y.status ≡ true → ⊥
    blocked may = cc (final y.status, ap (λ (r : Signal). allowed r.status y.status) now)

-- The statuses that end a signal.
abbrev pub is_final : Status → Bool
is_final pending = false
is_final risk_approved = false
is_final risk_modified = false
is_final risk_rejected = true
is_final expired = true
is_final canceled = true
is_final order_filled = true
is_final order_rejected = true

is_final-IsTerminal : (st : Status) → is_final st ≡ true → IsTerminal st
unfolding allowed
is_final-IsTerminal st h next = ground arith

-- A signal that is filled, rejected by the risk engine or the order service, expired or canceled
-- stays as it is, whatever calls follow.
pub calls-Has :
    (c : Config) (owners : List Owner) (ks : List Call) (s : Signal) (t : Table)
    → is_final s.status ≡ true
    → Has s t
    → Has s (calls c owners ks t)
unfolding calls
calls-Has c owners [] s t final h = h
calls-Has c owners (k ∷ ks) s t final h = calls-Has c owners ks s (call c owners k t) final (
    Evolves-Has s t (call c owners k t) (is_final-IsTerminal s.status final)
      (call-Evolves c owners k t) h)
