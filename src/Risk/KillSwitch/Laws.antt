-- ===== src/Risk/KillSwitch/Laws.antt =====
-- What a switch does to the switches of all scopes.
use ratatoskr_v.Base.{
  ◌≡◌, refl, Bool, true, false, none, some, [], ◌∷◌, ◌++◌, arith, String, Bool-cases, Option-cases,
  ◌⊎◌, inl, inr, find, update_first, count, if◌then◌else◌,
}
use ratatoskr_v.Domain.{Time}
use ratatoskr_v.Risk.KillSwitch.{
  Scope, global, one_strategy, KillSwitch, Switches, same_scope, has_scope, get_switch, is_halted,
  overwrite, upsert, already_active, not_active, ok, err, activate_kill_switch,
  deactivate_kill_switch,
}

same_scope_refl : (a : Scope) → same_scope a a ≡ true
same_scope_refl global = refl
same_scope_refl (one_strategy i) = ground arith

same_scope_eq : (a b : Scope) → same_scope a b ≡ true → a ≡ b
same_scope_eq global global h = refl
same_scope_eq global (one_strategy j) h = cc
same_scope_eq (one_strategy i) global h = cc
same_scope_eq (one_strategy i) (one_strategy j) h = ground arith

-- A change of the row of one scope, by a function that leaves the scope alone.
module _ (f : KillSwitch → KillSwitch) (keeps : (k : KillSwitch) → (f k).scope ≡ k.scope)
    (a : Scope) where
  find-update_self :
      (t : Switches) {k : KillSwitch}
      → find (has_scope a) t ≡ some k
      → find (has_scope a) (update_first (has_scope a) f t) ≡ some (f k)
  find-update_self [] h = cc
  find-update_self (x ∷ t) {k} h = ground (arith, keeps x, find-update_self t {k = k})

  find-update_other :
      (b : Scope) (t : Switches)
      → same_scope a b ≡ false
      → find (has_scope b) (update_first (has_scope a) f t) ≡ find (has_scope b) t
  find-update_other b [] h = refl
  find-update_other b (x ∷ t) h =
      ground (arith, keeps x, find-update_other b t, same_scope_eq x.scope a)

  count-update :
      (b : Scope) (t : Switches)
      → count (has_scope b) (update_first (has_scope a) f t) ≡ count (has_scope b) t
  count-update b [] = refl
  count-update b (x ∷ t) = ground (arith, keeps x, count-update b t)

find-append :
    (p : KillSwitch → Bool) (t : Switches) (k : KillSwitch)
    → find p (t ++ k ∷ [])
      ≡ elim (find p t) [ some x ↦ some x | none ↦ if p k then some k else none ]
find-append p [] k = ground arith
find-append p (x ∷ t) k = ground (arith, find-append p t k)

-- The switch of another scope, and whether it halts, stay as they were.
upsert-other :
    (k : KillSwitch) (b : Scope) (t : Switches)
    → same_scope k.scope b ≡ false
    → get_switch b (upsert k t) ≡ get_switch b t
unfolding upsert get_switch
upsert-other k b t h = elim (Option-cases (find (has_scope k.scope) t)) [
  | inl absent ↦ rw (absent, upsert) (ground (arith, find-append (has_scope b) t k))
  | inr (x, e) ↦ rw (e, upsert) (find-update_other (overwrite k) (λ _. refl) k.scope b t h)
]

upsert_self : (k : KillSwitch) (t : Switches) → is_halted k.scope (upsert k t) ≡ k.is_active
unfolding upsert get_switch is_halted
upsert_self k t = elim (Option-cases (find (has_scope k.scope) t)) [
  | inl absent ↦
      rw (absent, upsert)
        (ground (arith, find-append (has_scope k.scope) t k, same_scope_refl k.scope))
  | inr (x, e) ↦
      rw (e, upsert)
        (ground (arith, find-update_self (overwrite k) (λ _. refl) k.scope t {k = x} e))
]

is_halted_of :
    (b : Scope) (t u : Switches) → get_switch b u ≡ get_switch b t → is_halted b u ≡ is_halted b t
unfolding is_halted
is_halted_of b t u e = rw (e, is_halted)

-- Activating a switch halts its scope, is refused while the scope is halted, and leaves the other
-- scopes as they were.
pub activate_kill_switch_lem :
    (scope : Scope) (by : String) (now : Time) (t : Switches)
    → ((is_halted scope t ≡ true) × (activate_kill_switch scope by now t ≡ err already_active))
      ⊎ ((u : Switches) × (activate_kill_switch scope by now t ≡ ok u)
          × (is_halted scope u ≡ true)
          × ((b : Scope) → same_scope scope b ≡ false → is_halted b u ≡ is_halted b t))
unfolding activate_kill_switch
activate_kill_switch_lem scope by now t = elim (Bool-cases (is_halted scope t)) [
  | inl halted ↦ inl (halted, rw halted)
  | inr running ↦
      let k : KillSwitch = record {
        scope = scope;
        is_active = true;
        activated_by = some by;
        activated_at = some now;
        deactivated_at = none;
      } in
      inr (
        upsert k t,
        rw running,
        upsert_self k t,
        λ b other. is_halted_of b t (upsert k t) (upsert-other k b t other),
      )
]

halted-row :
    (scope : Scope) (t : Switches)
    → is_halted scope t ≡ true
    → (k : KillSwitch) × (find (has_scope scope) t ≡ some k)
unfolding is_halted get_switch
halted-row scope t h = ground arith

-- Deactivating a switch ends the halt of its scope, is refused while the scope is not halted, and
-- leaves the other scopes as they were.
deactivate_kill_switch_lem :
    (scope : Scope) (now : Time) (t : Switches)
    → ((is_halted scope t ≡ false) × (deactivate_kill_switch scope now t ≡ err not_active))
      ⊎ ((u : Switches) × (deactivate_kill_switch scope now t ≡ ok u)
          × (is_halted scope u ≡ false)
          × ((b : Scope) → same_scope scope b ≡ false → is_halted b u ≡ is_halted b t))
unfolding deactivate_kill_switch
deactivate_kill_switch_lem scope now t = elim (Bool-cases (is_halted scope t)) [
  | inr running ↦ inl (running, rw running)
  | inl halted ↦
      let (k, e) = halted-row scope t halted in
      inr (
        update_first (has_scope scope) (off now) t,
        rw halted,
        off_self k e,
        λ b other. is_halted_of b t _ (off_other b other),
      )
]
  where
    off : Time → KillSwitch → KillSwitch
    off n old = record old { is_active = false; deactivated_at = some n }

    off_self :
        (k : KillSwitch)
        → find (has_scope scope) t ≡ some k
        → is_halted scope (update_first (has_scope scope) (off now) t) ≡ false
    off_self k e =
        unfold is_halted get_switch in
        (ground (arith, find-update_self (off now) (λ _. refl) scope t {k = k} e))

    off_other :
        (b : Scope)
        → same_scope scope b ≡ false
        → get_switch b (update_first (has_scope scope) (off now) t) ≡ get_switch b t
    off_other b other = unfold get_switch in find-update_other (off now) (λ _. refl) scope b t other
