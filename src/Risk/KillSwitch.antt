-- ===== src/Risk/KillSwitch.antt =====
-- The kill switches, backend/app/risk: `KillSwitchRepository` of repository.py, and the
-- activation and deactivation of service.py. A switch of one strategy carries its id.
pub mod Laws
use ratatoskr_v.Base.{
  ℕ, Bool, true, false, Option, none, some, List, [], ◌∷◌, ◌++◌, String, ◌==◌, if◌then◌else◌, find,
  update_first,
}
use ratatoskr_v.Domain.{Uid, Time}

pub data Scope : Type 0 where
  global : Scope
  one_strategy : Uid → Scope

pub record KillSwitch : Type 0 where
  pub scope : Scope
  pub is_active : Bool
  pub activated_by : Option String
  pub activated_at : Option Time
  pub deactivated_at : Option Time

abbrev pub Switches : Type 0
Switches = List KillSwitch

abbrev pub same_scope : Scope → Scope → Bool
same_scope global global = true
same_scope (one_strategy i) (one_strategy j) = i == j
same_scope _ _ = false

abbrev pub has_scope : Scope → KillSwitch → Bool
has_scope scope k = same_scope k.scope scope

-- `get_global` and `get_for_strategy`
unfoldable pub get_switch : Scope → Switches → Option KillSwitch
get_switch scope = find (has_scope scope)

-- `ks.is_active if ks else False`, as the context of a signal is built
unfoldable pub is_halted : Scope → Switches → Bool
is_halted scope t = elim (get_switch scope t) [ none ↦ false | some k ↦ k.is_active ]

-- An existing row takes all fields but its scope from the new one.
abbrev pub overwrite : KillSwitch → KillSwitch → KillSwitch
overwrite k old = record old {
  is_active = k.is_active;
  activated_by = k.activated_by;
  activated_at = k.activated_at;
  deactivated_at = k.deactivated_at;
}

unfoldable pub upsert : KillSwitch → Switches → Switches
upsert k t = elim (get_switch k.scope t) [
  | some existing ↦ update_first (has_scope k.scope) (overwrite k) t
  | none ↦ t ++ k ∷ []
]

pub data Error : Type 0 where
  already_active not_active : Error

pub data Result : Type 0 where
  ok : Switches → Result
  err : Error → Result

unfoldable pub activate_kill_switch : Scope → String → Time → Switches → Result
activate_kill_switch scope by now t =
    if is_halted scope t
    then err already_active
    else ok (
        upsert
          (record {
            scope = scope;
            is_active = true;
            activated_by = some by;
            activated_at = some now;
            deactivated_at = none;
          })
          t)

unfoldable pub deactivate_kill_switch : Scope → Time → Switches → Result
deactivate_kill_switch scope now t =
    if is_halted scope t
    then ok (
        update_first (has_scope scope)
          (λ old. record old { is_active = false; deactivated_at = some now }) t)
    else err not_active

-- To be named on the `unfolding` line of a test.
unfoldable pub switching : Unit {0}
unfolding activate_kill_switch deactivate_kill_switch upsert is_halted get_switch
switching = tt
