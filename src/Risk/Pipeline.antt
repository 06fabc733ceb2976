-- ===== src/Risk/Pipeline.antt =====
-- The evaluation pipeline, backend/app/risk/service.py: `evaluate_signal`, the fast path of exits,
-- `_create_decision` and `evaluate_pending_signals`, over the tables of signals and decisions. The
-- context is given; a strategy that was deleted is `none`.
pub mod Loop
pub mod Effects
use ratatoskr_v.Base.{
  ℕ, suc, ◌+◌, Bool, true, false, Option, none, some, List, [], ◌∷◌, ◌++◌, String, ◌&&◌, not, ◌==◌,
  ltb, count, or_else, if◌then◌else◌,
}
use ratatoskr_v.Domain.{Uid, is_exit}
use ratatoskr_v.Signals.{
  Signal, Table, Status, risk_approved, risk_rejected, risk_modified, get_pending_signals,
}
use ratatoskr_v.Signals.Service.{update_signal_status}
use ratatoskr_v.Signals.Service as Signals
use ratatoskr_v.Risk.{Context, CheckResult, pass, reject, modify, Modifications, merge}
use ratatoskr_v.Risk.Checks.{Check}

-- `RiskDecision.status`
pub data Verdict : Type 0 where
  approved rejected modified : Verdict

-- `RiskDecision`, less its texts and the snapshot of the portfolio that it keeps for the record.
pub record Decision : Type 0 where
  pub signal_id : Uid
  pub status : Verdict
  pub checks_passed : List String
  pub failed_check : Option String
  pub reason_code : String
  pub modifications : Option Modifications

-- The two tables that the pipeline writes.
pub record State : Type 0 where
  pub signals : Table
  pub decisions : List Decision

-- What the check loop ends with: the names of the checks before a rejection and the rejecting
-- check with its code, or all names and the modifications.
pub data Run : Type 0 where
  stopped : List String → (failed : String) → (reason_code : String) → Run
  finished : List String → Modifications → Run

-- The `for` loop of `evaluate_signal`, with `checks_passed` and `all_modifications`.
unfoldable pub run_checks : List Check → Signal → Context → List String → Modifications → Run
run_checks [] s c passed mods = finished passed mods
run_checks (k ∷ ks) s c passed mods =
    let result = k.evaluate s c in
    let on_pass = run_checks ks s c (passed ++ k.name ∷ []) mods in
    let on_skip = run_checks ks s c passed mods in
    if not k.applies_to_exits && is_exit s.signal_type then on_skip else elim result [
      | reject code ↦ stopped passed k.name code
      | modify code m ↦ run_checks ks s c (passed ++ k.name ∷ []) (merge mods m)
      | pass ↦ on_pass
    ]

abbrev pub is_empty {ℓ} : {A : Type ℓ} → List A → Bool
is_empty [] = true
is_empty (_ ∷ _) = false

unfoldable pub decide_run : Uid → Run → Decision
decide_run i (stopped passed failed code) = record {
  signal_id = i;
  status = rejected;
  checks_passed = passed;
  failed_check = some failed;
  reason_code = code;
  modifications = none;
}
decide_run i (finished passed mods) = record {
  signal_id = i;
  status = if is_empty mods then approved else modified;
  checks_passed = passed;
  failed_check = none;
  reason_code = if is_empty mods then "approved" else "modified";
  modifications = if is_empty mods then none else some mods;
}

-- The loop of `_evaluate_exit_fast_path`: a rejection is not looked at.
unfoldable pub run_exit_checks :
    List Check → Signal → Context → List String → Modifications → List String × Modifications
run_exit_checks [] s c passed mods = (passed, mods)
run_exit_checks (k ∷ ks) s c passed mods =
    let named = passed ++ k.name ∷ [] in
    let on_skip = run_exit_checks ks s c passed mods in
    let on_keep = run_exit_checks ks s c named mods in
    if not k.applies_to_exits then on_skip else elim (k.evaluate s c) [
      | modify code m ↦ run_exit_checks ks s c named (merge mods m)
      | reject code ↦ on_keep
      | pass ↦ on_keep
    ]

unfoldable pub decide_exit : List Check → Signal → Context → Decision
decide_exit ks s c =
    let (passed, mods) = run_exit_checks ks s c ("exit_fast_path" ∷ []) [] in
    record {
      signal_id = s.id;
      status = if is_empty mods then approved else modified;
      checks_passed = passed;
      failed_check = none;
      reason_code = "exit_approved";
      modifications = if is_empty mods then none else some mods;
    }

-- The decision of `evaluate_signal`.
unfoldable pub decide : List Check → Signal → Option Context → Decision
decide ks s none = record {
  signal_id = s.id;
  status = rejected;
  checks_passed = [];
  failed_check = some "strategy_enable";
  reason_code = "strategy_not_found";
  modifications = none;
}
decide ks s (some c) =
    if is_exit s.signal_type then decide_exit ks s c else decide_run s.id (run_checks ks s c [] [])

-- The status that goes with a decision.
abbrev pub signal_status : Verdict → Status
signal_status approved = risk_approved
signal_status rejected = risk_rejected
signal_status modified = risk_modified

-- What `evaluate_signal` returns or raises; `duplicate` is the insert that raises.
pub data Outcome : Type 0 where
  returned : Decision → Outcome
  raised : Signals.Error → Outcome
  duplicate : Outcome

abbrev pub is_decision_of : Uid → Decision → Bool
is_decision_of i d = d.signal_id == i

-- `evaluate_signal`: the decision is written, which raises for a second decision of a signal
-- (`signal_id` is unique), then the signal's status, which may raise.
unfoldable pub evaluate_signal : List Check → Signal → Option Context → State → Outcome × State
evaluate_signal ks s context st =
    let d = decide ks s context in
    let written = record st { decisions = st.decisions ++ d ∷ [] } in
    let marked : Outcome × State =
      elim (update_signal_status s.id (signal_status d.status) st.signals) [
        | Signals.Result.ok t ↦ (returned d, record written { signals = t })
        | Signals.Result.err e ↦ (raised e, written)
      ] in
    if ltb 0 (count (is_decision_of s.id) st.decisions) then (duplicate, st) else marked

-- The counters of `evaluate_pending_signals`.
pub record Counts : Type 0 where
  pub evaluated : ℕ
  pub approved_count : ℕ
  pub rejected_count : ℕ
  pub modified_count : ℕ

abbrev pub tally : Outcome → Counts → Counts
tally (raised e) n = n
tally duplicate n = n
tally (returned d) n = elim d.status [
  | approved ↦ record n { evaluated = n.evaluated + 1; approved_count = n.approved_count + 1 }
  | rejected ↦ record n { evaluated = n.evaluated + 1; rejected_count = n.rejected_count + 1 }
  | modified ↦ record n { evaluated = n.evaluated + 1; modified_count = n.modified_count + 1 }
]

abbrev pub is_duplicate : Outcome → Bool
is_duplicate duplicate = true
is_duplicate _ = false

-- The loop over the pending signals. The context of each is the environment's answer at its turn.
-- An insert that raises ends the transaction, `none`: the later signals raise and are skipped.
unfoldable pub evaluate_each :
    List Check → (Signal → State → Option Context) → Table → Counts → State → Counts × Option State
evaluate_each ks context [] n st = (n, some st)
evaluate_each ks context (s ∷ ss) n st =
    let (o, next) = evaluate_signal ks s (context s st) st in
    let rest = evaluate_each ks context ss (tally o n) next in
    if is_duplicate o then (n, none) else rest

abbrev pub no_counts : Counts
no_counts = record { evaluated = 0; approved_count = 0; rejected_count = 0; modified_count = 0 }

-- The commit that follows a transaction that has ended raises, and nothing of it is kept.
unfoldable pub evaluate_pending_signals :
    List Check → (Signal → State → Option Context) → State → Counts × State
evaluate_pending_signals ks context st =
    let r = evaluate_each ks context (get_pending_signals st.signals) no_counts st in
    (r.0, or_else (r.1) st)
