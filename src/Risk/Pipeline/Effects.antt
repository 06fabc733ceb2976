-- ===== src/Risk/Pipeline/Effects.antt =====
-- What `evaluate_signal` and the decision of an opening signal (risk/service.py) come to.
use ratatoskr_v.Base.{
  ◌≡◌, true, Option, none, some, List, [], ◌∷◌, ◌++◌, arith, count, ◌⊎◌, if◌then◌else◌,
}
use ratatoskr_v.Signals.{Signal, pending, get_by_id, update_status, allowed}
use ratatoskr_v.Signals.Service.{update_signal_status}
use ratatoskr_v.Risk.{Context}
use ratatoskr_v.Risk.Checks.{Check, is_opening, kill_switch, risk_checks}
use ratatoskr_v.Risk.Pipeline.{
  is_decision_of, State, returned, rejected, decide, signal_status, evaluate_signal,
}
use ratatoskr_v.Risk.Pipeline.Loop.{decide-first_reject}

-- A pending signal that has no decision is decided without an exception.
pub evaluate_signal-pending :
    (ks : List Check) (s : Signal) (context : Option Context) (st : State)
    → get_by_id s.id st.signals ≡ some s
    → s.status ≡ pending
    → count (is_decision_of s.id) st.decisions ≡ 0
    → let d = decide ks s context in
      evaluate_signal ks s context st ≡ (
        returned d,
        record {
          signals = update_status s.id (signal_status d.status) st.signals;
          decisions = st.decisions ++ d ∷ [];
        },
      )
unfolding evaluate_signal update_signal_status allowed
evaluate_signal-pending ks s context st found waits undecided = ground arith

-- While a kill switch is on, the pipeline rejects every opening signal by it, whatever else holds.
pub decide-halted :
    (s : Signal) (c : Context)
    → is_opening s.signal_type ≡ true
    → (c.kill_switch_global ≡ true) ⊎ (c.kill_switch_strategy ≡ true)
    → decide risk_checks s (some c) ≡ record {
      signal_id = s.id;
      status = rejected;
      checks_passed = [];
      failed_check = some "kill_switch";
      reason_code = if c.kill_switch_global then "global_kill_switch" else "strategy_kill_switch";
      modifications = none;
    }
unfolding kill_switch
decide-halted s c opening on = decide-first_reject s c [] _ _ _ (ground arith) tt (ground arith)
