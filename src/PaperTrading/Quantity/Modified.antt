-- ===== src/PaperTrading/Quantity/Modified.antt =====
-- How the order quantity (`_determine_qty`) takes up what the risk engine decided.
use ratatoskr_v.Base.{
  ◌≡◌, refl, String, false, Option, none, some, List, [], ◌∷◌, ◌++◌, arith, All, ◌==◌,
}
use ratatoskr_v.Domain.{Market}
use ratatoskr_v.Decimal.{Decimal}
use ratatoskr_v.Signals.{Signal}
use ratatoskr_v.Risk.{Key, key_code, Value, Modifications, put, merge, get, Sizing, Context}
use ratatoskr_v.Risk.Checks.{
  Check, risk_checks, kill_switch, strategy_enable, symbol_tradability, market_hours,
  duplicate_order, position_limit, position_sizing, judge_size, symbol_exposure, strategy_exposure,
  portfolio_exposure, drawdown, daily_loss,
}
use ratatoskr_v.Risk.Pipeline.{
  decide, decide_run, decide_exit, run_checks, run_exit_checks, Run, stopped, finished,
}
use ratatoskr_v.Risk.Pipeline.Loop.{mods_of}
use ratatoskr_v.PaperTrading.{Config}
use ratatoskr_v.PaperTrading.Quantity.{modified_qty, determine_qty}

-- The key that the order service reads is not in the dict.
abbrev pub LacksQty : Modifications → Type 0
LacksQty mods = get Key.qty mods ≡ none

put-LacksQty :
    (k : Key) (v : Value) (d : Modifications)
    → (key_code k == 4) ≡ false
    → LacksQty d
    → LacksQty (put k v d)
unfolding put get
put-LacksQty k v [] h n = ground arith
put-LacksQty k v ((j, w) ∷ d) h n = ground (arith, put-LacksQty k v d h)

merge-LacksQty : (d e : Modifications) → LacksQty d → LacksQty e → LacksQty (merge d e)
unfolding merge get
merge-LacksQty d [] h n = h
merge-LacksQty d ((k, v) ∷ e) h n =
    merge-LacksQty (put k v d) e (put-LacksQty k v d (ground arith) h) (ground arith)

-- A check that never asks for a quantity.
abbrev LeavesQty : Check → Type 0
LeavesQty k = (s : Signal) (c : Context) → LacksQty (mods_of (k.evaluate s c))

position_sizing-LacksQty : (s : Signal) (c : Context) → LacksQty (mods_of (position_sizing s c))
unfolding position_sizing judge_size get
position_sizing-LacksQty s c = ground arith

symbol_exposure-LacksQty : (s : Signal) (c : Context) → LacksQty (mods_of (symbol_exposure s c))
unfolding symbol_exposure get
symbol_exposure-LacksQty s c = ground arith

market_hours-LacksQty : (s : Signal) (c : Context) → LacksQty (mods_of (market_hours s c))
unfolding market_hours get
market_hours-LacksQty s c = ground arith

risk_checks-LeavesQty : All LeavesQty risk_checks
unfolding kill_switch strategy_enable symbol_tradability duplicate_order position_limit
    strategy_exposure portfolio_exposure drawdown daily_loss get
risk_checks-LeavesQty = (
  λ s c. ground arith,
  (
    λ s c. ground arith,
    (
      λ s c. ground arith,
      (
        market_hours-LacksQty,
        (
          λ s c. ground arith,
          (
            λ s c. ground arith,
            (
              position_sizing-LacksQty,
              (
                symbol_exposure-LacksQty,
                (
                  λ s c. ground arith,
                  (λ s c. ground arith, (λ s c. ground arith, (λ s c. ground arith, tt))),
                ),
              ),
            ),
          ),
        ),
      ),
    ),
  ),
)

-- the modifications that a run of the loop ends with
abbrev run_mods : Run → Modifications
run_mods (stopped _ _ _) = []
run_mods (finished _ mods) = mods

module _ (s : Signal) (c : Context) where
  run_checks-LacksQty :
      (ks : List Check) (passed : List String) (mods : Modifications)
      → All LeavesQty ks
      → LacksQty mods
      → LacksQty (run_mods (run_checks ks s c passed mods))
  unfolding run_checks get
  run_checks-LacksQty [] passed mods h n = n
  run_checks-LacksQty (k ∷ ks) passed mods h n = ground (
    arith,
    h.0 s c,
    merge-LacksQty mods (mods_of (k.evaluate s c)),
    run_checks-LacksQty ks passed mods h.1 n,
    run_checks-LacksQty ks (passed ++ k.name ∷ []) mods h.1 n,
    run_checks-LacksQty ks (passed ++ k.name ∷ []) (merge mods (mods_of (k.evaluate s c))) h.1,
  )

  run_exit_checks-LacksQty :
      (ks : List Check) (passed : List String) (mods : Modifications)
      → All LeavesQty ks
      → LacksQty mods
      → LacksQty (run_exit_checks ks s c passed mods).1
  unfolding run_exit_checks get
  run_exit_checks-LacksQty [] passed mods h n = n
  run_exit_checks-LacksQty (k ∷ ks) passed mods h n = ground (
    arith,
    h.0 s c,
    merge-LacksQty mods (mods_of (k.evaluate s c)),
    run_exit_checks-LacksQty ks passed mods h.1 n,
    run_exit_checks-LacksQty ks (passed ++ k.name ∷ []) mods h.1 n,
    run_exit_checks-LacksQty ks (passed ++ k.name ∷ []) (merge mods (mods_of (k.evaluate s c))) h.1,
  )

-- `risk_decision.modifications_json or {}`
abbrev pub dict_of : Option Modifications → Modifications
dict_of none = []
dict_of (some mods) = mods

decide-LacksQty :
    (s : Signal) (context : Option Context)
    → LacksQty (dict_of (decide risk_checks s context).modifications)
unfolding decide decide_run decide_exit get
decide-LacksQty s none = refl
decide-LacksQty s (some c) = ground (
  arith,
  run_checks-LacksQty s c risk_checks [] [] risk_checks-LeavesQty refl,
  run_exit_checks-LacksQty s c risk_checks ("exit_fast_path" ∷ []) [] risk_checks-LeavesQty refl,
)

-- The order quantity does not depend on what the risk checks decide: a position that is capped to
-- an approved value is ordered at its full size, whatever the signal, the context and the sizing.
pub determine_qty-unmodified :
    (s : Signal) (context : Option Context) (c : Config) (market : Market) (z : Sizing)
    (reference_price : Decimal)
    → determine_qty c market
        (dict_of (decide risk_checks s context).modifications)
        z
        reference_price
      ≡ determine_qty c market [] z reference_price
unfolding determine_qty modified_qty get
determine_qty-unmodified s context c market z reference_price =
    rw (decide-LacksQty s context, modified_qty, determine_qty) refl
