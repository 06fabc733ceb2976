-- ===== src/Risk/Pipeline/Loop.antt =====
-- How the check loop and the fast path of exits (risk/service.py) reach a decision.
use ratatoskr_v.Base.{
  ◌≡◌, ◌≢◌, refl, sym, ap, ◌∙◌, Bool, true, false, none, some, List, [], ◌∷◌, ◌++◌, map, arith,
  String, Bool-cases, inl, inr, All, if◌then◌else◌,
}
use mathlib.Core.List.{append_assoc, append-nil}
use ratatoskr_v.Domain.{is_exit}
use ratatoskr_v.Signals.{Signal}
use ratatoskr_v.Risk.{Context, CheckResult, pass, reject, modify, Modifications, merge}
use ratatoskr_v.Risk.Checks.{Check}
use ratatoskr_v.Risk.Pipeline.{
  approved, rejected, modified, Run, stopped, finished, run_checks, is_empty, decide_run,
  decide_exit, decide,
}

abbrev pub is_reject : CheckResult → Bool
is_reject (reject _) = true
is_reject _ = false

-- what a check adds to the modifications
abbrev pub mods_of : CheckResult → Modifications
mods_of (modify _ m) = m
mods_of _ = []

-- The check does not reject the signal.
abbrev pub Allows : Signal → Context → Check → Type 0
Allows s c k = is_reject (k.evaluate s c) ≡ false

-- The modifications of a list of checks, in order.
abbrev pub merged : List Check → Signal → Context → Modifications → Modifications
merged [] s c mods = mods
merged (k ∷ ks) s c mods = merged ks s c (merge mods (mods_of (k.evaluate s c)))

abbrev pub names : List Check → List String
names = map (λ k. k.name)

abbrev pub is_finished : Run → Bool
is_finished (stopped _ _ _) = false
is_finished (finished _ _) = true

reject_code : (r : CheckResult) → is_reject r ≡ true → (code : String) × (r ≡ reject code)
reject_code pass h = cc
reject_code (reject code) h = (code, refl)
reject_code (modify code m) h = cc

module _ (s : Signal) (c : Context) (opening : is_exit s.signal_type ≡ false) where
  -- One round of the loop, for a check that lets the signal through.
  run_checks-step :
      (k : Check) (ks : List Check) (passed : List String) (mods : Modifications)
      → Allows s c k
      → run_checks (k ∷ ks) s c passed mods
        ≡ run_checks ks s c (passed ++ k.name ∷ []) (merge mods (mods_of (k.evaluate s c)))
  unfolding run_checks merge
  run_checks-step k ks passed mods h = ground arith

  run_checks-stop :
      (k : Check) (ks : List Check) (passed : List String) (mods : Modifications) (code : String)
      → k.evaluate s c ≡ reject code
      → run_checks (k ∷ ks) s c passed mods ≡ stopped passed k.name code
  unfolding run_checks
  run_checks-stop k ks passed mods code h = ground arith

  run_checks-finished :
      (ks : List Check) (passed : List String) (mods : Modifications)
      → All (Allows s c) ks
      → run_checks ks s c passed mods ≡ finished (passed ++ names ks) (merged ks s c mods)
  unfolding run_checks
  run_checks-finished [] passed mods h = ap (λ l. finished l mods) (sym (append-nil passed))
  run_checks-finished (k ∷ ks) passed mods h =
      run_checks-step k ks passed mods h.0
      ∙ run_checks-finished ks _ _ h.1
      ∙ ap (λ l. finished l (merged (k ∷ ks) s c mods))
          (append_assoc passed (k.name ∷ []) (names ks))

  run_checks-first :
      (before : List Check) (k : Check) (after : List Check) (passed : List String)
      (mods : Modifications) (code : String)
      → All (Allows s c) before
      → k.evaluate s c ≡ reject code
      → run_checks (before ++ k ∷ after) s c passed mods
        ≡ stopped (passed ++ names before) k.name code
  run_checks-first [] k after passed mods code h r =
      run_checks-stop k after passed mods code r
      ∙ ap (λ l. stopped l k.name code) (sym (append-nil passed))
  run_checks-first (b ∷ bs) k after passed mods code h r =
      run_checks-step b (bs ++ k ∷ after) passed mods h.0
      ∙ run_checks-first bs k after _ _ code h.1 r
      ∙ ap (λ l. stopped l k.name code) (append_assoc passed (b.name ∷ []) (names bs))

  -- If the loop runs to its end, no check rejects the signal.
  run_checks-All :
      (ks : List Check) (passed : List String) (mods : Modifications)
      → is_finished (run_checks ks s c passed mods) ≡ true
      → All (Allows s c) ks
  run_checks-All [] passed mods h = tt
  run_checks-All (k ∷ ks) passed mods h = elim (Bool-cases (is_reject (k.evaluate s c))) [
    | inl bad ↦
        let (code, r) = reject_code (k.evaluate s c) bad in
        absurd (cc (h, ap is_finished (run_checks-stop k ks passed mods code r)))
    | inr fine ↦ (
      fine,
      run_checks-All ks _ _ (ap is_finished (sym (run_checks-step k ks passed mods fine)) ∙ h),
    )
  ]

-- The first check that rejects an opening signal decides: its name and code are recorded, with the
-- names of the checks before it, and no modification is kept.
pub decide-first_reject :
    (s : Signal) (c : Context) (before : List Check) (k : Check) (after : List Check)
    (code : String)
    → is_exit s.signal_type ≡ false
    → All (Allows s c) before
    → k.evaluate s c ≡ reject code
    → decide (before ++ k ∷ after) s (some c) ≡ record {
      signal_id = s.id;
      status = rejected;
      checks_passed = names before;
      failed_check = some k.name;
      reason_code = code;
      modifications = none;
    }
unfolding decide decide_run
decide-first_reject s c before k after code opening h r =
    rw (opening, decide) (rw (run_checks-first s c opening before k after [] [] code h r) refl)

-- If no check rejects an opening signal, it is approved, or modified where the checks have asked for
-- modifications; all checks are recorded as passed, and the modifications as they were merged.
decide-All_allow :
    (s : Signal) (c : Context) (ks : List Check)
    → is_exit s.signal_type ≡ false
    → All (Allows s c) ks
    → let mods = merged ks s c [] in
      decide ks s (some c) ≡ record {
        signal_id = s.id;
        status = if is_empty mods then approved else modified;
        checks_passed = names ks;
        failed_check = none;
        reason_code = if is_empty mods then "approved" else "modified";
        modifications = if is_empty mods then none else some mods;
      }
unfolding decide decide_run
decide-All_allow s c ks opening h =
    rw (opening, decide) (rw (run_checks-finished s c opening ks [] [] h) refl)

-- An opening signal that is not rejected was let through by every check.
pub decide-All :
    (s : Signal) (c : Context) (ks : List Check)
    → is_exit s.signal_type ≡ false
    → (decide ks s (some c)).status ≢ rejected
    → All (Allows s c) ks
unfolding decide decide_run
decide-All s c ks opening h = run_checks-All s c opening ks [] [] (ground arith)

-- An exit of a strategy that exists is never rejected, whatever the checks say and whether trading is halted.
pub decide-exit :
    (s : Signal) (c : Context) (ks : List Check)
    → is_exit s.signal_type ≡ true
    → ((decide ks s (some c)).status ≢ rejected) × ((decide ks s (some c)).failed_check ≡ none)
unfolding decide decide_exit
decide-exit s c ks e = ground arith
