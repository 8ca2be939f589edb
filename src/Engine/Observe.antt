-- ===== src/Engine/Observe.antt =====
-- The steps of internal/run/engine.go after the deployment: stepObserve and stepVerify.
use architecture_rehearsal.Prelude.{
  String, Option, none, some, List, [], ◌∷◌, ◌++◌, map, true, not, ◌&&◌, ◌==◌, any, concat,
  non_empty, if◌then◌else◌,
}
use architecture_rehearsal.Run.{RehearsalRun, failed, inconclusive}
use architecture_rehearsal.Calibrate.{Outcome}
use architecture_rehearsal.Engine.{
  with_run, Loaded, loaded, refused, Report, Verification, World, Engine, Execution,
}
use architecture_rehearsal.Engine.Steps.{move, path, out_dir, load_inputs, saved}

module _ {Snap Chg : Type 0} (w : World Snap Chg) (e : Engine) where
  unfoldable pub step_observe : RehearsalRun → Option String
  unfolding path
  step_observe r =
      if r.spec.observed_ref == ""
      then some "spec.observedRef required for observe"
      else w.stat (path w e r.spec.observed_ref)

  -- A saved report counts if it has its baseline digest; otherwise the analysis runs again.
  abbrev pub report_for : Option Report → Snap × Chg → Loaded Report
  report_for none inputs = w.analyze inputs.0 inputs.1
  report_for (some rep) inputs =
      if non_empty rep.baseline_digest then loaded rep else w.analyze inputs.0 inputs.1

  abbrev or_old : String → String → String
  or_old new old = if non_empty new then new else old

  -- What `stepVerify` writes to the run before the chain.
  unfoldable pub verified : RehearsalRun → Verification → RehearsalRun
  verified r v = record r {
    status = record (r.status) {
      verify_outcome = v.outcome;
      message = concat ("verify=" ∷ v.outcome ∷ " score=" ∷ v.score ∷ []);
    };
    digests = record (r.digests) {
      observed_digest = or_old v.observed_digest r.digests.observed_digest;
      report_digest = or_old v.report_digest r.digests.report_digest;
      verification_digest = w.digest_of v;
    };
  }

  abbrev chain_note : Option String → String
  chain_note none = ""
  chain_note (some text) = concat (" · chain:" ∷ text ∷ [])

  unfoldable pub chained : RehearsalRun → Option String → RehearsalRun
  unfolding out_dir
  chained r broken = record r {
    status = record (r.status) {
      message = concat (r.status.message ∷ chain_note broken ∷ []);
      chain_path = w.join (out_dir w e r) "evidence-chain.json";
    };
  }

  unfoldable pub outcome_of : Verification → String → Outcome
  outcome_of v sc = record {
    scenario = sc;
    predicted = true;
    observed =
        any (λ c. c.name == concat ("scenario:" ∷ sc ∷ []) && (c.passed && not c.unknown)) v.checks;
    verified = not (v.outcome == "inconclusive");
  }

  abbrev pub calibrate : Report → Verification → List Outcome
  calibrate rep v = if e.calibrated then map (outcome_of v) rep.predicted_failures else []

  -- The `switch` over the outcome at the end.
  unfoldable pub conclude : Execution → Verification → Execution
  unfolding move
  conclude x v =
      if v.outcome == "verified"
      then x
      else move w e x (if v.outcome == "inconclusive" then inconclusive else failed) v.summary

  abbrev pub verify_chain :
      Execution → Snap × Chg → Report → Snap → Verification → Execution × Option String
  verify_chain x inputs rep obs v = elim (w.build_chain inputs.0 inputs.1 rep obs v) [
    | some text ↦ (with_run x (verified x.run v), some text)
    | none ↦ (
      conclude
          (record x {
            run = chained (verified x.run v) (w.check_chain inputs.0 inputs.1 rep obs v);
            outcomes = x.outcomes ++ calibrate rep v;
          })
          v,
      none,
    )
  ]

  abbrev pub verify_observed :
      Execution → Snap × Chg → Report → Loaded Snap → Execution × Option String
  verify_observed x inputs rep (refused text) = (x, some text)
  verify_observed x inputs rep (loaded obs) =
      verify_chain x inputs rep obs (w.verify rep obs inputs.0 inputs.1)

  abbrev pub verify_with : Execution → Snap × Chg → Loaded Report → Execution × Option String
  verify_with x inputs (refused text) = (x, some text)
  verify_with x inputs (loaded rep) =
      verify_observed x inputs rep (w.load_snapshot (path w e x.run.spec.observed_ref))

  abbrev pub verify_on : Execution → Loaded (Snap × Chg) → Execution × Option String
  verify_on x (refused text) = (x, some text)
  verify_on x (loaded inputs) = verify_with x inputs (report_for (saved w e x.run) inputs)

  unfoldable pub step_verify : Execution → Execution × Option String
  unfolding path load_inputs saved verified chained outcome_of conclude
  step_verify x = verify_on x (load_inputs w e x.run)
