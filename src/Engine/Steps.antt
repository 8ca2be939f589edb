-- ===== src/Engine/Steps.antt =====
-- The step functions of internal/run/engine.go before the deployment: stepCollect, stepCompile,
-- stepRehearse and stepGate. The second part of a result is the error's text, if there is one.
use architecture_rehearsal.Prelude.{
  ℕ, suc, String, Option, none, some, List, [], ◌∷◌, ◌&&◌, ◌||◌, ◌==◌, any, concat, codes, lookup,
  insert, or_empty, non_empty, if◌then◌else◌,
}
use architecture_rehearsal.Run.{RehearsalRun, Phase}
use architecture_rehearsal.Run.Lifecycle.{transition}
use architecture_rehearsal.Run.History.{after}
use architecture_rehearsal.Policy
use architecture_rehearsal.Policy.{Document, Input, Decision, approve, warn, block}
use architecture_rehearsal.Policy.Gate.{evaluate}
use architecture_rehearsal.Engine.{Loaded, loaded, refused, Report, World, Engine, Execution}

module _ {Snap Chg : Type 0} (w : World Snap Chg) (e : Engine) where
  -- `_ = r.Transition(to, msg)`
  unfoldable pub move : Execution → Phase → String → Execution
  move x to msg = record x {
    run = after x.run (transition x.run to msg (w.clock x.moment));
    moment = suc x.moment;
  }

  -- The method `path`.
  unfoldable pub path : String → String
  path ref =
      if ref == ""
      then ""
      else if w.is_abs ref
      then ref
      else if non_empty e.work_dir
      then w.join e.work_dir ref
      else ref

  unfoldable pub out_dir : RehearsalRun → String
  unfolding path
  out_dir r =
      if non_empty r.spec.out_dir
      then path r.spec.out_dir
      else if non_empty e.work_dir
      then w.join (w.join e.work_dir "out") r.id
      else w.join "out" r.id

  abbrev pub prefixed : String → Option String → Option String
  prefixed before none = none
  prefixed before (some text) = some (concat (before ∷ text ∷ []))

  unfoldable pub step_collect : RehearsalRun → Option String
  unfolding path
  step_collect r =
      if r.spec.baseline_ref == ""
      then some "spec.baselineRef required"
      else prefixed "baseline: " (w.stat (path r.spec.baseline_ref))

  unfoldable pub step_compile : RehearsalRun → Option String
  unfolding path
  step_compile r =
      if r.spec.change_ref == ""
      then some "spec.changeRef required"
      else prefixed "change: " (w.stat (path r.spec.change_ref))

  -- What `stepRehearse` writes to the run.
  unfoldable pub rehearsed : RehearsalRun → Report → RehearsalRun
  unfolding out_dir
  rehearsed r rep = record r {
    status = record (r.status) {
      decision = rep.decision;
      risk = rep.risk;
      message = rep.summary;
      predicted_failures = rep.predicted_failures;
    };
    digests = record (r.digests) {
      baseline_digest = rep.baseline_digest;
      change_digest = rep.change_digest;
      proposed_digest = rep.proposed_digest;
      report_digest = rep.semantic_digest;
    };
    labels =
        insert "_reportPath" (w.join (out_dir r) "report.json")
          (insert "_semanticDigest" rep.semantic_digest r.labels);
  }

  -- The base and the change that two steps load.
  unfoldable pub load_inputs : RehearsalRun → Loaded (Snap × Chg)
  unfolding path
  load_inputs r = elim (w.load_snapshot (path r.spec.baseline_ref)) [
    | refused text ↦ refused text
    | loaded base ↦ elim (w.load_change (path r.spec.change_ref)) [
      | refused text ↦ refused text
      | loaded ch ↦ loaded (base, ch)
    ]
  ]

  abbrev rehearse_with : RehearsalRun → Loaded Report → RehearsalRun × Option String
  rehearse_with r (refused text) = (r, some text)
  rehearse_with r (loaded rep) = (rehearsed r rep, none)

  abbrev rehearse_on : RehearsalRun → Loaded (Snap × Chg) → RehearsalRun × Option String
  rehearse_on r (refused text) = (r, some text)
  rehearse_on r (loaded inputs) = rehearse_with r (w.analyze inputs.0 inputs.1)

  unfoldable pub step_rehearse : RehearsalRun → RehearsalRun × Option String
  unfolding rehearsed load_inputs
  step_rehearse r = rehearse_on r (load_inputs r)

  abbrev pub decision_text : Decision → String
  decision_text approve = "approve"
  decision_text warn = "warn"
  decision_text block = "block"
  decision_text Policy.unknown = "unknown"

  -- The report that was saved, if the run has its path and the file reads.
  unfoldable pub saved : RehearsalRun → Option Report
  saved r =
      let report_path = or_empty (lookup "_reportPath" r.labels) in
      if non_empty report_path then w.saved_report report_path else none

  abbrev missing_of : Option Report → ℕ
  missing_of none = 0
  missing_of (some rep) = rep.required_missing

  unfoldable pub gate_input : RehearsalRun → Input
  unfolding saved
  gate_input r = record {
    risk = codes r.status.risk;
    decision = codes r.status.decision;
    rollback = codes "unknown";
    required_missing = missing_of (saved r);
    findings = 0;
    critical_paths = 0;
  }

  -- The policy's decision where it is the stricter one.
  unfoldable pub escalated : RehearsalRun → Policy.Result → RehearsalRun
  escalated r res =
      let text = decision_text res.decision in
      if text == "block" || (text == "warn" && r.status.decision == "approve")
      then record r {
        status = record (r.status) {
          decision = text;
          message = concat (
              "policy:"
              ∷ text
              ∷ " matched="
              ∷ w.show_texts res.matched
              ∷ " · "
              ∷ r.status.message
              ∷ []);
        };
      }
      else r

  abbrev hard_list : List String → List String
  hard_list [] = "critical" ∷ "high" ∷ "block" ∷ []
  hard_list (b ∷ bs) = b ∷ bs

  -- The loop over `Spec.Gate.BlockOn`, which sets the message only.
  unfoldable pub noted : RehearsalRun → RehearsalRun
  noted r =
      if any (λ b. r.status.risk == b || r.status.decision == b) (hard_list r.spec.gate.block_on)
      then record r {
        status = record (r.status) {
          message =
              concat
                ("gate blocked: risk=" ∷ r.status.risk ∷ " decision=" ∷ r.status.decision ∷ []);
        };
      }
      else r

  abbrev gate_with : RehearsalRun → Loaded Document → RehearsalRun × Option String
  gate_with r (refused text) = (r, prefixed "policy: " (some text))
  gate_with r (loaded doc) = (noted (escalated r (evaluate (some doc) (gate_input r))), none)

  unfoldable pub step_gate : RehearsalRun → RehearsalRun × Option String
  unfolding path gate_input escalated noted
  step_gate r = gate_with r (w.load_policy (path r.spec.policy_path))
