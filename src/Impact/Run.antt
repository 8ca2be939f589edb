-- ===== src/Impact/Run.antt =====
-- internal/impact/gate.go: Run, over any detectors, and internal/impact/scenario_bridge.go, which makes a
-- scenario of a detector. The detectors of a call that gives none are an argument, and so is the
-- text of the summary line, which only counts.
use architecture_rehearsal.Prelude.{
  String, Option, none, some, List, [], ◌∷◌, ◌++◌, map, gather, Bool, false, ◌||◌, ◌==◌, lookup,
  concat, if◌then◌else◌,
}
use architecture_rehearsal.Graph.{Attribute, text, build_index}
use architecture_rehearsal.Loader.{ChangeEnvelope, apply_change, sorted, text_lt}
use architecture_rehearsal.Analyze.{unique_strings}
use architecture_rehearsal.Scenario
use architecture_rehearsal.Scenario.{Requirement, ScenarioResult, Runner}
use architecture_rehearsal.Verify.{Observed}
use architecture_rehearsal.Impact.{Verdict, Report}
use architecture_rehearsal.Impact.Gate.{aggregate, aggregate_confidence}
use architecture_rehearsal.Impact.Context.{Context, pdbs_inventory_known}

pub record Detector : Type 0 where
  pub name : String
  pub evaluate : Context → Verdict

unfoldable pub context_of : Observed → ChangeEnvelope → Context
context_of base ch =
    let proposed = apply_change base.graph ch in
    record {
      baseline = some base;
      proposed = some proposed;
      change = some ch;
      base_idx = some (build_index base.graph);
      prop_idx = some (build_index proposed);
      pdbs_collected = pdbs_inventory_known (some base);
    }

abbrev pub verdict_lt : Verdict → Verdict → Bool
verdict_lt v w = text_lt v.detector w.detector

abbrev pub verdicts_of : Context → List Detector → List Verdict
verdicts_of ctx detectors = sorted verdict_lt (map (λ d. d.evaluate ctx) detectors)

abbrev text_of : Option Attribute → String
text_of (some (text s)) = s
text_of _ = ""

abbrev predicted_of : Verdict → List String
predicted_of v =
    if v.status == "BLOCK" || v.status == "WARN"
    then concat ("[" ∷ v.status ∷ "] " ∷ v.explanation ∷ []) ∷ []
    else if v.status == "UNKNOWN"
    then concat ("[UNKNOWN] " ∷ v.detector ∷ ": " ∷ v.explanation ∷ []) ∷ []
    else []

-- The keys of a map of strings, sorted.
abbrev sorted_keys : List String → List String
sorted_keys ss = sorted text_lt (unique_strings ss)

module _ (summary_line : String → List Verdict → String) where
  unfoldable pub run : Observed → ChangeEnvelope → List Detector → Report
  unfolding context_of
  run base ch detectors =
      let verdicts = verdicts_of (context_of base ch) detectors in
      let gate = aggregate verdicts in
      record {
        app_name = text_of (lookup "argo.app" ch.facts);
        change_id = ch.id;
        revision = text_of (lookup "argo.revision" ch.facts);
        verdict = gate;
        detectors = verdicts;
        affected = sorted_keys (gather (λ v. v.affected) verdicts);
        predicted = gather predicted_of verdicts;
        missing = sorted_keys (gather (λ v. v.missing) verdicts);
        confidence = aggregate_confidence verdicts;
        summary = summary_line gate verdicts;
        analyze_decision = "";
        analyze_risk = "";
      }

abbrev pub bridge_name : Detector → String
bridge_name d = concat ("argo-" ∷ d.name ∷ [])

-- A change that is nil is `none`.
unfoldable pub applicable : Option ChangeEnvelope → Bool
applicable none = false
applicable (some ch) =
    ch.kind == "argo-sync" || text_of (lookup "scenario" ch.facts) == "argo-impact"

abbrev or_one : Requirement → List Requirement → List Requirement
or_one r [] = r ∷ []
or_one r (x ∷ xs) = x ∷ xs

abbrev unknown_result : Detector → Verdict → ScenarioResult
unknown_result d v = record {
  outcome = "unknown";
  missing =
      or_one (record { id = bridge_name d; message = v.explanation })
        (map (λ m. record { id = m; message = v.explanation }) v.missing);
  findings =
      record {
        id = bridge_name d;
        scenario = bridge_name d;
        risk = "unknown";
        title = concat ("Insufficient data: " ∷ d.name ∷ []);
        summary = v.explanation;
        components = v.affected;
        cascade = [];
        controls = [];
        slo_impact = "";
        evidence = v.evidence ++ v.missing;
        rollback = "unknown";
        confidence = v.confidence;
      }
      ∷ [];
}

abbrev matched_result : Detector → Verdict → ScenarioResult
matched_result d v = record {
  outcome = "matched";
  missing = [];
  findings =
      record {
        id = bridge_name d;
        scenario = bridge_name d;
        risk = if v.status == "BLOCK" then "high" else "medium";
        title = if v.status == "" then d.name else concat (v.status ∷ ": " ∷ d.name ∷ []);
        summary = v.explanation;
        components = v.affected;
        cascade = v.evidence;
        controls =
            "review Argo sync impact report" ∷ "adjust desired manifests or cluster capacity" ∷ [];
        slo_impact = "availability";
        evidence = v.evidence;
        rollback = "unknown";
        confidence = v.confidence;
      }
      ∷ [];
}

unfoldable pub bridge : Detector → Verdict → ScenarioResult
bridge d v =
    if v.status == "PASS"
    then record { outcome = "not_matched"; findings = []; missing = [] }
    else if v.status == "UNKNOWN"
    then unknown_result d v
    else matched_result d v

-- `FromScenario`
unfoldable pub from_scenario : Scenario.Context → Context
from_scenario c = record {
  baseline = some c.baseline;
  proposed = some c.proposed;
  change = some c.change;
  base_idx = some c.base_idx;
  prop_idx = some c.prop_idx;
  pdbs_collected = pdbs_inventory_known (some c.baseline);
}

-- `scenarioWrap`, as ScenarioRunners makes it of each detector.
unfoldable pub runner_of : Detector → Runner
unfolding from_scenario applicable bridge
runner_of d = record {
  name = bridge_name d;
  applicable = λ c. applicable (some c.change);
  missing_requirements = λ c. [];
  evaluate = λ c. bridge d (d.evaluate (from_scenario c));
}
