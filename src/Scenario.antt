-- ===== src/Scenario.antt =====
-- internal/scenario/scenario.go: the runners of scenarios and RunAll. A context is the one that
-- RunWithRunners of internal/analyze/analyze.go makes, with all its parts; a snapshot with its
-- metadata is the record `Observed` that the verification has too.
pub mod Capacity
pub mod Prometheus
pub mod Storage
pub mod Traffic
pub mod Approve
pub mod NodeLoss
use architecture_rehearsal.Prelude.{
  ℕ, String, Option, none, some, List, [], ◌∷◌, ◌++◌, map, is_nil, Bool, true, false, not, ◌==◌,
  concat, lookup, if◌then◌else◌,
}
use architecture_rehearsal.Graph.{Node, Index, Attribute, flag, Snapshot, build_index, or_nil}
use architecture_rehearsal.Loader.{ChangeEnvelope, apply_change}
use architecture_rehearsal.Analyze.{Finding}
use architecture_rehearsal.Verify.{Observed}

pub record Context : Type 0 where
  pub baseline : Observed
  pub proposed : Snapshot
  pub change : ChangeEnvelope
  pub base_idx : Index
  pub prop_idx : Index

pub record Requirement : Type 0 where
  pub id : String
  pub message : String

-- The type `Result`.
pub record ScenarioResult : Type 0 where
  pub outcome : String
  pub findings : List Finding
  pub missing : List Requirement

pub record Runner : Type 0 where
  pub name : String
  pub applicable : Context → Bool
  pub missing_requirements : Context → List Requirement
  pub evaluate : Context → ScenarioResult

-- The context of RunWithRunners.
unfoldable pub context_of : Observed → ChangeEnvelope → Context
context_of base ch =
    let proposed = apply_change base.graph ch in
    record {
      baseline = base;
      proposed = proposed;
      change = ch;
      base_idx = build_index base.graph;
      prop_idx = build_index proposed;
    }

abbrev pub not_matched : ScenarioResult
not_matched = record { outcome = "not_matched"; findings = []; missing = [] }

-- The last lines of an evaluation: matched if there is a finding.
abbrev pub matched_if_any : List Finding → ScenarioResult
matched_if_any [] = not_matched
matched_if_any (f ∷ fs) = record { outcome = "matched"; findings = f ∷ fs; missing = [] }

abbrev pub has_kind : Index → String → Bool
has_kind idx kind = not (is_nil (or_nil (lookup kind idx.by_kind)))

abbrev rollback_of : Option Attribute → String
rollback_of (some (flag true)) = "available"
rollback_of (some (flag false)) = "unavailable"
rollback_of _ = "unknown"

-- The fact `rollback_available`.
abbrev pub rollback_fact : ChangeEnvelope → String
rollback_fact ch = rollback_of (lookup "rollback_available" ch.facts)

unfoldable pub req_messages : List Requirement → List String
req_messages rr = map (λ r. concat (r.id ∷ ": " ∷ r.message ∷ [])) rr

abbrev pub insufficient : String → List Requirement → Finding
insufficient name miss = record {
  id = concat ("unknown:" ∷ name ∷ []);
  scenario = name;
  risk = "unknown";
  title = concat ("Insufficient data for scenario " ∷ name ∷ []);
  summary = "Scenario is applicable but required graph/facts are missing; cannot safely approve.";
  components = [];
  cascade = [];
  controls = [];
  slo_impact = "";
  evidence = req_messages miss;
  rollback = "unknown";
  confidence = "low";
}

-- What the loop takes from a result.
abbrev pub kept : ScenarioResult → List Finding × List Requirement
kept res =
    if res.outcome == "matched"
    then (res.findings, [])
    else if res.outcome == "unknown"
    then (res.findings, res.missing)
    else ([], [])

abbrev pub or_insufficient :
    String → List Requirement → ScenarioResult → List Finding × List Requirement
or_insufficient name [] res = kept res
or_insufficient name (m ∷ ms) res = (insufficient name (m ∷ ms) ∷ [], m ∷ ms)

-- One round of the loop over the runners.
unfoldable pub run_one : Context → Runner → List Finding × List Requirement
unfolding req_messages
run_one ctx r =
    if not (r.applicable ctx)
    then ([], [])
    else or_insufficient r.name (r.missing_requirements ctx) (r.evaluate ctx)

unfoldable pub run_all : Context → List Runner → List Finding × List Requirement
unfolding run_one
run_all ctx [] = ([], [])
run_all ctx (r ∷ rs) =
    let (findings, missing) = run_all ctx rs in
    let (found, lacks) = run_one ctx r in (found ++ findings, lacks ++ missing)
