-- ===== src/Tests/Gates.antt =====
-- The gate, the PreSync hook, the policies and the calibration (internal/impact, internal/presync,
-- internal/policy, internal/rbac, internal/calibrate) on concrete inputs.
use architecture_rehearsal.Prelude.{
  ◌==◌, ◌&&◌, not, any, ℕ, ◌≡◌, ◌≢◌, ◌↔◌, ◌⊎◌, refl, String, none, some, List, [], ◌∷◌, Bool, true,
  false, All, codes, text_eq, trim_space, trim_left, is_space, has_prefix, contains_text,
  ascii_upper,
}
use architecture_rehearsal.Analyze.{Finding, decide, is_empty}
use architecture_rehearsal.Analyze.FailClosed.{is_acted_on, decide-approve}
use architecture_rehearsal.Impact.{Verdict}
use architecture_rehearsal.Impact.Gate.{aggregate}
use architecture_rehearsal.Impact.FailClosed.{IsPass, aggregate-IsPass}
use architecture_rehearsal.Presync.{hook_exit_code, map_impact_verdict}
use architecture_rehearsal.Presync.Hook.{IsUpperOfAscii, IsMild, gate_lets_sync}
use architecture_rehearsal.Policy.{Document, Input}
use architecture_rehearsal.Policy.Syntax.{index_of, split_two, split, trim_quotes, scan_int}
use architecture_rehearsal.Policy.Match.{match, validate_expr, list_contains}
use architecture_rehearsal.Policy.Gate.{
  evaluate, first_match, is_unknown, IsUnmatched, evaluate-approve,
}
use architecture_rehearsal.Calibrate.{Outcome}

abbrev verdict : String → Verdict
verdict status = record {
  detector = "pdb-deadlock";
  status = status;
  explanation = "";
  confidence = "high";
  evidence = [];
  affected = [];
  missing = [];
}

abbrev verdicts : List Verdict
verdicts = verdict "PASS" ∷ verdict "WARN" ∷ verdict "oops" ∷ []

aggregate-IsPass_example : (aggregate verdicts ≡ "PASS") ↔ ((verdicts ≢ []) × All IsPass verdicts)
aggregate-IsPass_example = aggregate-IsPass verdicts

abbrev gate_status : String
gate_status = "WARN"

abbrev analysis : String
analysis = "block"

ascii-IsUpperOfAscii : IsUpperOfAscii ascii_upper
ascii-IsUpperOfAscii = λ c h. refl

gate_lets_sync_example :
    (hook_exit_code ascii_upper (map_impact_verdict ascii_upper (aggregate verdicts)) ≡ 0)
    ↔ ((verdicts ≢ []) × All IsMild verdicts)
gate_lets_sync_example = gate_lets_sync ascii_upper ascii-IsUpperOfAscii verdicts

abbrev lower : ℕ → ℕ
lower c = c

abbrev annotations : List (String × String)
annotations =
    ("rehearsal.io/break-glass", "true") ∷ ("rehearsal.io/break-glass-reason", " outage ") ∷ []

abbrev facts : Input
facts = record {
  risk = codes "low";
  decision = codes "approve";
  rollback = codes "available";
  required_missing = 0;
  findings = 2;
  critical_paths = 0;
}

abbrev rules : Document
rules = record {
  api_version = codes "rehearsal.io/v1beta1";
  kind = codes "RehearsalPolicy";
  block = codes " findings > 2" ∷ codes "risk in [\"high\"]" ∷ [];
  warn = codes "rollback == 'unavailable'" ∷ [];
  unknown_as_block = none;
}

evaluate-approve_example :
    (All (IsUnmatched facts) rules.block × All (IsUnmatched facts) rules.warn)
    × ((is_unknown facts.decision ≡ false)
        × ((is_unknown facts.risk ≡ false) ⊎ (rules.unknown_as_block ≡ some false)))
unfolding evaluate first_match match validate_expr list_contains index_of split_two split
    trim_quotes scan_int text_eq trim_space has_prefix contains_text trim_left is_space
evaluate-approve_example = evaluate-approve rules facts refl

abbrev outcome : String → Bool → Bool → Outcome
outcome scenario predicted observed = record {
  scenario = scenario;
  predicted = predicted;
  observed = observed;
  verified = true;
}

abbrev outcomes : List Outcome
outcomes = outcome "drain" true true ∷ outcome "scale" true true ∷ outcome "drain" true false ∷ []

abbrev drained : Finding
drained = record {
  id = "f1";
  scenario = "node-drain";
  risk = "low";
  title = "drain";
  summary = "";
  components = [];
  cascade = [];
  controls = [];
  slo_impact = "";
  evidence = [];
  rollback = "available";
  confidence = "high";
}

decide-approve_example :
    (decide [] (drained ∷ []) == "approve")
    ≡ (is_empty [] && not (any (λ f. is_acted_on f.risk) (drained ∷ [])))
decide-approve_example = decide-approve [] (drained ∷ [])
