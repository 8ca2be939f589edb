-- ===== src/Analyze.antt =====
-- internal/analyze: how the findings of the scenarios and what is missing make a decision
-- (MaxRisk and DecisionFromFindings of result.go, and the part of RunWithRunners in analyze.go between
-- the scenarios and the decision). `missing` are the requirements that the runners and the coverage
-- of the inputs report.
pub mod FailClosed
use architecture_rehearsal.Prelude.{
  ℕ, String, List, [], ◌∷◌, ◌++◌, map, filter, Bool, true, false, not, ◌&&◌, ◌||◌, ◌==◌, ltb, any,
  concat, if◌then◌else◌,
}

pub record Finding : Type 0 where
  pub id : String
  pub scenario : String
  pub risk : String
  pub title : String
  pub summary : String
  pub components : List String
  pub cascade : List String
  pub controls : List String
  pub slo_impact : String
  pub evidence : List String
  pub rollback : String
  pub confidence : String

-- The map `order`; a text that is not in it counts 0.
abbrev order : String → ℕ
order r =
    if r == "low"
    then 1
    else if r == "medium"
    then 2
    else if r == "high"
    then 3
    else if r == "critical"
    then 4
    else if r == "unknown"
    then 5
    else 0

unfoldable pub max_risk : String → String → String
max_risk a b =
    if a == "unknown"
    then b
    else if b == "unknown"
    then a
    else if ltb (order a) (order b)
    then b
    else a

abbrev pub is_severe : String → Bool
is_severe r = r == "critical" || r == "high"

abbrev pub is_empty : List String → Bool
is_empty [] = true
is_empty (s ∷ ss) = false

abbrev pub has_block : List Finding → Bool
has_block findings = any (λ f. not (f.risk == "unknown") && is_severe f.risk) findings

abbrev pub has_warn : List Finding → Bool
has_warn findings = any (λ f. not (f.risk == "unknown") && f.risk == "medium") findings

unfoldable pub decision_from_findings : String → List Finding → List String → Bool → String
decision_from_findings risk findings required_missing insufficient =
    if has_block findings || is_severe risk
    then "block"
    else if insufficient || not (is_empty required_missing)
    then "unknown"
    else if has_warn findings || risk == "medium"
    then "warn"
    else if risk == "unknown"
    then "unknown"
    else "approve"

abbrev pub max_risk_of : String → List Finding → String
max_risk_of risk [] = risk
max_risk_of risk (f ∷ fs) = max_risk_of (max_risk risk f.risk) fs

abbrev pub unique_after : List String → List String → List String
unique_after seen [] = []
unique_after seen (s ∷ ss) =
    let rest = unique_after (s ∷ seen) ss in
    let skipped = unique_after seen ss in if any (λ t. t == s) seen then skipped else s ∷ rest

abbrev pub unique_strings : List String → List String
unique_strings ss = unique_after [] ss

-- A finding of unknown risk makes its scenario a requirement that is missing.
abbrev pub required_missing : List String → List Finding → List String
required_missing missing findings = unique_strings (
    unique_strings missing
    ++ map (λ f. concat ("scenario:" ∷ f.scenario ∷ []))
        (filter (λ f. f.risk == "unknown") findings))

abbrev has_confident_finding : List Finding → Bool
has_confident_finding findings =
    any (λ f. not (f.risk == "unknown") && (not (f.risk == "none") && not (f.confidence == "low")))
      findings

unfoldable pub decide : List String → List Finding → String
unfolding max_risk decision_from_findings
decide missing findings =
    let required = required_missing missing findings in
    let insufficient = not (is_empty required) && not (has_confident_finding findings) in
    decision_from_findings (max_risk_of "none" findings) findings required insufficient
