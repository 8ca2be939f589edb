-- ===== src/Impact/Gate.antt =====
-- The gate of internal/impact: Aggregate, ToAnalyzeDecision, ExitCode (types.go), mergeVerdicts,
-- MergeAnalyze and aggregateConfidence (gate.go). The text of the summary line, which only counts
-- the statuses, is an argument.
use architecture_rehearsal.Prelude.{
  ℕ, String, Option, none, some, List, [], ◌∷◌, Bool, true, false, ◌==◌, eqb, ltb, if◌then◌else◌,
}
use architecture_rehearsal.Impact.{Verdict, Report}

-- The map `order`.
unfoldable pub order : String → Option ℕ
order st =
    if st == "PASS"
    then some 0
    else if st == "WARN"
    then some 1
    else if st == "UNKNOWN"
    then some 2
    else if st == "BLOCK"
    then some 3
    else none

abbrev or_zero : Option ℕ → ℕ
or_zero none = 0
or_zero (some n) = n

-- `order[st]`
unfoldable pub order_of : String → ℕ
unfolding order
order_of st = or_zero (order st)

abbrev known : Option ℕ → String → String
known none st = "UNKNOWN"
known (some n) st = st

-- The two corrections of a status in the loop of `Aggregate`.
unfoldable pub corrected : String → String
unfolding order
corrected status = let st = if status == "" then "UNKNOWN" else status in known (order st) st

-- `if order[st] > order[best] { best = st }`
unfoldable pub stronger : String → String → String
unfolding order_of
stronger best st = if ltb (order_of best) (order_of st) then st else best

unfoldable pub aggregate_from : String → List Verdict → String
unfolding stronger corrected
aggregate_from best [] = best
aggregate_from best (v ∷ vs) = aggregate_from (stronger best (corrected v.status)) vs

unfoldable pub aggregate : List Verdict → String
unfolding aggregate_from
aggregate [] = "UNKNOWN"
aggregate (v ∷ vs) = aggregate_from "PASS" (v ∷ vs)

unfoldable pub to_analyze_decision : String → String
to_analyze_decision v =
    if v == "PASS"
    then "approve"
    else if v == "WARN"
    then "warn"
    else if v == "BLOCK"
    then "block"
    else "unknown"

unfoldable pub exit_code : String → ℕ
exit_code v =
    if v == "PASS"
    then 0
    else if v == "WARN"
    then 1
    else if v == "BLOCK"
    then 3
    else if v == "UNKNOWN"
    then 4
    else 5

-- The map of `mergeVerdicts`, with its missing entry replaced by `Unknown`.
unfoldable pub mapped : String → String
mapped decision =
    if decision == "approve"
    then "PASS"
    else if decision == "warn"
    then "WARN"
    else if decision == "block"
    then "BLOCK"
    else "UNKNOWN"

-- `Verdict{Status: s}`
abbrev pub with_status : String → Verdict
with_status s = record {
  detector = "";
  status = s;
  explanation = "";
  confidence = "";
  evidence = [];
  affected = [];
  missing = [];
}

unfoldable pub merge_verdicts : String → String → String
unfolding aggregate mapped
merge_verdicts impact_status analyze_decision =
    aggregate (with_status impact_status ∷ with_status (mapped analyze_decision) ∷ [])

unfoldable pub merge_analyze : (String → List Verdict → String) → Report → String → String → Report
unfolding merge_verdicts
merge_analyze summary_line rep decision risk =
    let verdict = merge_verdicts rep.verdict decision in
    record rep {
      analyze_decision = decision;
      analyze_risk = risk;
      verdict = verdict;
      summary = summary_line verdict rep.detectors;
    }

-- The map `rank` of `aggregateConfidence`, zero on a missing key.
unfoldable pub confidence_rank : String → ℕ
confidence_rank c =
    if c == "high" then 3 else if c == "medium" then 2 else if c == "low" then 1 else 0

-- `best` and `any` after the loop.
unfoldable pub confidence_loop : ℕ → Bool → List Verdict → ℕ × Bool
unfolding confidence_rank
confidence_loop best seen [] = (best, seen)
confidence_loop best seen (v ∷ vs) =
    let pass = v.status == "PASS" in
    let rank = confidence_rank v.confidence in
    confidence_loop (if pass then best else if ltb rank best then rank else best)
      (if pass then seen else true) vs

-- The search for the key of a rank: the ranks are distinct, so the order of the map is no matter.
abbrev confidence_of : ℕ → String
confidence_of r =
    if eqb r 3 then "high" else if eqb r 2 then "medium" else if eqb r 1 then "low" else "medium"

unfoldable pub aggregate_confidence : List Verdict → String
unfolding confidence_loop
aggregate_confidence vs =
    let (best, seen) = confidence_loop 3 false vs in if seen then confidence_of best else "high"
