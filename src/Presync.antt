-- ===== src/Presync.antt =====
-- internal/presync/decision.go: from the impact report to the exit code of the Argo CD PreSync hook, and
-- runArgoPresync of cmd/rehearsal/argo_presync.go from its override on, where all inputs can be read.
-- `strings.ToUpper` and `strings.ToLower` map single runes; the tables of Unicode are not part of the
-- program, so the two maps are parameters, of which the proofs use the ASCII letters. The duration is
-- given in milliseconds.
pub mod Hook
pub mod BreakGlass
use architecture_rehearsal.Prelude.{
  ℕ, String, Option, none, some, List, [], ◌∷◌, ◌++◌, map, Bool, true, false, not, ◌&&◌, ◌||◌, ◌==◌,
  any, find, lookup, or_empty, if◌then◌else◌, codes, concat, text_eq, trim_space, contains_text,
}
use architecture_rehearsal.Impact.{Verdict, Report}

pub record Override : Type 0 where
  pub enabled : Bool
  pub reason : List ℕ

pub record Result : Type 0 where
  pub decision : String
  pub reasons : List String
  pub rule_ids : List String
  pub duration_ms : ℕ
  pub app_name : String
  pub change_id : String
  pub override : Option Override

pub data OverrideError : Type 0 where
  invalid_value reason_missing : OverrideError

pub data Parsed : Type 0 where
  requested : Override → Parsed
  not_requested : Parsed
  refused : OverrideError → Parsed

-- `case "A", "B":` of a switch over a text.
abbrev pub is_one_of : List ℕ → List String → Bool
is_one_of t names = any (λ n. text_eq t (codes n)) names

module _ (to_upper : ℕ → ℕ) where
  -- `strings.ToUpper(strings.TrimSpace(s))`
  unfoldable pub normalised : String → List ℕ
  normalised s = map to_upper (trim_space (codes s))

  unfoldable pub hook_exit_code : String → ℕ
  unfolding normalised
  hook_exit_code decision =
      let d = normalised decision in
      if is_one_of d ("ALLOW" ∷ "WARN" ∷ [])
      then 0
      else if is_one_of d ("BLOCK" ∷ [])
      then 3
      else if is_one_of d ("UNKNOWN" ∷ [])
      then 4
      else 5

  unfoldable pub map_impact_verdict : String → String
  unfolding normalised
  map_impact_verdict v =
      let d = normalised v in
      if is_one_of d ("PASS" ∷ "APPROVE" ∷ "ALLOW" ∷ [])
      then "ALLOW"
      else if is_one_of d ("WARN" ∷ [])
      then "WARN"
      else if is_one_of d ("BLOCK" ∷ [])
      then "BLOCK"
      else "UNKNOWN"

abbrev pub is_empty : List ℕ → Bool
is_empty [] = true
is_empty (c ∷ cs) = false

-- The switch over the value of the annotation, in lower case, with the trimmed reason.
unfoldable pub break_glass : List ℕ → List ℕ → List ℕ → Parsed
break_glass raw lower reason =
    if is_empty raw
    then not_requested
    else if is_one_of lower ("true" ∷ "1" ∷ "yes" ∷ "on" ∷ [])
    then (if is_empty reason
        then refused reason_missing
        else requested (record { enabled = true; reason = reason }))
    else if is_one_of lower ("false" ∷ "0" ∷ "no" ∷ "off" ∷ [])
    then not_requested
    else refused invalid_value

-- A nil map of annotations reads like an empty one.
unfoldable pub parse_override : (ℕ → ℕ) → List (String × String) → Parsed
unfolding break_glass
parse_override to_lower annotations =
    let raw = trim_space (codes (or_empty (lookup "rehearsal.io/break-glass" annotations))) in
    break_glass raw (map to_lower raw)
      (trim_space (codes (or_empty (lookup "rehearsal.io/break-glass-reason" annotations))))

-- The first evidence that speaks of nodes, as the note quotes it.
note_evidence : Option String → String
note_evidence none = ""
note_evidence (some e) = concat ("; " ∷ e ∷ [])

unfoldable pub pass_informational_note : Verdict → String
unfolding note_evidence
pass_informational_note v =
    if v.explanation == ""
    then ""
    else if not (v.detector == "scheduling-capacity")
    then ""
    else if not (contains_text (codes v.explanation) (codes "no Node objects"))
        && not (contains_text (codes v.explanation) (codes "does not need capacity"))
    then ""
    else concat (
        v.detector
        ∷ ": "
        ∷ v.explanation
        ∷ note_evidence (
            find
              (λ e.
                contains_text (codes e) (codes "nodes collect")
                || contains_text (codes e) (codes "no Node"))
              v.evidence)
        ∷ [])

abbrev unless_empty : String → List String
unless_empty s = if s == "" then [] else s ∷ []

-- The reasons and the rule ids that the loop over the detectors adds.
unfoldable pub detector_reasons : List Verdict → List String
unfolding pass_informational_note
detector_reasons [] = []
detector_reasons (v ∷ vs) =
    (if v.status == "PASS"
      then unless_empty (pass_informational_note v)
      else if v.explanation == ""
      then []
      else concat (v.detector ∷ ": " ∷ v.explanation ∷ []) ∷ [])
    ++ detector_reasons vs

unfoldable pub detector_rules : List Verdict → List String
detector_rules [] = []
detector_rules (v ∷ vs) = (if v.status == "PASS" then [] else v.detector ∷ []) ++ detector_rules vs

unfoldable pub predicted_reasons : List String → List String
predicted_reasons [] = []
predicted_reasons (p ∷ ps) = unless_empty p ++ predicted_reasons ps

-- `if len(out.Reasons) == 0 && out.Decision == Allow`
abbrev or_default : List String → String → List String
or_default [] decision = if decision == "ALLOW" then "no blocking impact findings" ∷ [] else []
or_default (r ∷ rs) decision = r ∷ rs

-- The report pointer may be nil.
unfoldable pub from_impact : (ℕ → ℕ) → Option Report → ℕ → Result
unfolding map_impact_verdict detector_reasons detector_rules predicted_reasons
from_impact to_upper none duration = record {
  decision = "UNKNOWN";
  reasons = "impact report missing" ∷ [];
  rule_ids = [];
  duration_ms = duration;
  app_name = "";
  change_id = "";
  override = none;
}
from_impact to_upper (some rep) duration = record {
  decision = map_impact_verdict to_upper rep.verdict;
  reasons =
      or_default
        (unless_empty rep.summary
          ++ (detector_reasons rep.detectors ++ predicted_reasons rep.predicted))
        (map_impact_verdict to_upper rep.verdict);
  rule_ids = detector_rules rep.detectors;
  duration_ms = duration;
  app_name = rep.app_name;
  change_id = rep.change_id;
  override = none;
}

-- The line that the override puts before the reasons; its text is the parameter's.
unfoldable pub apply_override : (List ℕ → String) → Result → Option Override → Result
apply_override show r none = r
apply_override show r (some ov) =
    if ov.enabled
    then record r { override = some ov; decision = "ALLOW"; reasons = show ov.reason ∷ r.reasons }
    else r

-- `fail` of runArgoPresync
abbrev pub failed : List String → String → ℕ → Result
failed reasons app duration = record {
  decision = "UNKNOWN";
  reasons = reasons;
  rule_ids = [];
  duration_ms = duration;
  app_name = app;
  change_id = "";
  override = none;
}

abbrev pub concluded : (List ℕ → String) → Option Override → String → Result → Result
concluded show ov app r =
    if r.decision == ""
    then failed ("unknown decision from impact gate" ∷ []) app r.duration_ms
    else let last = apply_override show r ov in
      record last { app_name = if last.app_name == "" then app else last.app_name }

-- runArgoPresync where its inputs can be read: the result that it emits. An override that is refused fails
-- closed; its text is `error_text`. The report is that of the gate, merged with the analysis.
unfoldable pub run_presync :
    (ℕ → ℕ)
    → (List ℕ → String)
    → (OverrideError → String)
    → String
    → Parsed
    → Option Report
    → ℕ
    → Result
unfolding from_impact apply_override
run_presync to_upper show error_text app (refused e) rep duration =
    failed (error_text e ∷ []) app duration
run_presync to_upper show error_text app not_requested rep duration =
    concluded show none app (from_impact to_upper rep duration)
run_presync to_upper show error_text app (requested ov) rep duration =
    concluded show (some ov) app (from_impact to_upper rep duration)
