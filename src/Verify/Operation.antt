-- ===== src/Verify/Operation.antt =====
-- internal/verify/verify.go: RunWithOptions. A digest is `none` where digestObj fails; the digests of
-- SHA-256 over JSON and `decimal`, the verb %d, are parameters. The score is the fraction before its
-- division, and what is constant or the time is left out of the result.
use architecture_rehearsal.Prelude.{
  ℕ, String, Option, none, some, List, [], ◌∷◌, ◌++◌, map, filter, gather, is_nil, contains, length,
  Bool, true, false, not, ◌&&◌, ◌||◌, ◌==◌, lookup, eqb, ltb, concat, non_empty, if◌then◌else◌,
}
use architecture_rehearsal.Graph.{Snapshot, Index, Attribute, ℤ, pos, text, build_index}
use architecture_rehearsal.Loader.{ChangeEnvelope}
use architecture_rehearsal.Analyze.{Finding, unique_strings}
use architecture_rehearsal.Chain.{short}
use architecture_rehearsal.Verify.{
  Value, items, strings, Observed, Prediction, Check, passes, fails, unsettled, softly, meta_value,
  is_some,
}
use architecture_rehearsal.Verify.Signals.{primary_survivor_components}
use architecture_rehearsal.Verify.Scenarios.{independent_scenario_check}
use architecture_rehearsal.Verify.Identity.{PatchId, change_identity_checks, delta_checks}
use architecture_rehearsal.Verify.Judge.{
  Outcome, diverged, inconclusive, no_checks, score_from, judge,
}

pub record Options : Type 0 where
  pub baseline : Option Observed
  pub change : Option ChangeEnvelope
  pub require_all_predictions : Option Bool
  pub allow_legacy_verified : Bool

-- The digests that digestObj gives (Verify/Digest), and the fingerprint of a change; nothing is asked of
-- them.
pub record Digests : Type 0 where
  pub snapshot : Observed → Option String
  pub change : ChangeEnvelope → Option String
  pub report : Prediction → Option String
  pub fingerprint : List PatchId → String

pub record Result : Type 0 where
  pub change_id : String
  pub prediction_risk : String
  pub outcome : Outcome
  pub summary : String
  pub checks : List Check
  pub score : ℕ × ℕ
  pub deployed_change_digest : String
  pub mode : String
  pub baseline_digest : String
  pub change_digest : String
  pub report_digest : String
  pub observed_digest : String

-- AssertBindings of internal/analyze/analyze.go: its error.
unfoldable pub assert_bindings : Prediction → String → String → Option String
unfolding short
assert_bindings rep b c =
    if rep.baseline_digest == "" || rep.change_digest == ""
    then some "report missing content digests (need analyze ≥1.1.0)"
    else if non_empty b && not (rep.baseline_digest == b)
    then some (
        concat (
          "baselineDigest mismatch: report=" ∷ short rep.baseline_digest ∷ " live=" ∷ short b ∷ []))
    else if non_empty c && not (rep.change_digest == c)
    then some (
        concat
          ("changeDigest mismatch: report=" ∷ short rep.change_digest ∷ " live=" ∷ short c ∷ []))
    else none

-- The error that ends the verification, or the checks to go on with.
pub data Binding : Type 0 where
  broken : String → Binding
  bound : List Check → Binding

abbrev pub checked_binding : String → String → Option String → Binding
checked_binding b c (some error) = broken error
checked_binding b c none = bound (
    passes "report_binding"
      (concat ("report bound to baseline=" ∷ short b ∷ " change=" ∷ short c ∷ []))
    ∷ [])

unfoldable pub binding : Prediction → Option String → Option String → Binding
unfolding assert_bindings short
binding pred (some b) (some c) =
    if pred.baseline_digest == "" && pred.change_digest == ""
    then bound (
        softly true "report_binding"
          "report has no baselineDigest/changeDigest (pre-1.1 or synthetic unit test)"
        ∷ [])
    else checked_binding b c (assert_bindings pred b c)
binding pred _ _ = bound []

abbrev texts_in : List Attribute → List String
texts_in [] = []
texts_in (text s ∷ rest) = s ∷ texts_in rest
texts_in (_ ∷ rest) = texts_in rest

abbrev named_failures : Option Value → List String
named_failures (some (items xs)) = texts_in xs
named_failures (some (strings ss)) = ss
named_failures _ = []

-- The keys of the map of parseObservedFailures.
unfoldable pub parse_observed_failures : Observed → List String
parse_observed_failures observed = named_failures (meta_value observed.meta "observed_failures")

abbrev comma_separated : List String → List String
comma_separated [] = []
comma_separated (s ∷ []) = s ∷ []
comma_separated (s ∷ t ∷ rest) = s ∷ "," ∷ comma_separated (t ∷ rest)

unfoldable pub soft_missing : List String → List String
soft_missing [] = []
soft_missing (s ∷ ss) = "; missing=" ∷ comma_separated (s ∷ ss)

abbrev pub when : Bool → List Check → List Check
when true cs = cs
when false cs = []

module _ (decimal : ℤ → String) (digests : Digests) where
  unfoldable pub annotation : List String → List String → Bool → List Check
  unfolding soft_missing
  annotation [] observed require_all = []
  annotation (p ∷ ps) [] require_all =
      record {
        name = "operator_observed_failures_annotation";
        passed = false;
        detail = "no meta.observed_failures annotation (optional)";
        unknown = true;
        soft = true;
      }
      ∷ []
  annotation (p ∷ ps) (f ∷ fs) require_all =
      let matched = length (filter (λ s. contains (f ∷ fs) s) (p ∷ ps)) in
      let missing = filter (λ s. not (contains (f ∷ fs) s)) (p ∷ ps) in
      softly (if require_all then eqb matched (length (p ∷ ps)) else ltb 0 matched)
        "operator_observed_failures_annotation"
        (concat (
          "annotation matched "
            ∷ decimal (pos matched)
            ∷ "/"
            ∷ decimal (pos (length (p ∷ ps)))
            ∷ " predicted failure ids"
            ∷ (if require_all then [] else " (legacy partial match)" ∷ [])
          ++ soft_missing missing))
      ∷ []

  unfoldable pub missing_components : List Finding → Index → List Check
  missing_components findings idx =
      map
        (λ c.
          fails (concat ("component_missing:" ∷ c ∷ []))
            "primary workload/PVC from finding not present in observed graph")
        (filter (λ c. not (is_some (lookup c idx.by_id)))
          (unique_strings (gather (λ f. primary_survivor_components f.components) findings)))

  unfoldable pub scenario_checks : Prediction → Observed → Index → List Check
  scenario_checks pred observed idx =
      map (λ s. independent_scenario_check decimal s pred observed idx) pred.predicted_failures
      ++ when (is_nil pred.predicted_failures)
          (passes "no_predicted_failures" "analysis predicted no failure patterns" ∷ [])

  abbrev pub change_checks : Option ChangeEnvelope → Index → String × List Check
  change_checks none idx = ("", [])
  change_checks (some ch) idx = change_identity_checks decimal digests.fingerprint ch idx

  abbrev pub baseline_checks : Option Observed → Option ChangeEnvelope → Snapshot → List Check
  baseline_checks (some base) (some ch) observed = delta_checks decimal base.graph ch observed
  baseline_checks _ _ observed = []

  abbrev pub is_production : Options → Bool
  is_production o = is_some o.baseline && is_some o.change

  abbrev required : Option Bool → Bool
  required none = true
  required (some b) = b

  abbrev pub context_checks : Options → List Check
  context_checks o = when (not (is_production o)) (
      unsettled "identity_context"
        "baseline and change not provided — identity/delta checks skipped; max outcome INCONCLUSIVE"
      ∷ [])

  abbrev pub noted : Prediction → Observed → Options → List Check
  noted pred observed o =
      annotation pred.predicted_failures (parse_observed_failures observed)
        (required o.require_all_predictions)

  -- The checks after those of the binding.
  unfoldable pub gathered : Prediction → Observed → Options → List Check
  unfolding annotation missing_components scenario_checks parse_observed_failures
  gathered pred observed o =
      let idx = build_index observed.graph in
      context_checks o
      ++ scenario_checks pred observed idx
      ++ noted pred observed o
      ++ missing_components pred.findings idx
      ++ (change_checks o.change idx).1
      ++ baseline_checks o.baseline o.change observed.graph

  abbrev pub digest_of {ℓ} : {A : Type ℓ} → (A → Option String) → Option A → Option String
  digest_of f none = none
  digest_of f (some a) = f a

  abbrev if_both : Option String → Option String → Option String → String
  if_both (some b) (some c) (some d) = d
  if_both _ _ _ = ""

  abbrev pub begun : Prediction → Option Observed → Options → Option String → Option String → Result
  begun pred observed o b c = record {
    change_id = pred.change_id;
    prediction_risk = pred.risk;
    outcome = inconclusive;
    summary = "";
    checks = [];
    score = (0, 0);
    deployed_change_digest = "";
    mode = if is_production o then "production" else "legacy";
    baseline_digest = if_both b c b;
    change_digest = if_both b c c;
    report_digest = if_both b c (digests.report pred);
    observed_digest = if_both b c (digest_of digests.snapshot observed);
  }

  unfoldable pub concluded : Result → List Check → Observed → Options → Result
  concluded res checks observed o =
      let s = score_from no_checks checks in
      let (outcome, summary) = judge decimal (is_production o) o.allow_legacy_verified s in
      record res {
        outcome = outcome;
        summary = summary;
        checks = checks;
        score = (s.passed, s.total);
        deployed_change_digest = (change_checks o.change (build_index observed.graph)).0;
      }

  abbrev pub bound_result : Prediction → Observed → Options → Result → Binding → Result
  bound_result pred observed o res (broken error) = record res {
    outcome = diverged;
    summary = concat ("evidence binding broken: " ∷ error ∷ []);
    checks = fails "report_binding" error ∷ [];
  }
  bound_result pred observed o res (bound checks) =
      concluded res (checks ++ gathered pred observed o) observed o

  abbrev pub if_production : Options → Option String → Option String
  if_production o d = if is_production o then d else none

  unfoldable pub run_with_options : Prediction → Option Observed → Options → Result
  unfolding concluded gathered binding
  run_with_options pred none o = record (begun pred none o none none) {
    summary = "No observed snapshot provided.";
    checks = unsettled "observed_present" "observed is nil" ∷ [];
  }
  run_with_options pred (some observed) o =
      let b = if_production o (digest_of digests.snapshot o.baseline) in
      let c = if_production o (digest_of digests.change o.change) in
      bound_result pred observed o (begun pred (some observed) o b c) (binding pred b c)

  unfoldable pub run : Prediction → Option Observed → Result
  unfolding run_with_options
  run pred observed = run_with_options pred observed (record {
    baseline = none;
    change = none;
    require_all_predictions = none;
    allow_legacy_verified = false;
  })
