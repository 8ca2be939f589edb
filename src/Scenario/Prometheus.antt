-- ===== src/Scenario/Prometheus.antt =====
-- internal/scenario/prom_zero_match.go: the scenario of a rule that selects no observed series. `quote`
-- is the verb `%q` of package fmt. The metadata of a metric are values of JSON. A text is cut at a number
-- of characters, where Go counts bytes: in ASCII they are the same. The labels come in the order of the
-- map, which Go does not fix.
use Prim.Native.Char.{code}
use architecture_rehearsal.Prelude.{
  ℕ, zero, suc, String, Option, none, some, List, [], ◌∷◌, ◌++◌, map, gather, is_nil, any, contains,
  Bool, true, false, not, ◌&&◌, ◌||◌, ◌==◌, concat, lookup, eqb, is_space, if◌then◌else◌,
}
use architecture_rehearsal.Graph.{Attribute, text, object, null, Fields, or_nil}
use architecture_rehearsal.Graph.Values.{entries, as_object, as_array}
use architecture_rehearsal.Loader.{fact_string}
use architecture_rehearsal.Analyze.{Finding}
use architecture_rehearsal.Verify.{Value, scalar, as_scalar, meta_value}
use architecture_rehearsal.Scenario.{Context, Requirement, ScenarioResult, Runner, not_matched}
use architecture_rehearsal.Scenario.Storage.{lacking}

unfoldable trim_start : String → String
trim_start String.[] = ""
trim_start (String.◌∷◌ c s) =
    let rest = trim_start s in if is_space (code c) then rest else String.◌∷◌ c s

unfoldable trim_end : String → String
trim_end String.[] = ""
trim_end (String.◌∷◌ c s) =
    let rest = trim_end s in if is_space (code c) && rest == "" then "" else String.◌∷◌ c rest

-- The text before the first brace.
unfoldable before_brace : String → Option String
before_brace String.[] = none
before_brace (String.◌∷◌ c s) =
    let rest = before_brace s in
    if eqb (code c) 0x7b
    then some ""
    else elim rest [ none ↦ none | some t ↦ some (String.◌∷◌ c t) ]

abbrev or_empty : Option String → String
or_empty none = ""
or_empty (some t) = t

unfoldable guess_metric : String → String
unfolding trim_start trim_end before_brace
guess_metric expr = trim_end (trim_start (or_empty (before_brace (trim_end (trim_start expr)))))

unfoldable cut : ℕ → String → String
cut n String.[] = ""
cut zero (String.◌∷◌ c s) = "…"
cut (suc n) (String.◌∷◌ c s) = String.◌∷◌ c (cut n s)

abbrev text_in : Attribute → List String
text_in (text s) = s ∷ []
text_in _ = []

abbrev to_string_slice : Attribute → List String
to_string_slice v = gather text_in (as_array (some v))

abbrev is_map : String × Attribute → Bool
is_map (k, object fs) = true
is_map (k, _) = false

abbrev slices_of : Fields → List (String × List String)
slices_of fs = map (λ entry. (entry.0, to_string_slice entry.1)) (entries fs)

-- The results of `metricLabels`.
record Labels : Type 0 where
  labels : List (String × List String)
  known : Bool
  legacy : Bool

abbrev of_metric : Option Fields → Labels
of_metric none = record { labels = []; known = false; legacy = false }
of_metric (some fs) = record { labels = slices_of fs; known = true; legacy = false }

abbrev labels_in : String → Option Fields → Labels
labels_in metric none = record { labels = []; known = false; legacy = false }
labels_in metric (some raw) =
    if any is_map (entries raw)
    then of_metric (as_object (lookup metric (entries raw)))
    else record { labels = slices_of raw; known = true; legacy = true }

unfoldable metric_labels : Context → String → Labels
metric_labels ctx metric =
    labels_in metric (as_object (as_scalar (meta_value ctx.baseline.meta "metric_labels")))

abbrev matcher : String × Attribute → List (String × String)
matcher (label, text want) = (label, want) ∷ []
matcher (label, _) = []

abbrev matchers_in : Option Fields → List (String × String)
matchers_in none = []
matchers_in (some raw) = gather matcher (entries raw)

-- `required`
abbrev required_labels : Context → List (String × String)
required_labels ctx = matchers_in (as_object (lookup "label_matchers" ctx.change.facts))

abbrev spaced : List String → String
spaced [] = ""
spaced (s ∷ []) = s
spaced (s ∷ t ∷ ts) = concat (s ∷ " " ∷ spaced (t ∷ ts) ∷ [])

abbrev is_absent : Option Value → Bool
is_absent none = true
is_absent (some (scalar null)) = true
is_absent (some _) = false

unfoldable pub metric_requirements : Context → List Requirement
metric_requirements ctx =
    lacking (is_absent (meta_value ctx.baseline.meta "metric_labels")) "metric_labels"
      "meta.metric_labels required for Prometheus coverage check"

abbrev expr_of : Context → String
expr_of ctx = fact_string ctx.change.facts "expr" (fact_string ctx.change.facts "rule_expr" "")

unfoldable metric_of : Context → String
unfolding guess_metric
metric_of ctx = fact_string ctx.change.facts "metric" (guess_metric (expr_of ctx))

abbrev expr_missing : ScenarioResult
expr_missing = record {
  outcome = "unknown";
  findings =
      record {
        id = "unknown:prom-expr";
        scenario = "prom-zero-match";
        risk = "unknown";
        title = "Prometheus rule expr missing";
        summary = "Cannot evaluate series coverage without expr/label_matchers";
        components = [];
        cascade = [];
        controls = [];
        slo_impact = "";
        evidence = [];
        rollback = "unknown";
        confidence = "low";
      }
      ∷ [];
  missing = record { id = "expr"; message = "rule expr missing" } ∷ [];
}

module _ (quote : String → String) where
  -- What a matcher of a label misses.
  abbrev label_gap : String → List (String × List String) → String × String → List String
  label_gap metric labels (label, want) =
      let vals = or_nil (lookup label labels) in
      if is_nil vals
      then concat ("label " ∷ quote label ∷ " never observed on metric " ∷ quote metric ∷ []) ∷ []
      else if not (want == "") && not (contains vals want)
      then concat
          (label ∷ "=" ∷ quote want ∷ " not in [" ∷ spaced vals ∷ "] for " ∷ quote metric ∷ [])
        ∷ []
      else []

  unfoldable series_gaps : Context → List String
  unfolding metric_of metric_labels
  series_gaps ctx =
      let metric = metric_of ctx in
      let found = metric_labels ctx metric in
      (if not (metric == "") && (not found.legacy && not found.known)
        then concat ("metric " ∷ quote metric ∷ " not in metric_labels" ∷ []) ∷ []
        else [])
      ++ gather (label_gap metric found.labels) (required_labels ctx)

  abbrev zero_finding : Context → List String → Finding
  zero_finding ctx gaps = record {
    id = "prom-zero-match";
    scenario = "prom-zero-match";
    risk = "high";
    title = "Alert rule matches zero observed series";
    summary = concat (
        "Selectors do not match observed schema for metric "
        ∷ quote (metric_of ctx)
        ∷ "; expected coverage 0%. expr="
        ∷ cut 100 (expr_of ctx)
        ∷ []);
    components = ctx.change.seeds;
    cascade = "rule deploys" ∷ "matches zero series" ∷ "alert never fires" ∷ [];
    controls = "validate metric-specific labels before merge" ∷ "series-coverage CI check" ∷ [];
    slo_impact = "monitoring gap";
    evidence = gaps;
    rollback = "available";
    confidence = "high";
  }

  abbrev judge_gaps : Context → List String → ScenarioResult
  judge_gaps ctx [] = not_matched
  judge_gaps ctx (g ∷ gs) = record {
    outcome = "matched";
    findings = zero_finding ctx (g ∷ gs) ∷ [];
    missing = [];
  }

  unfoldable pub metric_evaluate : Context → ScenarioResult
  unfolding series_gaps cut metric_of
  metric_evaluate ctx = if expr_of ctx == "" then expr_missing else judge_gaps ctx (series_gaps ctx)

  abbrev pub prom_zero_match : Runner
  prom_zero_match = record {
    name = "prom-zero-match";
    applicable = λ ctx.
        ctx.change.kind == "prometheus-rule"
        || fact_string ctx.change.facts "scenario" "" == "prom-zero-match";
    missing_requirements = metric_requirements;
    evaluate = metric_evaluate;
  }
