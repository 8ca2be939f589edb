-- ===== src/Tests/Verifications.antt =====
-- Verifications of internal/verify/verify.go on concrete snapshots.
use architecture_rehearsal.Prelude.{
  has_prefix, ◌≡◌, ◌↔◌, ◌⊎◌, refl, String, Option, none, some, List, [], ◌∷◌, any, true, false,
  ◌||◌, lookup, insert,
}
use architecture_rehearsal.Graph.{
  Node, Snapshot, ℤ, pos, int, build_index, attr_int, index_nodes, index_edges, index_node,
  append_to, attr_bool, workload_replicas,
}
use architecture_rehearsal.Loader.{ChangeEnvelope}
use architecture_rehearsal.Analyze.{Finding}
use architecture_rehearsal.Verify.{
  Observed, Prediction, Check, passes, unsettled, scalar, strings, eqz, as_int, meta_value,
  optional_int,
}
use architecture_rehearsal.Verify.Digest.{digest_obj}
use architecture_rehearsal.Verify.Signals.{components_for_scenario, primary_survivor_components}
use architecture_rehearsal.Verify.Measures.{meta_int}
use architecture_rehearsal.Verify.Scenarios.{
  independent_scenario_check, check_service_routing, check_services, routed, check_cni_capacity,
}
use architecture_rehearsal.Verify.Identity.{
  change_identity_checks, patch_loop, patch_result, patch_present, convergence, parts_of,
  delta_checks, replica_delta,
}
use architecture_rehearsal.Verify.Judge.{
  verified, diverged, no_checks, score_from, scored, judge, conclude,
}
use architecture_rehearsal.Verify.Operation.{
  Options, Digests, run_with_options, gathered, concluded, binding, assert_bindings,
  scenario_checks, missing_components, annotation, parse_observed_failures,
}
use architecture_rehearsal.Verify.Outcome.{refutes, leaves_open, confirms, judge-outcome}
use architecture_rehearsal.Verify.Evidence.{independent_scenario_check-refutes, IsReady}
use architecture_rehearsal.Verify.Sound.{IsSupported, run_with_options-verified}
use architecture_rehearsal.Verify.Annotation.{annotated, run_with_options-annotated}

abbrev decimal : ℤ → String
decimal n = "n"

-- Texts that are their own digests.
abbrev plain_digest : Option String → Option String
plain_digest t = digest_obj (λ raw. raw) (λ raw. some raw) (λ v. v) t

abbrev digests : Digests
digests = record {
  snapshot = λ o. plain_digest (some o.graph.id);
  change = λ ch. plain_digest (some ch.id);
  report = λ p. plain_digest (some p.change_id);
  fingerprint = λ parts. "f";
}

abbrev api : Node
api = record {
  id = "workload/shop/api";
  kind = "Workload";
  name = "api";
  namespace = "shop";
  attributes = ("replicas", int (pos 2)) ∷ [];
  source = "";
  source_ref = "";
}

abbrev scaled : Node
scaled = record api { attributes = ("replicas", int (pos 4)) ∷ [] }

abbrev snapshot : String → Node → Snapshot
snapshot id n = record {
  id = id;
  name = "";
  source = "";
  phase = "baseline";
  nodes = n ∷ [];
  edges = [];
}

abbrev before : Observed
before = record { graph = snapshot "base" api; meta = none }

abbrev after : Observed
after = record {
  graph = snapshot "live" scaled;
  meta = some (("cni_ip_available", scalar (int (pos 0))) ∷ []);
}

abbrev scale_up : ChangeEnvelope
scale_up = record {
  kind = "scale";
  id = "up";
  title = "";
  description = "";
  seeds = [];
  facts = [];
  added_nodes = [];
  removed_nodes = [];
  patch_nodes = scaled ∷ [];
  added_edges = [];
}

abbrev exhausted : Finding
exhausted = record {
  id = "f1";
  scenario = "cni-ip-capacity";
  risk = "high";
  title = "";
  summary = "";
  components = "workload/shop/api" ∷ [];
  cascade = [];
  controls = [];
  slo_impact = "";
  evidence = [];
  rollback = "";
  confidence = "high";
}

abbrev prediction : Prediction
prediction = record {
  change_id = "up";
  risk = "high";
  predicted_failures = "cni-ip-capacity" ∷ [];
  findings = exhausted ∷ [];
  baseline_digest = "base";
  change_digest = "up";
}

abbrev production : Options
production = record {
  baseline = some before;
  change = some scale_up;
  require_all_predictions = none;
  allow_legacy_verified = false;
}

is_verified :
    (run_with_options decimal digests prediction (some after) production).outcome ≡ verified
unfolding run_with_options build_index index_nodes index_node index_edges append_to lookup insert
    check_cni_capacity as_int meta_value gathered concluded binding assert_bindings scenario_checks
    missing_components annotation parse_observed_failures change_identity_checks patch_loop
    patch_result patch_present convergence parts_of delta_checks replica_delta judge conclude
    score_from scored independent_scenario_check optional_int workload_replicas attr_int
    primary_survivor_components has_prefix
is_verified = refl

run_with_options-verified_example :
    (seen : Observed) × (base : Observed) × (ch : ChangeEnvelope) × (some after ≡ some seen)
    × (some before ≡ some base)
    × (some scale_up ≡ some ch)
    × IsSupported decimal digests prediction seen base ch
run_with_options-verified_example =
    run_with_options-verified decimal digests prediction (some after) production is_verified

run_with_options-annotated_example :
    ((run_with_options decimal digests prediction
        (some (annotated (snapshot "live" scaled) [] (strings ("volume-az" ∷ []))))
        production).outcome
      ≡ (run_with_options decimal digests prediction
          (some (record { graph = snapshot "live" scaled; meta = some [] }))
          production).outcome)
    × ((run_with_options decimal digests prediction
          (some (annotated (snapshot "live" scaled) [] (strings ("volume-az" ∷ []))))
          production).score
        ≡ (run_with_options decimal digests prediction
            (some (record { graph = snapshot "live" scaled; meta = some [] }))
            production).score)
run_with_options-annotated_example =
    run_with_options-annotated decimal digests (snapshot "live" scaled) []
      (strings ("volume-az" ∷ [])) prediction production

abbrev mixed : List Check
mixed = passes "scenario:volume-az" "" ∷ unsettled "scenario:rwo-node-loss" "" ∷ []

judge-outcome_example :
    (((judge decimal true false (score_from no_checks mixed)).0 ≡ diverged)
      ↔ (any refutes mixed ≡ true))
    × (((judge decimal true false (score_from no_checks mixed)).0 ≡ verified) ↔ (
        (any refutes mixed ≡ false)
        × (any leaves_open mixed ≡ false)
        × (any confirms mixed ≡ true)
        × ((true || false) ≡ true)))
judge-outcome_example = judge-outcome decimal true false mixed

abbrev routing : Prediction
routing = record prediction {
  predicted_failures = "service-routing" ∷ [];
  findings =
      record exhausted { scenario = "service-routing"; components = "svc/shop/api" ∷ [] } ∷ [];
}

abbrev serving : Snapshot
serving = snapshot "live" (record api {
  id = "svc/shop/api";
  kind = "Service";
  attributes = ("readyEndpoints", int (pos 2)) ∷ [];
})

abbrev serves : Observed
serves = record { graph = serving; meta = none }

abbrev routing_id : String
routing_id = "service-routing"

still_routed :
    refutes (independent_scenario_check decimal routing_id routing serves (build_index serving))
    ≡ true
unfolding independent_scenario_check check_service_routing check_services routed build_index
    index_nodes index_node index_edges append_to lookup insert components_for_scenario has_prefix
    attr_int attr_bool
still_routed = refl

independent_scenario_check-refutes_example :
    ((routing_id ≡ "service-routing")
      × IsReady decimal (build_index serving) (components_for_scenario routing routing_id))
    ⊎ ((routing_id ≡ "prom-zero-match")
        × ((v : ℤ) × (meta_int serves "metric_match_count" ≡ some v) × (eqz v (pos 0) ≡ false)))
independent_scenario_check-refutes_example =
    independent_scenario_check-refutes decimal routing_id routing serves (build_index serving)
      still_routed
