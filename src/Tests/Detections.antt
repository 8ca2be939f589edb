-- ===== src/Tests/Detections.antt =====
-- The detectors of internal/impact and the comparison of templates on concrete input.
use architecture_rehearsal.Prelude.{
  ◌≡◌, ◌≢◌, ◌↔◌, refl, String, none, some, List, [], ◌∷◌, map, All, true, false, ◌==◌, lookup,
  text_eq, contains_text, has_prefix, ascii_upper,
}
use architecture_rehearsal.Graph.{
  Node, Edge, Snapshot, Index, text, int, object, Fields, end, field, ℤ, pos, or_nil, attr_string,
  attr_int, workload_replicas,
}
use architecture_rehearsal.Graph.Values.{field_of, sprint}
use architecture_rehearsal.Loader.{ChangeEnvelope}
use architecture_rehearsal.Analyze.{decide}
use architecture_rehearsal.Podtemplate.{subset_changed}
use architecture_rehearsal.Podtemplate.Subset.{subset_changed-chain}
use architecture_rehearsal.Verify.{Observed}
use architecture_rehearsal.Impact.{Verdict}
use architecture_rehearsal.Impact.Unavailable.{
  none_remain, rollout_max_unavailable, effective_min_available, effective_max_unavailable, atoi,
  floor_percent, ceil_percent, parse_max_unavailable,
}
use architecture_rehearsal.Impact.Pdb.{
  sync_template_uncertain, sync_template_uncertain_detail, judge, judge_all, verdict_without_pdbs,
}
use architecture_rehearsal.Impact.Context.{display, Context, object_at}
use architecture_rehearsal.Impact.Run.{Detector, run, applicable, runner_of}
use architecture_rehearsal.Impact.Agree.{run-decide}
use architecture_rehearsal.Scenario
use architecture_rehearsal.Scenario.{run_all}
use architecture_rehearsal.Scenario.Approve.{ids_of}
use architecture_rehearsal.Impact.Netpol
use architecture_rehearsal.Impact.NetpolCuts.{IsTouched, IsCut}
use architecture_rehearsal.Impact.NetpolDependencies.{IsDependency}
use architecture_rehearsal.Impact.NetpolCuts
use architecture_rehearsal.Impact.Blast
use architecture_rehearsal.Impact.Pvc.{zone_set, nodes_of, binders, claims_of}
use architecture_rehearsal.Impact.Pvc
use architecture_rehearsal.Impact.PvcZones.{is_placed, zone_agrees}
use architecture_rehearsal.Impact.PvcZones
use architecture_rehearsal.Impact.Budgets.{
  budgets_of, rollout_of, resolve, sync_triggers_rollout, matching_pdb, workloads_for_pdb,
}
use architecture_rehearsal.Impact.Budgets
use architecture_rehearsal.Impact.BudgetsPass.{all_safe, budgets_keep}
use architecture_rehearsal.Impact.BudgetsPass

abbrev decimal : ℤ → String
decimal n = "n"

abbrev image : String → Fields
image tag = field "image" (text tag) end

abbrev defaulted : Fields
defaulted = field "image" (text "api:2") (field "restartPolicy" (text "Always") end)

same_image : subset_changed (some (image "api:2")) (some (image "api:2")) ≡ false
unfolding subset_changed field_of
same_image = refl

with_default : subset_changed (some (image "api:2")) (some defaulted) ≡ false
unfolding subset_changed field_of
with_default = refl

subset_changed-chain_example :
    (subset_changed (some (image "api:2")) (some defaulted) ≡ false)
    × (subset_changed
          (some (image "api:2"))
          (some (field "dnsPolicy" (text "ClusterFirst") defaulted))
        ≡ false)
unfolding field_of
subset_changed-chain_example =
    subset_changed-chain (image "api:2") (image "api:2") defaulted "dnsPolicy" (text "ClusterFirst")
      same_image with_default refl

abbrev api : Node
api = record {
  id = "workload/shop/api";
  kind = "Workload";
  name = "api";
  namespace = "shop";
  attributes =
      ("replicas", int (pos 4))
      ∷ ("nodeSelector", object (field "topology.kubernetes.io/zone" (text "a") end))
      ∷ [];
  source = "";
  source_ref = "";
}

abbrev data_claim : Node
data_claim = record {
  id = "pvc/shop/data";
  kind = "PVC";
  name = "data";
  namespace = "shop";
  attributes = ("zone", text "a") ∷ [];
  source = "";
  source_ref = "";
}

abbrev host : Node
host = record {
  id = "node/n1";
  kind = "Node";
  name = "n1";
  namespace = "";
  attributes = ("zone", text "a") ∷ [];
  source = "";
  source_ref = "";
}

abbrev budget : Node
budget = record {
  id = "pdb/shop/api";
  kind = "PDB";
  name = "api";
  namespace = "shop";
  attributes = ("minAvailable", int (pos 2)) ∷ [];
  source = "";
  source_ref = "";
}

abbrev edge : String → String → String → Edge
edge from to rel = record { id = ""; from = from; to = to; rel = rel; attrs = [] }

abbrev binds : Edge
binds = edge "workload/shop/api" "pvc/shop/data" "BINDS_VOLUME"

abbrev protected : Edge
protected = edge "workload/shop/api" "pdb/shop/api" "PROTECTED_BY"

abbrev snapshot : Snapshot
snapshot = record {
  id = "base";
  name = "";
  source = "";
  phase = "baseline";
  nodes = api ∷ data_claim ∷ host ∷ budget ∷ [];
  edges = binds ∷ protected ∷ [];
}

abbrev idx : Index
idx = record {
  snap = snapshot;
  by_id =
      ("workload/shop/api", api)
      ∷ ("pvc/shop/data", data_claim)
      ∷ ("node/n1", host)
      ∷ ("pdb/shop/api", budget)
      ∷ [];
  out = ("workload/shop/api", binds ∷ protected ∷ []) ∷ [];
  in' = ("pvc/shop/data", binds ∷ []) ∷ ("pdb/shop/api", protected ∷ []) ∷ [];
  by_kind =
      ("Workload", api ∷ [])
      ∷ ("PVC", data_claim ∷ [])
      ∷ ("Node", host ∷ [])
      ∷ ("PDB", budget ∷ [])
      ∷ [];
}

abbrev base : Observed
base = record { graph = snapshot; meta = none }

abbrev no_change : ChangeEnvelope
no_change = record {
  kind = "argo-sync";
  id = "sync";
  title = "";
  description = "";
  seeds = [];
  facts = [];
  added_nodes = [];
  removed_nodes = [];
  patch_nodes = [];
  added_edges = [];
}

abbrev ctx : Context
ctx = record {
  baseline = some base;
  proposed = some snapshot;
  change = some no_change;
  base_idx = some idx;
  prop_idx = some idx;
  pdbs_collected = true;
}

pvc_passes : ((Pvc.evaluate decimal ctx).status == "PASS") ≡ true
unfolding Pvc.evaluate lookup attr_string sprint field_of
pvc_passes = refl

pdb_passes : ((Budgets.evaluate decimal ctx).status == "PASS") ≡ true
unfolding Budgets.evaluate lookup workload_replicas none_remain rollout_max_unavailable text_eq
    attr_string attr_int sync_template_uncertain sync_template_uncertain_detail
    effective_min_available effective_max_unavailable contains_text has_prefix ascii_upper atoi
    floor_percent ceil_percent parse_max_unavailable judge judge_all verdict_without_pdbs
    sync_triggers_rollout matching_pdb workloads_for_pdb display
pdb_passes = refl

abbrev detectors : List Detector
detectors =
    record { name = "networkpolicy-cut"; evaluate = Netpol.evaluate decimal }
    ∷ record { name = "blast-radius"; evaluate = Blast.evaluate decimal }
    ∷ []

abbrev summary_line : String → List Verdict → String
summary_line gate verdicts = gate

-- The change of the tests as a sync.
abbrev sync : ChangeEnvelope
sync = record no_change { kind = "argo-sync" }

run-decide_example :
    let out = run_all (Scenario.context_of base sync) (map runner_of detectors) in
    ((run summary_line base sync detectors).verdict ≡ "PASS")
    ↔ ((detectors ≢ []) × ((decide (ids_of out.1) out.0 == "approve") ≡ true))
unfolding applicable
run-decide_example = run-decide summary_line base sync detectors refl

evaluate-is_placed_example :
    All
      (λ pvc.
        (is_placed decimal (some base) (zone_set (nodes_of idx idx)) pvc ≡ true)
        × All (λ w. zone_agrees decimal pvc (object_at "nodeSelector" w) ≡ true) (binders idx pvc))
      (claims_of idx)
evaluate-is_placed_example = PvcZones.evaluate-is_placed decimal ctx idx idx refl refl pvc_passes

evaluate-all_safe_example :
    (all_safe decimal (
        map
          (rollout_of decimal (some no_change) idx idx (budgets_of decimal idx idx))
          (or_nil (lookup "Workload" idx.by_kind)))
      ≡ true)
    × (budgets_keep decimal
          (rollout_of decimal (some no_change) idx idx (budgets_of decimal idx idx))
          (resolve decimal idx idx)
          idx
          (budgets_of decimal idx idx)
        ≡ true)
evaluate-all_safe_example = BudgetsPass.evaluate-all_safe decimal ctx idx idx refl refl pdb_passes

evaluate-block_example :
    ((Netpol.evaluate decimal ctx).status ≡ "BLOCK")
    ↔ (IsTouched no_change idx idx × ((e : Edge) × IsDependency ctx e × IsCut decimal idx idx e))
evaluate-block_example = NetpolCuts.evaluate-block decimal ctx no_change idx idx refl refl refl
