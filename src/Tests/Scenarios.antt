-- ===== src/Tests/Scenarios.antt =====
-- The drain of a node and a rule of Prometheus in internal/scenario, on a concrete graph.
use architecture_rehearsal.Prelude.{
  ◌≡◌, refl, String, none, some, List, [], ◌∷◌, any, true, false, not, ◌||◌, ◌==◌, lookup, is_nil,
  map, concat, is_space,
}
use architecture_rehearsal.Graph.{
  Node, Edge, Index, Snapshot, ℤ, Attribute, text, object, field, end, array, cons, nil,
  attr_string,
}
use architecture_rehearsal.Graph.Values.{entries}
use architecture_rehearsal.Loader.{ChangeEnvelope, fact_string}
use architecture_rehearsal.Analyze.{decide}
use architecture_rehearsal.Verify.{scalar, meta_value}
use architecture_rehearsal.Scenario.{Context, Runner, not_matched, run_one, run_all}
use architecture_rehearsal.Scenario.Storage.{
  lost_node, rwo_requirements, rwo_evaluate, zones_of, is_stranded, zone_requirements,
  zone_evaluate,
}
use architecture_rehearsal.Scenario.Traffic.{
  budget_requirements, budget_evaluate, routing_requirements, routing_evaluate,
}
use architecture_rehearsal.Scenario.Prometheus.{
  prom_zero_match, metric_requirements, metric_evaluate,
}
use architecture_rehearsal.Scenario.Approve.{run_all-decide, is_quiet, ids_of}
use architecture_rehearsal.Scenario.NodeLoss.{
  default_runners, keeps_claim, claims, run_all-node_loss,
}

abbrev decimal : ℤ → String
decimal n = "n"

abbrev quote : String → String
quote s = s

abbrev node : String → Node
node name = record {
  id = name;
  kind = "Node";
  name = name;
  namespace = "";
  attributes = ("zone", text "z1") ∷ [];
  source = "";
  source_ref = "";
}

abbrev claim : Node
claim = record {
  id = "data";
  kind = "PVC";
  name = "data";
  namespace = "shop";
  attributes =
      ("accessMode", text "ReadWriteOnce") ∷ ("boundNode", text "a") ∷ ("zone", text "z1") ∷ [];
  source = "";
  source_ref = "";
}

abbrev bound : Edge
bound = record { id = ""; from = "db"; to = "data"; rel = "BINDS_VOLUME"; attrs = [] }

abbrev graph : List Node → Snapshot
graph nodes = record {
  id = "g";
  name = "";
  source = "";
  phase = "";
  nodes = nodes;
  edges = bound ∷ [];
}

abbrev index : Snapshot → List Node → Index
index g nodes = record {
  snap = g;
  by_id = ("a", node "a") ∷ ("data", claim) ∷ [];
  out = ("db", bound ∷ []) ∷ [];
  in' = ("data", bound ∷ []) ∷ [];
  by_kind = ("Node", nodes) ∷ ("PVC", claim ∷ []) ∷ [];
}

-- Node b is drained; node a, where the claim is bound, is in the same zone.
abbrev drain : ChangeEnvelope
drain = record {
  kind = "node-drain";
  id = "drain";
  title = "";
  description = "";
  seeds = [];
  facts = ("lost_node", text "b") ∷ [];
  added_nodes = [];
  removed_nodes = [];
  patch_nodes = [];
  added_edges = [];
}

abbrev ctx : Context
ctx =
    let before = graph (node "a" ∷ node "b" ∷ claim ∷ []) in
    let after = graph (node "a" ∷ claim ∷ []) in
    record {
      baseline = record { graph = before; meta = none };
      proposed = after;
      change = drain;
      base_idx = index before (node "a" ∷ node "b" ∷ []);
      prop_idx = index after (node "a" ∷ []);
    }

abbrev idle : Runner
idle = record {
  name = "prom-zero-match";
  applicable = λ c. false;
  missing_requirements = λ c. [];
  evaluate = λ c. not_matched;
}

run_all-decide_example :
    (decide (ids_of (run_all ctx (idle ∷ [])).1) (run_all ctx (idle ∷ [])).0 == "approve")
    ≡ not (any (λ r. not (is_quiet ctx r)) (idle ∷ []))
run_all-decide_example = run_all-decide ctx (idle ∷ [])

approved :
    (let out = run_all ctx (default_runners decimal quote) in
      decide (ids_of out.1) out.0 == "approve")
    ≡ true
unfolding decide run_all run_one rwo_requirements rwo_evaluate zone_requirements zone_evaluate
    budget_requirements budget_evaluate routing_requirements routing_evaluate lost_node fact_string
    attr_string lookup
approved = refl

run_all-node_loss_example :
    ((lost_node ctx == "" || not (any (keeps_claim ctx) (claims ctx))) ≡ true)
    × ((is_nil (claims ctx) || (is_nil (zones_of ctx) || not (any (is_stranded ctx) (claims ctx))))
        ≡ true)
run_all-node_loss_example = run_all-node_loss decimal quote ctx refl approved

-- A rule on the job of a metric, of which only the instance was observed.
abbrev rule : ChangeEnvelope
rule = record drain {
  kind = "prometheus-rule";
  facts =
      ("expr", text " up {job='api'} == 0")
      ∷ ("label_matchers", object (field "job" (text "api") end))
      ∷ [];
}

abbrev observed_labels : Attribute
observed_labels =
    object (field "up" (object (field "instance" (array (cons (text "a:9090") nil)) end)) end)

abbrev rule_ctx : Context
rule_ctx = record ctx {
  baseline = record {
    graph = graph [];
    meta = some (("metric_labels", scalar observed_labels) ∷ []);
  };
  change = rule;
}

rule_gap :
    map (λ f. f.evidence) (run_all rule_ctx (prom_zero_match quote ∷ [])).0
    ≡ ("label job never observed on metric up" ∷ []) ∷ []
unfolding run_all run_one metric_requirements metric_evaluate fact_string lookup concat meta_value
    is_space entries
rule_gap = refl
