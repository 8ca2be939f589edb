-- ===== src/Scenario/Storage.antt =====
-- internal/scenario/rwo_node_loss.go and volume_az.go: the scenarios of a lost node whose volumes cannot
-- be attached elsewhere, and of a zone that is left without nodes. A walk that ran out of fuel would
-- have no dependents; Graph/Fuel shows that none does.
use architecture_rehearsal.Prelude.{
  String, Option, none, some, List, [], ◌∷◌, ◌++◌, map, filter, gather, is_nil, find, any, contains,
  Bool, true, false, not, ◌&&◌, ◌||◌, ◌==◌, concat, lookup, non_empty, if◌then◌else◌,
}
use architecture_rehearsal.Graph.{Node, Index, attr_string, or_nil}
use architecture_rehearsal.Graph.Walk.{dependents_of}
use architecture_rehearsal.Loader.{ChangeEnvelope, fact_string, fact_bool}
use architecture_rehearsal.Analyze.{Finding}
use architecture_rehearsal.Verify.{holds, is_some}
use architecture_rehearsal.Verify.Measures.{is_set}
use architecture_rehearsal.Impact.Pdb.{unique}
use architecture_rehearsal.Impact.Context.{display}
use architecture_rehearsal.Scenario.{
  Context, Requirement, ScenarioResult, Runner, not_matched, matched_if_any, has_kind,
  rollback_fact,
}

abbrev pub is_node_loss : ChangeEnvelope → Bool
is_node_loss ch = ch.kind == "node-failure" || ch.kind == "node-drain"

abbrev pub lacking : Bool → String → String → List Requirement
lacking true id message = record { id = id; message = message } ∷ []
lacking false id message = []

unfoldable pub rwo_requirements : Context → List Requirement
rwo_requirements ctx =
    let idx = ctx.base_idx in
    let linked =
      any (λ e. e.rel == "BINDS_VOLUME") ctx.baseline.graph.edges
      || any (λ n. is_set (lookup "volumeClaims" n.attributes))
          (or_nil (lookup "Workload" idx.by_kind)) in
    lacking (not (has_kind idx "Node")) "node" "no Node objects in baseline"
    ++ (lacking (not (has_kind idx "PVC")) "pvc" "no PVC objects — cannot evaluate RWO reattach"
        ++ lacking (not linked && has_kind idx "PVC") "workload-pvc-edge"
            "no Workload→PVC edges or volumeClaims attributes")

abbrev is_kind : String → Option Node → Bool
is_kind kind n = holds (λ m. m.kind == kind) n

-- The node of the fact, or the first removed one.
unfoldable pub lost_node : Context → String
lost_node ctx =
    let named = fact_string ctx.change.facts "lost_node" "" in
    if named == ""
    then elim (find (λ id. is_kind "Node" (lookup id ctx.base_idx.by_id))
        ctx.change.removed_nodes) [ none ↦ "" | some id ↦ id ]
    else named

abbrev own_id : Option Node → List String
own_id none = []
own_id (some n) = if n.kind == "Workload" then n.id ∷ [] else []

unfoldable pub workloads_for_pvc : Index → String → List String
workloads_for_pvc idx pvc = unique (
    gather
      (λ entry.
        gather (λ e. own_id (lookup entry.0 idx.by_id))
          (filter (λ e. e.to == pvc && (e.rel == "BINDS_VOLUME" || e.rel == "DEPENDS_ON")) entry.1))
      idx.out)

abbrev name_of : Option Node → String
name_of none = ""
name_of (some n) = n.name

abbrev pub is_rwo : Node → Bool
is_rwo pvc =
    let mode = attr_string (some pvc) "accessMode" in mode == "ReadWriteOnce" || mode == "RWO"

-- The claim is bound to the node, by its identifier or its name.
abbrev pub is_bound_to : Index → String → Node → Bool
is_bound_to idx lost pvc =
    let bound = attr_string (some pvc) "boundNode" in
    bound == lost || bound == name_of (lookup lost idx.by_id)

-- The dependents of a workload that are nodes of the graph.
abbrev known_dependents : Index → String → List Node
known_dependents idx w =
    gather (λ id. elim (lookup id idx.by_id) [ none ↦ [] | some n ↦ n ∷ [] ])
      (or_nil (dependents_of idx w))

abbrev dependent_ids : Index → String → List String
dependent_ids idx w = filter (λ id. is_some (lookup id idx.by_id)) (or_nil (dependents_of idx w))

abbrev impact_texts : Index → String → List String
impact_texts idx w =
    concat ("workload " ∷ display idx w ∷ " cannot schedule" ∷ [])
    ∷ map (λ n. concat ("dependent " ∷ n.kind ∷ " " ∷ n.name ∷ " impacted" ∷ []))
        (known_dependents idx w)

unfoldable pub rwo_finding : Context → String → Node → Finding
unfolding workloads_for_pvc
rwo_finding ctx lost pvc =
    let idx = ctx.base_idx in
    let workloads = workloads_for_pvc idx pvc.id in
    let capacity = fact_bool ctx.change.facts "replacement_capacity_available" false in
    let zone = fact_bool ctx.change.facts "replacement_zone_compatible" true in
    record {
      id = concat ("rwo-node-loss:" ∷ pvc.id ∷ []);
      scenario = "rwo-node-loss";
      risk = if capacity && zone then "high" else "critical";
      title = "Stateful service unavailable after node loss (RWO volume)";
      summary = concat (
          "PVC "
          ∷ pvc.name
          ∷ " (RWO) bound to "
          ∷ display idx lost
          ∷ " cannot reattach after node loss."
          ∷ []);
      components =
          unique ((pvc.id ∷ lost ∷ []) ++ (workloads ++ gather (dependent_ids idx) workloads));
      cascade =
          (concat ("node " ∷ display idx lost ∷ " unavailable" ∷ [])
            ∷ concat ("RWO PVC " ∷ pvc.name ∷ " still attached to lost node" ∷ [])
            ∷ "volume cannot attach to replacement node until detach completes"
            ∷ [])
          ++ (gather (impact_texts idx) workloads
              ++ (if capacity then [] else "insufficient free capacity for replacement pod" ∷ []));
      controls =
          "validate detach/attach path" ∷ "reserve same-AZ capacity" ∷ "prepare rollback window"
          ∷ [];
      slo_impact = "availability SLO at risk";
      evidence =
          "accessMode=RWO" ∷ concat ("boundNode=" ∷ attr_string (some pvc) "boundNode" ∷ []) ∷ [];
      rollback = rollback_fact ctx.change;
      confidence = "high";
    }

unfoldable pub rwo_evaluate : Context → ScenarioResult
unfolding rwo_finding lost_node
rwo_evaluate ctx =
    let lost = lost_node ctx in
    if lost == ""
    then not_matched
    else matched_if_any (
        map (rwo_finding ctx lost) (
          filter (λ pvc. is_rwo pvc && is_bound_to ctx.base_idx lost pvc)
            (or_nil (lookup "PVC" ctx.base_idx.by_kind))))

abbrev pub rwo_node_loss : Runner
rwo_node_loss = record {
  name = "rwo-node-loss";
  applicable = λ ctx.
      is_node_loss ctx.change
      || (fact_string ctx.change.facts "scenario" "" == "rwo-node-loss"
          || fact_string ctx.change.facts "event" "" == "node_loss");
  missing_requirements = rwo_requirements;
  evaluate = rwo_evaluate;
}

unfoldable pub zone_requirements : Context → List Requirement
zone_requirements ctx =
    if not (has_kind ctx.base_idx "PVC")
    then []
    else if not (
        any (λ n. non_empty (attr_string (some n) "zone"))
          (or_nil (lookup "PVC" ctx.base_idx.by_kind)))
    then lacking true "pvc-zone" "PVC nodes lack zone attributes"
    else lacking (not (has_kind ctx.prop_idx "Node")) "nodes-proposed"
        "no Node objects in proposed graph to evaluate AZ capacity"

-- The zones of the nodes that remain.
abbrev pub zones_of : Context → List String
zones_of ctx =
    filter non_empty
      (map (λ n. attr_string (some n) "zone") (or_nil (lookup "Node" ctx.prop_idx.by_kind)))

-- The claim has a zone, in which no node remains.
abbrev pub is_stranded : Context → Node → Bool
is_stranded ctx pvc =
    non_empty (attr_string (some pvc) "zone")
    && not (contains (zones_of ctx) (attr_string (some pvc) "zone"))

abbrev pub zone_finding : Node → Finding
zone_finding pvc =
    let zone = attr_string (some pvc) "zone" in
    record {
      id = concat ("volume-az:" ∷ pvc.id ∷ []);
      scenario = "volume-az";
      risk = "critical";
      title = "PVC zone has no remaining nodes after change";
      summary =
          concat ("PVC " ∷ pvc.name ∷ " zone=" ∷ zone ∷ " but no nodes remain in that zone." ∷ []);
      components = pvc.id ∷ [];
      cascade = concat ("PVC zone=" ∷ zone ∷ []) ∷ "no nodes in zone" ∷ "volume cannot attach" ∷ [];
      controls = "ensure multi-AZ node capacity" ∷ "multi-AZ storage where possible" ∷ [];
      slo_impact = "availability";
      evidence = concat ("pvc.zone=" ∷ zone ∷ []) ∷ [];
      rollback = "unknown";
      confidence = "high";
    }

unfoldable pub zone_evaluate : Context → ScenarioResult
zone_evaluate ctx =
    if not (has_kind ctx.base_idx "PVC") || is_nil (zones_of ctx)
    then not_matched
    else matched_if_any
        (map zone_finding (filter (is_stranded ctx) (or_nil (lookup "PVC" ctx.base_idx.by_kind))))

abbrev pub volume_az : Runner
volume_az = record {
  name = "volume-az";
  applicable =
      λ ctx. is_node_loss ctx.change || fact_string ctx.change.facts "scenario" "" == "volume-az";
  missing_requirements = zone_requirements;
  evaluate = zone_evaluate;
}
