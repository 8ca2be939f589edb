-- ===== src/Scenario/Traffic.antt =====
-- internal/scenario/service_routing.go and pdb_disruption.go: the scenarios of a service that loses all
-- its backends, and of a disruption that a budget would not allow. `decimal` shows an integer.
use architecture_rehearsal.Prelude.{
  ℕ, ◌+◌, ◌-◌, String, Option, none, some, List, [], ◌∷◌, ◌++◌, map, filter, gather, is_nil, any,
  contains, Bool, not, ◌&&◌, ◌||◌, ◌==◌, concat, lookup, ltb, eqb, if◌then◌else◌,
}
use architecture_rehearsal.Graph.{
  Node, Edge, Index, ℤ, pos, negsuc, attr_string, or_nil, workload_replicas,
}
use architecture_rehearsal.Loader.{ChangeEnvelope, fact_string}
use architecture_rehearsal.Analyze.{Finding}
use architecture_rehearsal.Verify.{holds, is_some}
use architecture_rehearsal.Impact.Pdb.{unique}
use architecture_rehearsal.Impact.Unavailable.{effective_min_available}
use architecture_rehearsal.Impact.Context.{display}
use architecture_rehearsal.Scenario.{
  Context, Requirement, ScenarioResult, Runner, not_matched, matched_if_any, has_kind,
}
use architecture_rehearsal.Scenario.Storage.{is_node_loss, lacking}

abbrev pub is_route : Edge → Bool
is_route e = e.rel == "ROUTES_TO" || e.rel == "DEPENDS_ON"

unfoldable pub routing_requirements : Context → List Requirement
routing_requirements ctx =
    let routed =
      any (λ e. is_route e && holds (λ n. n.kind == "Service") (lookup e.from ctx.base_idx.by_id))
        ctx.baseline.graph.edges in
    lacking (has_kind ctx.base_idx "Service" && not routed) "service-edges"
      "Service nodes exist but no ROUTES_TO edges to workloads"

abbrev pub backends_of : Context → Node → List String
backends_of ctx svc = map (λ e. e.to) (filter is_route (or_nil (lookup svc.id ctx.base_idx.out)))

abbrev pub is_alive : Context → String → Bool
is_alive ctx b = not (contains ctx.change.removed_nodes b) && is_some (lookup b ctx.prop_idx.by_id)

abbrev pub loses_backends : Context → Node → Bool
loses_backends ctx svc =
    not (is_nil (backends_of ctx svc)) && not (any (is_alive ctx) (backends_of ctx svc))

abbrev routing_finding : Context → Node → Finding
routing_finding ctx svc = record {
  id = concat ("service-routing:" ∷ svc.id ∷ []);
  scenario = "service-routing";
  risk = "critical";
  title = "Service has no remaining backends after change";
  summary = concat ("Service " ∷ display ctx.base_idx svc.id ∷ " backends are all removed." ∷ []);
  components = svc.id ∷ backends_of ctx svc;
  cascade = "backends removed" ∷ "endpoints empty" ∷ "callers fail" ∷ [];
  controls = "update selector before remove" ∷ "progressive cutover" ∷ [];
  slo_impact = "availability";
  evidence = "alive_backends=0" ∷ [];
  rollback = "available";
  confidence = "high";
}

unfoldable pub routing_evaluate : Context → ScenarioResult
routing_evaluate ctx =
    if not (has_kind ctx.base_idx "Service")
    then not_matched
    else matched_if_any (
        map (routing_finding ctx)
          (filter (loses_backends ctx) (or_nil (lookup "Service" ctx.base_idx.by_kind))))

abbrev pub service_routing : Runner
service_routing = record {
  name = "service-routing";
  applicable = λ ctx.
      not (is_nil ctx.change.removed_nodes)
      || fact_string ctx.change.facts "scenario" "" == "service-routing";
  missing_requirements = routing_requirements;
  evaluate = routing_evaluate;
}

unfoldable pub budget_requirements : Context → List Requirement
budget_requirements ctx =
    if not (has_kind ctx.base_idx "PDB")
    then []
    else lacking (not (any (λ e. e.rel == "PROTECTED_BY") ctx.baseline.graph.edges)) "pdb-edges"
        "PDB nodes exist but no PROTECTED_BY edges to workloads"

-- The keys of the map `lost`.
abbrev pub lost_of : ChangeEnvelope → List String
lost_of ch =
    let named = fact_string ch.facts "lost_node" "" in
    ch.removed_nodes ++ (if named == "" then [] else named ∷ [])

abbrev pub protected_by : Index → Node → List String
protected_by idx pdb = unique (
    gather
      (λ entry.
        map (λ e. entry.0) (filter (λ e. e.to == pdb.id && e.rel == "PROTECTED_BY") entry.1))
      idx.out)

abbrev pub runs_on_lost : Index → List String → String → Bool
runs_on_lost idx lost wid =
    any (λ e. e.rel == "RUNS_ON" && contains lost e.to) (or_nil (lookup wid idx.out))

module _ (decimal : ℤ → String) where
  abbrev disruption_finding : Index → Node → String → ℕ → ℤ → Finding
  disruption_finding idx pdb wid min rest = record {
    id = concat ("pdb-disruption:" ∷ pdb.id ∷ ":" ∷ wid ∷ []);
    scenario = "pdb-disruption";
    risk = "high";
    title = "PodDisruptionBudget would block or violate disruption";
    summary = concat (
        "PDB "
        ∷ pdb.name
        ∷ " minAvailable="
        ∷ decimal (pos min)
        ∷ "; workload "
        ∷ display idx wid
        ∷ " would have "
        ∷ decimal rest
        ∷ " after node loss"
        ∷ []);
    components = pdb.id ∷ wid ∷ [];
    cascade =
        "node loss"
        ∷ concat ("remaining " ∷ decimal rest ∷ " < minAvailable " ∷ decimal (pos min) ∷ [])
        ∷ "eviction denied or SLO breach"
        ∷ [];
    controls = "increase replicas before drain" ∷ "adjust PDB for maintenance" ∷ [];
    slo_impact = "availability";
    evidence =
        concat (
          "minAvailable="
          ∷ decimal (pos min)
          ∷ " raw="
          ∷ attr_string (some pdb) "minAvailableRaw"
          ∷ [])
        ∷ [];
    rollback = "unknown";
    confidence = "medium";
  }

  -- A workload with no replicas has -1 remaining, below every minimum.
  abbrev remaining : ℕ → ℤ
  remaining replicas = if eqb replicas 0 then negsuc 0 else pos (replicas - 1)

  abbrev of_workload : Index → List String → Node → String → Option Node → List Finding
  of_workload idx lost pdb wid none = []
  of_workload idx lost pdb wid (some w) =
      let replicas = workload_replicas (some w) in
      let min = effective_min_available (some pdb) replicas in
      if ltb 0 min && (runs_on_lost idx lost wid && ltb replicas (1 + min))
      then disruption_finding idx pdb wid min (remaining replicas) ∷ []
      else []

  unfoldable pub budget_evaluate : Context → ScenarioResult
  budget_evaluate ctx =
      let idx = ctx.base_idx in
      if not (has_kind idx "PDB") || is_nil (lost_of ctx.change)
      then not_matched
      else matched_if_any (
          gather
            (λ pdb.
              gather (λ wid. of_workload idx (lost_of ctx.change) pdb wid (lookup wid idx.by_id))
                (protected_by idx pdb))
            (or_nil (lookup "PDB" idx.by_kind)))

  abbrev pub pdb_disruption : Runner
  pdb_disruption = record {
    name = "pdb-disruption";
    applicable = λ ctx.
        is_node_loss ctx.change || fact_string ctx.change.facts "scenario" "" == "pdb-disruption";
    missing_requirements = budget_requirements;
    evaluate = budget_evaluate;
  }
