-- ===== src/Scenario/Capacity.antt =====
-- internal/scenario/cni_capacity.go: the scenario of a rollout that needs more pod addresses than there
-- are. A share is computed exactly: so is Go's float64, while the product of the replicas and the
-- percentage is below 2 ^ 53. `decimal` shows an integer.
use mathlib.Core.List.{reverse}
use architecture_rehearsal.Prelude.{
  ℕ, suc, ◌+◌, ◌-◌, ◌/◌, String, Option, none, some, List, [], ◌∷◌, ◌++◌, map, any, Bool, true,
  false, not, ◌&&◌, ◌||◌, ◌==◌, concat, lookup, codes, ltb, leb, eqb, if◌then◌else◌,
}
use architecture_rehearsal.Graph.{
  Node, Index, Attribute, ℤ, pos, negsuc, attr_int, attr_string, or_nil, workload_replicas,
}
use architecture_rehearsal.Loader.{fact_string, fact_int}
use architecture_rehearsal.Analyze.{Finding}
use architecture_rehearsal.Verify.{Observed, as_scalar, ltz, meta_value}
use architecture_rehearsal.Verify.Measures.{sum}
use architecture_rehearsal.Impact.Unavailable.{atoi, percent_of, ceil_percent}
use architecture_rehearsal.Scenario.{
  Context, Requirement, ScenarioResult, Runner, not_matched, has_kind, rollback_fact,
}
use architecture_rehearsal.Scenario.Storage.{lacking}

abbrev max : ℕ → ℕ → ℕ
max a b = if ltb a b then b else a

-- At least 1; a share that is not positive is below it.
abbrev positive_share : ℕ → ℤ → ℕ
positive_share replicas (pos p) = max 1 (ceil_percent replicas p)
positive_share replicas (negsuc n) = 1

abbrev not_negative : ℤ → ℕ
not_negative (pos n) = n
not_negative (negsuc n) = 0

abbrev surge_value : Option (List ℕ) → List ℕ → ℕ → ℕ
surge_value none t replicas = not_negative (atoi t)
surge_value (some p) t replicas = positive_share replicas (atoi p)

unfoldable pub parse_max_surge : String → ℕ → ℕ
parse_max_surge ms replicas =
    if ms == ""
    then max 1 (ceil_percent replicas 25)
    else surge_value (percent_of (reverse (codes ms))) (codes ms) replicas

abbrev pub workloads_of : Index → List Node
workloads_of idx = or_nil (lookup "Workload" idx.by_kind)

-- `graph.TotalWorkloadReplicas`
unfoldable pub total_workload_replicas : Index → ℕ
total_workload_replicas idx = sum (map (λ n. workload_replicas (some n)) (workloads_of idx))

-- The surge of a workload that gets more replicas; one that is new had none.
abbrev surge_of : Index → Node → ℕ
surge_of base n =
    let replicas = workload_replicas (some n) in
    if leb replicas (workload_replicas (lookup n.id base.by_id))
    then 0
    else parse_max_surge (attr_string (some n) "maxSurge") replicas

abbrev or_given : ℤ → ℕ → ℕ
or_given (pos n) computed = n
or_given (negsuc n) computed = computed

unfoldable pub rollout_surge : Context → ℕ
unfolding parse_max_surge
rollout_surge ctx =
    or_given (fact_int ctx.change.facts "rollout_surge" (negsuc 0))
      (sum (map (surge_of ctx.base_idx) (workloads_of ctx.prop_idx)))

-- The fact of the metadata, an integer that is negative if there is none.
abbrev as_fact : Option Attribute → List (String × Attribute)
as_fact none = []
as_fact (some a) = ("pod_ip_capacity_available", a) ∷ []

abbrev pub stated_capacity : Observed → ℤ
stated_capacity base =
    fact_int (as_fact (as_scalar (meta_value base.meta "pod_ip_capacity_available")))
      "pod_ip_capacity_available" (negsuc 0)

abbrev pub addz : ℤ → ℤ → ℤ
addz (pos m) (pos n) = pos (m + n)
addz (pos m) (negsuc n) = if ltb n m then pos (m - suc n) else negsuc (n - m)
addz (negsuc m) (pos n) = if ltb m n then pos (n - suc m) else negsuc (m - n)
addz (negsuc m) (negsuc n) = negsuc (suc (m + n))

abbrev total_of : List ℤ → ℤ
total_of [] = pos 0
total_of (n ∷ ns) = addz n (total_of ns)

-- What the nodes can hold beside the replicas of the baseline, and at least 0.
abbrev beside : ℤ → ℕ → ℕ
beside (pos alloc) replicas = alloc - replicas
beside (negsuc n) replicas = 0

unfoldable pub available_addresses : Context → ℕ
unfolding total_workload_replicas
available_addresses ctx = or_given (stated_capacity ctx.baseline) (
    beside
      (total_of (
        map (λ n. attr_int (some n) "allocatablePods")
          (or_nil (lookup "Node" ctx.base_idx.by_kind))))
      (total_workload_replicas ctx.base_idx))

-- The new replicas, or none where there are fewer, and the surge.
unfoldable pub requested_addresses : Context → ℕ
unfolding rollout_surge total_workload_replicas
requested_addresses ctx =
    (total_workload_replicas ctx.prop_idx - total_workload_replicas ctx.base_idx)
    + rollout_surge ctx

unfoldable pub capacity_risk : ℕ → ℕ → String
capacity_risk requested deficit =
    if leb (max 1 (requested / 2)) deficit || leb 10 deficit then "critical" else "high"

abbrev is_negative : ℤ → Bool
is_negative (pos n) = false
is_negative (negsuc n) = true

unfoldable pub capacity_requirements : Context → List Requirement
capacity_requirements ctx =
    let allocatable =
      any (λ n. ltz (pos 0) (attr_int (some n) "allocatablePods"))
        (or_nil (lookup "Node" ctx.base_idx.by_kind)) in
    lacking (not (has_kind ctx.base_idx "Workload")) "workload"
      "no Workload nodes for replica comparison"
    ++ lacking (is_negative (stated_capacity ctx.baseline) && not allocatable) "pod_ip_capacity"
        "no pod_ip_capacity_available meta and no node allocatablePods"

module _ (decimal : ℤ → String) where
  abbrev shown : ℕ → String
  shown n = decimal (pos n)

  abbrev capacity_finding : Context → Finding
  capacity_finding ctx =
      let before = total_workload_replicas ctx.base_idx in
      let after = total_workload_replicas ctx.prop_idx in
      let requested = requested_addresses ctx in
      let available = available_addresses ctx in
      let deficit = requested - available in
      let baseline_text = concat ("baseline_replicas=" ∷ shown before ∷ []) in
      let proposed_text = concat ("proposed_replicas=" ∷ shown after ∷ []) in
      record {
        id = "cni-ip-capacity";
        scenario = "cni-ip-capacity";
        risk = capacity_risk requested deficit;
        title = "Pod IP capacity exhaustion (CNI / VPC)";
        summary = concat (
            "Replica delta "
            ∷ shown (after - before)
            ∷ " + surge "
            ∷ shown (rollout_surge ctx)
            ∷ " = "
            ∷ shown requested
            ∷ " IPs needed; available "
            ∷ shown available
            ∷ " (deficit "
            ∷ shown deficit
            ∷ "). baseline="
            ∷ shown before
            ∷ " proposed="
            ∷ shown after
            ∷ []);
        components = ctx.change.seeds;
        cascade =
            baseline_text
            ∷ proposed_text
            ∷ concat ("rollout_surge=" ∷ shown (rollout_surge ctx) ∷ [])
            ∷ concat (
                "requested_ips="
                ∷ shown requested
                ∷ " available="
                ∷ shown available
                ∷ " deficit="
                ∷ shown deficit
                ∷ [])
            ∷ "IP exhaustion → FailedCreatePodSandbox → readiness timeout → Helm pending-install"
            ∷ [];
        controls = "increase max-pods / prefix delegation" ∷ "add nodes" ∷ "reduce maxSurge" ∷ [];
        slo_impact = "rollout latency";
        evidence =
            baseline_text
            ∷ proposed_text
            ∷ concat ("surge=" ∷ shown (rollout_surge ctx) ∷ [])
            ∷ concat ("available=" ∷ shown available ∷ [])
            ∷ [];
        rollback = rollback_fact ctx.change;
        confidence = "high";
      }

  unfoldable pub capacity_evaluate : Context → ScenarioResult
  unfolding requested_addresses available_addresses capacity_risk
  capacity_evaluate ctx =
      if eqb (requested_addresses ctx) 0
      then not_matched
      else if leb (requested_addresses ctx) (available_addresses ctx)
      then not_matched
      else record { outcome = "matched"; findings = capacity_finding ctx ∷ []; missing = [] }

  abbrev pub cni_capacity : Runner
  cni_capacity = record {
    name = "cni-ip-capacity";
    applicable = λ ctx.
        (ctx.change.kind == "scale-up"
          || (ctx.change.kind == "helm-upgrade"
              || (ctx.change.kind == "terraform-plan" || ctx.change.kind == "k8s-manifest")))
        || fact_string ctx.change.facts "scenario" "" == "cni-ip-capacity";
    missing_requirements = capacity_requirements;
    evaluate = capacity_evaluate;
  }
