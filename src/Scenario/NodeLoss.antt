-- ===== src/Scenario/NodeLoss.antt =====
-- What the approval of a node's loss guarantees (internal/scenario and internal/analyze).
use architecture_rehearsal.Prelude.{
  ◌≡◌, refl, String, List, [], ◌∷◌, map, filter, is_nil, any, Bool, true, false, not, ◌&&◌, ◌||◌,
  ◌==◌, lookup, arith, Bool-cases, inl, inr, none_passes,
}
use architecture_rehearsal.Graph.{Node, ℤ, or_nil}
use architecture_rehearsal.Loader.{fact_bool}
use architecture_rehearsal.Analyze.{Finding, decide}
use architecture_rehearsal.Analyze.FailClosed.{is_acted_on}
use architecture_rehearsal.Scenario.{
  Context, Runner, ScenarioResult, matched_if_any, has_kind, run_all,
}
use architecture_rehearsal.Scenario.Storage.{
  is_node_loss, lost_node, is_rwo, is_bound_to, rwo_finding, rwo_evaluate, rwo_node_loss, zones_of,
  is_stranded, zone_finding, zone_evaluate, volume_az,
}
use architecture_rehearsal.Scenario.Traffic.{pdb_disruption, service_routing}
use architecture_rehearsal.Scenario.Capacity.{cni_capacity}
use architecture_rehearsal.Scenario.Prometheus.{prom_zero_match}
use architecture_rehearsal.Scenario.Approve.{acts, is_quiet, ids_of, run_all-decide}

-- DefaultRunners, where `decimal` and `quote` show an integer and a quoted text.
abbrev pub default_runners : (ℤ → String) → (String → String) → List Runner
default_runners decimal quote =
    rwo_node_loss
    ∷ cni_capacity decimal
    ∷ prom_zero_match quote
    ∷ pdb_disruption decimal
    ∷ service_routing
    ∷ volume_az
    ∷ []

-- The test of `is_quiet` on a result.
abbrev calm : ScenarioResult → Bool
calm res = not (res.outcome == "matched" || res.outcome == "unknown") || not (acts res.findings)

calm_if_none :
    (f : Node → Finding) (p : Node → Bool) (xs : List Node)
    → ((x : Node) → is_acted_on (f x).risk ≡ true)
    → calm (matched_if_any (map f (filter p xs))) ≡ true
    → any p xs ≡ false
calm_if_none f p [] h k = refl
calm_if_none f p (x ∷ xs) h k = elim (Bool-cases (p x)) [
  | inl e ↦ ground (arith, h x, (rw e at k))
  | inr e ↦ rw e (calm_if_none f p xs h (rw e at k))
]

rwo-acted :
    (ctx : Context) (lost : String) (pvc : Node)
    → is_acted_on (rwo_finding ctx lost pvc).risk ≡ true
unfolding rwo_finding
rwo-acted ctx lost pvc =
    elim (Bool-cases (
      fact_bool ctx.change.facts "replacement_capacity_available" false
      && fact_bool ctx.change.facts "replacement_zone_compatible" true)) [
        | inl e ↦ rw e refl
        | inr e ↦ rw e refl
      ]

-- A claim that can be attached to one node only is bound to the lost one.
abbrev pub keeps_claim : Context → Node → Bool
keeps_claim ctx pvc = is_rwo pvc && is_bound_to ctx.base_idx (lost_node ctx) pvc

abbrev pub claims : Context → List Node
claims ctx = or_nil (lookup "PVC" ctx.base_idx.by_kind)

rwo_calm :
    (ctx : Context)
    → calm (rwo_evaluate ctx) ≡ true
    → (lost_node ctx == "" || not (any (keeps_claim ctx) (claims ctx))) ≡ true
unfolding rwo_evaluate
rwo_calm ctx h = elim (Bool-cases (lost_node ctx == "")) [
  | inl e ↦ rw e refl
  | inr e ↦ ground (
    arith,
    e,
    calm_if_none (rwo_finding ctx (lost_node ctx)) (keeps_claim ctx) (claims ctx)
        (rwo-acted ctx (lost_node ctx)) (rw e at h),
  )
]

zone_calm :
    (ctx : Context)
    → calm (zone_evaluate ctx) ≡ true
    → (is_nil (claims ctx) || (is_nil (zones_of ctx) || not (any (is_stranded ctx) (claims ctx))))
      ≡ true
unfolding zone_evaluate
zone_calm ctx h = elim (Bool-cases (not (has_kind ctx.base_idx "PVC") || is_nil (zones_of ctx))) [
  | inl e ↦ ground (arith, e)
  | inr e ↦
      ground (
        arith,
        e,
        calm_if_none zone_finding (is_stranded ctx) (claims ctx) (λ pvc. refl) (rw e at h),
      )
]

negated : (a b : Bool) → a ≡ not b → a ≡ true → b ≡ false
negated a b e h = ground (arith, e, h)

rwo_quiet :
    (ctx : Context)
    → is_node_loss ctx.change ≡ true
    → not (is_quiet ctx rwo_node_loss) ≡ false
    → calm (rwo_evaluate ctx) ≡ true
rwo_quiet ctx loss h = ground (arith, loss, h)

zone_quiet :
    (ctx : Context)
    → is_node_loss ctx.change ≡ true
    → not (is_quiet ctx volume_az) ≡ false
    → calm (zone_evaluate ctx) ≡ true
zone_quiet ctx loss h = ground (arith, loss, h)

-- When the analysis with the default runners approves the failure or the drain of a node, no claim that
-- one node alone can hold is bound to the lost node, if the change names or removes one, and no claim
-- is in a zone where no node remains, if some node that remains has a zone.
pub run_all-node_loss :
    (decimal : ℤ → String) (quote : String → String) (ctx : Context)
    → is_node_loss ctx.change ≡ true
    → let out = run_all ctx (default_runners decimal quote) in
      (decide (ids_of out.1) out.0 == "approve") ≡ true
      → ((lost_node ctx == "" || not (any (keeps_claim ctx) (claims ctx))) ≡ true)
        × ((is_nil (claims ctx)
              || (is_nil (zones_of ctx) || not (any (is_stranded ctx) (claims ctx))))
            ≡ true)
run_all-node_loss decimal quote ctx loss h =
    let rs = default_runners decimal quote in
    let none =
      negated (decide (ids_of (run_all ctx rs).1) (run_all ctx rs).0 == "approve")
        (any (λ r. not (is_quiet ctx r)) rs) (run_all-decide ctx rs) h in
    let quiet = none_passes (λ r. not (is_quiet ctx r)) rs none in
    (
      rwo_calm ctx (rwo_quiet ctx loss quiet.0),
      zone_calm ctx (zone_quiet ctx loss quiet.1.1.1.1.1.0),
    )
