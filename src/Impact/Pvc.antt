-- ===== src/Impact/Pvc.antt =====
-- internal/impact/pvc.go: the detector of claims whose zone conflicts with the workloads or the nodes.
-- `decimal` shows an integer.
use architecture_rehearsal.Prelude.{
  String, Option, none, some, List, [], ◌∷◌, ◌++◌, map, filter, gather, is_nil, any, contains, Bool,
  true, false, not, ◌&&◌, ◌||◌, ◌==◌, lookup, starts, concat, non_empty, if◌then◌else◌,
}
use architecture_rehearsal.Graph.{
  Node, Index, Attribute, null, ℤ, Fields, attr_string, attr_bool, or_nil,
}
use architecture_rehearsal.Graph.Values.{field_of, sprint, as_object}
use architecture_rehearsal.Loader.{ChangeEnvelope}
use architecture_rehearsal.Verify.{Observed, Value, scalar, meta_value, holds}
use architecture_rehearsal.Impact.{Verdict}
use architecture_rehearsal.Impact.Pdb.{unique}
use architecture_rehearsal.Impact.Context.{Context, plain, concerning, display, object_at}

abbrev pub claims_of : Index → List Node
claims_of idx = or_nil (lookup "PVC" idx.by_kind)

abbrev pub nodes_of : Index → Index → List Node
nodes_of prop base =
    let proposed = or_nil (lookup "Node" prop.by_kind) in
    if is_nil proposed then or_nil (lookup "Node" base.by_kind) else proposed

abbrev touches : ChangeEnvelope → Bool
touches ch = any (λ id. starts id "pvc/") ch.seeds || any (λ n. n.kind == "PVC") ch.added_nodes

-- A node selector is there and is not null.
abbrev is_present : Option Attribute → Bool
is_present none = false
is_present (some null) = false
is_present (some v) = true

-- The workloads that bind a claim, with an edge each.
abbrev pub binders : Index → Node → List Node
binders prop pvc =
    gather
      (λ e.
        if e.rel == "BINDS_VOLUME"
        then elim (lookup e.from prop.by_id) [ none ↦ [] | some w ↦ w ∷ [] ]
        else [])
      (or_nil (lookup pvc.id prop.in'))

unfoldable pub needs_zone : Index → List Node → Bool
needs_zone prop pvcs =
    any
      (λ pvc.
        (non_empty (attr_string (some pvc) "zone")
          || non_empty (attr_string (some pvc) "storageClass"))
        || any
            (λ w.
              attr_bool (some w) "hasAffinity" || is_present (lookup "nodeSelector" w.attributes))
            (binders prop pvc))
      pvcs

-- The keys of the map `zoneSet`.
abbrev pub zone_set : List Node → List String
zone_set nodes = filter non_empty (map (λ n. attr_string (some n) "zone") nodes)

module _ (decimal : ℤ → String) where
  -- `fmt.Sprint` of a key that is missing is not empty, so the second key counts only after an empty text.
  unfoldable pub selected_zone : Fields → String
  selected_zone sel =
      let zone = sprint decimal (field_of "topology.kubernetes.io/zone" sel) in
      if zone == ""
      then sprint decimal (field_of "failure-domain.beta.kubernetes.io/zone" sel)
      else zone

  -- A conflict: its text and the nodes that it concerns.
  abbrev pub Conflict : Type 0
  Conflict = String × List String

  abbrev pub selector_conflict : Index → Node → Node → Option Fields → List Conflict
  selector_conflict prop pvc w none = []
  selector_conflict prop pvc w (some sel) =
      let pz = attr_string (some pvc) "zone" in
      let wz = selected_zone sel in
      if non_empty pz && (non_empty wz && not (pz == wz))
      then (
        concat (
            "PVC "
            ∷ pvc.name
            ∷ " zone="
            ∷ pz
            ∷ " conflicts with workload "
            ∷ display prop w.id
            ∷ " nodeSelector zone="
            ∷ wz
            ∷ []),
        pvc.id ∷ w.id ∷ [],
      )
        ∷ []
      else []

  abbrev pub empty_zone : List String → Node → List Conflict
  empty_zone zones pvc =
      let pz = attr_string (some pvc) "zone" in
      if non_empty pz && (not (is_nil zones) && not (contains zones pz))
      then (
        concat (
            "PVC "
            ∷ pvc.name
            ∷ " zone="
            ∷ pz
            ∷ " has no schedulable nodes in that zone (storageClass="
            ∷ attr_string (some pvc) "storageClass"
            ∷ ")"
            ∷ []),
        pvc.id ∷ [],
      )
        ∷ []
      else []

  unfoldable pub conflicts_of : Index → List String → Node → List Conflict
  unfolding selected_zone
  conflicts_of prop zones pvc =
      gather (λ w. selector_conflict prop pvc w (object_at "nodeSelector" w)) (binders prop pvc)
      ++ empty_zone zones pvc

  abbrev zonal_map : Option Value → Option Fields
  zonal_map (some (scalar a)) = as_object (some a)
  zonal_map _ = none

  -- The storage classes that the metadata of the baseline calls zonal.
  abbrev zonal_classes : Option Observed → Option Fields
  zonal_classes none = none
  zonal_classes (some o) = zonal_map (meta_value o.meta "storageClassZonal")

  unfoldable pub lacks_zone : Option Observed → Node → Bool
  lacks_zone baseline pvc =
      let sc = attr_string (some pvc) "storageClass" in
      non_empty sc
      && (attr_string (some pvc) "zone" == ""
          && holds (λ zonal. sprint decimal (field_of sc zonal) == "true") (zonal_classes baseline))

  abbrev pub zonal_unknown : Node → Verdict
  zonal_unknown pvc =
      plain "pvc-zone-conflict" "UNKNOWN"
        (concat (
          "zonal storageClass "
          ∷ attr_string (some pvc) "storageClass"
          ∷ " on PVC "
          ∷ pvc.name
          ∷ " without zone attribute"
          ∷ []))
        "low" ("pvc.zone" ∷ [])

  abbrev pub concluded : List Node → List String → List Conflict → Verdict
  concluded pvcs zones (c ∷ cs) =
      concerning "pvc-zone-conflict" "BLOCK"
        "PVC zone / node affinity conflict would prevent volume attach" "high"
        (map (λ x. x.0) (c ∷ cs)) (unique (gather (λ x. x.1) (c ∷ cs)))
  concluded pvcs zones [] =
      if any (λ pvc. non_empty (attr_string (some pvc) "zone")) pvcs && is_nil zones
      then plain "pvc-zone-conflict" "UNKNOWN" "PVCs declare zones but nodes lack zone labels" "low"
          ("node.zone" ∷ [])
      else plain "pvc-zone-conflict" "PASS" "no PVC / node affinity zone conflicts detected" "high"
          []

  -- The loop over the claims, and what follows it.
  unfoldable pub judge_claims :
      Option Observed → Index → List String → List Node → List Node → List Conflict → Verdict
  unfolding conflicts_of lacks_zone
  judge_claims baseline prop zones pvcs [] conflicts = concluded pvcs zones conflicts
  judge_claims baseline prop zones pvcs (pvc ∷ rest) conflicts =
      let later =
        judge_claims baseline prop zones pvcs rest (conflicts ++ conflicts_of prop zones pvc) in
      if lacks_zone baseline pvc then zonal_unknown pvc else later

  abbrev without_claims : Option ChangeEnvelope → Verdict
  without_claims ch =
      if holds touches ch
      then plain "pvc-zone-conflict" "UNKNOWN"
          "change references PVCs but proposed graph has no PVC nodes" "low" ("pvc" ∷ [])
      else plain "pvc-zone-conflict" "PASS" "no PVCs in proposed graph" "high" []

  abbrev pub judge_given : Context → Option Index → Option Index → Verdict
  judge_given ctx (some base) (some prop) =
      let pvcs = claims_of prop in
      let nodes = nodes_of prop base in
      if is_nil pvcs
      then without_claims ctx.change
      else if needs_zone prop pvcs && is_nil nodes
      then plain "pvc-zone-conflict" "UNKNOWN"
          "PVC/storage constraints present but no Node objects to evaluate zones" "low"
          ("nodes" ∷ [])
      else judge_claims ctx.baseline prop (zone_set nodes) pvcs pvcs []
  judge_given ctx _ _ =
      plain "pvc-zone-conflict" "UNKNOWN" "missing graph indexes" "low" ("graph" ∷ [])

  unfoldable pub evaluate : Context → Verdict
  unfolding needs_zone judge_claims
  evaluate ctx = judge_given ctx ctx.base_idx ctx.prop_idx
