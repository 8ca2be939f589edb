-- ===== src/Verify/Measures.antt =====
-- internal/verify/verify.go: what the checks of the scenarios count in the observed graph.
use architecture_rehearsal.Prelude.{
  ℕ, ◌+◌, String, Option, none, some, List, [], ◌∷◌, map, filter, gather, is_nil, any, contains,
  length, Bool, true, false, not, ◌&&◌, ◌||◌, ◌==◌, lookup, starts, eqb, concat, non_empty,
  if◌then◌else◌,
}
use architecture_rehearsal.Graph.{Node, Index, Attribute, ℤ, pos, text, null, attr_string, attr_int}
use architecture_rehearsal.Verify.{
  Value, scalar, items, Observed, meta_value, as_int, as_scalar, eqz, ltz, is_some, holds,
}
use architecture_rehearsal.Verify.Signals.{
  is_pvc, is_workload, nodes_of_kind, pod_matches_components, pod_looks_stateful,
  has_cni_failure_signal, has_volume_attach_failure, has_eviction_signal,
  has_volume_attach_failure_any, node_name_present, rwo_pvc_bound_node_missing, pvc_in_scope, waits,
}

-- The number of elements that pass.
abbrev pub count {ℓ} : {A : Type ℓ} → (A → Bool) → List A → ℕ
count p xs = length (filter p xs)

abbrev pub sum : List ℕ → ℕ
sum [] = 0
sum (n ∷ ns) = n + sum ns

abbrev pub one_if : Bool → ℕ
one_if true = 1
one_if false = 0

abbrev pub meta_int : Observed → String → Option ℤ
meta_int observed key = as_int (as_scalar (meta_value observed.meta key))

abbrev pub elements : Option Value → List Attribute
elements (some (items xs)) = xs
elements _ = []

abbrev pub meta_text : Option Value → String
meta_text (some (scalar (text s))) = s
meta_text _ = ""

-- Pods with a signal: with components those that belong to them, without components all, and
-- then twice.
unfoldable pub cni_pods : (ℤ → String) → Index → List String → ℕ
cni_pods decimal idx comps =
    let pods = nodes_of_kind idx "Pod" in
    count
      (λ p.
        not (
          not (pod_matches_components p comps)
          && (not (is_nil comps) && not (pod_matches_components p comps)))
        && has_cni_failure_signal decimal p)
      pods
    + (if is_nil comps then count (has_cni_failure_signal decimal) pods else 0)

abbrev pub bound_missing : Index → Option Node → Bool
bound_missing idx pvc = holds (rwo_pvc_bound_node_missing idx) pvc

-- The claims that the components name, or those that their edges bind.
unfoldable pub rwo_claims : Index → List String → List String
rwo_claims idx comps =
    let named = filter is_pvc comps in
    if is_nil named
    then gather
        (λ e.
          if not (e.rel == "BINDS_VOLUME")
          then []
          else map (λ c. e.to) (filter (λ c. e.from == c && is_pvc e.to) comps))
        idx.snap.edges
    else named

unfoldable pub workload_pending : Index → List String → Bool
workload_pending idx comps =
    any (λ id. is_workload id && holds waits (lookup id idx.by_id)) comps
    || any (λ p. pod_matches_components p comps && (waits p || has_volume_attach_failure p))
        (nodes_of_kind idx "Pod")

unfoldable pub attach_signals : Index → List String → ℕ
attach_signals idx comps =
    count
      (λ p.
        not (not (pod_matches_components p comps) && not (pod_looks_stateful p))
        && has_volume_attach_failure p)
      (nodes_of_kind idx "Pod")

unfoldable pub bound_gone : Index → List String → ℕ
unfolding rwo_claims workload_pending attach_signals
bound_gone idx comps =
    let named = count (λ id. bound_missing idx (lookup id idx.by_id)) (rwo_claims idx comps) in
    if eqb named 0 && eqb (attach_signals idx comps) 0
    then count
        (λ pvc.
          pvc_in_scope pvc comps
          && (rwo_pvc_bound_node_missing idx pvc
              && (workload_pending idx comps || has_volume_attach_failure_any idx comps)))
        (nodes_of_kind idx "PVC")
    else named

abbrev pub has_pdb : List String → Bool
has_pdb comps = any (λ c. starts c "pdb/") comps

abbrev pub is_positive : ℤ → Bool
is_positive n = ltz (pos 0) n

abbrev pub has_unavailable : Option Node → Bool
has_unavailable w = is_positive (attr_int w "unavailableReplicas")

abbrev pub pod_pressure : List String → String → Node → ℕ
pod_pressure comps c p =
    if not (pod_matches_components p (c ∷ []))
    then 0
    else one_if (has_eviction_signal p)
      + one_if (attr_string (some p) "phase" == "Pending" && has_pdb comps)

abbrev pub workload_pressure : Index → List String → String → Option Node → ℕ
workload_pressure idx comps c none = 0
workload_pressure idx comps c (some w) =
    one_if (has_unavailable (some w))
    + (one_if (waits w) + sum (map (pod_pressure comps c) (nodes_of_kind idx "Pod")))

unfoldable pub pressure : Index → List String → ℕ
pressure idx comps = sum (
    map (λ c. if not (is_workload c) then 0 else workload_pressure idx comps c (lookup c idx.by_id))
      comps)

unfoldable pub zone_has_node : Index → String → Bool
zone_has_node idx zone = any (λ n. attr_string (some n) "zone" == zone) (nodes_of_kind idx "Node")

-- The claims that the loop skips: with components, out of their scope, when a claim is among them.
abbrev pub az_skips : List String → Node → Bool
az_skips comps pvc =
    (not (is_nil comps) && not (pvc_in_scope pvc comps))
    && (any is_pvc comps && not (contains comps pvc.id))

unfoldable pub az_lost : Index → Node → Bool
unfolding zone_has_node
az_lost idx pvc =
    let zone = attr_string (some pvc) "zone" in
    let bound = attr_string (some pvc) "boundNode" in
    (non_empty zone && not (zone_has_node idx zone))
    || (rwo_pvc_bound_node_missing idx pvc
        || ((non_empty bound && not (is_some (lookup (concat ("node/" ∷ bound ∷ [])) idx.by_id)))
            && not (node_name_present idx bound)))

abbrev pub is_set : Option Attribute → Bool
is_set none = false
is_set (some null) = false
is_set (some a) = true

abbrev pub is_zero : ℤ → Bool
is_zero n = eqz n (pos 0)
