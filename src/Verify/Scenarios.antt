-- ===== src/Verify/Scenarios.antt =====
-- internal/verify/verify.go: the independent checks of the predicted scenarios. `decimal` shows an
-- integer as the verb %d does.
use architecture_rehearsal.Prelude.{
  ℕ, suc, String, Option, none, some, List, [], ◌∷◌, ◌++◌, filter, is_nil, length, Bool, true,
  false, not, ◌&&◌, ◌||◌, ◌==◌, lookup, starts, ltb, eqb, concat, non_empty, if◌then◌else◌,
}
use architecture_rehearsal.Graph.{Node, Index, ℤ, pos, attr_bool, attr_int, or_nil}
use architecture_rehearsal.Verify.{
  Observed, Check, passes, fails, unsettled, meta_value, is_some, holds, Prediction,
}
use architecture_rehearsal.Verify.Signals.{components_for_scenario, nodes_of_kind}
use architecture_rehearsal.Verify.Measures.{
  count, meta_int, elements, meta_text, cni_pods, rwo_claims, attach_signals, bound_gone, has_pdb,
  is_positive, has_unavailable, pressure, az_skips, az_lost, is_set, is_zero,
}

abbrev pub or_check : Option Check → Check → Check
or_check (some found) later = found
or_check none later = later

abbrev shown_flag : Bool → String
shown_flag true = "true"
shown_flag false = "false"

module _ (decimal : ℤ → String) where
  unfoldable pub check_cni_capacity : Observed → Index → List String → Check
  unfolding cni_pods
  check_cni_capacity observed idx comps =
      let name : String = "scenario:cni-ip-capacity" in
      let events = elements (meta_value observed.meta "cni_failure_events") in
      if holds is_zero (meta_int observed "cni_ip_available")
      then passes name "meta.cni_ip_available=0 (explicit CNI provider)"
      else if ltb 0 (cni_pods decimal idx comps)
      then passes name (
          concat (
            "component-scoped pods with CNI/sandbox IP failure signals="
            ∷ decimal (pos (cni_pods decimal idx comps))
            ∷ []))
      else if ltb 0 (length events)
      then passes name
          (concat ("meta.cni_failure_events count=" ∷ decimal (pos (length events)) ∷ []))
      else unsettled name
          "no causal CNI evidence (need cni_ip_available=0, FailedCreatePodSandBox/IP assign failure, or cni_failure_events)"

  unfoldable pub check_rwo_pending : Index → List String → Check
  unfolding rwo_claims attach_signals bound_gone
  check_rwo_pending idx comps =
      let name : String = "scenario:rwo-node-loss" in
      let attached = attach_signals idx comps in
      let gone = bound_gone idx comps in
      if ltb 0 attached
        && (ltb 0 gone
            || (not (is_nil (rwo_claims idx comps)) || not (is_nil (nodes_of_kind idx "PVC"))))
      then passes name (
          concat (
            "volume attach failure signals="
            ∷ decimal (pos attached)
            ∷ " boundNodeGone="
            ∷ decimal (pos gone)
            ∷ []))
      else if ltb 0 gone
      then passes name (
          concat (
            "RWO PVC boundNode missing ("
            ∷ decimal (pos gone)
            ∷ ") with component-scoped pending/attach evidence"
            ∷ []))
      else unsettled name
          "no causal RWO evidence (need FailedAttachVolume/multi-attach or PVC boundNode missing + component pending)"

  abbrev denied_detail : Option ℤ → String
  denied_detail none = ""
  denied_detail (some n) = concat ("meta.pdb_evictions_denied=" ∷ decimal n ∷ [])

  unfoldable pub check_pdb_disruption : Observed → Index → List String → Check
  unfolding pressure
  check_pdb_disruption observed idx comps =
      let name : String = "scenario:pdb-disruption" in
      let denied = meta_int observed "pdb_evictions_denied" in
      if holds is_positive denied
      then passes name (denied_detail denied)
      else if ltb 0 (pressure idx comps) && (has_pdb comps || not (is_nil comps))
      then if not (has_pdb comps) && eqb (count (λ c. has_unavailable (lookup c idx.by_id)) comps) 0
        then unsettled name
            "no PDB component and no unavailableReplicas — pending alone is not causal PDB evidence"
        else passes name (
            concat (
              "protected workload pressure="
              ∷ decimal (pos (pressure idx comps))
              ∷ " hasPDB="
              ∷ shown_flag (has_pdb comps)
              ∷ []))
      else unsettled name
          "no causal PDB evidence (need pdb component + unavailable/pending protected workload, eviction signal, or pdb_evictions_denied)"

  unfoldable pub check_volume_az : Index → List String → Check
  unfolding az_lost
  check_volume_az idx comps =
      let name : String = "scenario:volume-az" in
      let matched =
        count (λ pvc. not (az_skips comps pvc) && az_lost idx pvc) (nodes_of_kind idx "PVC") in
      if ltb 0 matched
      then passes name
          (concat ("PVC zone empty and/or boundNode lost (" ∷ decimal (pos matched) ∷ ")" ∷ []))
      else unsettled name "no PVC zone/boundNode evidence for volume-az"

  -- What the loop over the components returns for one of them, if it does.
  unfoldable pub routed : Index → String → Option Node → Option Check
  routed idx c none = some (
      passes "scenario:service-routing"
        (concat ("service component absent from observed graph: " ∷ c ∷ [])))
  routed idx c (some svc) =
      let name : String = "scenario:service-routing" in
      let ready = attr_int (some svc) "readyEndpoints" in
      let backends = filter (λ e. e.rel == "ROUTES_TO") (or_nil (lookup c idx.out)) in
      let alive = count (λ e. is_some (lookup e.to idx.by_id)) backends in
      if attr_bool (some svc) "hasEndpointSlice" || is_set (lookup "readyEndpoints" svc.attributes)
      then some (
          if is_zero ready
          then passes name (concat (c ∷ " hasEndpointSlice readyEndpoints=0" ∷ []))
          else fails name (concat (c ∷ " still has readyEndpoints=" ∷ decimal ready ∷ [])))
      else if ltb 0 (length backends) && eqb alive 0
      then some (
          passes name (
            concat
              (c ∷ " all " ∷ decimal (pos (length backends)) ∷ " ROUTES_TO backends missing" ∷ [])))
      else none

  abbrev pub first_unready : List Node → Option Check
  first_unready [] = none
  first_unready (svc ∷ svcs) =
      if attr_bool (some svc) "hasEndpointSlice" && is_zero (attr_int (some svc) "readyEndpoints")
      then some (passes "scenario:service-routing" (concat (svc.id ∷ " readyEndpoints=0" ∷ [])))
      else first_unready svcs

  unfoldable pub check_services : Index → List String → ℕ → Check
  unfolding routed
  check_services idx [] checked =
      let none_found =
        unsettled "scenario:service-routing"
          "no EndpointSlice/backend evidence for service-routing" in
      if eqb checked 0
      then or_check (first_unready (nodes_of_kind idx "Service")) none_found
      else none_found
  check_services idx (c ∷ cs) checked =
      let skipped = check_services idx cs checked in
      let later = check_services idx cs (suc checked) in
      if not (starts c "svc/") then skipped else or_check (routed idx c (lookup c idx.by_id)) later

  unfoldable pub check_service_routing : Index → List String → Check
  unfolding check_services
  check_service_routing idx comps = check_services idx comps 0

  abbrev labelled : String → String → List String
  labelled label s = if non_empty s then label ∷ s ∷ [] else []

  abbrev pub zero_match : Observed → Option ℤ → Check
  zero_match observed none =
      unsettled "scenario:prom-zero-match" "meta.metric_match_count missing or non-numeric"
  zero_match observed (some v) =
      if is_zero v
      then passes "scenario:prom-zero-match" (
          concat (
            "meta.metric_match_count=0"
              ∷ labelled " query=" (meta_text (meta_value observed.meta "metric_query"))
            ++ labelled " rule=" (meta_text (meta_value observed.meta "rule_name"))))
      else fails "scenario:prom-zero-match" (
          concat
            ("meta.metric_match_count=" ∷ decimal v ∷ " (want 0 for zero-match confirmation)" ∷ []))

  unfoldable pub check_prom_zero_match : Observed → Check
  check_prom_zero_match observed =
      if not (is_some observed.meta)
      then unsettled "scenario:prom-zero-match" "no observed meta for metric_match_count"
      else zero_match observed (meta_int observed "metric_match_count")

  unfoldable pub independent_scenario_check : String → Prediction → Observed → Index → Check
  unfolding check_cni_capacity check_rwo_pending check_pdb_disruption check_volume_az
      check_service_routing check_prom_zero_match
  independent_scenario_check scenario pred observed idx =
      let comps = components_for_scenario pred scenario in
      if scenario == "cni-ip-capacity"
      then check_cni_capacity observed idx comps
      else if scenario == "rwo-node-loss"
      then check_rwo_pending idx comps
      else if scenario == "pdb-disruption"
      then check_pdb_disruption observed idx comps
      else if scenario == "volume-az"
      then check_volume_az idx comps
      else if scenario == "service-routing"
      then check_service_routing idx comps
      else if scenario == "prom-zero-match"
      then check_prom_zero_match observed
      else unsettled (concat ("scenario:" ∷ scenario ∷ []))
          (concat ("no independent predicate for scenario " ∷ scenario ∷ []))
