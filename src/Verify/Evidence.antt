-- ===== src/Verify/Evidence.antt =====
-- What the independent checks of the scenarios can say (internal/verify/verify.go).
use architecture_rehearsal.Prelude.{
  ℕ, suc, ◌≡◌, refl, String, Option, none, some, List, [], ◌∷◌, true, false, arith, Bool-cases, inl,
  inr, ◌||◌, Memᴰ, ◌⊎◌, eq_iff, lookup, starts,
}
use mathlib.Core.List.Memᴰ.{head, tail}
use architecture_rehearsal.Graph.{Node, Index, ℤ, pos, attr_int, attr_bool}
use architecture_rehearsal.Verify.{Observed, Prediction, Check, unsettled, eqz}
use architecture_rehearsal.Verify.Signals.{components_for_scenario, nodes_of_kind}
use architecture_rehearsal.Verify.Measures.{meta_int, is_set}
use architecture_rehearsal.Verify.Scenarios.{
  check_cni_capacity, check_rwo_pending, check_pdb_disruption, check_volume_az, routed,
  check_services, first_unready, check_service_routing, check_prom_zero_match, zero_match,
  independent_scenario_check, or_check,
}
use architecture_rehearsal.Verify.Outcome.{refutes}

-- A check that counts, and that is for the prediction or leaves it open.
record IsNotAgainst (c : Check) : Type 0 where
  hard : c.soft ≡ false
  not_against : refutes c ≡ false

module _ (decimal : ℤ → String) where
  cni :
      (o : Observed) (idx : Index) (comps : List String)
      → IsNotAgainst (check_cni_capacity decimal o idx comps)
  unfolding check_cni_capacity
  cni o idx comps = ground arith

  rwo : (idx : Index) (comps : List String) → IsNotAgainst (check_rwo_pending decimal idx comps)
  unfolding check_rwo_pending
  rwo idx comps = ground arith

  pdb :
      (o : Observed) (idx : Index) (comps : List String)
      → IsNotAgainst (check_pdb_disruption decimal o idx comps)
  unfolding check_pdb_disruption
  pdb o idx comps = ground arith

  volume : (idx : Index) (comps : List String) → IsNotAgainst (check_volume_az decimal idx comps)
  unfolding check_volume_az
  volume idx comps = ground arith

  first_unready-hard :
      (svcs : List Node) (c : Check)
      → c.soft ≡ false
      → (or_check (first_unready decimal svcs) c).soft ≡ false
  first_unready-hard [] c h = h
  first_unready-hard (svc ∷ svcs) c h = ground (arith, first_unready-hard svcs c h)

  routed-hard :
      (idx : Index) (c : String) (svc : Option Node) (later : Check)
      → later.soft ≡ false
      → (or_check (routed decimal idx c svc) later).soft ≡ false
  unfolding routed
  routed-hard idx c none later h = refl
  routed-hard idx c (some svc) later h = ground arith

  services-hard :
      (idx : Index) (comps : List String) (n : ℕ)
      → (check_services decimal idx comps n).soft ≡ false
  unfolding check_services
  services-hard idx [] n = ground (
    arith,
    first_unready-hard (nodes_of_kind idx "Service")
        (unsettled "scenario:service-routing"
          "no EndpointSlice/backend evidence for service-routing")
        refl,
  )
  services-hard idx (c ∷ cs) n = ground (
    arith,
    services-hard idx cs n,
    routed-hard idx c (lookup c idx.by_id) (check_services decimal idx cs (suc n))
        (services-hard idx cs (suc n)),
  )

  prom-hard : (o : Observed) → (check_prom_zero_match decimal o).soft ≡ false
  unfolding check_prom_zero_match
  prom-hard o = ground arith

  pub scenario-hard :
      (s : String) (pred : Prediction) (o : Observed) (idx : Index)
      → (independent_scenario_check decimal s pred o idx).soft ≡ false
  unfolding independent_scenario_check check_service_routing
  scenario-hard s pred o idx =
      let comps = components_for_scenario pred s in
      ground (
        arith,
        cni o idx comps,
        rwo idx comps,
        pdb o idx comps,
        volume idx comps,
        services-hard idx comps 0,
        prom-hard o,
      )

  -- A component whose identifier is a service's is in the graph, with evidence on endpoints, of which
  -- some are ready.
  abbrev pub IsReady : Index → List String → Type 0
  IsReady idx comps =
      (c : String) × (svc : Node) × Memᴰ c comps
      × (starts c "svc/" ≡ true)
      × (lookup c idx.by_id ≡ some svc)
      × ((attr_bool (some svc) "hasEndpointSlice"
            || is_set (lookup "readyEndpoints" svc.attributes))
          ≡ true)
      × (eqz (attr_int (some svc) "readyEndpoints") (pos 0) ≡ false)

  first_unready-against :
      (svcs : List Node) (c : Check)
      → refutes c ≡ false
      → refutes (or_check (first_unready decimal svcs) c) ≡ false
  first_unready-against [] c h = h
  first_unready-against (svc ∷ svcs) c h = ground (arith, first_unready-against svcs c h)

  routed-refutes :
      (idx : Index) (c : String) (svc : Option Node) (later : Check)
      → refutes (or_check (routed decimal idx c svc) later) ≡ true
      → (refutes later ≡ true)
        ⊎ ((n : Node) × (svc ≡ some n)
            × ((attr_bool (some n) "hasEndpointSlice"
                  || is_set (lookup "readyEndpoints" n.attributes))
                ≡ true)
            × (eqz (attr_int (some n) "readyEndpoints") (pos 0) ≡ false))
  unfolding routed
  routed-refutes idx c none later h = cc
  routed-refutes idx c (some svc) later h =
      elim (Bool-cases (eqz (attr_int (some svc) "readyEndpoints") (pos 0))) [
        | inl e ↦ inl (ground arith)
        | inr e ↦
            elim (Bool-cases (
              attr_bool (some svc) "hasEndpointSlice"
              || is_set (lookup "readyEndpoints" svc.attributes))) [
                | inl known ↦ inr (svc, refl, known, e)
                | inr unknown ↦ inl (ground (arith, h, unknown))
              ]
      ]

  later_component :
      (idx : Index) (c : String) (cs : List String) → IsReady idx cs → IsReady idx (c ∷ cs)
  later_component idx c cs (d, svc, m, service, found, known, ready) =
      (d, svc, tail m, service, found, known, ready)

  services-refutes :
      (idx : Index) (comps : List String) (n : ℕ)
      → refutes (check_services decimal idx comps n) ≡ true
      → IsReady idx comps
  unfolding check_services
  services-refutes idx [] n h = ground (
    arith,
    h,
    first_unready-against (nodes_of_kind idx "Service")
        (unsettled "scenario:service-routing"
          "no EndpointSlice/backend evidence for service-routing")
        refl,
  )
  services-refutes idx (c ∷ cs) n h = elim (Bool-cases (starts c "svc/")) [
    | inl e ↦
        elim (routed-refutes idx c (lookup c idx.by_id) (check_services decimal idx cs (suc n))
          (rw e at h)) [
            | inl later ↦ later_component idx c cs (services-refutes idx cs (suc n) later)
            | inr (svc, found, known, ready) ↦ (c, svc, head refl, e, found, known, ready)
          ]
    | inr e ↦ later_component idx c cs (services-refutes idx cs n (rw e at h))
  ]

  zero_match-refutes :
      (o : Observed) (found : Option ℤ)
      → refutes (zero_match decimal o found) ≡ true
      → (v : ℤ) × (found ≡ some v) × (eqz v (pos 0) ≡ false)
  zero_match-refutes o none h = cc
  zero_match-refutes o (some v) h = (v, refl, ground arith)

  prom-refutes :
      (o : Observed)
      → refutes (check_prom_zero_match decimal o) ≡ true
      → (v : ℤ) × (meta_int o "metric_match_count" ≡ some v) × (eqz v (pos 0) ≡ false)
  unfolding check_prom_zero_match
  prom-refutes o h = zero_match-refutes o (meta_int o "metric_match_count") (ground (arith, h))

  against_cases :
      (s : String) (pred : Prediction) (o : Observed) (idx : Index)
      → refutes (independent_scenario_check decimal s pred o idx) ≡ true
      → ((s ≡ "service-routing")
          × (refutes (check_services decimal idx (components_for_scenario pred s) 0) ≡ true))
        ⊎ ((s ≡ "prom-zero-match") × (refutes (check_prom_zero_match decimal o) ≡ true))
  unfolding independent_scenario_check check_service_routing
  against_cases s pred o idx h =
      let comps = components_for_scenario pred s in
      ground (
        arith,
        h,
        cni o idx comps,
        rwo idx comps,
        pdb o idx comps,
        volume idx comps,
        eq_iff s "service-routing",
        eq_iff s "prom-zero-match",
      )

  -- An independent check is against its prediction in two cases only: the scenario is service-routing
  -- and some component, whose identifier begins with svc/, is a node of the observed graph that has an
  -- endpoint slice or a number of ready endpoints, and this number is not 0; or it is prom-zero-match
  -- and the metadata has a metric_match_count that is not 0.
  pub independent_scenario_check-refutes :
      (s : String) (pred : Prediction) (o : Observed) (idx : Index)
      → refutes (independent_scenario_check decimal s pred o idx) ≡ true
      → ((s ≡ "service-routing") × IsReady idx (components_for_scenario pred s))
        ⊎ ((s ≡ "prom-zero-match")
            × ((v : ℤ) × (meta_int o "metric_match_count" ≡ some v) × (eqz v (pos 0) ≡ false)))
  independent_scenario_check-refutes s pred o idx h = elim (against_cases s pred o idx h) [
    | inl (e, r) ↦ inl (e, services-refutes idx (components_for_scenario pred s) 0 r)
    | inr (e, r) ↦ inr (e, prom-refutes o r)
  ]
