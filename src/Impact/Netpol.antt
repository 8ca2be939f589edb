-- ===== src/Impact/Netpol.antt =====
-- internal/impact/netpol.go: the detector of network policies that cut a dependency. `decimal` shows an
-- integer.
use architecture_rehearsal.Prelude.{
  String, Option, none, some, List, [], ◌∷◌, map, filter, gather, is_nil, any, length, Bool, true,
  false, not, ◌&&◌, ◌||◌, ◌==◌, ltb, lookup, starts, concat, if◌then◌else◌,
}
use architecture_rehearsal.Graph.{Node, Edge, Index, Attribute, ℤ, Fields, attr_bool, or_nil}
use architecture_rehearsal.Graph.Values.{field_of, as_object, as_array}
use architecture_rehearsal.Loader.{ChangeEnvelope}
use architecture_rehearsal.Impact.{Verdict}
use architecture_rehearsal.Impact.Pdb.{unique}
use architecture_rehearsal.Impact.Context.{
  Context, plain, concerning, display, or_else, edges_of, baseline_edges, no_fields,
  selector_matches, object_at,
}

abbrev pub policies_of : Index → List Node
policies_of idx = or_nil (lookup "NetworkPolicy" idx.by_kind)

unfoldable pub netpol_touched : ChangeEnvelope → Index → Index → Bool
netpol_touched ch base prop =
    any (λ n. n.kind == "NetworkPolicy") ch.added_nodes
    || (any (λ n. starts n.id "netpol/") ch.patch_nodes
        || (any (λ id. starts id "netpol/") ch.seeds
            || ltb (length (policies_of base)) (length (policies_of prop))))

-- A cut: the policy with the two ends of the edge.
pub record Cut : Type 0 where
  pub policy : Node
  pub source : Node
  pub target : Node

module _ (decimal : ℤ → String) where
  -- A peer of a rule, whose value is a map or is skipped.
  abbrev peer_selects : Option Fields → Option Fields → Bool
  peer_selects none labels = false
  peer_selects (some selector) labels =
      selector_matches decimal (as_object (field_of "matchLabels" selector)) labels

  abbrev peer_allows : Option Fields → Option Fields → Bool
  peer_allows none labels = false
  peer_allows (some peer) labels = peer_selects (as_object (field_of "podSelector" peer)) labels

  abbrev rule_allows : Option Fields → Option Fields → Bool
  rule_allows none labels = false
  rule_allows (some rule) labels =
      let peers = as_array (field_of "to" rule) in
      is_nil peers || any (λ p. peer_allows (as_object (some p)) labels) peers

  unfoldable pub egress_allows : List Attribute → Node → Bool
  egress_allows rules to =
      any (λ r. rule_allows (as_object (some r)) (object_at "podLabels" to)) rules

  abbrev pub selects : Node → Node → Bool
  selects np n =
      let sel = object_at "podSelector" np in
      selector_matches decimal sel (object_at "podLabels" n) || no_fields sel

  abbrev pub applies_in : Node → Node → Bool
  applies_in np n = np.namespace == "" || np.namespace == n.namespace

  unfoldable pub cuts_edge : Node → Node → Node → Bool
  unfolding egress_allows
  cuts_edge np from to =
      if selects np from && (attr_bool (some np) "egressEmpty" && applies_in np from)
      then true
      else if selects np to && (attr_bool (some np) "ingressEmpty" && applies_in np to)
      then true
      else let rules = as_array (lookup "egress" np.attributes) in
        selects np from && (not (is_nil rules) && not (egress_allows rules to))

  abbrev pub cuts_between : List Node → Option Node → Option Node → List Cut
  cuts_between policies (some from) (some to) =
      map (λ np. record { policy = np; source = from; target = to })
        (filter (λ np. cuts_edge np from to) policies)
  cuts_between policies _ _ = []

  abbrev pub resolve : Index → Index → String → Option Node
  resolve prop base id = or_else (lookup id prop.by_id) (lookup id base.by_id)

  unfoldable pub cuts_of : Index → Index → List Edge → List Cut
  cuts_of prop base deps =
      gather
        (λ e. cuts_between (policies_of prop) (resolve prop base e.from) (resolve prop base e.to))
        deps

  abbrev cut_text : Index → Cut → String
  cut_text prop c = concat (
      "NetworkPolicy "
      ∷ c.policy.namespace
      ∷ "/"
      ∷ c.policy.name
      ∷ " would cut dependency "
      ∷ display prop c.source.id
      ∷ " → "
      ∷ display prop c.target.id
      ∷ [])

  -- The dependencies of the proposed graph, or else those of the baseline.
  unfoldable pub dependencies : Context → List Edge
  dependencies ctx =
      let proposed = filter (λ e. e.rel == "DEPENDS_ON") (edges_of ctx.proposed) in
      if is_nil proposed
      then filter (λ e. e.rel == "DEPENDS_ON") (baseline_edges ctx.baseline)
      else proposed

  abbrev pub cut_verdict : Index → List Cut → Verdict
  cut_verdict prop [] =
      plain "networkpolicy-cut" "PASS" "NetworkPolicy changes do not cut known DEPENDS_ON edges"
        "medium" []
  cut_verdict prop (c ∷ cs) =
      concerning "networkpolicy-cut" "BLOCK"
        "NetworkPolicy change cuts a known dependency edge (e.g. app → database)" "high"
        (map (cut_text prop) (c ∷ cs))
        (unique (gather (λ x. x.source.id ∷ x.target.id ∷ x.policy.id ∷ []) (c ∷ cs)))

  abbrev pub judge_policies : Context → ChangeEnvelope → Index → Index → Verdict
  judge_policies ctx ch base prop =
      let deps = dependencies ctx in
      if not (netpol_touched ch base prop)
      then plain "networkpolicy-cut" "PASS" "no NetworkPolicy changes in the proposed sync" "high"
          []
      else if is_nil deps
      then plain "networkpolicy-cut" "UNKNOWN"
          "NetworkPolicy changed but graph has no DEPENDS_ON edges to evaluate cut risk" "low"
          ("DEPENDS_ON" ∷ [])
      else if is_nil (policies_of prop)
      then plain "networkpolicy-cut" "UNKNOWN"
          "NetworkPolicy change referenced but no NetworkPolicy nodes in proposed graph" "low"
          ("NetworkPolicy" ∷ [])
      else cut_verdict prop (cuts_of prop base deps)

  abbrev judge_given : Context → Option ChangeEnvelope → Option Index → Option Index → Verdict
  judge_given ctx (some ch) (some base) (some prop) = judge_policies ctx ch base prop
  judge_given ctx _ _ _ =
      plain "networkpolicy-cut" "UNKNOWN" "missing change or graph indexes" "low"
        ("change" ∷ "graph" ∷ [])

  unfoldable pub evaluate : Context → Verdict
  unfolding netpol_touched dependencies cuts_of
  evaluate ctx = judge_given ctx ctx.change ctx.base_idx ctx.prop_idx
