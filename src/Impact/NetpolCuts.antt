-- ===== src/Impact/NetpolCuts.antt =====
-- When the detector of network policies blocks (internal/impact/netpol.go).
use architecture_rehearsal.Prelude.{
  ◌≡◌, refl, ◌↔◌, ◌⊎◌, inl, inr, Memᴰ, String, Option, none, some, List, is_nil, any, length, Bool,
  true, false, not, ◌&&◌, ◌||◌, ◌==◌, ◌<◌, arith, eq_iff, lookup, starts, if◌then◌else◌,
}
use architecture_rehearsal.Graph.{Node, Edge, Index, ℤ, attr_bool}
use architecture_rehearsal.Graph.Values.{as_array}
use architecture_rehearsal.Loader.{ChangeEnvelope}
use architecture_rehearsal.Impact.Context.{Context, or_else}
use architecture_rehearsal.Impact.Netpol.{
  netpol_touched, policies_of, selects, egress_allows, cuts_edge, resolve, dependencies, evaluate,
}
use architecture_rehearsal.Impact.NetpolSteps.{cut_between, is_cut, judge-block}
use architecture_rehearsal.Impact.NetpolDependencies.{
  any-mem, mem-any, IsDependency, dependencies_iff,
}

-- The change touches network policies: it adds one, patches or has as a seed a node whose identifier is a
-- policy's, or makes a graph with more of them.
abbrev pub IsTouched : ChangeEnvelope → Index → Index → Type 0
IsTouched ch base prop =
    ((n : Node) × Memᴰ n ch.added_nodes × (n.kind ≡ "NetworkPolicy"))
    ⊎ (((n : Node) × Memᴰ n ch.patch_nodes × (starts n.id "netpol/" ≡ true))
        ⊎ (((id : String) × Memᴰ id ch.seeds × (starts id "netpol/" ≡ true))
            ⊎ (length (policies_of base) < length (policies_of prop))))

-- The node of an identifier in the proposed graph, or else in the baseline.
abbrev pub IsNode : Index → Index → String → Node → Type 0
IsNode prop base id n =
    (lookup id prop.by_id ≡ some n)
    ⊎ ((lookup id prop.by_id ≡ none) × (lookup id base.by_id ≡ some n))

or_iff : (a b : Bool) → ((a || b) ≡ true) ↔ ((a ≡ true) ⊎ (b ≡ true))
or_iff true b = (λ h. inl refl, λ h. refl)
or_iff false b = (λ h. inr h, λ h. ground (arith, h))

netpol_touched-IsTouched :
    (ch : ChangeEnvelope) (base prop : Index)
    → (netpol_touched ch base prop ≡ true) ↔ IsTouched ch base prop
unfolding netpol_touched
netpol_touched-IsTouched ch base prop = (
  λ h. elim ((or_iff (any added ch.added_nodes) _).0 h) [
    | inl a ↦
        let (n, m, k) = any-mem added ch.added_nodes a in
        inl (n, m, (eq_iff n.kind "NetworkPolicy").0 k)
    | inr h ↦ elim ((or_iff (any patched ch.patch_nodes) _).0 h) [
      | inl b ↦ inr (inl (any-mem patched ch.patch_nodes b))
      | inr h ↦ elim ((or_iff (any seeded ch.seeds) _).0 h) [
        | inl c ↦ inr (inr (inl (any-mem seeded ch.seeds c)))
        | inr d ↦ inr (inr (inr (ground (arith, d))))
      ]
    ]
  ],
  back,
)
  where
    added : Node → Bool
    added n = n.kind == "NetworkPolicy"

    patched : Node → Bool
    patched n = starts n.id "netpol/"

    seeded : String → Bool
    seeded id = starts id "netpol/"

    back : IsTouched ch base prop → netpol_touched ch base prop ≡ true
    back (inl (n, m, k)) =
        ground (arith, mem-any added ch.added_nodes n m ((eq_iff n.kind "NetworkPolicy").1 k))
    back (inr (inl (n, m, k))) = ground (arith, mem-any patched ch.patch_nodes n m k)
    back (inr (inr (inl (id, m, k)))) = ground (arith, mem-any seeded ch.seeds id m k)
    back (inr (inr (inr d))) = ground (arith, d)

-- The three ways of a policy, of the tests that decide them.
three_ways :
    (s a n t b m r ok : Bool)
    → ((if s && (a && n) then true else if t && (b && m) then true else s && (not r && not ok))
        ≡ true)
      ↔ (((s ≡ true) × (a ≡ true) × (n ≡ true))
          ⊎ (((t ≡ true) × (b ≡ true) × (m ≡ true)) ⊎ ((s ≡ true) × (r ≡ false) × (ok ≡ false))))
three_ways s a n t b m r ok = (λ h. ground (arith, h), λ h. ground (arith, h))

in_namespace :
    (np n : Node)
    → ((np.namespace == "" || np.namespace == n.namespace) ≡ true)
      ↔ ((np.namespace ≡ "") ⊎ (np.namespace ≡ n.namespace))
in_namespace np n = (
  λ h. elim ((or_iff (np.namespace == "") _).0 h) [
    | inl e ↦ inl ((eq_iff np.namespace "").0 e)
    | inr e ↦ inr ((eq_iff np.namespace n.namespace).0 e)
  ],
  λ h. (or_iff (np.namespace == "") _).1 (elim h [
    | inl e ↦ inl ((eq_iff np.namespace "").1 e)
    | inr e ↦ inr ((eq_iff np.namespace n.namespace).1 e)
  ]),
)

module _ (decimal : ℤ → String) where
  -- What a policy does to an edge between two nodes: it denies all egress of the one or all ingress of the
  -- other, in its own namespace or in all, or it has egress rules of which none allows the other.
  abbrev pub Cuts : Node → Node → Node → Type 0
  Cuts np from to =
      ((selects decimal np from ≡ true)
        × (attr_bool (some np) "egressEmpty" ≡ true)
        × ((np.namespace ≡ "") ⊎ (np.namespace ≡ from.namespace)))
      ⊎ (((selects decimal np to ≡ true)
            × (attr_bool (some np) "ingressEmpty" ≡ true)
            × ((np.namespace ≡ "") ⊎ (np.namespace ≡ to.namespace)))
          ⊎ ((selects decimal np from ≡ true)
              × (is_nil (as_array (lookup "egress" np.attributes)) ≡ false)
              × (egress_allows decimal (as_array (lookup "egress" np.attributes)) to ≡ false)))

  cuts_edge-Cuts : (np from to : Node) → (cuts_edge decimal np from to ≡ true) ↔ Cuts np from to
  unfolding cuts_edge
  cuts_edge-Cuts np from to =
      let split =
        three_ways (selects decimal np from) (attr_bool (some np) "egressEmpty")
          (np.namespace == "" || np.namespace == from.namespace) (selects decimal np to)
          (attr_bool (some np) "ingressEmpty") (np.namespace == "" || np.namespace == to.namespace)
          (is_nil (as_array (lookup "egress" np.attributes)))
          (egress_allows decimal (as_array (lookup "egress" np.attributes)) to) in
      let from_there = in_namespace np from in
      let to_there = in_namespace np to in
      (
        λ h. elim (split.0 h) [
          | inl (s, d, n) ↦ inl (s, d, from_there.0 n)
          | inr (inl (s, d, n)) ↦ inr (inl (s, d, to_there.0 n))
          | inr (inr r) ↦ inr (inr r)
        ],
        λ c. split.1 (elim c [
          | inl (s, d, n) ↦ inl (s, d, from_there.1 n)
          | inr (inl (s, d, n)) ↦ inr (inl (s, d, to_there.1 n))
          | inr (inr r) ↦ inr (inr r)
        ]),
      )

  or_else_iff :
      (a b : Option Node) (n : Node)
      → (or_else a b ≡ some n) ↔ ((a ≡ some n) ⊎ ((a ≡ none) × (b ≡ some n)))
  or_else_iff none b n = (λ h. inr (refl, h), λ h. elim h [ inl e ↦ cc e | inr (e, k) ↦ k ])
  or_else_iff (some x) b n = (λ h. inl h, λ h. elim h [ inl e ↦ e | inr (e, k) ↦ cc e ])

  -- A policy of the list cuts between the nodes of the ends.
  abbrev IsBetween : List Node → Option Node → Option Node → Type 0
  IsBetween policies a b =
      (from : Node) × (to : Node) × (np : Node) × (a ≡ some from)
      × (b ≡ some to)
      × Memᴰ np policies
      × (cuts_edge decimal np from to ≡ true)

  cut_between-IsBetween :
      (policies : List Node) (a b : Option Node)
      → cut_between decimal policies a b ≡ true
      → IsBetween policies a b
  cut_between-IsBetween policies none b h = cc h
  cut_between-IsBetween policies (some from) none h = cc h
  cut_between-IsBetween policies (some from) (some to) h =
      let (np, m, k) = any-mem (λ x. cuts_edge decimal x from to) policies h in
      (from, to, np, refl, refl, m, k)

  IsBetween-cut_between :
      (policies : List Node) (a b : Option Node)
      → IsBetween policies a b
      → cut_between decimal policies a b ≡ true
  IsBetween-cut_between policies a b (from, to, np, e, e', m, k) =
      rw (e, e') (mem-any (λ x. cuts_edge decimal x from to) policies np m k)

  -- A policy of the proposed graph cuts the edge.
  abbrev pub IsCut : Index → Index → Edge → Type 0
  IsCut prop base e =
      (from : Node) × (to : Node) × (np : Node) × IsNode prop base e.from from
      × IsNode prop base e.to to
      × Memᴰ np (policies_of prop)
      × Cuts np from to

  is_cut-IsCut :
      (prop base : Index) (e : Edge) → (is_cut decimal prop base e ≡ true) ↔ IsCut prop base e
  is_cut-IsCut prop base e =
      let a : String → Option Node = λ id. lookup id prop.by_id in
      let b : String → Option Node = λ id. lookup id base.by_id in
      let here = resolve decimal prop base e.from in
      let there = resolve decimal prop base e.to in
      (
        λ h.
            let (from, to, np, s, t, m, k) =
              cut_between-IsBetween (policies_of prop) here there h in
            (
              from,
              to,
              np,
              (or_else_iff (a e.from) (b e.from) from).0 s,
              (or_else_iff (a e.to) (b e.to) to).0 t,
              m,
              (cuts_edge-Cuts np from to).0 k,
            ),
        λ (from, to, np, s, t, m, k). IsBetween-cut_between (policies_of prop) here there (
          from,
          to,
          np,
          (or_else_iff (a e.from) (b e.from) from).1 s,
          (or_else_iff (a e.to) (b e.to) to).1 t,
          m,
          (cuts_edge-Cuts np from to).1 k,
        ),
      )

  -- The detector blocks exactly when the change touches network policies and there are a dependency, two
  -- nodes that are its ends in the proposed graph or else in the baseline, and a policy of the proposed
  -- graph that cuts between them: one that denies all egress of the first or all ingress of the
  -- second, in all namespaces or in that node's, or whose egress rules do not allow the second. The
  -- dependencies are those of the proposed graph, or of the baseline where that has none.
  pub evaluate-block :
      (ctx : Context) (ch : ChangeEnvelope) (base prop : Index)
      → ctx.change ≡ some ch
      → ctx.base_idx ≡ some base
      → ctx.prop_idx ≡ some prop
      → ((evaluate decimal ctx).status ≡ "BLOCK")
        ↔ (IsTouched ch base prop × ((e : Edge) × IsDependency ctx e × IsCut prop base e))
  unfolding evaluate
  evaluate-block ctx ch base prop change b p =
      let judged : ((evaluate decimal ctx).status == "BLOCK") ≡ (
          netpol_touched ch base prop
          && any (is_cut decimal prop base) (dependencies decimal ctx)) =
        rw (change, b, p) (judge-block decimal ctx ch base prop) in
      let deps = dependencies_iff decimal ctx (is_cut decimal prop base) in
      let touched = netpol_touched-IsTouched ch base prop in
      (
        λ h.
            let (e, d, k) =
              deps.0 (ground (arith, judged, (eq_iff (evaluate decimal ctx).status "BLOCK").1 h)) in
            (
              touched.0
                  (ground (arith, judged, (eq_iff (evaluate decimal ctx).status "BLOCK").1 h)),
              (e, d, (is_cut-IsCut prop base e).0 k),
            ),
        λ (t, (e, d, k)).
            (eq_iff (evaluate decimal ctx).status "BLOCK").0
              (ground (arith, judged, touched.1 t, deps.1 (e, d, (is_cut-IsCut prop base e).1 k))),
      )
