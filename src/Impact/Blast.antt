-- ===== src/Impact/Blast.antt =====
-- internal/impact/blast.go: the detector of the blast radius. A walk that runs out of fuel would have no
-- nodes; Graph/Fuel shows that none does. `decimal` shows an integer.
use architecture_rehearsal.Prelude.{
  ℕ, String, Option, none, some, List, [], ◌∷◌, ◌++◌, map, filter, is_nil, contains, length, Bool,
  false, not, ◌&&◌, ◌||◌, ◌==◌, eqb, leb, lookup, concat, if◌then◌else◌,
}
use architecture_rehearsal.Graph.{Node, Index, ℤ, pos, or_nil}
use architecture_rehearsal.Graph.Walk.{dependents_of, walk_forward}
use architecture_rehearsal.Loader.{ChangeEnvelope}
use architecture_rehearsal.Impact.{Verdict}
use architecture_rehearsal.Impact.Context.{
  Context, plain, display, or_else, edges_of, baseline_edges,
}

abbrev allowed : List String
allowed =
    "DEPENDS_ON" ∷ "ROUTES_TO" ∷ "OBSERVED_BY" ∷ "PROTECTED_BY" ∷ "BINDS_VOLUME" ∷ "SCALES" ∷ []

-- `append(affected, id)`, unless the identifier is there (the map `seen` has the same) or is the seed.
abbrev pub add_new : String → List String → String → List String
add_new seed affected id =
    if contains affected id || id == seed then affected else affected ++ id ∷ []

unfoldable pub add_dependents : String → List String → List String → List String
add_dependents seed affected [] = affected
add_dependents seed affected (id ∷ ids) = add_dependents seed (add_new seed affected id) ids

abbrev is_kind : List String → Option Node → Bool
is_kind kinds none = false
is_kind kinds (some n) = contains kinds n.kind

unfoldable pub add_reached : Index → String → List String → List String → List String
add_reached idx seed affected [] = affected
add_reached idx seed affected (id ∷ ids) =
    let skip = not (is_kind ("Workload" ∷ "Service" ∷ "PVC" ∷ []) (lookup id idx.by_id)) in
    add_reached idx seed (if skip then affected else add_new seed affected id) ids

unfoldable pub affected_by : Index → List String → List String → List String
unfolding add_dependents add_reached
affected_by idx affected [] = affected
affected_by idx affected (seed ∷ seeds) =
    let dependents = add_dependents seed affected (or_nil (dependents_of idx seed)) in
    affected_by idx
      (add_reached idx seed dependents (or_nil (walk_forward idx (seed ∷ []) (some allowed) 6)))
      seeds

-- `base` is not nil in the source when a node is looked up there.
unfoldable pub affected_workloads : Index → Option Index → List String → List String
affected_workloads prop base affected =
    filter
      (λ id. is_kind ("Workload" ∷ []) (
        or_else (lookup id prop.by_id)
          (elim base [ none ↦ none | some idx ↦ lookup id idx.by_id ])))
      affected

module _ (decimal : ℤ → String) where
  abbrev counted : String → ℕ → String
  counted label n = concat (label ∷ decimal (pos n) ∷ [])

  abbrev spaced : List String → List String
  spaced [] = []
  spaced (s ∷ []) = s ∷ []
  spaced (s ∷ t ∷ rest) = s ∷ " " ∷ spaced (t ∷ rest)

  abbrev names_evidence : List String → List String
  names_evidence [] = []
  names_evidence (n ∷ ns) = concat ("workloads=[" ∷ spaced (n ∷ ns) ++ "]" ∷ []) ∷ []

  -- The status, explanation and confidence for a number of workloads.
  unfoldable pub graded : ℕ → String × (String × String)
  graded n =
      if leb 5 n
      then (
        "BLOCK",
        (
          concat (
              "large blast radius: "
              ∷ decimal (pos n)
              ∷ " other workloads reachable via graph edges"
              ∷ []),
          "high",
        ),
      )
      else if leb 2 n
      then (
        "WARN",
        (
          concat (
              "moderate blast radius: "
              ∷ decimal (pos n)
              ∷ " other workloads affected via graph edges"
              ∷ []),
          "high",
        ),
      )
      else if eqb n 1
      then ("WARN", ("blast radius includes 1 dependent workload", "medium"))
      else ("PASS", ("no additional workloads in blast radius beyond change seeds", "high"))

  abbrev pub radius : Option Index → Index → List String → Verdict
  radius base prop seeds =
      let affected = affected_by prop [] seeds in
      let workloads = affected_workloads prop base affected in
      let (status, (explanation, confidence)) = graded (length workloads) in
      record {
        detector = "blast-radius";
        status = status;
        explanation = explanation;
        confidence = confidence;
        evidence =
            counted "seeds=" (length seeds)
            ∷ counted "affected_nodes=" (length affected)
            ∷ counted "affected_workloads=" (length workloads)
            ∷ names_evidence (map (display prop) workloads);
        affected = affected;
        missing = [];
      }

  abbrev is_unseeded : ChangeEnvelope → Bool
  is_unseeded ch = is_nil ch.added_nodes && (is_nil ch.patch_nodes && is_nil ch.removed_nodes)

  abbrev pub judge_change : Context → ChangeEnvelope → Index → Verdict
  judge_change ctx ch prop =
      if is_nil ch.seeds
      then if is_unseeded ch
        then plain "blast-radius" "PASS" "empty change; no blast radius" "high" []
        else plain "blast-radius" "UNKNOWN"
            "change has graph mutations but no seeds for blast-radius traversal" "low"
            ("seeds" ∷ [])
      else if is_nil (edges_of ctx.proposed) && is_nil (baseline_edges ctx.baseline)
      then record (plain "blast-radius" "PASS"
          "no dependency edges; blast radius limited to change seeds" "medium" []) {
            evidence = counted "seeds=" (length ch.seeds) ∷ [];
          }
      else radius ctx.base_idx prop ch.seeds

  abbrev judge_given : Context → Option ChangeEnvelope → Option Index → Verdict
  judge_given ctx (some ch) (some prop) = judge_change ctx ch prop
  judge_given ctx _ _ =
      plain "blast-radius" "UNKNOWN" "missing change or proposed graph index" "low"
        ("change" ∷ "graph" ∷ [])

  unfoldable pub evaluate : Context → Verdict
  unfolding affected_by affected_workloads graded
  evaluate ctx = judge_given ctx ctx.change ctx.prop_idx
