-- ===== src/Impact/Budgets.antt =====
-- internal/impact/pdb.go: Evaluate as a whole, with the workloads that a budget protects, the test
-- whether a sync rolls pods, and the loop over the budgets. A map is iterated in the order of its
-- list. `decimal` shows an integer.
use architecture_rehearsal.Prelude.{
  ℕ, suc, ◌+◌, ◌-◌, String, Option, none, some, List, [], ◌∷◌, ◌++◌, map, filter, gather, find,
  is_nil, any, contains, Bool, true, false, not, ◌&&◌, ◌||◌, ◌==◌, eqb, ltb, leb, lookup, concat,
  if◌then◌else◌,
}
use architecture_rehearsal.Graph.{
  Node, Index, flag, ℤ, pos, negsuc, Fields, or_nil, workload_replicas,
}
use architecture_rehearsal.Loader.{ChangeEnvelope}
use architecture_rehearsal.Analyze.{unique_strings}
use architecture_rehearsal.Podtemplate.{subset_changed}
use architecture_rehearsal.Verify.{ltz, is_some}
use architecture_rehearsal.Impact.{Verdict}
use architecture_rehearsal.Impact.Unavailable.{
  rollout_max_unavailable, effective_min_available, effective_max_unavailable, none_remain,
}
use architecture_rehearsal.Impact.Pdb.{
  sync_template_uncertain, sync_template_uncertain_detail, Rollout, Findings, add, no_findings,
  judge_all, verdict_without_pdbs, found, without, is_empty,
}
use architecture_rehearsal.Impact.Context.{
  Context, display, or_else, edges_of, baseline_edges, selector_matches, object_at,
}

abbrev pub flag_at : String → Node → Option Bool
flag_at key n = elim (lookup key n.attributes) [ some (flag b) ↦ some b | _ ↦ none ]

abbrev or_bool : Option Bool → Bool → Bool
or_bool none b = b
or_bool (some a) b = a

abbrev or_fields : Option Fields → Option Fields → Option Fields
or_fields none m = m
or_fields (some l) m = some l

abbrev live_template : Option Node → Option Fields
live_template none = none
live_template (some n) = object_at "podTemplate" n

abbrev patch_triggers : Index → Node → Option Node → Bool
patch_triggers base w none = false
patch_triggers base w (some p) = or_bool (flag_at "podTemplateChanged" p) (
    subset_changed (or_fields (object_at "podTemplate" p) (object_at "podTemplate" w))
      (live_template (lookup w.id base.by_id)))

abbrev added_triggers : Option Node → Bool → Bool
added_triggers none otherwise = otherwise
added_triggers (some a) otherwise = or_bool (flag_at "podTemplateChanged" a) true

unfoldable pub sync_triggers_rollout : Option ChangeEnvelope → Index → Node → Bool
sync_triggers_rollout none base w = true
sync_triggers_rollout (some ch) base w =
    added_triggers (find (λ a. a.id == w.id) ch.added_nodes)
      (patch_triggers base w (find (λ p. p.id == w.id) ch.patch_nodes))

abbrev changed_nodes : Option ChangeEnvelope → Option (List Node)
changed_nodes none = none
changed_nodes (some ch) = some (ch.added_nodes ++ ch.patch_nodes)

-- A step of the loop over the budgets: the verdict that ends it, or the findings so far.
pub data Judged : Type 0 where
  stop : Verdict → Judged
  go : Findings → Judged

abbrev pub unless_worse : String → String → String
unless_worse worst status = if worst == "BLOCK" || worst == "UNKNOWN" then worst else status

-- The pods that remain, where some do.
abbrev pub remaining : ℕ → ℤ → ℕ
remaining replicas (pos n) = replicas - n
remaining replicas (negsuc n) = replicas + suc n

module _ (decimal : ℤ → String) where
  abbrev labelled : Index → Node → Option Fields → List String
  labelled prop pdb none = []
  labelled prop pdb (some selector) =
      map (λ w. w.id)
        (filter
          (λ w.
            w.namespace == pdb.namespace
            && selector_matches decimal (some selector) (object_at "podLabels" w))
          (or_nil (lookup "Workload" prop.by_kind)))

  unfoldable pub workloads_for_pdb : Index → Node → List String
  workloads_for_pdb prop pdb = unique_strings (
      gather
        (λ entry.
          map (λ e. entry.0) (filter (λ e. e.to == pdb.id && e.rel == "PROTECTED_BY") entry.1))
        prop.out
      ++ labelled prop pdb (object_at "matchLabels" pdb))

  unfoldable pub matching_pdb : Index → List Node → Node → Option Node
  unfolding workloads_for_pdb
  matching_pdb prop pdbs w = find (λ pdb. contains (workloads_for_pdb prop pdb) w.id) pdbs

  -- What the two loops read of a workload.
  unfoldable pub rollout_of : Option ChangeEnvelope → Index → Index → List Node → Node → Rollout
  unfolding sync_triggers_rollout matching_pdb
  rollout_of change prop base pdbs w =
      let replicas = workload_replicas (some w) in
      let (max_unavailable, recreate) = rollout_max_unavailable (some w) replicas in
      record {
        id = w.id;
        shown = display prop w.id;
        replicas = replicas;
        max_unavailable = max_unavailable;
        recreate = recreate;
        uncertain = sync_template_uncertain (changed_nodes change) w;
        detail = sync_template_uncertain_detail (changed_nodes change) w;
        triggers = sync_triggers_rollout change base w;
        pdb = matching_pdb prop pdbs w;
      }

  abbrev pub below_text : Bool → ℕ → ℕ → String
  below_text triggers rest min = concat (
      (if triggers
        then "rollout can drop available pods to "
        else "existing strategy can drop available pods to ")
      ∷ decimal (pos rest)
      ∷ ", below the minAvailable="
      ∷ decimal (pos min)
      ∷ " your PDB declares (PDBs do not enforce this during rollouts)"
      ∷ [])

  abbrev pub below : Node → Rollout → ℕ → ℕ → Findings → Findings
  below pdb x rest min f =
      if ltb 0 min && ltb rest min
      then add f (below_text x.triggers rest min) (pdb.id ∷ x.id ∷ [])
          (if x.triggers then "BLOCK" else unless_worse f.worst "WARN")
      else f

  abbrev pub tighter : Node → Rollout → ℕ → Findings → Findings
  tighter pdb x max f =
      if ltb 0 max && ltz (pos max) x.max_unavailable
      then add f
          (concat (
            "PDB "
            ∷ pdb.name
            ∷ " maxUnavailable="
            ∷ decimal (pos max)
            ∷ " tighter than rollout maxUnavailable="
            ∷ decimal x.max_unavailable
            ∷ " on "
            ∷ x.shown
            ∷ "; note: PodDisruptionBudgets do not limit Deployment rollouts (they only gate evictions)"
            ∷ []))
          (pdb.id ∷ x.id ∷ []) (unless_worse f.worst "WARN")
      else f

  abbrev pub single : Node → Rollout → ℕ → Findings → Findings
  single pdb x min f =
      if eqb x.replicas 1 && leb 1 min
      then add f
          (concat (
            "PDB "
            ∷ pdb.name
            ∷ " minAvailable="
            ∷ decimal (pos min)
            ∷ " with single-replica workload "
            ∷ x.shown
            ∷ " blocks eviction disruption (not rollouts)"
            ∷ []))
          (pdb.id ∷ x.id ∷ []) (unless_worse f.worst "WARN")
      else f

  -- The body of the loop over the workloads of a budget.
  unfoldable pub judge_budget : Node → Findings → Rollout → Judged
  judge_budget pdb f x =
      if eqb x.replicas 0
      then stop (
          without "UNKNOWN"
            (concat (
              "PDB " ∷ pdb.name ∷ " workload " ∷ x.shown
              ∷ " has replicas<=0 (unknown rollout impact)" ∷ []))
            "low" (concat ("replicas:" ∷ x.id ∷ []) ∷ []))
      else if none_remain x.replicas x.max_unavailable || (x.recreate || x.uncertain)
      then go f
      else let min = effective_min_available (some pdb) x.replicas in
        let max = effective_max_unavailable (some pdb) x.replicas in
        go (
          single pdb x min
            (tighter pdb x max (below pdb x (remaining x.replicas x.max_unavailable) min f)))

  abbrev pub unresolved : Node → String → Judged
  unresolved pdb wid = stop (
      without "UNKNOWN" (concat ("PDB " ∷ pdb.name ∷ " references unresolved workload " ∷ wid ∷ []))
        "low" (concat ("workload:" ∷ wid ∷ []) ∷ []))

  abbrev pub judge_found : (Node → Rollout) → Node → Findings → String → Option Node → Judged
  judge_found rollout pdb f wid none = unresolved pdb wid
  judge_found rollout pdb f wid (some w) = judge_budget pdb f (rollout w)

  abbrev pub and_go : Judged → (Findings → Judged) → Judged
  and_go (stop v) k = stop v
  and_go (go f) k = k f

  -- The workload of an identifier, and what the loops read of it.
  unfoldable pub judge_workloads :
      (Node → Rollout) → (String → Option Node) → Node → List String → Findings → Judged
  unfolding judge_budget
  judge_workloads rollout resolve pdb [] f = go f
  judge_workloads rollout resolve pdb (wid ∷ wids) f =
      and_go (judge_found rollout pdb f wid (resolve wid))
        (λ g. judge_workloads rollout resolve pdb wids g)

  unfoldable pub judge_budgets :
      (Node → Rollout) → (String → Option Node) → Index → List Node → Findings → Judged
  unfolding judge_workloads
  judge_budgets rollout resolve prop [] f = go f
  judge_budgets rollout resolve prop (pdb ∷ pdbs) f =
      and_go (judge_workloads rollout resolve pdb (workloads_for_pdb prop pdb) f)
        (λ g. judge_budgets rollout resolve prop pdbs g)

  abbrev pub concluded : Judged → Verdict
  concluded (stop v) = v
  concluded (go f) =
      if is_empty f.findings
      then without "PASS" "rollout respects availability constraints (PDB noted for eviction only)"
          "high" []
      else found f

  abbrev pub has_link : Context → List Node → Bool
  has_link ctx pdbs =
      any (λ e. e.rel == "PROTECTED_BY") (edges_of ctx.proposed ++ baseline_edges ctx.baseline)
      || any (λ pdb. is_some (lookup "matchLabels" pdb.attributes)) pdbs

  abbrev pub budgets_of : Index → Index → List Node
  budgets_of prop base =
      let proposed = or_nil (lookup "PDB" prop.by_kind) in
      if is_nil proposed then or_nil (lookup "PDB" base.by_kind) else proposed

  abbrev pub resolve : Index → Index → String → Option Node
  resolve prop base id = or_else (lookup id prop.by_id) (lookup id base.by_id)

  abbrev pub judge_indexes : Context → Index → Index → Verdict
  judge_indexes ctx base prop =
      let pdbs = budgets_of prop base in
      let rollout = rollout_of ctx.change prop base pdbs in
      let f =
        judge_all decimal no_findings (map rollout (or_nil (lookup "Workload" prop.by_kind))) in
      if is_nil pdbs
      then verdict_without_pdbs ctx.pdbs_collected f
      else if not (has_link ctx pdbs)
      then if not (is_empty f.findings)
        then found f
        else without "UNKNOWN"
            "PDBs present but no PROTECTED_BY edges or matchLabels to bind workloads" "low"
            ("pdb-workload-link" ∷ [])
      else concluded (judge_budgets rollout (resolve prop base) prop pdbs f)

  abbrev pub judge_given : Context → Option Index → Option Index → Verdict
  judge_given ctx (some base) (some prop) = judge_indexes ctx base prop
  judge_given ctx _ _ = without "UNKNOWN" "missing graph indexes" "low" ("graph" ∷ [])

  unfoldable pub evaluate : Context → Verdict
  unfolding judge_budgets rollout_of
  evaluate ctx = judge_given ctx ctx.base_idx ctx.prop_idx
