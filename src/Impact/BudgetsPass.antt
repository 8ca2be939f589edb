-- ===== src/Impact/BudgetsPass.antt =====
-- When the rollout detector passes (internal/impact/pdb.go).
use architecture_rehearsal.Prelude.{
  ◌≡◌, refl, String, Option, none, some, List, [], ◌∷◌, map, is_nil, any, Bool, true, false, not,
  ◌&&◌, ◌==◌, arith, Bool-cases, inl, inr, lookup,
}
use architecture_rehearsal.Graph.{Node, Index, ℤ, or_nil}
use architecture_rehearsal.Impact.Pdb.{
  Rollout, Findings, no_findings, judge_all, verdict_without_pdbs, found, is_empty,
}
use architecture_rehearsal.Impact.Context.{Context}
use architecture_rehearsal.Impact.Budgets.{
  rollout_of, Judged, stop, go, judge_found, and_go, judge_workloads, judge_budgets, concluded,
  budgets_of, resolve, workloads_for_pdb, judge_indexes, evaluate, has_link,
}
use architecture_rehearsal.Impact.BudgetSteps.{
  is_safe, IsHonest, Steps, keeps_minimum, judge_all-Passes, judge_budget-Steps,
}

module _ (decimal : ℤ → String) where
  further :
      (f g : Findings) (t u : Bool) (j : Judged)
      → (g.worst == "PASS" && not (f.worst == "PASS" && t)) ≡ false
      → Steps decimal g u j
      → Steps decimal f (t && u) j
  further f g t u (stop v) h k = k
  further f g t u (go l) h (honest, k) = (honest, ground (arith, h, k))

  and_go-Steps :
      (f : Findings) (t u : Bool) (j : Judged) (k : Findings → Judged)
      → Steps decimal f t j
      → ((g : Findings) → IsHonest g → Steps decimal g u (k g))
      → Steps decimal f (t && u) (and_go decimal j k)
  and_go-Steps f t u (stop v) k h r = h
  and_go-Steps f t u (go g) k (honest, h) r = further f g t u (k g) h (r g honest)

  module _ (rollout : Node → Rollout) (resolve : String → Option Node) where
    abbrev found_keeps : Node → Option Node → Bool
    found_keeps pdb none = false
    found_keeps pdb (some w) = keeps_minimum decimal pdb (rollout w)

    -- Every workload of the budget is found and keeps its minimum, or is one that the loop passes over.
    abbrev pub all_keep : Node → List String → Bool
    all_keep pdb [] = true
    all_keep pdb (wid ∷ wids) = found_keeps pdb (resolve wid) && all_keep pdb wids

    abbrev pub budgets_keep : Index → List Node → Bool
    budgets_keep prop [] = true
    budgets_keep prop (pdb ∷ pdbs) =
        all_keep pdb (workloads_for_pdb decimal prop pdb) && budgets_keep prop pdbs

    found-Steps :
        (pdb : Node) (f : Findings) (wid : String) (o : Option Node)
        → IsHonest f
        → Steps decimal f (found_keeps pdb o) (judge_found decimal rollout pdb f wid o)
    found-Steps pdb f wid none h = refl
    found-Steps pdb f wid (some w) h = judge_budget-Steps decimal pdb f (rollout w) h

    start-Steps : (f : Findings) → IsHonest f → Steps decimal f true (go f)
    start-Steps f h = (h, ground arith)

    workloads-Steps :
        (pdb : Node) (wids : List String) (f : Findings)
        → IsHonest f
        → Steps decimal f (all_keep pdb wids) (judge_workloads decimal rollout resolve pdb wids f)
    unfolding judge_workloads
    workloads-Steps pdb [] f h = start-Steps f h
    workloads-Steps pdb (wid ∷ wids) f h =
        and_go-Steps f (found_keeps pdb (resolve wid)) (all_keep pdb wids)
          (judge_found decimal rollout pdb f wid (resolve wid))
          (λ g. judge_workloads decimal rollout resolve pdb wids g)
          (found-Steps pdb f wid (resolve wid) h) (λ g honest. workloads-Steps pdb wids g honest)

    budgets-Steps :
        (prop : Index) (pdbs : List Node) (f : Findings)
        → IsHonest f
        → Steps decimal f
            (budgets_keep prop pdbs)
            (judge_budgets decimal rollout resolve prop pdbs f)
    unfolding judge_budgets
    budgets-Steps prop [] f h = start-Steps f h
    budgets-Steps prop (pdb ∷ pdbs) f h =
        and_go-Steps f (all_keep pdb (workloads_for_pdb decimal prop pdb)) (budgets_keep prop pdbs)
          (judge_workloads decimal rollout resolve pdb (workloads_for_pdb decimal prop pdb) f)
          (λ g. judge_budgets decimal rollout resolve prop pdbs g)
          (workloads-Steps pdb (workloads_for_pdb decimal prop pdb) f h)
          (λ g honest. budgets-Steps prop pdbs g honest)

  nil_keeps :
      (rollout : Node → Rollout) (resolve : String → Option Node) (prop : Index) (pdbs : List Node)
      → is_nil pdbs ≡ true
      → budgets_keep rollout resolve prop pdbs ≡ true
  nil_keeps rollout resolve prop [] h = refl
  nil_keeps rollout resolve prop (pdb ∷ pdbs) h = cc

  concluded-pass :
      (f : Findings) (t : Bool) (j : Judged)
      → Steps decimal f t j
      → ((concluded decimal j).status == "PASS") ≡ true
      → ((f.worst == "PASS") && t) ≡ true
  concluded-pass f t (stop v) h k = ground (arith, h, k)
  concluded-pass f t (go g) (honest, h) k = elim (Bool-cases (is_empty g.findings)) [
    | inl e ↦ ground (arith, h, honest, e)
    | inr e ↦ ground (arith, h, honest, e, (rw e at k))
  ]

  found-pass :
      (f : Findings)
      → IsHonest f
      → is_empty f.findings ≡ false
      → ((found f).status == "PASS") ≡ false
  found-pass f h e = ground (arith, h, e)

  without-pass :
      (collected : Bool) (f : Findings)
      → IsHonest f
      → ((verdict_without_pdbs collected f).status == "PASS") ≡ true
      → (f.worst == "PASS") ≡ true
  unfolding verdict_without_pdbs
  without-pass collected f h k = elim (Bool-cases (is_empty f.findings)) [
    | inl e ↦ ground (arith, h, e)
    | inr e ↦ ground (arith, rw e at k, h)
  ]

  -- All the workloads of the graph are safe.
  abbrev pub all_safe : List Rollout → Bool
  all_safe xs = not (any (λ x. not (is_safe x)) xs)

  -- The detector passes only if every workload of the proposed graph that has replicas has a certain
  -- template and a strategy that keeps a pod, and if every workload of a budget is found and keeps as
  -- many pods as the budget's minimum, unless none of its pods remain, its strategy is Recreate or its
  -- template is uncertain: of such a workload the second loop asks nothing, and the first part of this
  -- statement covers it only where it is a workload of the proposed graph.
  pub evaluate-all_safe :
      (ctx : Context) (base prop : Index)
      → ctx.base_idx ≡ some base
      → ctx.prop_idx ≡ some prop
      → ((evaluate decimal ctx).status == "PASS") ≡ true
      → let pdbs = budgets_of decimal prop base in
        let rollout = rollout_of decimal ctx.change prop base pdbs in
        (all_safe (map rollout (or_nil (lookup "Workload" prop.by_kind))) ≡ true)
        × (budgets_keep rollout (resolve decimal prop base) prop pdbs ≡ true)
  unfolding evaluate
  evaluate-all_safe ctx base prop b p h =
      let pdbs = budgets_of decimal prop base in
      let rollout = rollout_of decimal ctx.change prop base pdbs in
      let xs = map rollout (or_nil (lookup "Workload" prop.by_kind)) in
      let f = judge_all decimal no_findings xs in
      let (honest, safe) = judge_all-Passes decimal xs no_findings refl in
      let given : ((judge_indexes decimal ctx base prop).status == "PASS") ≡ true =
        rw (b, p) at h in
      elim (Bool-cases (is_nil pdbs)) [
        | inl empty ↦
            let calm = without-pass ctx.pdbs_collected f honest (rw empty at given) in
            (
              ground (arith, calm, safe),
              nil_keeps rollout (resolve decimal prop base) prop pdbs empty,
            )
        | inr budgets ↦ elim (Bool-cases (has_link decimal ctx pdbs)) [
          | inl linked ↦
              let steps = budgets-Steps rollout (resolve decimal prop base) prop pdbs f honest in
              let calm =
                concluded-pass f (budgets_keep rollout (resolve decimal prop base) prop pdbs)
                  (judge_budgets decimal rollout (resolve decimal prop base) prop pdbs f) steps
                  (rw (budgets, linked) at given) in
              (ground (arith, calm, safe), ground (arith, calm))
          | inr loose ↦ elim (Bool-cases (is_empty f.findings)) [
            | inl e ↦ cc (rw (budgets, loose, e) at given)
            | inr e ↦ ground (arith, found-pass f honest e, (rw (budgets, loose, e) at given))
          ]
        ]
      ]
