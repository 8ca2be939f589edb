-- ===== src/Impact/Pdb.antt =====
-- The first loop of internal/impact/pdb.go (PDBRollout.Evaluate) and its verdict on a graph without
-- budgets. A `Rollout` holds the local variables of the loop's body for one workload.
use architecture_rehearsal.Prelude.{
  ℕ, String, Option, none, some, List, [], ◌∷◌, ◌++◌, Bool, true, false, not, ◌&&◌, ◌||◌, ◌==◌, eqb,
  any, codes, concat, contains_text, non_empty, if◌then◌else◌,
}
use architecture_rehearsal.Impact.{Verdict}
use architecture_rehearsal.Graph.{Node, ℤ, pos, attr_string, attr_bool}
use architecture_rehearsal.Impact.Unavailable.{none_remain, effective_min_available}

-- `changed` are the added and the patched nodes of the change, if there is an envelope.
unfoldable pub sync_template_uncertain : Option (List Node) → Node → Bool
sync_template_uncertain none w = false
sync_template_uncertain (some changed) w =
    any
      (λ n.
        n.id == w.id
        && (attr_bool (some n) "podTemplateUncertain"
            || contains_text (codes (attr_string (some n) "podTemplateCompareDetail"))
                (codes "no last-applied-configuration")))
      changed

abbrev first_detail : Node → List Node → String
first_detail w [] = ""
first_detail w (n ∷ ns) =
    let rest = first_detail w ns in
    let detail = attr_string (some n) "podTemplateCompareDetail" in
    if n.id == w.id && non_empty detail then detail else rest

unfoldable pub sync_template_uncertain_detail : Option (List Node) → Node → String
sync_template_uncertain_detail none w = ""
sync_template_uncertain_detail (some changed) w = first_detail w changed

-- `shown` is `display(ctx.PropIdx, w.ID)`; `detail` that of `syncTemplateUncertainDetail`.
pub record Rollout : Type 0 where
  pub id : String
  pub shown : String
  pub replicas : ℕ
  pub max_unavailable : ℤ
  pub recreate : Bool
  pub uncertain : Bool
  pub detail : String
  pub triggers : Bool
  pub pdb : Option Node

pub record Findings : Type 0 where
  pub findings : List String
  pub affected : List String
  pub worst : String

abbrev pub recreate_availability_msg : String
recreate_availability_msg =
    "Recreate strategy terminates all pods before starting new ones; availability drops to 0 during rollout"

abbrev pub no_last_applied_detail : String
no_last_applied_detail =
    "cannot predict removals: live object has no last-applied-configuration (created with kubectl create or SSA); treating as rollout"

abbrev pdb_id : Option Node → List String
pdb_id none = []
pdb_id (some pdb) = pdb.id ∷ []

abbrev pub add : Findings → String → List String → String → Findings
add f msg ids worst = record {
  findings = f.findings ++ msg ∷ [];
  affected = f.affected ++ ids;
  worst = worst;
}

-- `else if worst != Block { worst = status }`
abbrev pub unless_block : String → String → String
unless_block worst status = if worst == "BLOCK" then worst else status

abbrev some_contains : String → List String → Bool
some_contains part findings = any (λ f. contains_text (codes f) (codes part)) findings

unfoldable pub has_zero_availability_finding : List String → Bool
has_zero_availability_finding findings =
    any
      (λ f.
        contains_text (codes f) (codes "take available pods to 0")
        || contains_text (codes f) (codes "take pods to 0"))
      findings

unfoldable pub pdb_explanation : String → List String → String
unfolding has_zero_availability_finding
pdb_explanation worst findings =
    if some_contains recreate_availability_msg findings
    then recreate_availability_msg
    else if some_contains "no last-applied-configuration" findings
    then no_last_applied_detail
    else if worst == "BLOCK" && has_zero_availability_finding findings
    then "rollout can take available pods to 0; note: PodDisruptionBudgets do not protect against rollouts"
    else if worst == "BLOCK" && some_contains "below the minAvailable=" findings
    then "rollout can drop available pods below the minAvailable your PDB declares (PDBs do not enforce this during rollouts)"
    else if worst == "WARN" && some_contains "existing strategy" findings
    then "existing strategy can take pods to 0 on next rollout"
    else if worst == "UNKNOWN"
    then no_last_applied_detail
    else if worst == "BLOCK"
    then "rollout can drop available pods below PDB minAvailable; note: PodDisruptionBudgets do not limit Deployment rollouts (they only gate evictions)"
    else "rollout may conflict with PodDisruptionBudget constraints; note: PDBs only gate evictions"

abbrev pub is_empty : List String → Bool
is_empty [] = true
is_empty (s ∷ ss) = false

-- `unique`: the first of equal texts, without the empty one.
abbrev unique_after : List String → List String → List String
unique_after seen [] = []
unique_after seen (s ∷ ss) =
    let rest = unique_after (s ∷ seen) ss in
    let skipped = unique_after seen ss in
    if s == "" || any (λ t. t == s) seen then skipped else s ∷ rest

abbrev pub unique : List String → List String
unique ss = unique_after [] ss

abbrev pub no_findings : Findings
no_findings = record { findings = []; affected = []; worst = "PASS" }

abbrev pub found : Findings → Verdict
found f = record {
  detector = "pdb-rollout";
  status = f.worst;
  explanation = pdb_explanation f.worst f.findings;
  confidence = "high";
  evidence = f.findings;
  affected = unique f.affected;
  missing = [];
}

abbrev pub without : String → String → String → List String → Verdict
without status explanation confidence missing = record {
  detector = "pdb-rollout";
  status = status;
  explanation = explanation;
  confidence = confidence;
  evidence = [];
  affected = [];
  missing = missing;
}

-- The branch of a graph without budgets.
unfoldable pub verdict_without_pdbs : Bool → Findings → Verdict
unfolding pdb_explanation
verdict_without_pdbs pdbs_collected f =
    if not (is_empty f.findings)
    then found f
    else if not pdbs_collected
    then without "UNKNOWN" "PDB inventory status unknown (baseline did not record PDB collection)"
        "low" ("pdb-inventory" ∷ [])
    else without "PASS" "no PodDisruptionBudgets in graph" "high" []

module _ (decimal : ℤ → String) where
  abbrev triggered_msg : Rollout → Option Node → String
  triggered_msg x (some pdb) = concat (
      "rollout can take available pods to 0; note: PDB "
      ∷ pdb.name
      ∷ " (minAvailable="
      ∷ decimal (pos (effective_min_available (some pdb) x.replicas))
      ∷ ") does not protect against rollouts"
      ∷ [])
  triggered_msg x none = concat (
      "rollout can take available pods to 0 on "
      ∷ x.shown
      ∷ " (maxUnavailable="
      ∷ decimal x.max_unavailable
      ∷ ", replicas="
      ∷ decimal (pos x.replicas)
      ∷ "); note: PodDisruptionBudgets do not limit Deployment rollouts (they only gate evictions)"
      ∷ [])

  abbrev latent_msg : Rollout → Option Node → String
  latent_msg x (some pdb) = concat (
      "existing strategy can take pods to 0 on next rollout; note: PDB "
      ∷ pdb.name
      ∷ " (minAvailable="
      ∷ decimal (pos (effective_min_available (some pdb) x.replicas))
      ∷ ") does not protect against rollouts"
      ∷ [])
  latent_msg x none = concat (
      "existing strategy can take pods to 0 on next rollout on "
      ∷ x.shown
      ∷ " (maxUnavailable="
      ∷ decimal x.max_unavailable
      ∷ ", replicas="
      ∷ decimal (pos x.replicas)
      ∷ ")"
      ∷ [])

  -- The body of the loop.
  unfoldable pub judge : Findings → Rollout → Findings
  unfolding none_remain effective_min_available
  judge f x =
      let gone = none_remain x.replicas x.max_unavailable in
      if eqb x.replicas 0
      then f
      else if x.uncertain
      then add f (if x.detail == "" then no_last_applied_detail else x.detail) (x.id ∷ pdb_id x.pdb)
          (if gone || x.recreate then "BLOCK" else unless_block f.worst "UNKNOWN")
      else if not gone
      then f
      else if x.recreate
      then add f recreate_availability_msg (x.id ∷ pdb_id x.pdb)
          (if x.triggers then "BLOCK" else unless_block f.worst "WARN")
      else if x.triggers
      then add f (triggered_msg x x.pdb) (pdb_id x.pdb ++ x.id ∷ []) "BLOCK"
      else add f (latent_msg x x.pdb) (pdb_id x.pdb ++ x.id ∷ []) (unless_block f.worst "WARN")

  unfoldable pub judge_all : Findings → List Rollout → Findings
  unfolding judge
  judge_all f [] = f
  judge_all f (x ∷ xs) = judge_all (judge f x) xs

  -- Evaluate on a graph that has no budgets.
  unfoldable pub evaluate_without_pdbs : Bool → List Rollout → Verdict
  unfolding judge_all verdict_without_pdbs
  evaluate_without_pdbs pdbs_collected xs =
      verdict_without_pdbs pdbs_collected (judge_all no_findings xs)
