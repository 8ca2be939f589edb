-- ===== src/Tests/Detectors.antt =====
-- The rollout detector of internal/impact/pdb.go on concrete workloads.
use architecture_rehearsal.Prelude.{
  ℕ, ◌≡◌, ◌↔◌, ◌≤◌, refl, String, none, List, [], ◌∷◌, true, false, any, codes, arith,
  if◌then◌else◌,
}
use architecture_rehearsal.Graph.{ℤ, pos}
use architecture_rehearsal.Impact.Pdb.{Rollout, judge_all, judge, no_findings}
use architecture_rehearsal.Impact.Unavailable.{none_remain, parse_max_unavailable, atoi}
use architecture_rehearsal.Impact.PdbOrder.{says_block, last_said, judge_all_last_wins}
use architecture_rehearsal.Impact.PdbBounds.{percent_takes_all}

abbrev decimal : ℤ → String
decimal n = "n"

-- Its pods cannot be predicted, but its strategy keeps some.
abbrev uncertain_api : Rollout
uncertain_api = record {
  id = "api";
  shown = "shop/api";
  replicas = 4;
  max_unavailable = pos 1;
  recreate = false;
  uncertain = true;
  detail = "";
  triggers = true;
  pdb = none;
}

-- Its strategy is dangerous, but this sync does not roll it.
abbrev latent_cart : Rollout
latent_cart = record uncertain_api {
  id = "cart";
  shown = "shop/cart";
  max_unavailable = pos 4;
  uncertain = false;
  triggers = false;
}

abbrev workloads : List Rollout
workloads = uncertain_api ∷ latent_cart ∷ []

judge_all_last_wins_example :
    (judge_all decimal no_findings workloads).worst
    ≡ (if any says_block workloads then "BLOCK" else last_said "PASS" workloads)
judge_all_last_wins_example = judge_all_last_wins decimal workloads

lost_uncertainty : (judge_all decimal no_findings workloads).worst ≡ "WARN"
unfolding judge_all judge none_remain
lost_uncertainty = refl

percent_takes_all_example :
    ((none_remain 4 (parse_max_unavailable "50%" 4) ≡ true)
      ↔ ((q : ℕ) × (atoi (codes "50") ≡ pos q) × (100 ≤ q)))
    × (none_remain 4 (parse_max_unavailable "" 4) ≡ false)
unfolding atoi
percent_takes_all_example =
    percent_takes_all "50%" (codes "50") 4 (omega arith) (omega arith) (omega arith) refl
