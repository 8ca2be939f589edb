-- ===== src/Verify/Judge.antt =====
-- internal/verify/verify.go: how RunWithOptions counts the checks and concludes. `decimal` shows an
-- integer as the verb %d does.
use architecture_rehearsal.Prelude.{
  ℕ, suc, String, List, [], ◌∷◌, Bool, true, false, not, ◌&&◌, eqb, ltb, concat, if◌then◌else◌,
}
use architecture_rehearsal.Graph.{ℤ, pos}
use architecture_rehearsal.Verify.{Check}

pub data Outcome : Type 0 where
  verified diverged inconclusive : Outcome

pub record Score : Type 0 where
  pub passed : ℕ
  pub total : ℕ
  pub unknowns : ℕ
  pub soft_only : ℕ
  pub hard_fail : Bool

abbrev pub no_checks : Score
no_checks = record { passed = 0; total = 0; unknowns = 0; soft_only = 0; hard_fail = false }

-- One round of the loop over the checks.
unfoldable pub scored : Score → Check → Score
scored s c =
    if c.soft
    then record s { soft_only = suc s.soft_only }
    else if c.unknown
    then record s { unknowns = suc s.unknowns }
    else if c.passed
    then record s { total = suc s.total; passed = suc s.passed }
    else record s { total = suc s.total; hard_fail = true }

unfoldable pub score_from : Score → List Check → Score
unfolding scored
score_from s [] = s
score_from s (c ∷ cs) = score_from (scored s c) cs

module _ (decimal : ℤ → String) where
  unfoldable pub conclude : Score → Outcome × String
  conclude s =
      if s.hard_fail && (ltb 0 s.total && eqb s.passed 0)
      then (diverged, "Observed state diverged from prediction.")
      else if s.hard_fail
      then (
        diverged,
        concat (
            "Partial match: "
            ∷ decimal (pos s.passed)
            ∷ "/"
            ∷ decimal (pos s.total)
            ∷ " decisive checks passed."
            ∷ []),
      )
      else if ltb 0 s.unknowns && eqb s.passed s.total
      then if eqb s.total 0
        then (inconclusive, "No decisive independent evidence; result inconclusive.")
        else (inconclusive, "Some checks lack post-deploy evidence; result inconclusive.")
      else if ltb 0 s.total && eqb s.passed s.total
      then (verified, "Observed state is consistent with analysis prediction (independent checks).")
      else if eqb s.total 0 && ltb 0 s.soft_only
      then (inconclusive, "Only soft/annotation checks present; independent evidence missing.")
      else (inconclusive, "Insufficient decisive checks for verification.")

  abbrev capped : Bool → Outcome × String → Outcome × String
  capped true (verified, summary) = (
    inconclusive,
    "Legacy verify without baseline+change cannot reach VERIFIED (identity context missing).",
  )
  capped cap result = result

  -- The conclusion, and the cap on what has no baseline and change.
  unfoldable pub judge : Bool → Bool → Score → Outcome × String
  unfolding conclude
  judge production allow_legacy s = capped (not production && not allow_legacy) (conclude s)
