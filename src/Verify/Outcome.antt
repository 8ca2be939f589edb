-- ===== src/Verify/Outcome.antt =====
-- What the outcome of a verification says of its checks (internal/verify/verify.go).
use architecture_rehearsal.Prelude.{
  ◌+◌, ◌≤◌, ◌≡◌, ◌↔◌, String, List, [], ◌∷◌, any, Bool, true, false, not, ◌&&◌, ◌||◌, arith,
}
use architecture_rehearsal.Graph.{ℤ}
use architecture_rehearsal.Verify.{Check}
use architecture_rehearsal.Verify.Measures.{count}
use architecture_rehearsal.Verify.Judge.{
  verified, diverged, Score, no_checks, scored, score_from, conclude, judge,
}

-- A check that counts against the prediction, for it, and one that leaves the question open.
abbrev pub refutes : Check → Bool
refutes c = not c.soft && (not c.unknown && not c.passed)

abbrev pub confirms : Check → Bool
confirms c = not c.soft && (not c.unknown && c.passed)

abbrev pub leaves_open : Check → Bool
leaves_open c = not c.soft && c.unknown

-- What is left of a score when its counters are compared with zero.
record Counted (s : Score) (cs : List Check) (t : Score) : Type 0 where
  failed : t.hard_fail ≡ (s.hard_fail || any refutes cs)
  opened : t.unknowns ≡ s.unknowns + count leaves_open cs
  confirmed : t.passed ≡ s.passed + count confirms cs
  decided : t.total ≡ s.total + (count confirms cs + count refutes cs)

score_from-Counted : (cs : List Check) (s : Score) → Counted s cs (score_from s cs)
unfolding score_from scored
score_from-Counted [] s = ground arith
score_from-Counted (c ∷ cs) s = ground (arith, score_from-Counted cs (scored s c))

any-count {ℓ} : {A : Type ℓ} (p : A → Bool) (xs : List A) → (any p xs ≡ false) ↔ (count p xs ≡ 0)
any-count p [] = ground arith
any-count p (x ∷ xs) = ground (arith, any-count p xs)

judge_cases :
    (decimal : ℤ → String) (production allow : Bool) (s : Score)
    → (((judge decimal production allow s).0 ≡ diverged) ↔ (s.hard_fail ≡ true))
      × (((judge decimal production allow s).0 ≡ verified) ↔ (
          (s.hard_fail ≡ false)
          × (s.unknowns ≡ 0)
          × (s.passed ≡ s.total)
          × (1 ≤ s.total)
          × ((production || allow) ≡ true)))
unfolding judge conclude
judge_cases decimal production allow s = ground arith

-- Of the checks, the outcome is diverged exactly when one that counts is against the prediction; and
-- it is verified exactly when none is, none is left open, at least one is for it, and the run has its
-- baseline and change or the cap is lifted.
pub judge-outcome :
    (decimal : ℤ → String) (production allow : Bool) (cs : List Check)
    → let outcome = (judge decimal production allow (score_from no_checks cs)).0 in
      ((outcome ≡ diverged) ↔ (any refutes cs ≡ true))
      × ((outcome ≡ verified) ↔ (
          (any refutes cs ≡ false)
          × (any leaves_open cs ≡ false)
          × (any confirms cs ≡ true)
          × ((production || allow) ≡ true)))
judge-outcome decimal production allow cs = ground (
  arith,
  judge_cases decimal production allow (score_from no_checks cs),
  score_from-Counted cs no_checks,
  any-count refutes cs,
  any-count leaves_open cs,
  any-count confirms cs,
)
