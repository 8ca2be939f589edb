-- ===== src/Scenario/Approve.antt =====
-- When the analysis of the scenarios approves (internal/scenario/scenario.go and internal/analyze).
use architecture_rehearsal.Prelude.{
  ◌≡◌, refl, ◌∙◌, ap, String, List, [], ◌∷◌, ◌++◌, map, is_nil, any, any-append, Bool, not, ◌&&◌,
  ◌||◌, ◌==◌, arith, Bool-cases, inl, inr, eq_iff,
}
use architecture_rehearsal.Analyze.{Finding, decide, is_empty}
use architecture_rehearsal.Analyze.FailClosed.{decide-approve, is_acted_on}
use architecture_rehearsal.Scenario.{
  Context, Requirement, ScenarioResult, Runner, kept, or_insufficient, run_one, run_all,
}

abbrev pub acts : List Finding → Bool
acts fs = any (λ f. is_acted_on f.risk) fs

-- A runner that does not apply, or that has what it needs and whose result, where it is matched or unknown,
-- has no finding that is acted on and, where it is unknown, misses nothing.
abbrev pub is_quiet : Context → Runner → Bool
is_quiet ctx r =
    let res = r.evaluate ctx in
    not (r.applicable ctx)
    || (is_nil (r.missing_requirements ctx)
        && ((not (res.outcome == "matched" || res.outcome == "unknown") || not (acts res.findings))
            && (not (res.outcome == "unknown") || is_nil res.missing)))

abbrev pub ids_of : List Requirement → List String
ids_of rr = map (λ r. r.id) rr

ids-is_empty : (rr : List Requirement) → is_empty (ids_of rr) ≡ is_nil rr
ids-is_empty [] = refl
ids-is_empty (r ∷ rr) = refl

append-is_nil : (xs ys : List Requirement) → is_nil (xs ++ ys) ≡ (is_nil xs && is_nil ys)
append-is_nil [] ys = refl
append-is_nil (x ∷ xs) ys = refl

-- What keeps an approval back.
abbrev is_clear : List Finding × List Requirement → Bool
is_clear out = is_nil out.1 && not (acts out.0)

kept-is_quiet :
    (res : ScenarioResult)
    → is_clear (kept res) ≡ (
        (not (res.outcome == "matched" || res.outcome == "unknown") || not (acts res.findings))
        && (not (res.outcome == "unknown") || is_nil res.missing))
kept-is_quiet res = elim (Bool-cases (res.outcome == "matched")) [
  | inl m ↦ rw ((eq_iff res.outcome "matched").0 m) (ground arith)
  | inr n ↦ elim (Bool-cases (res.outcome == "unknown")) [
    | inl u ↦ rw (n, u) (ground arith)
    | inr k ↦ rw (n, k) refl
  ]
]

lacking-is_quiet :
    (name : String) (miss : List Requirement) (res : ScenarioResult)
    → is_clear (or_insufficient name miss res) ≡ (is_nil miss && is_clear (kept res))
lacking-is_quiet name [] res = refl
lacking-is_quiet name (m ∷ ms) res = refl

run_one-is_quiet : (ctx : Context) (r : Runner) → is_clear (run_one ctx r) ≡ is_quiet ctx r
unfolding run_one
run_one-is_quiet ctx r = elim (Bool-cases (r.applicable ctx)) [
  | inr idle ↦ rw idle refl
  | inl applies ↦ rw applies (
      lacking-is_quiet r.name (r.missing_requirements ctx) (r.evaluate ctx)
      ∙ ap (λ b. is_nil (r.missing_requirements ctx) && b) (kept-is_quiet (r.evaluate ctx)))
]

run_all-is_quiet :
    (ctx : Context) (rs : List Runner)
    → is_clear (run_all ctx rs) ≡ not (any (λ r. not (is_quiet ctx r)) rs)
unfolding run_all
run_all-is_quiet ctx [] = refl
run_all-is_quiet ctx (r ∷ rs) = ground (
  arith,
  run_one-is_quiet ctx r,
  run_all-is_quiet ctx rs,
  append-is_nil (run_one ctx r).1 (run_all ctx rs).1,
  any-append (λ f. is_acted_on f.risk) (run_one ctx r).0 (run_all ctx rs).0,
)

-- The analysis of a change approves, as far as its scenarios go, exactly when each runner does not
-- apply, or lacks no requirement and gives a result that holds nothing back: one whose outcome is
-- neither matched nor unknown, whatever else it has, one that is matched without a finding that is
-- acted on, or one that is unknown without such a finding and without a missing requirement.
pub run_all-decide :
    (ctx : Context) (rs : List Runner)
    → (decide (ids_of (run_all ctx rs).1) (run_all ctx rs).0 == "approve")
      ≡ not (any (λ r. not (is_quiet ctx r)) rs)
run_all-decide ctx rs =
    decide-approve (ids_of (run_all ctx rs).1) (run_all ctx rs).0
    ∙ (rw (ids-is_empty (run_all ctx rs).1) refl ∙ run_all-is_quiet ctx rs)
