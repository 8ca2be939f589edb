-- ===== src/Impact/Agree.antt =====
-- The gate of internal/impact and the analysis that takes its detectors as scenarios.
use architecture_rehearsal.Prelude.{
  ◌≡◌, ◌≢◌, ◌↔◌, refl, ap, ◌∙◌, String, some, List, [], ◌∷◌, map, any, any-map, All, Bool, true,
  false, not, ◌==◌, eq_iff, arith, Bool-cases, inl, inr,
}
use architecture_rehearsal.Loader.{ChangeEnvelope, put_sorted}
use architecture_rehearsal.Loader.Applied.{any-sorted}
use architecture_rehearsal.Analyze.{decide}
use architecture_rehearsal.Scenario
use architecture_rehearsal.Scenario.{run_all}
use architecture_rehearsal.Scenario.Approve.{run_all-decide, is_quiet, ids_of}
use architecture_rehearsal.Verify.{Observed}
use architecture_rehearsal.Impact.{Verdict}
use architecture_rehearsal.Impact.FailClosed.{aggregate-IsPass, IsPass}
use architecture_rehearsal.Impact.Context.{Context}
use architecture_rehearsal.Impact.Run.{
  Detector, context_of, verdict_lt, verdicts_of, run, bridge, applicable, from_scenario, runner_of,
}

-- A verdict that is no PASS.
abbrev fails : Verdict → Bool
fails v = not (v.status == "PASS")

All-any : (vs : List Verdict) → (All IsPass vs) ↔ (any fails vs ≡ false)
All-any [] = ground arith
All-any (v ∷ vs) = ground (arith, All-any vs, eq_iff v.status "PASS")

runner-is_quiet :
    (c : Scenario.Context) (d : Detector)
    → applicable (some c.change) ≡ true
    → is_quiet c (runner_of d) ≡ not (fails (d.evaluate (from_scenario c)))
unfolding runner_of bridge
runner-is_quiet c d applies =
    let v = d.evaluate (from_scenario c) in
    rw applies (elim (Bool-cases (v.status == "PASS")) [
      | inl pass ↦ rw pass refl
      | inr other ↦ elim (Bool-cases (v.status == "UNKNOWN")) [
        | inl unsure ↦ rw (other, unsure) refl
        | inr sure ↦ elim (Bool-cases (v.status == "BLOCK")) [
          | inl blocks ↦ rw (other, sure, blocks) refl
          | inr warns ↦ rw (other, sure, warns) refl
        ]
      ]
    ])

loud_any :
    (c : Scenario.Context) (ds : List Detector)
    → applicable (some c.change) ≡ true
    → any (λ r. not (is_quiet c r)) (map runner_of ds)
      ≡ any (λ d. fails (d.evaluate (from_scenario c))) ds
loud_any c [] applies = refl
loud_any c (d ∷ ds) applies = ground (arith, runner-is_quiet c d applies, loud_any c ds applies)

same_context :
    (base : Observed) (ch : ChangeEnvelope)
    → from_scenario (Scenario.context_of base ch) ≡ context_of base ch
unfolding from_scenario Scenario.context_of context_of
same_context base ch = refl

approves :
    (base : Observed) (ch : ChangeEnvelope) (ds : List Detector)
    → applicable (some ch) ≡ true
    → let out = run_all (Scenario.context_of base ch) (map runner_of ds) in
      (decide (ids_of out.1) out.0 == "approve")
      ≡ not (any (λ d. fails (d.evaluate (context_of base ch))) ds)
unfolding Scenario.context_of
approves base ch ds applies =
    let c = Scenario.context_of base ch in
    run_all-decide c (map runner_of ds)
    ∙ (ap not (loud_any c ds applies)
        ∙ ap (λ x. not (any (λ d. fails (d.evaluate x)) ds)) (same_context base ch))

put-cons : (v : Verdict) (vs : List Verdict) → put_sorted verdict_lt v vs ≢ []
put-cons v [] e = cc
put-cons v (w ∷ ws) e = ground (arith, e)

sorted-cons : (ctx : Context) (ds : List Detector) → (verdicts_of ctx ds ≢ []) ↔ (ds ≢ [])
sorted-cons ctx [] = (λ h e. h refl, λ h e. h refl)
sorted-cons ctx (d ∷ ds) = (λ h e. cc, λ h e. put-cons (d.evaluate ctx) (verdicts_of ctx ds) e)

-- The gate and the analysis agree: for a change to which the bridged detectors apply, an Argo sync or one
-- whose fact scenario is argo-impact, the gate passes exactly when there is a detector and the analysis
-- approves, as far as its scenarios go, which are the detectors themselves behind the bridge.
pub run-decide :
    (summary_line : String → List Verdict → String) (base : Observed) (ch : ChangeEnvelope)
    (ds : List Detector)
    → applicable (some ch) ≡ true
    → let out = run_all (Scenario.context_of base ch) (map runner_of ds) in
      ((run summary_line base ch ds).verdict ≡ "PASS")
      ↔ ((ds ≢ []) × ((decide (ids_of out.1) out.0 == "approve") ≡ true))
unfolding run
run-decide summary_line base ch ds applies =
    let ctx = context_of base ch in
    ground (
      arith,
      aggregate-IsPass (verdicts_of ctx ds),
      All-any (verdicts_of ctx ds),
      any-sorted verdict_lt fails (map (λ d. d.evaluate ctx) ds),
      any-map fails (λ d. d.evaluate ctx) ds,
      approves base ch ds applies,
      sorted-cons ctx ds,
    )
