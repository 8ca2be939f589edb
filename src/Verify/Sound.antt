-- ===== src/Verify/Sound.antt =====
-- What a verified outcome guarantees (RunWithOptions in internal/verify/verify.go).
use architecture_rehearsal.Prelude.{
  ◌≡◌, refl, String, Option, none, some, List, [], ◌∷◌, ◌++◌, map, gather, any, All, Bool, true,
  false, ◌&&◌, ◌||◌, ◌==◌, arith, lookup, is_nil,
}
use architecture_rehearsal.Graph.{Index, ℤ, build_index}
use architecture_rehearsal.Loader.{ChangeEnvelope}
use architecture_rehearsal.Analyze.{Finding, unique_strings}
use architecture_rehearsal.Verify.{Observed, Prediction, Check, passes, is_some}
use architecture_rehearsal.Verify.Signals.{primary_survivor_components}
use architecture_rehearsal.Verify.Scenarios.{independent_scenario_check}
use architecture_rehearsal.Verify.Judge.{verified}
use architecture_rehearsal.Verify.Operation.{
  Options, Digests, Result, Binding, broken, bound, assert_bindings, binding, bound_result,
  missing_components, scenario_checks, gathered, concluded, run_with_options, is_production,
  change_checks, baseline_checks, digest_of, if_production, begun, context_checks, noted, when,
}
use architecture_rehearsal.Verify.Outcome.{judge-outcome}
use architecture_rehearsal.Verify.Clear.{
  troubles, untroubled, is_applied, clear_append, clear_parts, both_given, unique_after-All,
  All-present, All-matched, identity_applied, still_there, delta_gone,
}

module _ (decimal : ℤ → String) (digests : Digests) where
  -- The content digests of a report are those of the baseline and the change, where it has any and
  -- both can be computed.
  abbrev pub is_tied : Prediction → Option String → Option String → Bool
  is_tied pred (some b) (some c) =
      (pred.baseline_digest == "" && pred.change_digest == "")
      || ((b == "" || pred.baseline_digest == b) && (c == "" || pred.change_digest == c))
  is_tied pred _ _ = true

  -- What a verified prediction rests on.
  pub record IsSupported (pred : Prediction) (observed base : Observed) (ch : ChangeEnvelope)
      : Type 0 where
    pub matched :
        All
          (λ s.
            (independent_scenario_check decimal s pred observed (build_index observed.graph)).passed
            ≡ true)
          pred.predicted_failures
    pub present :
        All
          (λ c. is_some (lookup c (build_index observed.graph).by_id) ≡ true)
          (gather (λ f. primary_survivor_components f.components) pred.findings)
    pub applied :
        All
          (λ p.
            is_applied
              (build_index observed.graph)
              p
              (lookup p.id (build_index observed.graph).by_id)
            ≡ true)
          ch.patch_nodes
    pub gone :
        All
          (λ id.
            still_there decimal
              (lookup id (build_index base.graph).by_id)
              (lookup id (build_index observed.graph).by_id)
            ≡ false)
          ch.removed_nodes
    pub tied : is_tied pred (digests.snapshot base) (digests.change ch) ≡ true

  missing_present :
      (findings : List Finding) (idx : Index)
      → any troubles (missing_components decimal digests findings idx) ≡ false
      → All
          (λ c. is_some (lookup c idx.by_id) ≡ true)
          (gather (λ f. primary_survivor_components f.components) findings)
  unfolding missing_components
  missing_present findings idx h =
      let named = gather (λ f. primary_survivor_components f.components) findings in
      unique_after-All (λ c. is_some (lookup c idx.by_id) ≡ true) [] named tt
        (All-present decimal idx (unique_strings named) h)

  -- What is free of trouble when all the checks are.
  record IsClear (pred : Prediction) (observed : Observed) (o : Options) : Type 0 where
    production : is_production decimal digests o ≡ true
    scenarios :
        any troubles (scenario_checks decimal digests pred observed (build_index observed.graph))
        ≡ false
    components :
        any troubles (missing_components decimal digests pred.findings (build_index observed.graph))
        ≡ false
    change :
        any troubles (change_checks decimal digests o.change (build_index observed.graph)).1 ≡ false
    delta :
        any troubles (baseline_checks decimal digests o.baseline o.change observed.graph) ≡ false

  context_given :
      (o : Options)
      → any troubles (context_checks decimal digests o) ≡ false
      → is_production decimal digests o ≡ true
  context_given o h = ground (arith, h)

  gathered-IsClear :
      (pred : Prediction) (observed : Observed) (o : Options)
      → any troubles (gathered decimal digests pred observed o) ≡ false
      → IsClear pred observed o
  unfolding gathered
  gathered-IsClear pred observed o h =
      let idx = build_index observed.graph in
      let missing = missing_components decimal digests pred.findings idx in
      let changed = (change_checks decimal digests o.change idx).1 in
      let moved = baseline_checks decimal digests o.baseline o.change observed.graph in
      let noted = noted decimal digests pred observed o in
      let scenarios = scenario_checks decimal digests pred observed idx in
      let parts =
        clear_parts (context_checks decimal digests o) scenarios noted missing changed moved h in
      record {
        production = context_given o parts.0;
        scenarios = parts.1.0;
        components = parts.1.1.1.0;
        change = parts.1.1.1.1.0;
        delta = parts.1.1.1.1.1;
      }

  concluded_clear :
      (res : Result) (checks : List Check) (observed : Observed) (o : Options)
      → (concluded decimal digests res checks observed o).outcome ≡ verified
      → any troubles checks ≡ false
  unfolding concluded
  concluded_clear res checks observed o h =
      let facts =
        (judge-outcome decimal (is_production decimal digests o) o.allow_legacy_verified checks).1.0
          h in
      untroubled checks facts.0 facts.1

  bound-IsClear :
      (pred : Prediction) (observed : Observed) (o : Options) (res : Result) (b : Binding)
      → (bound_result decimal digests pred observed o res b).outcome ≡ verified
      → (cs : List Check) × (b ≡ bound cs) × IsClear pred observed o
  bound-IsClear pred observed o res (broken error) h = cc
  bound-IsClear pred observed o res (bound cs) h = (
    cs,
    refl,
    gathered-IsClear pred observed o
        (clear_append cs (gathered decimal digests pred observed o)
          (concluded_clear res (cs ++ gathered decimal digests pred observed o) observed o h)).1,
  )

  binding-is_tied :
      (pred : Prediction) (b c : Option String) (cs : List Check)
      → binding pred b c ≡ bound cs
      → is_tied pred b c ≡ true
  unfolding binding assert_bindings
  binding-is_tied pred none c cs h = refl
  binding-is_tied pred (some b) none cs h = refl
  binding-is_tied pred (some b) (some c) cs h = ground (arith, h)

  clear-IsSupported :
      (pred : Prediction) (observed base : Observed) (ch : ChangeEnvelope) (o : Options)
      → o.baseline ≡ some base
      → o.change ≡ some ch
      → IsClear pred observed o
      → is_tied pred (digests.snapshot base) (digests.change ch) ≡ true
      → IsSupported pred observed base ch
  unfolding scenario_checks
  clear-IsSupported pred observed base ch o baseline change clear tied =
      let idx = build_index observed.graph in
      record {
        matched =
            All-matched decimal pred observed idx pred.predicted_failures
              (clear_append
                (map (λ s. independent_scenario_check decimal s pred observed idx)
                  pred.predicted_failures)
                (when (is_nil pred.predicted_failures)
                  (passes "no_predicted_failures" "analysis predicted no failure patterns" ∷ []))
                clear.scenarios).0;
        present = missing_present pred.findings idx clear.components;
        applied = identity_applied decimal digests.fingerprint ch idx (rw change at clear.change);
        gone = delta_gone decimal base observed ch (rw (baseline, change) at clear.delta);
        tied = tied;
      }

  tied_to :
      (pred : Prediction) (o : Options) (base : Observed) (ch : ChangeEnvelope) (cs : List Check)
      → o.baseline ≡ some base
      → o.change ≡ some ch
      → binding pred
          (if_production decimal digests o (digest_of decimal digests digests.snapshot o.baseline))
          (if_production decimal digests o (digest_of decimal digests digests.change o.change))
        ≡ bound cs
      → is_tied pred (digests.snapshot base) (digests.change ch) ≡ true
  tied_to pred o base ch cs baseline change h =
      binding-is_tied pred (digests.snapshot base) (digests.change ch) cs
        (rw (baseline, change) at h)

  -- A verified outcome means that there is an observed snapshot, a baseline and a change, the last two
  -- the report's by their digests as far as these are there to compare; that the check of each
  -- predicted scenario has found its evidence; that the observed graph has the claims and the first
  -- workload of each finding; that it has each patched node, with the replicas that its patch wants;
  -- and that it has no node of the kind Node that the change removes from the baseline.
  pub run_with_options-verified :
      (pred : Prediction) (observed : Option Observed) (o : Options)
      → (run_with_options decimal digests pred observed o).outcome ≡ verified
      → (seen : Observed) × (base : Observed) × (ch : ChangeEnvelope) × (observed ≡ some seen)
        × (o.baseline ≡ some base)
        × (o.change ≡ some ch)
        × IsSupported pred seen base ch
  unfolding run_with_options
  run_with_options-verified pred none o h = cc
  run_with_options-verified pred (some seen) o h =
      let b =
        if_production decimal digests o (digest_of decimal digests digests.snapshot o.baseline) in
      let c = if_production decimal digests o (digest_of decimal digests digests.change o.change) in
      let (cs, is_bound, clear) =
        bound-IsClear pred seen o (begun decimal digests pred (some seen) o b c) (binding pred b c)
          h in
      let (base, ch, baseline, change) = both_given o.baseline o.change clear.production in
      (
        seen,
        base,
        ch,
        refl,
        baseline,
        change,
        clear-IsSupported pred seen base ch o baseline change clear
            (tied_to pred o base ch cs baseline change is_bound),
      )
