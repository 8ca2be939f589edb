-- ===== src/Verify/Annotation.antt =====
-- The annotation of observed failures and the outcome (internal/verify/verify.go).
use architecture_rehearsal.Prelude.{
  ◌≡◌, refl, String, Option, none, some, List, [], ◌∷◌, ◌++◌, map, All, Bool, true, false, ◌==◌,
  arith, insert, lookup-insert,
}
use architecture_rehearsal.Graph.{Snapshot, Index, ℤ, build_index}
use architecture_rehearsal.Verify.{Value, Observed, Prediction, Check, meta_value}
use architecture_rehearsal.Verify.Measures.{meta_int}
use architecture_rehearsal.Verify.Signals.{components_for_scenario}
use architecture_rehearsal.Verify.Scenarios.{
  check_cni_capacity, check_pdb_disruption, check_prom_zero_match, zero_match,
  independent_scenario_check,
}
use architecture_rehearsal.Verify.Judge.{Score, no_checks, scored, score_from, conclude, judge}
use architecture_rehearsal.Verify.Operation.{
  Options, Digests, Result, Binding, broken, bound, annotation, scenario_checks, gathered, noted,
  parse_observed_failures, context_checks, missing_components, change_checks, baseline_checks,
  is_production, concluded, bound_result, run_with_options, begun, digest_of, if_production,
  binding,
}

-- Two scores that differ in the number of soft checks at most.
abbrev SameScore : Score → Score → Type 0
SameScore s t =
    (s.passed ≡ t.passed)
    × (s.total ≡ t.total)
    × (s.unknowns ≡ t.unknowns)
    × (s.hard_fail ≡ t.hard_fail)

scored-same : (s t : Score) (c : Check) → SameScore s t → SameScore (scored s c) (scored t c)
unfolding scored
scored-same s t c h = ground (arith, h)

score_from-same :
    (cs : List Check) (s t : Score) → SameScore s t → SameScore (score_from s cs) (score_from t cs)
unfolding score_from
score_from-same [] s t h = h
score_from-same (c ∷ cs) s t h = score_from-same cs (scored s c) (scored t c) (scored-same s t c h)

soft-same :
    (cs : List Check) (s : Score) → All (λ c. c.soft ≡ true) cs → SameScore (score_from s cs) s
unfolding score_from scored
soft-same [] s h = ground arith
soft-same (c ∷ cs) s h = ground (arith, soft-same cs (scored s c) h.1, h.0)

score_from-append :
    (xs ys : List Check) (s : Score) → score_from s (xs ++ ys) ≡ score_from (score_from s xs) ys
unfolding score_from
score_from-append [] ys s = refl
score_from-append (x ∷ xs) ys s = score_from-append xs ys (scored s x)

unrolled :
    (cs b m x y z : List Check) (s : Score)
    → score_from s (cs ++ (b ++ m ++ x ++ y ++ z))
      ≡ score_from (score_from (score_from (score_from (score_from (score_from s cs) b) m) x) y) z
unrolled cs b m x y z s =
    rw
      (
        score_from-append cs (b ++ m ++ x ++ y ++ z) s,
        score_from-append (b ++ m ++ x ++ y) z (score_from s cs),
        score_from-append (b ++ m ++ x) y (score_from s cs),
        score_from-append (b ++ m) x (score_from s cs),
        score_from-append b m (score_from s cs),
      )
      refl

-- Soft checks in the middle of others may be exchanged for other soft checks.
exchange :
    (cs b m n x y z : List Check) (s : Score)
    → All (λ c. c.soft ≡ true) m
    → All (λ c. c.soft ≡ true) n
    → SameScore
        (score_from s (cs ++ (b ++ m ++ x ++ y ++ z)))
        (score_from s (cs ++ (b ++ n ++ x ++ y ++ z)))
exchange cs b m n x y z s hm hn =
    let start = score_from (score_from s cs) b in
    let middle : SameScore (score_from start m) (score_from start n) =
      ground (arith, soft-same m start hm, soft-same n start hn) in
    let after_x = score_from-same x (score_from start m) (score_from start n) middle in
    let after_y =
      score_from-same y (score_from (score_from start m) x) (score_from (score_from start n) x)
        after_x in
    rw (unrolled cs b m x y z s, unrolled cs b n x y z s)
      (score_from-same z (score_from (score_from (score_from start m) x) y)
        (score_from (score_from (score_from start n) x) y) after_y)

module _ (decimal : ℤ → String) where
  judge-same :
      (production allow : Bool) (s t : Score)
      → SameScore s t
      → (judge decimal production allow s).0 ≡ (judge decimal production allow t).0
  unfolding judge conclude
  judge-same production allow s t h = ground (arith, h)

module _ (graph : Snapshot) (m : List (String × Value)) (v : Value) where
  -- A snapshot, and the same with an annotation.
  abbrev plain : Observed
  plain = record { graph = graph; meta = some m }

  abbrev pub annotated : Observed
  annotated = record { graph = graph; meta = some (insert "observed_failures" v m) }

  read_kept :
      (key : String)
      → ("observed_failures" == key) ≡ false
      → meta_value annotated.meta key ≡ meta_value plain.meta key
  unfolding meta_value
  read_kept key h = rw (lookup-insert "observed_failures" key v m, h) refl

  zero_match-same :
      (decimal : ℤ → String) (found : Option ℤ)
      → zero_match decimal annotated found ≡ zero_match decimal plain found
  zero_match-same decimal none = refl
  zero_match-same decimal (some n) =
      rw (read_kept "metric_query" refl, read_kept "rule_name" refl) refl

  prom-same :
      (decimal : ℤ → String)
      → check_prom_zero_match decimal annotated ≡ check_prom_zero_match decimal plain
  unfolding check_prom_zero_match
  prom-same decimal =
      rw (read_kept "metric_match_count" refl)
        (zero_match-same decimal (meta_int plain "metric_match_count"))

  cni-same :
      (decimal : ℤ → String) (idx : Index) (comps : List String)
      → check_cni_capacity decimal annotated idx comps ≡ check_cni_capacity decimal plain idx comps
  unfolding check_cni_capacity
  cni-same decimal idx comps =
      rw (read_kept "cni_ip_available" refl, read_kept "cni_failure_events" refl) refl

  pdb-same :
      (decimal : ℤ → String) (idx : Index) (comps : List String)
      → check_pdb_disruption decimal annotated idx comps
        ≡ check_pdb_disruption decimal plain idx comps
  unfolding check_pdb_disruption
  pdb-same decimal idx comps = rw (read_kept "pdb_evictions_denied" refl) refl

  scenario-same :
      (decimal : ℤ → String) (s : String) (pred : Prediction) (idx : Index)
      → independent_scenario_check decimal s pred annotated idx
        ≡ independent_scenario_check decimal s pred plain idx
  unfolding independent_scenario_check
  scenario-same decimal s pred idx =
      let comps = components_for_scenario pred s in
      rw (cni-same decimal idx comps, pdb-same decimal idx comps, prom-same decimal) refl

  all-same :
      (decimal : ℤ → String) (ss : List String) (pred : Prediction) (idx : Index)
      → map (λ s. independent_scenario_check decimal s pred annotated idx) ss
        ≡ map (λ s. independent_scenario_check decimal s pred plain idx) ss
  all-same decimal [] pred idx = refl
  all-same decimal (s ∷ ss) pred idx =
      rw (scenario-same decimal s pred idx, all-same decimal ss pred idx) refl

  module _ (decimal : ℤ → String) (digests : Digests) where
    annotation-soft :
        (predicted observed : List String) (all : Bool)
        → All (λ c. c.soft ≡ true) (annotation decimal digests predicted observed all)
    unfolding annotation
    annotation-soft [] observed all = tt
    annotation-soft (p ∷ ps) [] all = (refl, tt)
    annotation-soft (p ∷ ps) (f ∷ fs) all = (refl, tt)

    noted-soft :
        (pred : Prediction) (seen : Observed) (o : Options)
        → All (λ c. c.soft ≡ true) (noted decimal digests pred seen o)
    noted-soft pred seen o =
        annotation-soft pred.predicted_failures (parse_observed_failures seen) _

    scenarios-same :
        (pred : Prediction) (idx : Index)
        → scenario_checks decimal digests pred annotated idx
          ≡ scenario_checks decimal digests pred plain idx
    unfolding scenario_checks
    scenarios-same pred idx = rw (all-same decimal pred.predicted_failures pred idx) refl

    gathered-same :
        (pred : Prediction) (o : Options) (cs : List Check)
        → SameScore
            (score_from no_checks (cs ++ gathered decimal digests pred annotated o))
            (score_from no_checks (cs ++ gathered decimal digests pred plain o))
    unfolding gathered
    gathered-same pred o cs =
        let idx = build_index graph in
        let before =
          context_checks decimal digests o ++ scenario_checks decimal digests pred plain idx in
        let missing = missing_components decimal digests pred.findings idx in
        let changed = (change_checks decimal digests o.change idx).1 in
        let moved = baseline_checks decimal digests o.baseline o.change graph in
        rw (scenarios-same pred idx) (
          exchange cs before (noted decimal digests pred annotated o)
            (noted decimal digests pred plain o) missing changed moved no_checks
            (noted-soft pred annotated o) (noted-soft pred plain o))

    concluded-same :
        (pred : Prediction) (o : Options) (cs : List Check) (res res' : Result)
        → ((concluded decimal digests res
              (cs ++ gathered decimal digests pred annotated o)
              annotated
              o).outcome
            ≡ (concluded decimal digests res'
                (cs ++ gathered decimal digests pred plain o)
                plain
                o).outcome)
          × ((concluded decimal digests res
                (cs ++ gathered decimal digests pred annotated o)
                annotated
                o).score
              ≡ (concluded decimal digests res'
                  (cs ++ gathered decimal digests pred plain o)
                  plain
                  o).score)
    unfolding concluded
    concluded-same pred o cs res res' =
        let same = gathered-same pred o cs in
        (
          judge-same decimal (is_production decimal digests o) o.allow_legacy_verified
              (score_from no_checks (cs ++ gathered decimal digests pred annotated o))
              (score_from no_checks (cs ++ gathered decimal digests pred plain o)) same,
          ground (arith, same),
        )

    bound-same :
        (pred : Prediction) (o : Options) (res res' : Result) (b : Binding)
        → res.score ≡ res'.score
        → ((bound_result decimal digests pred annotated o res b).outcome
            ≡ (bound_result decimal digests pred plain o res' b).outcome)
          × ((bound_result decimal digests pred annotated o res b).score
              ≡ (bound_result decimal digests pred plain o res' b).score)
    bound-same pred o res res' (broken error) h = (refl, h)
    bound-same pred o res res' (bound cs) h = concluded-same pred o cs res res'

-- What an operator notes in the metadata as observed failures changes neither the outcome nor the
-- score of a verification.
pub run_with_options-annotated :
    (decimal : ℤ → String) (digests : Digests) (graph : Snapshot) (m : List (String × Value))
    (v : Value) (pred : Prediction) (o : Options)
    → ((run_with_options decimal digests pred (some (annotated graph m v)) o).outcome
        ≡ (run_with_options decimal digests pred
            (some (record { graph = graph; meta = some m }))
            o).outcome)
      × ((run_with_options decimal digests pred (some (annotated graph m v)) o).score
          ≡ (run_with_options decimal digests pred
              (some (record { graph = graph; meta = some m }))
              o).score)
unfolding run_with_options
run_with_options-annotated decimal digests graph m v pred o =
    let b =
      if_production decimal digests o (digest_of decimal digests digests.snapshot o.baseline) in
    let c = if_production decimal digests o (digest_of decimal digests digests.change o.change) in
    bound-same graph m v decimal digests pred o
      (begun decimal digests pred (some (annotated graph m v)) o b c)
      (begun decimal digests pred (some (record { graph = graph; meta = some m })) o b c)
      (binding pred b c) refl
