-- ===== src/Calibrate/Counts.antt =====
-- The calibration store counts what it was told (internal/calibrate/calibrate.go).
use architecture_rehearsal.Prelude.{
  ℕ, suc, ◌+◌, ◌≡◌, refl, String, List, [], ◌∷◌, Bool, true, false, ◌==◌, arith, lookup,
  lookup-insert, if◌then◌else◌, eq_iff, Bool-cases, inl, inr,
}
use architecture_rehearsal.Calibrate.{
  Class, true_positive, false_positive, true_negative, false_negative, inconclusive, Outcome, Stats,
  classify, recompute, or_new, count_class, record_stats, record_outcome, record_all,
}

abbrev is_class : Class → Class → Bool
is_class true_positive true_positive = true
is_class false_positive false_positive = true
is_class true_negative true_negative = true
is_class false_negative false_negative = true
is_class inconclusive inconclusive = true
is_class _ _ = false

-- How many outcomes of a scenario are of a class.
abbrev pub count_of : String → Class → List Outcome → ℕ
count_of sc c [] = 0
count_of sc c (o ∷ os) =
    let rest = count_of sc c os in
    if o.scenario == sc then (if is_class (classify o) c then suc rest else rest) else rest

-- How many outcomes there are of a scenario.
abbrev pub runs_of : String → List Outcome → ℕ
runs_of sc [] = 0
runs_of sc (o ∷ os) = let rest = runs_of sc os in if o.scenario == sc then suc rest else rest

module _ {F : Type 0} (ratio : ℕ → ℕ → F) (zero_f : F) where
  -- The counter of a class.
  abbrev pub counter : Class → Stats F → ℕ
  counter true_positive st = st.true_positives
  counter false_positive st = st.false_positives
  counter true_negative st = st.true_negatives
  counter false_negative st = st.false_negatives
  counter inconclusive st = st.inconclusives

  unfoldable pub entry : String → List (String × Stats F) → Stats F
  entry sc data' = or_new ratio zero_f sc (lookup sc data')

  entry-record :
      (sc : String) (data' : List (String × Stats F)) (o : Outcome)
      → entry sc (record_outcome ratio zero_f data' o) ≡ (
          if o.scenario == sc then record_stats ratio zero_f o (entry sc data') else entry sc data')
  unfolding entry record_outcome
  entry-record sc data' o =
      rw
        (lookup-insert o.scenario sc
          (record_stats ratio zero_f o (or_new ratio zero_f o.scenario (lookup o.scenario data')))
          data')
        (elim (Bool-cases (o.scenario == sc)) [
          | inl e ↦ rw e (rw ((eq_iff o.scenario sc).0 e) refl)
          | inr e ↦ rw e refl
        ])

  counter-count_class :
      (c d : Class) (st : Stats F)
      → counter d (
          recompute ratio zero_f
            (count_class ratio zero_f c (record st { evaluated_runs = suc st.evaluated_runs })))
        ≡ counter d st + (if is_class c d then 1 else 0)
  unfolding recompute
  counter-count_class c true_positive st = grind arith
  counter-count_class c false_positive st = grind arith
  counter-count_class c true_negative st = grind arith
  counter-count_class c false_negative st = grind arith
  counter-count_class c inconclusive st = grind arith

  counter-record_stats :
      (o : Outcome) (d : Class) (st : Stats F)
      → counter d (record_stats ratio zero_f o st)
        ≡ counter d st + (if is_class (classify o) d then 1 else 0)
  unfolding record_stats
  counter-record_stats o d st = counter-count_class (classify o) d st

  -- The counters after a sequence of outcomes are those before it plus the number of outcomes of
  -- the scenario and the class.
  pub record_all-counter :
      (sc : String) (d : Class) (data' : List (String × Stats F)) (os : List Outcome)
      → counter d (entry sc (record_all ratio zero_f data' os))
        ≡ counter d (entry sc data') + count_of sc d os
  unfolding record_all
  record_all-counter sc d data' [] = omega arith
  record_all-counter sc d data' (o ∷ os) =
      rw (record_all-counter sc d (record_outcome ratio zero_f data' o) os, entry-record sc data' o)
        (ground (arith, counter-record_stats o d (entry sc data')))
