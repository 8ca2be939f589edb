-- ===== src/Calibrate.antt =====
-- internal/calibrate/calibrate.go: the quality of predictions, per scenario. `F` stands for float64,
-- `ratio a b` for `float64(a) / float64(b)` and `zero_f` for the zero value. The map is the list of
-- its entries; `Report` lists them in the map's order, and its stamp is left out.
pub mod Counts
use architecture_rehearsal.Prelude.{
  ℕ, suc, ◌+◌, String, Option, none, some, List, [], ◌∷◌, map, Bool, true, false, not, ltb, lookup,
  insert, if◌then◌else◌,
}

pub data Class : Type 0 where
  true_positive false_positive true_negative false_negative inconclusive : Class

pub record Outcome : Type 0 where
  pub scenario : String
  pub predicted : Bool
  pub observed : Bool
  pub verified : Bool

-- The cases of the `switch`.
abbrev class_of : Bool → Bool → Class
class_of true true = true_positive
class_of true false = false_positive
class_of false false = true_negative
class_of false true = false_negative

unfoldable pub classify : Outcome → Class
classify o = if not o.verified then inconclusive else class_of o.predicted o.observed

pub record Stats (F : Type 0) : Type 0 where
  pub scenario : String
  pub evaluated_runs : ℕ
  pub verified_predictions : ℕ
  pub true_positives : ℕ
  pub false_positives : ℕ
  pub true_negatives : ℕ
  pub false_negatives : ℕ
  pub inconclusives : ℕ
  pub precision : F
  pub recall : F
  pub false_positive_rate : F

module _ {F : Type 0} (ratio : ℕ → ℕ → F) (zero_f : F) where
  unfoldable pub recompute : Stats F → Stats F
  recompute st =
      let den = st.true_positives + st.false_positives in
      let den_r = st.true_positives + st.false_negatives in
      let den_f = st.false_positives + st.true_negatives in
      record st {
        precision = if ltb 0 den then ratio st.true_positives den else st.precision;
        recall = if ltb 0 den_r then ratio st.true_positives den_r else st.recall;
        false_positive_rate =
            if ltb 0 den_f then ratio st.false_positives den_f else st.false_positive_rate;
      }

  abbrev pub empty_stats : String → Stats F
  empty_stats scenario = record {
    scenario = scenario;
    evaluated_runs = 0;
    verified_predictions = 0;
    true_positives = 0;
    false_positives = 0;
    true_negatives = 0;
    false_negatives = 0;
    inconclusives = 0;
    precision = zero_f;
    recall = zero_f;
    false_positive_rate = zero_f;
  }

  abbrev or_new : String → Option (Stats F) → Stats F
  or_new scenario none = empty_stats scenario
  or_new scenario (some st) = st

  abbrev pub count_class : Class → Stats F → Stats F
  count_class true_positive st = record st {
    true_positives = suc st.true_positives;
    verified_predictions = suc st.verified_predictions;
  }
  count_class false_positive st = record st {
    false_positives = suc st.false_positives;
    verified_predictions = suc st.verified_predictions;
  }
  count_class true_negative st = record st { true_negatives = suc st.true_negatives }
  count_class false_negative st = record st { false_negatives = suc st.false_negatives }
  count_class inconclusive st = record st { inconclusives = suc st.inconclusives }

  -- What `Record` does to the entry of its scenario.
  unfoldable pub record_stats : Outcome → Stats F → Stats F
  unfolding classify recompute
  record_stats o st =
      recompute (count_class (classify o) (record st { evaluated_runs = suc st.evaluated_runs }))

  unfoldable pub record_outcome : List (String × Stats F) → Outcome → List (String × Stats F)
  record_outcome data' o =
      insert o.scenario (record_stats o (or_new o.scenario (lookup o.scenario data'))) data'

  unfoldable pub record_all : List (String × Stats F) → List Outcome → List (String × Stats F)
  unfolding record_outcome
  record_all data' [] = data'
  record_all data' (o ∷ os) = record_all (record_outcome data' o) os

  unfoldable pub report : List (String × Stats F) → List (Stats F)
  report data' = map (λ e. e.1) data'
