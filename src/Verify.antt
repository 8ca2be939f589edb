-- ===== src/Verify.antt =====
-- internal/verify/verify.go: verification of a prediction against the snapshot after the deployment.
-- This module has the data, the readers of numbers and the attributes that speak of a component;
-- the children have the checks and the outcome. Texts are compared by code points.
pub mod Digest
pub mod Signals
pub mod Measures
pub mod Scenarios
pub mod Identity
pub mod Judge
pub mod Operation
pub mod Outcome
pub mod Evidence
pub mod Clear
pub mod Sound
pub mod Annotation
use architecture_rehearsal.Prelude.{
  ℕ, suc, ◌^◌, String, Option, none, some, List, [], ◌∷◌, Bool, true, false, ◌==◌, codes, lookup,
  ltb, leb, eqb, if◌then◌else◌,
}
use architecture_rehearsal.Graph.{
  Node, Snapshot, Attribute, ℤ, pos, negsuc, text, float64, fraction, int, int64,
}
use architecture_rehearsal.Impact.Unavailable.{all_digits, negated}
use architecture_rehearsal.Analyze.{Finding}

-- The values of a snapshot's metadata: `any` of one value, []any and []string.
pub data Value : Type 0 where
  scalar : Attribute → Value
  items : List Attribute → Value
  strings : List String → Value

-- A graph.Snapshot with its metadata; a nil map is `none`.
pub record Observed : Type 0 where
  pub graph : Snapshot
  pub meta : Option (List (String × Value))

pub record Check : Type 0 where
  pub name : String
  pub passed : Bool
  pub detail : String
  pub unknown : Bool
  pub soft : Bool

-- The fields of analyze.Report that verification reads.
pub record Prediction : Type 0 where
  pub change_id : String
  pub risk : String
  pub predicted_failures : List String
  pub findings : List Finding
  pub baseline_digest : String
  pub change_digest : String

abbrev pub passes : String → String → Check
passes name detail = record {
  name = name;
  passed = true;
  detail = detail;
  unknown = false;
  soft = false;
}

abbrev pub fails : String → String → Check
fails name detail = record {
  name = name;
  passed = false;
  detail = detail;
  unknown = false;
  soft = false;
}

abbrev pub unsettled : String → String → Check
unsettled name detail = record {
  name = name;
  passed = false;
  detail = detail;
  unknown = true;
  soft = false;
}

abbrev pub softly : Bool → String → String → Check
softly passed name detail = record {
  name = name;
  passed = passed;
  detail = detail;
  unknown = false;
  soft = true;
}

-- `m[key]` of the metadata.
unfoldable pub meta_value : Option (List (String × Value)) → String → Option Value
meta_value none key = none
meta_value (some m) key = lookup key m

-- `strconv.Atoi` without error: all digits, within 64 bits.
abbrev in_range : ℕ → (ℕ → ℤ) → Option ℕ → Option ℤ
in_range bound number none = none
in_range bound number (some n) = if ltb n bound then some (number n) else none

unfoldable pub parse_int : List ℕ → Option ℤ
parse_int [] = none
parse_int (c ∷ t) =
    if eqb c b'-'
    then in_range (suc (2 ^ 63)) negated (all_digits t)
    else if eqb c b'+'
    then in_range (2 ^ 63) pos (all_digits t)
    else in_range (2 ^ 63) pos (all_digits (c ∷ t))

unfoldable pub as_int : Option Attribute → Option ℤ
unfolding parse_int
as_int (some (int i)) = some i
as_int (some (int64 i)) = some i
as_int (some (float64 i)) = some i
as_int (some (fraction i shown)) = some i
as_int (some (text s)) = parse_int (codes s)
as_int _ = none

abbrev pub as_scalar : Option Value → Option Attribute
as_scalar (some (scalar a)) = some a
as_scalar _ = none

-- `attrReplicas` and `optionalInt`.
unfoldable pub optional_int : List (String × Attribute) → String → Option ℤ
unfolding as_int
optional_int attributes key = as_int (lookup key attributes)

abbrev pub eqz : ℤ → ℤ → Bool
eqz (pos m) (pos n) = eqb m n
eqz (negsuc m) (negsuc n) = eqb m n
eqz _ _ = false

abbrev pub ltz : ℤ → ℤ → Bool
ltz (pos m) (pos n) = ltb m n
ltz (pos m) (negsuc n) = false
ltz (negsuc m) (pos n) = true
ltz (negsuc m) (negsuc n) = ltb n m

abbrev pub is_some {ℓ} : {A : Type ℓ} → Option A → Bool
is_some none = false
is_some (some a) = true

abbrev pub holds {ℓ} : {A : Type ℓ} → (A → Bool) → Option A → Bool
holds test none = false
holds test (some a) = test a
