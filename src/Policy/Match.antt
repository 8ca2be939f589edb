-- ===== src/Policy/Match.antt =====
-- `validateExpr`, `match` and `listContains` of internal/policy/engine.go.
use architecture_rehearsal.Prelude.{
  ℕ, suc, Option, none, some, [], Bool, false, ◌||◌, leb, any, codes, text_eq, take, trim_space,
  has_prefix, contains_text, if◌then◌else◌,
}
use architecture_rehearsal.Policy.{Text, Input}
use architecture_rehearsal.Policy.Syntax.{
  drop, index_of, split_two, split, trim_quotes, Scanned, scan_int, exceeds,
}

pub data ExprError : Type 0 where
  empty_expression : ExprError
  invalid_list : Text → ExprError
  missing_right_hand_side : Text → ExprError
  unknown_field : Text → Text → ExprError
  invalid_integer : Text → ExprError
  unknown_expression : Text → ExprError

pub data Matched : Type 0 where
  ok : Bool → Matched
  err : ExprError → Matched

-- `i < 0 || j <= i` is a failure.
abbrev list_bounds : Option ℕ → Option ℕ → Option (ℕ × ℕ)
list_bounds (some i) (some j) = if leb j i then none else some (i, j)
list_bounds _ _ = none

abbrev pub bounds : Text → Option (ℕ × ℕ)
bounds e = list_bounds (index_of b'[' e) (index_of b']' e)

abbrev is_risk_in : Text → Bool
is_risk_in e = has_prefix e (codes "risk in ")

abbrev is_decision_in : Text → Bool
is_decision_in e = has_prefix e (codes "decision in ")

abbrev is_empty : Text → Bool
is_empty t = text_eq t []

abbrev check_list : Text → Option (ℕ × ℕ) → Option ExprError
check_list expr none = some (invalid_list expr)
check_list expr (some b) = none

abbrev check_equality : Text → Text × Text → Option ExprError
check_equality expr parts =
    let left = trim_space parts.0 in
    if is_empty (trim_space parts.1)
    then some (missing_right_hand_side expr)
    else if text_eq left (codes "risk")
        || (text_eq left (codes "decision") || text_eq left (codes "rollback"))
    then none
    else some (unknown_field left expr)

abbrev check_field : Text → Text → Option Scanned → Option ExprError
check_field expr left none = some (invalid_integer expr)
check_field expr left (some n) =
    if text_eq left (codes "requiredMissing")
      || (text_eq left (codes "findings") || text_eq left (codes "criticalPaths"))
    then none
    else some (unknown_field left expr)

abbrev check_comparison : Text → Text × Text → Option ExprError
check_comparison expr parts = check_field expr (trim_space parts.0) (scan_int (trim_space parts.1))

-- `validateExpr`
unfoldable pub validate_expr : Text → Option ExprError
validate_expr expr =
    let e = trim_space expr in
    if is_empty e
    then some empty_expression
    else if is_risk_in e || is_decision_in e
    then check_list expr (bounds e)
    else if contains_text e (codes "==")
    then check_equality expr (split_two (codes "==") e)
    else if contains_text e (codes ">")
    then check_comparison expr (split_two (codes ">") e)
    else some (unknown_expression expr)

abbrev contains_in : Text → Text → Option (ℕ × ℕ) → Bool
contains_in e val none = false
contains_in e val (some b) =
    any (λ p. text_eq (trim_quotes (trim_space p)) val) (split b',' (drop (suc b.0) (take b.1 e)))

unfoldable pub list_contains : Text → Text → Bool
list_contains e val = contains_in e val (bounds e)

abbrev match_comparison : Text → Input → Text → Option Scanned → Matched
match_comparison expr in' left none = err (unknown_expression expr)
match_comparison expr in' left (some n) =
    if text_eq left (codes "requiredMissing")
    then ok (exceeds in'.required_missing n)
    else if text_eq left (codes "findings")
    then ok (exceeds in'.findings n)
    else if text_eq left (codes "criticalPaths")
    then ok (exceeds in'.critical_paths n)
    else err (unknown_expression expr)

abbrev compare_numbers : Text → Input → Text × Text → Matched
compare_numbers expr in' parts =
    match_comparison expr in' (trim_space parts.0) (scan_int (trim_space parts.1))

abbrev compare_texts : Text → Input → Text × Text → Matched
compare_texts expr in' parts =
    let left = trim_space parts.0 in
    let right = trim_quotes (trim_space parts.1) in
    if text_eq left (codes "risk")
    then ok (text_eq in'.risk right)
    else if text_eq left (codes "decision")
    then ok (text_eq in'.decision right)
    else if text_eq left (codes "rollback")
    then ok (text_eq in'.rollback right)
    else err (unknown_expression expr)

abbrev unless : Option ExprError → Matched → Matched
unless none m = m
unless (some e) m = err e

-- A field that neither `switch` names was refused by `validateExpr`, and so was a number that does not
-- scan, so those ends of the function are not met.
unfoldable pub match : Text → Input → Matched
unfolding validate_expr list_contains
match expr in' =
    let e = trim_space expr in
    unless (validate_expr expr) (
      if is_risk_in e
      then ok (list_contains e in'.risk)
      else if is_decision_in e
      then ok (list_contains e in'.decision)
      else if contains_text e (codes "==")
      then compare_texts expr in' (split_two (codes "==") e)
      else if contains_text e (codes ">")
      then compare_numbers expr in' (split_two (codes ">") e)
      else err (unknown_expression expr))
