-- ===== src/Policy/Defaults.antt =====
-- The default policy document (internal/policy/engine.go).
use architecture_rehearsal.Prelude.{
  ◌≡◌, refl, none, Bool, false, ◌||◌, ltb, codes, text_eq, trim_space, has_prefix, contains_text,
  trim_left, is_space, arith, if◌then◌else◌,
}
use architecture_rehearsal.Policy.{Input, unknown_as_block_effective, approve, warn, block}
use architecture_rehearsal.Policy.Match.{ok, match, validate_expr, list_contains}
use architecture_rehearsal.Policy.Syntax.{index_of, split_two, split, trim_quotes, scan_int}
use architecture_rehearsal.Policy.Gate.{evaluate, first_match, is_unknown}

risk_in :
    (in' : Input)
    → match (codes "risk in [\"critical\",\"high\"]") in'
      ≡ ok (text_eq (codes "critical") in'.risk || (text_eq (codes "high") in'.risk || false))
unfolding match validate_expr list_contains index_of split_two split trim_quotes scan_int text_eq
    trim_space has_prefix contains_text trim_left is_space
risk_in in' = refl

decision_block :
    (in' : Input)
    → match (codes "decision == \"block\"") in' ≡ ok (text_eq in'.decision (codes "block"))
unfolding match validate_expr list_contains index_of split_two split trim_quotes scan_int text_eq
    trim_space has_prefix contains_text trim_left is_space
decision_block in' = refl

rollback_unavailable :
    (in' : Input)
    → match (codes "rollback == \"unavailable\"") in'
      ≡ ok (text_eq in'.rollback (codes "unavailable"))
unfolding match validate_expr list_contains index_of split_two split trim_quotes scan_int text_eq
    trim_space has_prefix contains_text trim_left is_space
rollback_unavailable in' = refl

required_missing :
    (in' : Input) → match (codes "requiredMissing > 0") in' ≡ ok (ltb 0 in'.required_missing)
unfolding match validate_expr list_contains index_of split_two split trim_quotes scan_int text_eq
    trim_space has_prefix contains_text trim_left is_space
required_missing in' = refl

risk_medium :
    (in' : Input) → match (codes "risk == \"medium\"") in' ≡ ok (text_eq in'.risk (codes "medium"))
unfolding match validate_expr list_contains index_of split_two split trim_quotes scan_int text_eq
    trim_space has_prefix contains_text trim_left is_space
risk_medium in' = refl

decision_warn :
    (in' : Input)
    → match (codes "decision == \"warn\"") in' ≡ ok (text_eq in'.decision (codes "warn"))
unfolding match validate_expr list_contains index_of split_two split trim_quotes scan_int text_eq
    trim_space has_prefix contains_text trim_left is_space
decision_warn in' = refl

-- What the default document blocks.
abbrev pub is_blocked : Input → Bool
is_blocked in' =
    text_eq (codes "critical") in'.risk
    || (text_eq (codes "high") in'.risk
        || (text_eq in'.decision (codes "block")
            || (text_eq in'.rollback (codes "unavailable")
                || (ltb 0 in'.required_missing
                    || (is_unknown in'.decision || is_unknown in'.risk)))))

-- What it warns of, if it does not block it.
abbrev pub is_warned : Input → Bool
is_warned in' = text_eq in'.risk (codes "medium") || text_eq in'.decision (codes "warn")

-- Without a document, an analysis is blocked if its risk is critical, high or unknown, its decision
-- block or unknown, its rollback unavailable or a requirement missing; otherwise there is a warning
-- if its risk is medium or its decision warn, and an approval if not.
pub evaluate-default :
    (in' : Input)
    → (evaluate none in').decision
      ≡ (if is_blocked in' then block else if is_warned in' then warn else approve)
unfolding evaluate first_match unknown_as_block_effective
evaluate-default in' =
    rw
      (
        risk_in in',
        decision_block in',
        rollback_unavailable in',
        required_missing in',
        risk_medium in',
        decision_warn in',
      )
      (ground arith)
