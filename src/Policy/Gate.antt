-- ===== src/Policy/Gate.antt =====
-- `Evaluate` of internal/policy/engine.go.
use architecture_rehearsal.Prelude.{
  ◌≡◌, ◌≢◌, refl, Option, none, some, List, [], ◌∷◌, ◌++◌, Bool, true, false, ◌&&◌, ◌||◌, ◌⊎◌, inl,
  inr, arith, codes, text_eq, All, if◌then◌else◌,
}
use architecture_rehearsal.Policy.{
  Text, Document, Input, Decision, approve, warn, block, unknown, Result,
  unknown_as_block_effective, or_true, default_document,
}
use architecture_rehearsal.Policy.Match.{Matched, ok, err, match}

-- What one rule does to the loop over the rules: it goes on after a rule that does not match. An
-- invalid rule blocks.
abbrev judged : Decision → Text → Matched → Option Result → Option Result
judged hit expr (err e) rest =
    some (record { decision = block; matched = (codes "invalid:" ++ expr) ∷ [] })
judged hit expr (ok true) rest = some (record { decision = hit; matched = expr ∷ [] })
judged hit expr (ok false) rest = rest

-- The loop over the rules that decide `hit`.
unfoldable pub first_match : Decision → List Text → Input → Option Result
first_match hit [] in' = none
first_match hit (expr ∷ exprs) in' = judged hit expr (match expr in') (first_match hit exprs in')

abbrev or_result : Option Result → Result → Result
or_result none r = r
or_result (some r) other = r

abbrev pub is_unknown : Text → Bool
is_unknown t = text_eq t (codes "unknown")

abbrev or_default : Option Document → Document
or_default none = default_document
or_default (some d) = d

unfoldable pub evaluate : Option Document → Input → Result
unfolding first_match unknown_as_block_effective
evaluate doc in' =
    let d = or_default doc in
    or_result (first_match block d.block in') (
      if unknown_as_block_effective (some d) && (is_unknown in'.decision || is_unknown in'.risk)
      then record { decision = block; matched = codes "unknownAsBlock" ∷ [] }
      else or_result (first_match warn d.warn in') (record {
        decision = if is_unknown in'.decision then unknown else approve;
        matched = [];
      }))

-- The rule is well formed and does not hold of the input.
abbrev pub IsUnmatched : Input → Text → Type 0
IsUnmatched in' expr = match expr in' ≡ ok false

judged-none :
    (hit : Decision) (expr : Text) (m : Matched) (rest : Option Result)
    → judged hit expr m rest ≡ none
    → (m ≡ ok false) × (rest ≡ none)
judged-none hit expr (err e) rest h = cc
judged-none hit expr (ok true) rest h = cc
judged-none hit expr (ok false) rest h = (refl, h)

unmatched :
    (hit : Decision) (exprs : List Text) (in' : Input)
    → first_match hit exprs in' ≡ none
    → All (IsUnmatched in') exprs
unfolding first_match
unmatched hit [] in' h = tt
unmatched hit (expr ∷ exprs) in' h =
    let split = judged-none hit expr (match expr in') (first_match hit exprs in') h in
    (split.0, unmatched hit exprs in' split.1)

abbrev Stops : Option Result → Type 0
Stops none = Unit
Stops (some r) = r.decision ≢ approve

judged-Stops :
    (hit : Decision) (expr : Text) (m : Matched) (rest : Option Result)
    → hit ≢ approve
    → Stops rest
    → Stops (judged hit expr m rest)
judged-Stops hit expr (err e) rest h k = λ e. cc
judged-Stops hit expr (ok true) rest h k = h
judged-Stops hit expr (ok false) rest h k = k

-- A rule that decides never approves.
first_match-Stops :
    (hit : Decision) (exprs : List Text) (in' : Input)
    → hit ≢ approve
    → Stops (first_match hit exprs in')
unfolding first_match
first_match-Stops hit [] in' h = tt
first_match-Stops hit (expr ∷ exprs) in' h =
    judged-Stops hit expr (match expr in') (first_match hit exprs in') h
      (first_match-Stops hit exprs in' h)

or_result-approve :
    (o : Option Result) (r : Result)
    → Stops o
    → (or_result o r).decision ≡ approve
    → (o ≡ none) × (r.decision ≡ approve)
or_result-approve none r h k = (refl, k)
or_result-approve (some s) r h k = absurd (h k)

unknown_off :
    (u : Option Bool) (b : Bool) (r : Result)
    → (if or_true u && b
        then record { decision = block; matched = codes "unknownAsBlock" ∷ [] }
        else r).decision
      ≡ approve
    → (r.decision ≡ approve) × ((b ≡ false) ⊎ (u ≡ some false))
unknown_off none true r h = cc
unknown_off none false r h = (h, inl refl)
unknown_off (some true) true r h = cc
unknown_off (some true) false r h = (h, inl refl)
unknown_off (some false) b r h = (h, inr refl)

not_unknown : (u : Bool) → (if u then unknown else approve) ≡ approve → u ≡ false
not_unknown true h = cc
not_unknown false h = refl

-- An approval means that every rule of the document is well formed and does not hold, that the
-- decision of the analysis is not unknown, and that its risk is not unknown either unless the
-- document says that the unknown does not block.
pub evaluate-approve :
    (d : Document) (in' : Input)
    → (evaluate (some d) in').decision ≡ approve
    → (All (IsUnmatched in') d.block × All (IsUnmatched in') d.warn)
      × ((is_unknown in'.decision ≡ false)
          × ((is_unknown in'.risk ≡ false) ⊎ (d.unknown_as_block ≡ some false)))
unfolding evaluate unknown_as_block_effective
evaluate-approve d in' h =
    let u = is_unknown in'.decision in
    let last : Result = record { decision = if u then unknown else approve; matched = [] } in
    let rest = or_result (first_match warn d.warn in') last in
    let blocks = first_match-Stops block d.block in' (λ e. cc) in
    let warns = first_match-Stops warn d.warn in' (λ e. cc) in
    let one = or_result-approve (first_match block d.block in') _ blocks h in
    let two = unknown_off d.unknown_as_block (u || is_unknown in'.risk) rest one.1 in
    let three = or_result-approve (first_match warn d.warn in') last warns two.0 in
    let known = not_unknown u three.1 in
    (
      (unmatched block d.block in' one.0, unmatched warn d.warn in' three.0),
      (known, elim two.1 [ inl k ↦ inl (ground (arith, k)) | inr off ↦ inr off ]),
    )
