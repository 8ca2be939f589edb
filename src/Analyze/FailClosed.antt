-- ===== src/Analyze/FailClosed.antt =====
-- When the analysis approves (internal/analyze).
use architecture_rehearsal.Prelude.{
  ◌≡◌, refl, ◌∙◌, String, List, [], ◌∷◌, ◌++◌, map, filter, Bool, false, not, ◌&&◌, ◌||◌, ◌==◌, any,
  arith, Bool-cases, inl, inr, concat,
}
use text.Mathlib.TextEquality.{eq_iff}
use architecture_rehearsal.Analyze.{
  Finding, max_risk, is_severe, is_empty, has_block, has_warn, max_risk_of, unique_strings,
  required_missing, decide, decision_from_findings,
}

-- A risk that the analysis acts on.
abbrev pub is_acted_on : String → Bool
is_acted_on r = is_severe r || (r == "medium" || r == "unknown")

max_risk-mild :
    (a b : String)
    → is_acted_on a ≡ false
    → (is_severe b || b == "medium") ≡ false
    → is_acted_on (max_risk a b) ≡ false
unfolding max_risk
max_risk-mild a b h k = elim (Bool-cases (b == "unknown")) [
  | inl unsure ↦ ground (arith, h, k, unsure)
  | inr sure ↦ ground (arith, h, k, sure)
]

known_severe : (r : String) → (not (r == "unknown") && is_severe r) ≡ is_severe r
known_severe r = elim (Bool-cases (r == "unknown")) [
  | inl unsure ↦ rw ((eq_iff r "unknown").0 unsure) refl
  | inr sure ↦ rw sure refl
]

known_medium : (r : String) → (not (r == "unknown") && r == "medium") ≡ (r == "medium")
known_medium r = elim (Bool-cases (r == "unknown")) [
  | inl unsure ↦ rw ((eq_iff r "unknown").0 unsure) refl
  | inr sure ↦ rw sure refl
]

max_risk_of-mild :
    (risk : String) (fs : List Finding)
    → is_acted_on risk ≡ false
    → (has_block fs || has_warn fs) ≡ false
    → is_acted_on (max_risk_of risk fs) ≡ false
max_risk_of-mild risk [] h k = h
max_risk_of-mild risk (f ∷ fs) h k =
    max_risk_of-mild (max_risk risk f.risk) fs
      (max_risk-mild risk f.risk h (ground (arith, k, known_severe f.risk, known_medium f.risk)))
      (ground (arith, k))

unique_strings-is_empty : (xs : List String) → is_empty (unique_strings xs) ≡ is_empty xs
unique_strings-is_empty [] = refl
unique_strings-is_empty (x ∷ xs) = refl

append-is_empty : (xs ys : List String) → is_empty (xs ++ ys) ≡ (is_empty xs && is_empty ys)
append-is_empty [] ys = refl
append-is_empty (x ∷ xs) ys = refl

unknown-is_empty :
    (fs : List Finding)
    → is_empty
        (map (λ f. concat ("scenario:" ∷ f.scenario ∷ [])) (filter (λ f. f.risk == "unknown") fs))
      ≡ not (any (λ f. f.risk == "unknown") fs)
unknown-is_empty [] = refl
unknown-is_empty (f ∷ fs) = elim (Bool-cases (f.risk == "unknown")) [
  | inl unsure ↦ rw unsure refl
  | inr sure ↦ rw sure (unknown-is_empty fs)
]

required_missing-is_empty :
    (missing : List String) (fs : List Finding)
    → is_empty (required_missing missing fs)
      ≡ (is_empty missing && not (any (λ f. f.risk == "unknown") fs))
required_missing-is_empty missing fs =
    unique_strings-is_empty _
    ∙ (append-is_empty (unique_strings missing) _
        ∙ rw (unique_strings-is_empty missing, unknown-is_empty fs) refl)

acted_on_any :
    (fs : List Finding)
    → any (λ f. is_acted_on f.risk) fs
      ≡ ((has_block fs || has_warn fs) || any (λ f. f.risk == "unknown") fs)
acted_on_any [] = refl
acted_on_any (f ∷ fs) = ground (arith, acted_on_any fs, known_severe f.risk, known_medium f.risk)

decision_approve :
    (risk : String) (fs : List Finding) (required : List String) (insufficient : Bool)
    → (insufficient && is_empty required) ≡ false
    → (decision_from_findings risk fs required insufficient == "approve")
      ≡ (is_empty required && (not (has_block fs || has_warn fs) && not (is_acted_on risk)))
unfolding decision_from_findings
decision_approve risk fs required insufficient h =
    elim (Bool-cases (has_block fs || is_severe risk)) [
      | inl severe ↦ rw severe (ground (arith, severe))
      | inr calm ↦ rw calm (elim (Bool-cases (insufficient || not (is_empty required))) [
        | inl lacks ↦ rw lacks (ground (arith, h, lacks))
        | inr full ↦ rw full (elim (Bool-cases (has_warn fs || risk == "medium")) [
          | inl warns ↦ rw warns (ground (arith, warns))
          | inr quiet ↦ rw quiet (elim (Bool-cases (risk == "unknown")) [
            | inl unsure ↦ rw unsure (ground (arith, unsure))
            | inr sure ↦ rw sure (ground (arith, calm, full, quiet, sure))
          ])
        ])
      ])
    ]

-- The analysis is fail-closed: it approves exactly when no requirement is missing and no finding has
-- the risk critical, high, medium or unknown.
pub decide-approve :
    (missing : List String) (fs : List Finding)
    → (decide missing fs == "approve")
      ≡ (is_empty missing && not (any (λ f. is_acted_on f.risk) fs))
unfolding decide
decide-approve missing fs =
    let required = required_missing missing fs in
    decision_approve (max_risk_of "none" fs) fs required _ (ground arith)
    ∙ (rw (required_missing-is_empty missing fs, acted_on_any fs)
        (elim (Bool-cases (has_block fs || has_warn fs)) [
          | inl acts ↦ ground (arith, acts)
          | inr calm ↦ ground (arith, calm, max_risk_of-mild "none" fs refl calm)
        ]))
