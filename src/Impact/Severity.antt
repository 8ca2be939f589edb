-- ===== src/Impact/Severity.antt =====
-- What the gate verdict of internal/impact says of the detectors' statuses.
use architecture_rehearsal.Prelude.{
  ℕ, ◌≤◌, ◌<◌, ◌≡◌, refl, ◌⊎◌, inl, inr, String, List, [], ◌∷◌, ltb, arith, All, Memᴰ, sym, ap, ◌∙◌,
  if◌then◌else◌, eqb, eq_iff, Bool-cases,
}
use native.Mathlib.Nat.{le_trans}
use architecture_rehearsal.Impact.{Verdict}
use architecture_rehearsal.Impact.Gate.{order_of, stronger, corrected, aggregate_from, aggregate}

-- The four statuses that the gate knows.
abbrev pub IsStatus : String → Type 0
IsStatus s = (s ≡ "PASS") ⊎ (s ≡ "WARN") ⊎ (s ≡ "UNKNOWN") ⊎ (s ≡ "BLOCK")

pub corrected-IsStatus : (s : String) → IsStatus (corrected s)
unfolding corrected
corrected-IsStatus s =
    ground
      (arith, eq_iff s "", eq_iff s "PASS", eq_iff s "WARN", eq_iff s "UNKNOWN", eq_iff s "BLOCK")

-- How bad a status is, as the gate reads it.
abbrev pub severity : Verdict → ℕ
severity v = order_of (corrected v.status)

stronger_cases :
    (best st : String)
    → ((stronger best st ≡ best) × (order_of st ≤ order_of best))
      ⊎ ((stronger best st ≡ st) × (order_of best < order_of st))
stronger_cases best st = elim (Bool-cases (ltb (order_of best) (order_of st))) [
  | inl e ↦ inr (rw stronger-eq (rw e refl), ground (arith, e))
  | inr e ↦ inl (rw stronger-eq (rw e refl), ground (arith, e))
]
  where
    stronger-eq : stronger best st ≡ (if ltb (order_of best) (order_of st) then st else best)
    stronger-eq = unfold stronger in refl

aggregate_from-IsStatus :
    (best : String) (vs : List Verdict) → IsStatus best → IsStatus (aggregate_from best vs)
unfolding aggregate_from
aggregate_from-IsStatus best [] h = h
aggregate_from-IsStatus best (v ∷ vs) h =
    aggregate_from-IsStatus (stronger best (corrected v.status)) vs
      (elim (stronger_cases best (corrected v.status)) [
        | inl (e, _) ↦ rw e h
        | inr (e, _) ↦ rw e (corrected-IsStatus v.status)
      ])

stronger-le :
    (best st : String)
    → (order_of best ≤ order_of (stronger best st)) × (order_of st ≤ order_of (stronger best st))
stronger-le best st = elim (stronger_cases best st) [
  | inl (e, h) ↦ rw e (omega arith, h)
  | inr (e, h) ↦ rw e (omega arith, omega arith)
]

aggregate_from-max :
    (best : String) (vs : List Verdict)
    → (order_of best ≤ order_of (aggregate_from best vs))
      × All (λ v. severity v ≤ order_of (aggregate_from best vs)) vs
unfolding aggregate_from
aggregate_from-max best [] = (omega arith, tt)
aggregate_from-max best (v ∷ vs) =
    let next = stronger best (corrected v.status) in
    let rest = aggregate_from-max next vs in
    let up = stronger-le best (corrected v.status) in
    (le_trans up.0 rest.0, (le_trans up.1 rest.0, rest.1))

-- The verdict whose status the gate took.
abbrev pub Decides : String → List Verdict → Type 0
Decides r vs = (v : Verdict) × Memᴰ v vs × (corrected v.status ≡ r)

aggregate_from-attained :
    (best : String) (vs : List Verdict)
    → (aggregate_from best vs ≡ best) ⊎ Decides (aggregate_from best vs) vs
unfolding aggregate_from
aggregate_from-attained best [] = inl refl
aggregate_from-attained best (v ∷ vs) =
    elim (aggregate_from-attained (stronger best (corrected v.status)) vs) [
      | inl same ↦ elim (stronger_cases best (corrected v.status)) [
        | inl (e, _) ↦ inl (same ∙ e)
        | inr (e, _) ↦ inr (v, Memᴰ.head refl, sym (same ∙ e))
      ]
      | inr (w, m, h) ↦ inr (w, Memᴰ.tail m, h)
    ]

abbrev name_of : ℕ → String
name_of n =
    if eqb n 0 then "PASS" else if eqb n 1 then "WARN" else if eqb n 2 then "UNKNOWN" else "BLOCK"

name_of-order : (s : String) → IsStatus s → name_of (order_of s) ≡ s
unfolding order_of
name_of-order s (inl e) = rw e refl
name_of-order s (inr (inl e)) = rw e refl
name_of-order s (inr (inr (inl e))) = rw e refl
name_of-order s (inr (inr (inr e))) = rw e refl

pub order-injective : (s t : String) → IsStatus s → IsStatus t → order_of s ≡ order_of t → s ≡ t
order-injective s t h k e = sym (name_of-order s h) ∙ ap name_of e ∙ name_of-order t k

pub pass_order : order_of "PASS" ≡ 0
unfolding order_of
pass_order = refl

-- The gate verdict of a non-empty list of verdicts is one of the four statuses, at least as severe
-- as every verdict, and the status of one of them, where a status that the gate does not know counts
-- as UNKNOWN.
pub aggregate_max :
    (v : Verdict) (vs : List Verdict)
    → let r = aggregate (v ∷ vs) in
      IsStatus r × All (λ w. severity w ≤ order_of r) (v ∷ vs) × Decides r (v ∷ vs)
unfolding aggregate
aggregate_max v vs =
    let r = aggregate_from "PASS" (v ∷ vs) in
    let s = aggregate_from-IsStatus "PASS" (v ∷ vs) (inl refl) in
    let m = aggregate_from-max "PASS" (v ∷ vs) in
    (
      s,
      m.1,
      elim (aggregate_from-attained "PASS" (v ∷ vs)) [
        | inl same ↦ (
          v,
          Memᴰ.head refl,
          order-injective (corrected v.status) r (corrected-IsStatus v.status) s
              (omega (arith, ap order_of same, pass_order, m.1.0)),
        )
        | inr d ↦ d
      ],
    )
