-- ===== src/Impact/FailClosed.antt =====
-- When the gate of internal/impact passes and when it blocks.
use architecture_rehearsal.Prelude.{
  ℕ, ◌≤◌, ◌≡◌, refl, ◌∙◌, ap, sym, ◌↔◌, ◌⊎◌, inl, inr, ◌≢◌, String, List, [], ◌∷◌, arith, All,
  All-mem, Memᴰ, eq_iff, ◌==◌, false, Bool-cases,
}
use architecture_rehearsal.Impact.{Verdict}
use architecture_rehearsal.Impact.Gate.{
  order_of, corrected, aggregate, mapped, with_status, merge_verdicts,
}
use architecture_rehearsal.Impact.Severity.{
  corrected-IsStatus, severity, order-injective, pass_order, aggregate_max,
}

pub unknown_order : order_of "UNKNOWN" ≡ 2
unfolding order_of
unknown_order = refl

pub block_order : order_of "BLOCK" ≡ 3
unfolding order_of
block_order = refl

order_of-le : (s : String) → order_of s ≤ 3
unfolding order_of
order_of-le s = ground arith

corrected_cases : (s : String) → (corrected s ≡ s) ⊎ (corrected s ≡ "UNKNOWN")
unfolding corrected
corrected_cases s = ground (arith, eq_iff s "")

-- The correction makes no status of another severity than that of UNKNOWN.
pub corrected-eq : (s t : String) → order_of t ≢ 2 → corrected s ≡ t → s ≡ t
corrected-eq s t h e = elim (corrected_cases s) [
  | inl same ↦ sym same ∙ e
  | inr unknown ↦ absurd (h (ap order_of (sym e ∙ unknown) ∙ unknown_order))
]

pub corrected_pass : corrected "PASS" ≡ "PASS"
unfolding corrected
corrected_pass = refl

corrected_block : corrected "BLOCK" ≡ "BLOCK"
unfolding corrected
corrected_block = refl

aggregate-nil : aggregate [] ≢ "PASS"
unfolding aggregate
aggregate-nil e = absurd (omega (arith, ap order_of e, unknown_order, pass_order))

abbrev pub IsPass : Verdict → Type 0
IsPass v = v.status ≡ "PASS"

All-IsPass : (n : ℕ) (vs : List Verdict) → n ≡ 0 → All (λ v. severity v ≤ n) vs → All IsPass vs
All-IsPass n [] z h = tt
All-IsPass n (v ∷ vs) z h = (
  corrected-eq v.status "PASS" (λ e. absurd (omega (arith, e, pass_order)))
      (order-injective (corrected v.status) "PASS" (corrected-IsStatus v.status) (inl refl)
        (omega (arith, pass_order, h.0))),
  All-IsPass n vs z h.1,
)

IsPass-only_if : (vs : List Verdict) → aggregate vs ≡ "PASS" → (vs ≢ []) × All IsPass vs
IsPass-only_if [] e = absurd (aggregate-nil e)
IsPass-only_if (v ∷ vs) e = (
  λ z. cc,
  All-IsPass (order_of (aggregate (v ∷ vs))) (v ∷ vs) (ap order_of e ∙ pass_order)
      (aggregate_max v vs).1,
)

pass_if : (vs : List Verdict) → vs ≢ [] → All IsPass vs → aggregate vs ≡ "PASS"
pass_if [] ne h = absurd (ne refl)
pass_if (v ∷ vs) ne h =
    let (w, m, e) = (aggregate_max v vs).2 in
    sym e ∙ ap corrected (All-mem IsPass (v ∷ vs) h m) ∙ corrected_pass

-- The gate is fail-closed: it passes exactly when there is a verdict and every verdict's status is
-- PASS. No verdicts, an empty status or one that is not known never pass.
pub aggregate-IsPass : (vs : List Verdict) → (aggregate vs ≡ "PASS") ↔ ((vs ≢ []) × All IsPass vs)
aggregate-IsPass vs = (IsPass-only_if vs, λ h. pass_if vs h.0 h.1)

-- Some verdict blocks.
abbrev pub HasBlock : List Verdict → Type 0
HasBlock vs = (v : Verdict) × Memᴰ v vs × (v.status ≡ "BLOCK")

block_only_if : (vs : List Verdict) → aggregate vs ≡ "BLOCK" → HasBlock vs
unfolding aggregate
block_only_if [] e = absurd (omega (arith, ap order_of e, unknown_order, block_order))
block_only_if (v ∷ vs) e =
    let (w, m, h) = (aggregate_max v vs).2 in
    (w, m, corrected-eq w.status "BLOCK" (λ z. absurd (omega (arith, z, block_order))) (h ∙ e))

block_if : (vs : List Verdict) → HasBlock vs → aggregate vs ≡ "BLOCK"
block_if [] (v, m, e) = elim m [ ]
block_if (v ∷ vs) (w, m, e) =
    let r = aggregate (v ∷ vs) in
    let (s, bound, _) = aggregate_max v vs in
    let up = All-mem (λ x. severity x ≤ order_of r) (v ∷ vs) bound m in
    let same = ap order_of (ap corrected e ∙ corrected_block) in
    order-injective r "BLOCK" s (inr (inr (inr refl)))
      (omega (arith, up, same, block_order, order_of-le r))

-- The gate blocks exactly when the status of some verdict is BLOCK.
pub aggregate-block : (vs : List Verdict) → (aggregate vs ≡ "BLOCK") ↔ HasBlock vs
aggregate-block vs = (block_only_if vs, block_if vs)

mapped_other : (d : String) → (d == "approve") ≡ false → 1 ≤ order_of (mapped d)
unfolding mapped order_of
mapped_other d h = elim (Bool-cases (d == "warn")) [
  | inl w ↦ rw (h, w) (omega arith)
  | inr n ↦
      rw (h, n)
        (elim (Bool-cases (d == "block")) [
          | inl b ↦ rw b (omega arith)
          | inr o ↦ rw o (omega arith)
        ])
]

mapped_pass : (d : String) → mapped d ≡ "PASS" → d ≡ "approve"
mapped_pass d e = elim (Bool-cases (d == "approve")) [
  | inl same ↦ (eq_iff d "approve").0 same
  | inr other ↦ absurd (omega (arith, mapped_other d other, ap order_of e, pass_order))
]

mapped_approve : mapped "approve" ≡ "PASS"
unfolding mapped
mapped_approve = refl

mapped_block : mapped "block" ≡ "BLOCK"
unfolding mapped
mapped_block = refl

merge_verdicts-aggregate :
    (status decision : String)
    → merge_verdicts status decision
      ≡ aggregate (with_status status ∷ with_status (mapped decision) ∷ [])
unfolding merge_verdicts
merge_verdicts-aggregate status decision = refl

mapped_less : (d : String) → (d == "block") ≡ false → order_of (mapped d) ≤ 2
unfolding mapped order_of
mapped_less d h = elim (Bool-cases (d == "approve")) [
  | inl a ↦ rw a (omega arith)
  | inr n ↦ rw n (elim (Bool-cases (d == "warn")) [
    | inl w ↦ rw w (omega arith)
    | inr o ↦ rw (o, h) (omega arith)
  ])
]

mapped_blocks : (d : String) → mapped d ≡ "BLOCK" → d ≡ "block"
mapped_blocks d e = elim (Bool-cases (d == "block")) [
  | inl same ↦ (eq_iff d "block").0 same
  | inr other ↦ absurd (omega (arith, mapped_less d other, ap order_of e, block_order))
]

either_blocks :
    (status decision : String)
    → HasBlock (with_status status ∷ with_status (mapped decision) ∷ [])
    → (status ≡ "BLOCK") ⊎ (decision ≡ "block")
either_blocks status decision (v, Memᴰ.head e, b) = inl (sym (ap (λ w. w.status) e) ∙ b)
either_blocks status decision (v, Memᴰ.tail (Memᴰ.head e), b) =
    inr (mapped_blocks decision (sym (ap (λ w. w.status) e) ∙ b))
either_blocks status decision (v, Memᴰ.tail (Memᴰ.tail m), b) = elim m [ ]

merge_blocks :
    (status decision : String)
    → (merge_verdicts status decision ≡ "BLOCK") ↔ ((status ≡ "BLOCK") ⊎ (decision ≡ "block"))
merge_blocks status decision =
    let both : List Verdict = with_status status ∷ with_status (mapped decision) ∷ [] in
    rw (merge_verdicts-aggregate status decision) (
      (λ e. either_blocks status decision (block_only_if both e)),
      λ h. block_if both (elim h [
        | inl e ↦ (with_status status, Memᴰ.head refl, e)
        | inr e ↦
            (with_status (mapped decision), Memᴰ.tail (Memᴰ.head refl), ap mapped e ∙ mapped_block)
      ]),
    )

-- Folding an analyze decision into the gate never weakens it: the result passes exactly when the
-- gate passed and the decision is approve, and blocks exactly when one of the two blocks.
pub merge_verdicts-pass :
    (status decision : String)
    → ((merge_verdicts status decision ≡ "PASS") ↔ ((status ≡ "PASS") × (decision ≡ "approve")))
      × ((merge_verdicts status decision ≡ "BLOCK") ↔ ((status ≡ "BLOCK") ⊎ (decision ≡ "block")))
merge_verdicts-pass status decision =
    let both : List Verdict = with_status status ∷ with_status (mapped decision) ∷ [] in
    let passes = aggregate-IsPass both in
    (
      rw (merge_verdicts-aggregate status decision) (
        (λ e. ((passes.0 e).1.0, mapped_pass decision (passes.0 e).1.1.0)),
        λ h. passes.1 (λ z. cc, (h.0, (ap mapped h.1 ∙ mapped_approve, tt))),
      ),
      merge_blocks status decision,
    )
