-- ===== src/Presync/Hook.antt =====
-- The exit contract of the PreSync hook (internal/presync/decision.go): which reports and overrides
-- let a sync proceed.
use architecture_rehearsal.Prelude.{
  ℕ, ◌<◌, ◌≤◌, ◌≡◌, refl, ◌∙◌, ap, sym, ◌↔◌, ◌⊎◌, inl, inr, ◌≢◌, String, List, [], ◌∷◌, map, arith,
  All, All-mem, codes, trim_space, ascii_upper, text_eq,
}
use architecture_rehearsal.Impact.{Verdict}
use architecture_rehearsal.Impact.Gate.{aggregate, corrected, order_of}
use architecture_rehearsal.Impact.Severity.{
  IsStatus, aggregate_max, severity, corrected-IsStatus, pass_order,
}
use architecture_rehearsal.Impact.FailClosed.{
  unknown_order, block_order, corrected-eq, corrected_pass,
}
use architecture_rehearsal.Presync.{normalised, hook_exit_code, map_impact_verdict}

-- What the proofs use of `unicode.ToUpper`.
abbrev pub IsUpperOfAscii : (ℕ → ℕ) → Type 0
IsUpperOfAscii to_upper = (c : ℕ) → c < 128 → to_upper c ≡ ascii_upper c

map_ascii :
    (to_upper : ℕ → ℕ) (cs : List ℕ)
    → IsUpperOfAscii to_upper
    → All (λ c. c < 128) cs
    → map to_upper cs ≡ map ascii_upper cs
map_ascii to_upper [] up h = refl
map_ascii to_upper (c ∷ cs) up h = rw (up c h.0, map_ascii to_upper cs up h.1) refl

module _ (to_upper : ℕ → ℕ) (up : IsUpperOfAscii to_upper) where
  normalised_ascii :
      (s : String)
      → All (λ c. c < 128) (trim_space (codes s))
      → normalised to_upper s ≡ map ascii_upper (trim_space (codes s))
  unfolding normalised
  normalised_ascii s h = map_ascii to_upper (trim_space (codes s)) up h

  pass_normalised : normalised to_upper "PASS" ≡ codes "PASS"
  unfolding trim_space ascii_upper
  pass_normalised = normalised_ascii "PASS" (omega arith)

  warn_normalised : normalised to_upper "WARN" ≡ codes "WARN"
  unfolding trim_space ascii_upper
  warn_normalised = normalised_ascii "WARN" (omega arith)

  block_normalised : normalised to_upper "BLOCK" ≡ codes "BLOCK"
  unfolding trim_space ascii_upper
  block_normalised = normalised_ascii "BLOCK" (omega arith)

  unknown_normalised : normalised to_upper "UNKNOWN" ≡ codes "UNKNOWN"
  unfolding trim_space ascii_upper
  unknown_normalised = normalised_ascii "UNKNOWN" (omega arith)

  allow_normalised : normalised to_upper "ALLOW" ≡ codes "ALLOW"
  unfolding trim_space ascii_upper
  allow_normalised = normalised_ascii "ALLOW" (omega arith)

  -- The exit code that the hook gives a verdict of the gate.
  abbrev gate_code : String → ℕ
  gate_code v = hook_exit_code to_upper (map_impact_verdict to_upper v)

  allow_code : hook_exit_code to_upper "ALLOW" ≡ 0
  unfolding hook_exit_code text_eq
  allow_code = rw allow_normalised refl

  warn_code : hook_exit_code to_upper "WARN" ≡ 0
  unfolding hook_exit_code text_eq
  warn_code = rw warn_normalised refl

  pub block_code : hook_exit_code to_upper "BLOCK" ≡ 3
  unfolding hook_exit_code text_eq
  block_code = rw block_normalised refl

  pub unknown_code : hook_exit_code to_upper "UNKNOWN" ≡ 4
  unfolding hook_exit_code text_eq
  unknown_code = rw unknown_normalised refl

  pass_mapped : map_impact_verdict to_upper "PASS" ≡ "ALLOW"
  unfolding map_impact_verdict text_eq
  pass_mapped = rw pass_normalised refl

  warn_mapped : map_impact_verdict to_upper "WARN" ≡ "WARN"
  unfolding map_impact_verdict text_eq
  warn_mapped = rw warn_normalised refl

  block_mapped : map_impact_verdict to_upper "BLOCK" ≡ "BLOCK"
  unfolding map_impact_verdict text_eq
  block_mapped = rw block_normalised refl

  unknown_mapped : map_impact_verdict to_upper "UNKNOWN" ≡ "UNKNOWN"
  unfolding map_impact_verdict text_eq
  unknown_mapped = rw unknown_normalised refl

  -- Zero for the two statuses of order 0 and 1, and not zero for the others.
  gate_code-order :
      (s : String)
      → IsStatus s
      → ((gate_code s ≡ 0) × (order_of s < 2)) ⊎ ((0 < gate_code s) × (1 < order_of s))
  unfolding order_of
  gate_code-order s (inl e) =
      rw e (inl (ap (hook_exit_code to_upper) pass_mapped ∙ allow_code, omega arith))
  gate_code-order s (inr (inl e)) =
      rw e (inl (ap (hook_exit_code to_upper) warn_mapped ∙ warn_code, omega arith))
  gate_code-order s (inr (inr (inl e))) =
      rw e (inr (rw (unknown_mapped, unknown_code) (omega arith), omega arith))
  gate_code-order s (inr (inr (inr e))) =
      rw e (inr (rw (block_mapped, block_code) (omega arith), omega arith))

-- A status that the hook lets through.
abbrev pub IsMild : Verdict → Type 0
IsMild v = (v.status ≡ "PASS") ⊎ (v.status ≡ "WARN")

warn_order : order_of "WARN" ≡ 1
unfolding order_of
warn_order = refl

IsMild-if :
    (v : Verdict) (s : String) → corrected v.status ≡ s → IsStatus s → order_of s < 2 → IsMild v
IsMild-if v s e (inl p) h =
    inl (corrected-eq v.status "PASS" (λ z. absurd (omega (arith, z, pass_order))) (e ∙ p))
IsMild-if v s e (inr (inl w)) h =
    inr (corrected-eq v.status "WARN" (λ z. absurd (omega (arith, z, warn_order))) (e ∙ w))
IsMild-if v s e (inr (inr (inl u))) h = absurd (omega (arith, h, ap order_of u, unknown_order))
IsMild-if v s e (inr (inr (inr b))) h = absurd (omega (arith, h, ap order_of b, block_order))

All-IsMild : (n : ℕ) (vs : List Verdict) → n < 2 → All (λ v. severity v ≤ n) vs → All IsMild vs
All-IsMild n [] l h = tt
All-IsMild n (v ∷ vs) l h = (
  IsMild-if v (corrected v.status) refl (corrected-IsStatus v.status) (omega (arith, l, h.0)),
  All-IsMild n vs l h.1,
)

corrected_warn : corrected "WARN" ≡ "WARN"
unfolding corrected
corrected_warn = refl

mild_order : (v : Verdict) → IsMild v → order_of (corrected v.status) < 2
mild_order v (inl e) = rw (e, corrected_pass, pass_order) (omega arith)
mild_order v (inr e) = rw (e, corrected_warn, warn_order) (omega arith)

aggregate_empty : aggregate [] ≡ "UNKNOWN"
unfolding aggregate
aggregate_empty = refl

module _ (to_upper : ℕ → ℕ) (up : IsUpperOfAscii to_upper) where
  lets_only_if :
      (vs : List Verdict)
      → hook_exit_code to_upper (map_impact_verdict to_upper (aggregate vs)) ≡ 0
      → (vs ≢ []) × All IsMild vs
  lets_only_if [] e = absurd (elim (gate_code-order to_upper up "UNKNOWN" (inr (inr (inl refl)))) [
    | inl (z, h) ↦ omega (arith, h, unknown_order)
    | inr (p, _) ↦ omega (arith, p, sym (ap (gate_code to_upper up) aggregate_empty) ∙ e)
  ])
  lets_only_if (v ∷ vs) e =
      let (s, bound, _) = aggregate_max v vs in
      elim (gate_code-order to_upper up (aggregate (v ∷ vs)) s) [
        | inl (z, h) ↦ ((λ n. cc), All-IsMild (order_of (aggregate (v ∷ vs))) (v ∷ vs) h bound)
        | inr (p, _) ↦ absurd (omega (arith, p, e))
      ]

  lets_if :
      (vs : List Verdict)
      → vs ≢ []
      → All IsMild vs
      → hook_exit_code to_upper (map_impact_verdict to_upper (aggregate vs)) ≡ 0
  lets_if [] ne h = absurd (ne refl)
  lets_if (v ∷ vs) ne h =
      let (s, _, (w, m, d)) = aggregate_max v vs in
      let low = mild_order w (All-mem IsMild (v ∷ vs) h m) in
      elim (gate_code-order to_upper up (aggregate (v ∷ vs)) s) [
        | inl (z, _) ↦ z
        | inr (_, high) ↦ absurd (omega (arith, low, high, ap order_of d))
      ]

  -- The gate and the hook together: the exit code for the aggregated verdict of the detectors is
  -- zero, so that the sync proceeds, exactly when there is a verdict and the status of each is PASS
  -- or WARN. Nothing is asked of `ToUpper` beyond the ASCII letters.
  pub gate_lets_sync :
      (vs : List Verdict)
      → (hook_exit_code to_upper (map_impact_verdict to_upper (aggregate vs)) ≡ 0)
        ↔ ((vs ≢ []) × All IsMild vs)
  gate_lets_sync vs = (lets_only_if vs, λ h. lets_if vs h.0 h.1)
