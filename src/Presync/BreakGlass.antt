-- ===== src/Presync/BreakGlass.antt =====
-- The audited break-glass of internal/presync/decision.go, and what lets a sync proceed.
use architecture_rehearsal.Prelude.{
  ℕ, ◌≡◌, inl, inr, ◌≢◌, String, [], ◌∷◌, true, arith, Bool, Bool-cases,
}
use architecture_rehearsal.Presync.{
  Override, Parsed, requested, is_one_of, hook_exit_code, map_impact_verdict, normalised,
}
use architecture_rehearsal.Presync.Hook.{IsUpperOfAscii, unknown_code, block_code}

-- A valid break-glass: enabled, with a reason that is not blank.
abbrev pub IsBreakGlass : Parsed → Type 0
IsBreakGlass p = (ov : Override) × (p ≡ requested ov) × (ov.enabled ≡ true) × (ov.reason ≢ [])

-- The verdicts, trimmed and in upper case, whose decisions let a sync proceed.
abbrev pub lets_through : (ℕ → ℕ) → String → Bool
lets_through to_upper verdict =
    is_one_of (normalised to_upper verdict) ("PASS" ∷ "APPROVE" ∷ "ALLOW" ∷ "WARN" ∷ [])

mapped :
    (to_upper : ℕ → ℕ) (verdict : String)
    → IsUpperOfAscii to_upper
    → hook_exit_code to_upper (map_impact_verdict to_upper verdict) ≡ 0
    → lets_through to_upper verdict ≡ true
unfolding map_impact_verdict
mapped to_upper verdict up h =
    let d = normalised to_upper verdict in
    elim (Bool-cases (is_one_of d ("PASS" ∷ "APPROVE" ∷ "ALLOW" ∷ []))) [
      | inl pass ↦ ground (arith, pass)
      | inr other ↦ elim (Bool-cases (is_one_of d ("WARN" ∷ []))) [
        | inl warns ↦ ground (arith, warns)
        | inr quiet ↦ elim (Bool-cases (is_one_of d ("BLOCK" ∷ []))) [
          | inl blocks ↦
              absurd (omega (arith, rw (other, quiet, blocks) at h, block_code to_upper up))
          | inr unsure ↦
              absurd (omega (arith, rw (other, quiet, unsure) at h, unknown_code to_upper up))
        ]
      ]
    ]
