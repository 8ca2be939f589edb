-- ===== src/Engine/Escalates.antt =====
-- The policy at the gate (stepGate of internal/run/engine.go, internal/policy) only makes a decision
-- stricter.
use architecture_rehearsal.Prelude.{ℕ, String, ◌==◌, if◌then◌else◌}
use architecture_rehearsal.Policy
use architecture_rehearsal.Policy.{Decision, approve, warn, block}
use architecture_rehearsal.Engine.{Engine}

-- The decision that a run should have after the gate.
abbrev pub merged : Decision → String → String
merged block before = "block"
merged warn before = if before == "approve" then "warn" else before
merged approve before = before
merged Policy.unknown before = before

abbrev pub strictness : String → ℕ
strictness d =
    if d == "block" then 3 else if d == "unknown" then 2 else if d == "warn" then 1 else 0
