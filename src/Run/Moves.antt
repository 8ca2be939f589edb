-- ===== src/Run/Moves.antt =====
-- The single calls of internal/run/lifecycle.go on which the engine relies, case by case.
use architecture_rehearsal.Prelude.{
  ℕ, ◌≡◌, refl, ap, String, Bool, true, false, not, ◌&&◌, arith, Bool-cases, inl, inr, ◌⊎◌,
}
use architecture_rehearsal.Run.{
  RehearsalRun, Phase, gated, verifying, completed, failed, cancelled, terminal,
  allowed_transitions,
}
use architecture_rehearsal.Run.Lifecycle.{
  ok, transition, allowed, enter, acquire_lease, release_lease, past_deadline, phase_eq,
}
use architecture_rehearsal.Run.History.{after, step, moves}
use architecture_rehearsal.Run.Ends.{step-terminal}

pub phase_eq-≡ : (p q : Phase) → phase_eq p q ≡ true → p ≡ q
phase_eq-≡ p q h = ground arith

pub transition-ok :
    (r s : RehearsalRun) (to : Phase) (msg : String) (now : ℕ)
    → transition r to msg now ≡ ok s
    → s.status.phase ≡ to
unfolding transition enter
transition-ok r s to msg now h = elim (Bool-cases (phase_eq r.status.phase to)) [
  | inl same ↦ grind (arith, phase_eq-≡ r.status.phase to same)
  | inr other ↦ ground arith
]

pub after-phase :
    (r : RehearsalRun) (to : Phase) (msg : String) (now : ℕ)
    → let s = after r (transition r to msg now) in
      (s.status.phase ≡ r.status.phase) ⊎ (s.status.phase ≡ to)
unfolding transition enter
after-phase r to msg now = ground arith

-- A transition of the table that the deadline does not refuse.
pub after-lands :
    (r : RehearsalRun) (to : Phase) (msg : String) (now : ℕ)
    → allowed r.status.phase to ≡ true
    → (past_deadline r.status.deadline now
        && (not (phase_eq to failed) && not (phase_eq to cancelled)))
      ≡ false
    → (after r (transition r to msg now)).status.phase ≡ to
unfolding transition enter
after-lands r to msg now a late = elim (Bool-cases (phase_eq r.status.phase to)) [
  | inl same ↦ rw (same, transition) (phase_eq-≡ r.status.phase to same)
  | inr other ↦ rw (other, a, late, transition) refl
]

pub terminal-allowed_failed : (p : Phase) → terminal p ≡ false → allowed p failed ≡ true
unfolding terminal allowed allowed_transitions
terminal-allowed_failed p h = ground arith

pub terminal-allowed_cancelled :
    (p : Phase) → terminal p ≡ false → phase_eq p verifying ≡ false → allowed p cancelled ≡ true
unfolding terminal allowed allowed_transitions
terminal-allowed_cancelled p h k = ground arith

pub &&-false : (b : Bool) → (b && false) ≡ false
&&-false true = refl
&&-false false = refl

pub &&-right : (a b : Bool) → (a && b) ≡ true → b ≡ true
&&-right a b h = ground arith

-- A run in a final phase stays in it.
pub after-terminal :
    (r : RehearsalRun) (to : Phase) (msg : String) (now : ℕ)
    → terminal r.status.phase ≡ true
    → terminal (after r (transition r to msg now)).status.phase ≡ true
unfolding step
after-terminal r to msg now t = rw (step-terminal r (moves to msg now) t).0 t

pub after-failed :
    (r : RehearsalRun) (msg : String) (now : ℕ)
    → terminal (after r (transition r failed msg now)).status.phase ≡ true
unfolding terminal
after-failed r msg now = elim (Bool-cases (terminal r.status.phase)) [
  | inl t ↦ after-terminal r failed msg now t
  | inr t ↦
      ap terminal
        (after-lands r failed msg now (terminal-allowed_failed r.status.phase t) (&&-false _))
]

pub after-cancelled :
    (r : RehearsalRun) (msg : String) (now : ℕ)
    → phase_eq r.status.phase verifying ≡ false
    → terminal (after r (transition r cancelled msg now)).status.phase ≡ true
unfolding terminal
after-cancelled r msg now k = elim (Bool-cases (terminal r.status.phase)) [
  | inl t ↦ after-terminal r cancelled msg now t
  | inr t ↦
      ap terminal (
        after-lands r cancelled msg now (terminal-allowed_cancelled r.status.phase t k)
          (&&-false _))
]

pub after-deadline :
    (r : RehearsalRun) (to : Phase) (msg : String) (now : ℕ)
    → (after r (transition r to msg now)).status.deadline ≡ r.status.deadline
unfolding transition enter
after-deadline r to msg now = ground arith

pub after-late :
    (r : RehearsalRun) (msg : String) (now : ℕ)
    → r.status.phase ≡ gated
    → past_deadline r.status.deadline now ≡ true
    → (after r (transition r completed msg now)).status.phase ≡ gated
unfolding transition allowed allowed_transitions
after-late r msg now g d = ground arith

pub release-phase :
    (r : RehearsalRun) (holder : String) → (release_lease r holder).status.phase ≡ r.status.phase
unfolding release_lease
release-phase r holder = ground arith

pub acquire-phase :
    (r s : RehearsalRun) (holder : String) (ttl now : ℕ)
    → acquire_lease r holder ttl now ≡ ok s
    → s.status.phase ≡ r.status.phase
unfolding acquire_lease
acquire-phase r s holder ttl now h = ground arith

pub acquire-deadline :
    (r s : RehearsalRun) (holder : String) (ttl now : ℕ)
    → acquire_lease r holder ttl now ≡ ok s
    → s.status.deadline ≡ r.status.deadline
unfolding acquire_lease
acquire-deadline r s holder ttl now h = ground arith

pub terminal-verifying : (p : Phase) → terminal p ≡ true → phase_eq p verifying ≡ false
unfolding terminal
terminal-verifying p h = ground arith
