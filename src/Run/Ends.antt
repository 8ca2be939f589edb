-- ===== src/Run/Ends.antt =====
-- How a run ends (internal/run/lifecycle.go): its final phases, its deadline, and the transition to
-- the failed phase on which the engine relies.
use architecture_rehearsal.Prelude.{
  ℕ, ◌<◌, ◌≡◌, refl, ◌∙◌, ◌⊎◌, inl, inr, String, some, List, [], ◌∷◌, true, false, arith, All,
}
use architecture_rehearsal.Run.{Phase, failed, cancelled, RehearsalRun, terminal}
use architecture_rehearsal.Run.Lifecycle.{ok, allowed, enter, transition}
use architecture_rehearsal.Run.History.{
  Call, moves, acquires, releases, step, run_calls, Unmoved, step_cases,
}

terminal-allowed : (p to : Phase) → terminal p ≡ true → allowed p to ≡ false
unfolding terminal allowed
terminal-allowed p to h = ground arith

pub step-terminal :
    (r : RehearsalRun) (c : Call) → terminal r.status.phase ≡ true → Unmoved r (step r c)
step-terminal r (moves to msg now) h = elim (step_cases r (moves to msg now)) [
  | inl u ↦ u
  | inr m ↦ cc (terminal-allowed r.status.phase to h, m.0)
]
step-terminal r (acquires holder ttl now) h = elim (step_cases r (acquires holder ttl now)) [
  | inl u ↦ u
  | inr m ↦ absurd m
]
step-terminal r (releases holder) h = elim (step_cases r (releases holder)) [
  | inl u ↦ u
  | inr m ↦ absurd m
]

-- Once a run is in a final phase, no calls whatever change its phase or its history.
pub terminal_absorbs :
    (r : RehearsalRun) (cs : List Call)
    → terminal r.status.phase ≡ true
    → let s = run_calls r cs in
      (s.status.phase ≡ r.status.phase) × (s.status.history ≡ r.status.history)
unfolding run_calls
terminal_absorbs r [] h = (refl, refl)
terminal_absorbs r (c ∷ cs) h =
    let u = step-terminal r c h in
    let rest = terminal_absorbs (step r c) cs (rw (u.0) h) in (rest.0 ∙ u.0, rest.1 ∙ u.1)

-- The clock readings of the calls lie after `d`.
abbrev pub IsAfter : ℕ → Call → Type 0
IsAfter d (moves to msg now) = d < now
IsAfter d (acquires holder ttl now) = Unit
IsAfter d (releases holder) = Unit

-- Where a run may stand once its deadline has passed.
abbrev pub IsStopped : Phase → Phase → Type 0
IsStopped p q = (q ≡ p) ⊎ (q ≡ failed) ⊎ (q ≡ cancelled)

late_move :
    (r : RehearsalRun) (to : Phase) (msg : String) (now d : ℕ)
    → r.status.deadline ≡ some d
    → d < now
    → let s = step r (moves to msg now) in
      (s.status.deadline ≡ some d) × IsStopped r.status.phase s.status.phase
unfolding step transition
late_move r to msg now d e h = ground arith

late_step :
    (r : RehearsalRun) (c : Call) (d : ℕ)
    → r.status.deadline ≡ some d
    → IsAfter d c
    → ((step r c).status.deadline ≡ some d) × IsStopped r.status.phase (step r c).status.phase
late_step r (moves to msg now) d e h = late_move r to msg now d e h
late_step r (acquires holder ttl now) d e h = elim (step_cases r (acquires holder ttl now)) [
  | inl u ↦ (u.2 ∙ e, inl u.0)
  | inr m ↦ absurd m
]
late_step r (releases holder) d e h = elim (step_cases r (releases holder)) [
  | inl u ↦ (u.2 ∙ e, inl u.0)
  | inr m ↦ absurd m
]

IsStopped-trans : (p q r : Phase) → IsStopped p q → IsStopped q r → IsStopped p r
IsStopped-trans p q r h k = ground arith

-- After its deadline a run makes no progress: whatever is called at later times, it stays in its
-- phase or becomes failed or cancelled.
pub late_calls_stop :
    (r : RehearsalRun) (cs : List Call) (d : ℕ)
    → r.status.deadline ≡ some d
    → All (IsAfter d) cs
    → IsStopped r.status.phase (run_calls r cs).status.phase
unfolding run_calls
late_calls_stop r [] d e h = inl refl
late_calls_stop r (c ∷ cs) d e h =
    let (e', s) = late_step r c d e h.0 in
    IsStopped-trans _ _ _ s (late_calls_stop (step r c) cs d e' h.1)

-- A run that is not in a final phase can always be failed, whatever its deadline and the time: the
-- transition succeeds, moves to the failed phase, and records the message.
pub transition-failed :
    (r : RehearsalRun) (msg : String) (now : ℕ)
    → terminal r.status.phase ≡ false
    → (s : RehearsalRun) × (transition r failed msg now ≡ ok s)
      × (s.status.phase ≡ failed)
      × (s.status.message ≡ msg)
unfolding transition terminal
transition-failed r msg now h = (enter r failed msg now, ground arith, ground arith, ground arith)
