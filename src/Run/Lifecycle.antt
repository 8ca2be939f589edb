-- ===== src/Run/Lifecycle.antt =====
-- internal/run/lifecycle.go: NewRun, Transition, AcquireLease and ReleaseLease. A method that
-- changes the run returns the new one, and the clock reading of a call is its argument `now`. The
-- receiver is a run, so the guard of `Transition` against a nil one has no counterpart. A duration
-- is counted in the unit of the clock, of which `second` make one second.
use architecture_rehearsal.Prelude.{
  ℕ, ◌+◌, ◌*◌, String, Option, none, some, [], ◌∷◌, ◌++◌, Bool, true, false, not, ◌&&◌, ◌==◌, ltb,
  any, if◌then◌else◌,
}
use architecture_rehearsal.Run.{
  Phase, pending, collecting, compiling, rehearsing, gated, waiting_for_deployment, observing,
  verifying, completed, failed, inconclusive, cancelled, Spec, Lease, ArtifactDigests, RehearsalRun,
  allowed_transitions,
}

pub data RunError : Type 0 where
  invalid_transition : Phase → Phase → RunError
  deadline_exceeded : RunError
  lease_held : Lease → RunError

pub data Result {ℓ} (A : Type ℓ) : Type ℓ where
  ok : A → Result A
  err : RunError → Result A

-- Go's `==` on phases.
abbrev pub phase_eq : Phase → Phase → Bool
phase_eq pending pending = true
phase_eq collecting collecting = true
phase_eq compiling compiling = true
phase_eq rehearsing rehearsing = true
phase_eq gated gated = true
phase_eq waiting_for_deployment waiting_for_deployment = true
phase_eq observing observing = true
phase_eq verifying verifying = true
phase_eq completed completed = true
phase_eq failed failed = true
phase_eq inconclusive inconclusive = true
phase_eq cancelled cancelled = true
phase_eq _ _ = false

abbrev pub second : ℕ
second = 1000000000

abbrev pub no_digests : ArtifactDigests
no_digests = record {
  baseline_digest = "";
  change_digest = "";
  proposed_digest = "";
  report_digest = "";
  observed_digest = "";
  verification_digest = "";
}

unfoldable pub new_run : String → String → Spec → ℕ → RehearsalRun
new_run id idempotency_key spec now = record {
  api_version = "rehearsal.io/v1beta1";
  kind = "RehearsalRun";
  id = id;
  idempotency_key = idempotency_key;
  labels = [];
  spec = spec;
  status = record {
    phase = pending;
    decision = "";
    risk = "";
    message = "";
    attempts = 0;
    lease = none;
    history = record { time = now; from = none; to = pending; message = "created" } ∷ [];
    deadline =
        if ltb 0 spec.timeout_seconds then some (now + spec.timeout_seconds * second) else none;
    chain_path = "";
    verify_outcome = "";
    predicted_failures = [];
  };
  digests = no_digests;
  version = 0;
  created_at = now;
  updated_at = now;
}

-- The loop over `allowedTransitions[from]`.
unfoldable pub allowed : Phase → Phase → Bool
unfolding allowed_transitions
allowed from to = any (λ a. phase_eq a to) (allowed_transitions from)

-- `time.Now().UTC().After(*r.Status.Deadline)`, false on a nil deadline.
abbrev pub past_deadline : Option ℕ → ℕ → Bool
past_deadline none now = false
past_deadline (some d) now = ltb d now

-- What `Transition` writes once its guards have passed.
unfoldable pub enter : RehearsalRun → Phase → String → ℕ → RehearsalRun
enter r to msg now = record r {
  status = record (r.status) {
    history =
        r.status.history
        ++ record { time = now; from = some r.status.phase; to = to; message = msg } ∷ [];
    phase = to;
    message = msg;
  };
  updated_at = now;
}

unfoldable pub transition : RehearsalRun → Phase → String → ℕ → Result RehearsalRun
unfolding allowed enter
transition r to msg now =
    if phase_eq r.status.phase to
    then ok r
    else if not (allowed r.status.phase to)
    then err (invalid_transition r.status.phase to)
    else if past_deadline r.status.deadline now
        && (not (phase_eq to failed) && not (phase_eq to cancelled))
    then err deadline_exceeded
    else ok (enter r to msg now)

-- The guard of `AcquireLease`: a lease of another holder that has not run out.
unfoldable pub held_by_other : Option Lease → String → ℕ → Bool
held_by_other none holder now = false
held_by_other (some l) holder now = not (l.holder == holder) && ltb now l.expires_at

abbrev pub set_lease : RehearsalRun → Option Lease → RehearsalRun
set_lease r l = record r { status = record (r.status) { lease = l } }

abbrev refuse : Option Lease → RehearsalRun → Result RehearsalRun
refuse none r = ok r
refuse (some l) r = err (lease_held l)

unfoldable pub acquire_lease : RehearsalRun → String → ℕ → ℕ → Result RehearsalRun
unfolding held_by_other
acquire_lease r holder ttl now =
    if held_by_other r.status.lease holder now
    then refuse r.status.lease r
    else ok (record (set_lease r (some (record { holder = holder; expires_at = now + ttl }))) {
      updated_at = now;
    })

abbrev holds : Option Lease → String → Bool
holds none holder = false
holds (some l) holder = l.holder == holder

unfoldable pub release_lease : RehearsalRun → String → RehearsalRun
release_lease r holder = if holds r.status.lease holder then set_lease r none else r
