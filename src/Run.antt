-- ===== src/Run.antt =====
-- internal/run/lifecycle.go: the run record, its phases and the table of allowed transitions. A Go
-- phase is a string of a fixed set, here an enumeration; the empty phase of the first history event
-- is `none`. Instants are numbers, a nil map is the empty list and a nil pointer is `none`.
pub mod Lifecycle
pub mod History
pub mod Ends
pub mod Leases
pub mod Moves
use architecture_rehearsal.Prelude.{ℕ, String, Option, List, [], ◌∷◌, Bool, true, false}

pub data Phase : Type 0 where
  pending collecting compiling rehearsing gated waiting_for_deployment : Phase
  observing verifying completed failed inconclusive cancelled : Phase

-- The table `allowedTransitions`.
unfoldable pub allowed_transitions : Phase → List Phase
allowed_transitions pending = collecting ∷ cancelled ∷ failed ∷ []
allowed_transitions collecting = compiling ∷ failed ∷ cancelled ∷ []
allowed_transitions compiling = rehearsing ∷ failed ∷ cancelled ∷ []
allowed_transitions rehearsing = gated ∷ failed ∷ cancelled ∷ []
allowed_transitions gated = waiting_for_deployment ∷ completed ∷ failed ∷ cancelled ∷ []
allowed_transitions waiting_for_deployment = observing ∷ failed ∷ cancelled ∷ inconclusive ∷ []
allowed_transitions observing = verifying ∷ failed ∷ cancelled ∷ []
allowed_transitions verifying = completed ∷ failed ∷ inconclusive ∷ []
allowed_transitions completed = []
allowed_transitions failed = []
allowed_transitions inconclusive = []
allowed_transitions cancelled = []

-- `Phase.Terminal`.
unfoldable pub terminal : Phase → Bool
terminal completed = true
terminal failed = true
terminal inconclusive = true
terminal cancelled = true
terminal _ = false

pub record GateSpec : Type 0 where
  pub block_on : List String
  pub warn_on : List String

pub record Spec : Type 0 where
  pub cluster_name : String
  pub baseline_ref : String
  pub change_ref : String
  pub observed_ref : String
  pub scenarios : List String
  pub gate : GateSpec
  pub policy_path : String
  pub out_dir : String
  pub timeout_seconds : ℕ

pub record Lease : Type 0 where
  pub holder : String
  pub expires_at : ℕ

pub record Event : Type 0 where
  pub time : ℕ
  pub from : Option Phase
  pub to : Phase
  pub message : String

pub record Status : Type 0 where
  pub phase : Phase
  pub decision : String
  pub risk : String
  pub message : String
  pub attempts : ℕ
  pub lease : Option Lease
  pub history : List Event
  pub deadline : Option ℕ
  pub chain_path : String
  pub verify_outcome : String
  pub predicted_failures : List String

pub record ArtifactDigests : Type 0 where
  pub baseline_digest : String
  pub change_digest : String
  pub proposed_digest : String
  pub report_digest : String
  pub observed_digest : String
  pub verification_digest : String

pub record RehearsalRun : Type 0 where
  pub api_version : String
  pub kind : String
  pub id : String
  pub idempotency_key : String
  pub labels : List (String × String)
  pub spec : Spec
  pub status : Status
  pub digests : ArtifactDigests
  pub version : ℕ
  pub created_at : ℕ
  pub updated_at : ℕ
