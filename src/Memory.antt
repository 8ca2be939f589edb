-- ===== src/Memory.antt =====
-- internal/api/memory_backend.go: the backend that keeps everything in the process. Its maps are
-- association lists, and a method that changes it returns the new backend. Each method holds the
-- lock, so it runs without another in between. A policy `map[string]any` is the list of its text
-- entries; that PutPolicy shares the map with its caller is not modelled. The calibration store of
-- an organisation is of a type `Cal` with an operation for `Record`, since its shape is that of
-- internal/calibrate.
pub mod Runs
pub mod Jobs
pub mod Once
pub mod Views
use architecture_rehearsal.Prelude.{
  ℕ, String, Option, none, some, List, [], ◌∷◌, Bool, true, false, ◌==◌, concat, lookup, or_empty,
}
use architecture_rehearsal.Run.{RehearsalRun}

pub data MemStatus : Type 0 where
  pending leased done failed cancelled : MemStatus

pub record MemJob : Type 0 where
  pub id : String
  pub kind : String
  pub run_id : String
  pub org : String
  pub payload : String
  pub status : MemStatus
  pub op_id : String

pub record AuditEntry : Type 0 where
  pub time : ℕ
  pub actor : String
  pub action : String
  pub target : String
  pub detail : String
  pub org : String

pub record Cluster : Type 0 where
  pub name : String
  pub org : String
  pub kubeconfig_ref : String
  pub server : String
  pub created_at : ℕ

pub record MemoryBackend (Cal : Type 0) : Type 0 where
  pub runs : List (String × RehearsalRun)
  pub idem : List (String × String)
  pub clusters : List (String × Cluster)
  pub policies : List (String × List (String × String))
  pub audit : List AuditEntry
  pub cal : List (String × Cal)
  pub jobs : List MemJob

pub data BackendError : Type 0 where
  org_and_id_required conflict not_found : BackendError

pub data Result {ℓ} (A : Type ℓ) : Type ℓ where
  ok : A → Result A
  err : BackendError → Result A

abbrev pub new_memory_backend : {Cal : Type 0} → MemoryBackend Cal
new_memory_backend = record {
  runs = [];
  idem = [];
  clusters = [];
  policies = [];
  audit = [];
  cal = [];
  jobs = [];
}

unfoldable pub run_key : String → String → String
run_key org id = concat (org ∷ "\0" ∷ id ∷ [])

unfoldable pub idem_key : String → String → String
idem_key org key = concat (org ∷ "\0" ∷ key ∷ [])

-- `r.Labels["org"]`
abbrev pub org_of : RehearsalRun → String
org_of r = or_empty (lookup "org" r.labels)
