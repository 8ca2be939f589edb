-- ===== src/Jobs.antt =====
-- The durable job queue of the control plane: internal/persist/store.go and internal/persist/ops.go.
-- The table `jobs` is the list of its rows. An SQL statement is the function that its text
-- describes: `UPDATE … WHERE` rewrites every row that passes the test and counts them, `SELECT … WHERE`
-- finds the first one. A statement that the driver itself fails is not modelled, and each method runs
-- without another in between.
pub mod Queue
pub mod Tenants
pub mod Rows
pub mod Fences
pub mod Unique
pub mod Stale
pub mod Enqueue
pub mod Isolation
pub mod Revival
use architecture_rehearsal.Prelude.{
  ℕ, suc, ◌+◌, String, Option, none, some, List, [], ◌∷◌, map, Bool, true, false, not, ◌&&◌, ◌||◌,
  ◌==◌, eqb, length, filter, find, if◌then◌else◌,
}

pub data JobStatus : Type 0 where
  pending leased done failed cancelled : JobStatus

-- A row of the table. Stamps are instants; SQL compares their texts.
pub record Job : Type 0 where
  pub id : String
  pub kind : String
  pub run_id : String
  pub org : String
  pub status : JobStatus
  pub attempts : ℕ
  pub max_attempts : ℕ
  pub fence_token : ℕ
  pub lease_holder : Option String
  pub lease_until : Option ℕ
  pub last_error : Option String
  pub payload : String
  pub operation_id : String
  pub created_at : ℕ
  pub updated_at : ℕ

pub data StoreError : Type 0 where
  org_required unique_violation no_rows stale_fence not_found : StoreError

pub data Result {ℓ} (A : Type ℓ) : Type ℓ where
  ok : A → Result A
  err : StoreError → Result A

abbrev pub is_pending : JobStatus → Bool
is_pending pending = true
is_pending _ = false

abbrev pub is_leased : JobStatus → Bool
is_leased leased = true
is_leased _ = false

-- `status IN ('pending','leased')`
abbrev pub is_open : JobStatus → Bool
is_open pending = true
is_open leased = true
is_open _ = false

-- `status IN ('failed','cancelled','done')`
abbrev pub is_closed : JobStatus → Bool
is_closed s = not (is_open s)

-- `UPDATE jobs SET set WHERE test`: the new table and `RowsAffected`.
abbrev pub update_row : (Job → Bool) → (Job → Job) → Job → Job
update_row test set j = if test j then set j else j

abbrev pub update : (Job → Bool) → (Job → Job) → List Job → List Job
update test set jobs = map (update_row test set) jobs

abbrev pub affected : (Job → Bool) → List Job → ℕ
affected test jobs = length (filter test jobs)

-- The error of a method whose update met no row.
abbrev pub require_row {ℓ} : {A : Type ℓ} → ℕ → StoreError → A → Result A
require_row n e a = if eqb n 0 then err e else ok a
