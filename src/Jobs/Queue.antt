-- ===== src/Jobs/Queue.antt =====
-- The methods of internal/persist/store.go and ops.go on the table of jobs. `stamp_lt` is the order
-- of the texts in which two instants are stored (`time.RFC3339Nano`), as SQL compares them; nothing
-- is assumed of it. The id that `Enqueue` makes from the clock is its argument.
use architecture_rehearsal.Prelude.{
  ℕ, suc, ◌+◌, String, Option, none, some, List, [], ◌∷◌, ◌++◌, map, Bool, false, not, ◌&&◌, ◌||◌,
  ◌==◌, eqb, leb, find, any, if◌then◌else◌, non_empty,
}
use architecture_rehearsal.Jobs.{
  JobStatus, pending, leased, done, failed, cancelled, Job, org_required, unique_violation, no_rows,
  stale_fence, Result, ok, err, is_pending, is_leased, is_open, update, affected, require_row,
}

-- `WHERE id=?`
unfoldable pub has_id : String → Job → Bool
has_id id j = j.id == id

holder_is : Option String → String → Bool
holder_is none holder = false
holder_is (some h) holder = h == holder

active_row : Option Job → String → ℕ → Bool
unfolding holder_is
active_row none holder fence = false
active_row (some j) holder fence =
    is_leased j.status && holder_is j.lease_holder holder && eqb j.fence_token fence

unfoldable pub job_is_active : List Job → String → String → ℕ → Bool
unfolding active_row has_id
job_is_active jobs id holder fence = active_row (find (has_id id) jobs) holder fence

-- The unique index on (org, operation_id) where the latter is not empty.
unfoldable pub same_operation : String → String → Job → Bool
same_operation org op j = non_empty op && (j.org == org && j.operation_id == op)

unfoldable pub existing_id : Option Job → Result String
existing_id none = err no_rows
existing_id (some j) = if j.id == "" then err unique_violation else ok j.id

abbrev pub new_job : String → String → String → String → String → String → ℕ → Job
new_job id kind run_id org payload op now = record {
  id = id;
  kind = kind;
  run_id = run_id;
  org = org;
  status = pending;
  attempts = 0;
  max_attempts = 5;
  fence_token = 0;
  lease_holder = none;
  lease_until = none;
  last_error = none;
  payload = payload;
  operation_id = op;
  created_at = now;
  updated_at = now;
}

-- The primary key and the unique index, on which `INSERT` fails.
unfoldable pub violates : String → String → String → List Job → Bool
unfolding has_id same_operation
violates id org op jobs = any (has_id id) jobs || any (same_operation org op) jobs

unfoldable pub enqueue :
    List Job → String → String → String → String → String → String → ℕ → Result String × List Job
unfolding violates existing_id
enqueue jobs kind run_id org payload op id now =
    if org == ""
    then (err org_required, jobs)
    else if not (violates id org op jobs)
    then (ok id, jobs ++ new_job id kind run_id org payload op now ∷ [])
    else if non_empty op
    then (existing_id (find (same_operation org op) jobs), jobs)
    else (err unique_violation, jobs)

-- The first update of `ClaimJob`: a lease that has run out makes its job pending again.
unfoldable pub release_expired : (ℕ → ℕ → Bool) → ℕ → Job → Job
release_expired stamp_lt now j = elim j.lease_until [
  | none ↦ j
  | some until ↦
      if is_leased j.status && stamp_lt until now
      then record j { status = pending; lease_holder = none; lease_until = none }
      else j
]

-- `WHERE status='pending' ORDER BY created_at ASC LIMIT 1`: of equal stamps the first row.
abbrev older : (ℕ → ℕ → Bool) → Job → Option Job → Job
older stamp_lt j none = j
older stamp_lt j (some k) = if stamp_lt k.created_at j.created_at then k else j

unfoldable pub oldest_pending : (ℕ → ℕ → Bool) → List Job → Option Job
oldest_pending stamp_lt [] = none
oldest_pending stamp_lt (j ∷ js) =
    let rest = oldest_pending stamp_lt js in
    if is_pending j.status then some (older stamp_lt j rest) else rest

-- The second update of `ClaimJob`, by the id of the selected row, and what is returned.
abbrev pub lease_row : String → ℕ → ℕ → ℕ → Job → Job
lease_row holder until fence now j = record j {
  status = leased;
  lease_holder = some holder;
  lease_until = some until;
  attempts = suc j.attempts;
  fence_token = fence;
  updated_at = now;
}

unfoldable pub claimable : String → Job → Bool
unfolding has_id
claimable id j = has_id id j && is_pending j.status

-- A copy of the row that was read, with the fields that the code sets.
abbrev pub claimed : Job → Job
claimed j = record j { attempts = suc j.attempts; fence_token = suc j.fence_token; status = leased }

unfoldable pub take_job : Option Job → List Job → String → ℕ → ℕ → Option Job × List Job
unfolding claimable
take_job none jobs holder until now = (none, jobs)
take_job (some j) jobs holder until now =
    if eqb (affected (claimable j.id) jobs) 0 then (none, jobs) else (
      some (claimed j),
      update (claimable j.id) (lease_row holder until (suc j.fence_token) now) jobs,
    )

unfoldable pub claim_job : (ℕ → ℕ → Bool) → List Job → String → ℕ → ℕ → Option Job × List Job
unfolding take_job release_expired oldest_pending
claim_job stamp_lt jobs holder ttl now =
    let open_jobs = map (release_expired stamp_lt now) jobs in
    take_job (oldest_pending stamp_lt open_jobs) open_jobs holder (now + ttl) now

-- A lease that is still held: `id=? AND status='leased' AND fence_token=?`.
unfoldable pub held : String → ℕ → Job → Bool
unfolding has_id
held id fence j = has_id id j && (is_leased j.status && eqb j.fence_token fence)

unfoldable pub held_by : String → String → ℕ → Job → Bool
unfolding held holder_is
held_by id holder fence j = held id fence j && holder_is j.lease_holder holder

unfoldable pub renew_lease : List Job → String → String → ℕ → ℕ → ℕ → Result (List Job)
unfolding held_by
renew_lease jobs id holder fence ttl now =
    require_row (affected (held_by id holder fence) jobs) stale_fence (
      update (held_by id holder fence)
        (λ j. record j { lease_until = some (now + ttl); updated_at = now }) jobs)

abbrev pub free_row : JobStatus → ℕ → Job → Job
free_row status now j = record j {
  status = status;
  lease_holder = none;
  lease_until = none;
  updated_at = now;
}

unfoldable pub complete_job : List Job → String → ℕ → ℕ → Result (List Job)
unfolding held
complete_job jobs id fence now =
    require_row (affected (held id fence) jobs) stale_fence
      (update (held id fence) (free_row done now) jobs)

unfoldable pub fenced_row : String → ℕ → Job → Bool
unfolding has_id
fenced_row id fence j = has_id id j && eqb j.fence_token fence

-- The update of `FailJob`; `j` is the row that was read for the attempts.
abbrev pub failed_row : Job → String → ℕ → Job → Job
failed_row j last_err now k =
    record (free_row (if leb j.max_attempts j.attempts then failed else pending) now k) {
      last_error = some last_err;
    }

unfoldable pub fail_row : Option Job → List Job → String → ℕ → String → ℕ → Result (List Job)
unfolding fenced_row
fail_row none jobs id fence last_err now = err no_rows
fail_row (some j) jobs id fence last_err now =
    if not (eqb j.fence_token fence)
    then err stale_fence
    else ok (update (fenced_row id fence) (failed_row j last_err now) jobs)

unfoldable pub fail_job : List Job → String → ℕ → String → ℕ → Result (List Job)
unfolding fail_row has_id
fail_job jobs id fence last_err now = fail_row (find (has_id id) jobs) jobs id fence last_err now

abbrev pub cancel_row : ℕ → Job → Job
cancel_row now j = record (free_row cancelled now j) { last_error = some "cancelled" }

unfoldable pub of_run : String → String → Job → Bool
of_run org run_id j = j.org == org && (j.run_id == run_id && is_open j.status)

unfoldable pub cancel_jobs_for_run : List Job → String → String → ℕ → ℕ × List Job
unfolding of_run
cancel_jobs_for_run jobs org run_id now =
    (affected (of_run org run_id) jobs, update (of_run org run_id) (cancel_row now) jobs)
