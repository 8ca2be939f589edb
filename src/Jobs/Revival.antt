-- ===== src/Jobs/Revival.antt =====
-- `FailJob` (internal/persist/store.go) looks at the token of a job and not at its status.
use architecture_rehearsal.Prelude.{ℕ, ◌<◌, ◌≡◌, refl, String, some, List, arith, find, eq_refl}
use architecture_rehearsal.Jobs.{Job, leased, pending, ok, update, update_row}
use architecture_rehearsal.Jobs.Queue.{
  fail_job, fail_row, failed_row, cancel_row, has_id, fenced_row,
}
use architecture_rehearsal.Jobs.Tenants.{cancel_job, cancellable}
use architecture_rehearsal.Jobs.Rows.{find-map, affected-find}

module _ (j : Job) (now later : ℕ) (last_err : String) where
  cancelled_job : Job
  cancelled_job = update_row (cancellable j.org j.id) (cancel_row now) j

  revived : Job
  revived =
      update_row (fenced_row j.id j.fence_token) (failed_row cancelled_job last_err later)
        cancelled_job

  cancelled_table : List Job → List Job
  cancelled_table jobs = update (cancellable j.org j.id) (cancel_row now) jobs

  revived_table : List Job → List Job
  revived_table jobs =
      update (fenced_row j.id j.fence_token) (failed_row cancelled_job last_err later)
        (cancelled_table jobs)

  module _ (jobs : List Job) (found : find (has_id j.id) jobs ≡ some j)
      (l : j.status ≡ leased) where
    cancel_accepted : cancel_job jobs j.org j.id now ≡ ok (cancelled_table jobs)
    unfolding cancel_job cancelled_table
    cancel_accepted =
        rw
          (affected-find (has_id j.id) (cancellable j.org j.id) jobs j found
            (ground (arith, eq_refl j.id, eq_refl j.org)))
          refl

    found_cancelled : find (has_id j.id) (cancelled_table jobs) ≡ some cancelled_job
    unfolding cancelled_table cancelled_job has_id
    found_cancelled =
        find-map (has_id j.id) (update_row (cancellable j.org j.id) (cancel_row now)) jobs j
          (λ k. ground arith) found

    fail_accepted :
        fail_job (cancelled_table jobs) j.id j.fence_token last_err later ≡ ok (revived_table jobs)
    unfolding fail_job revived_table
    fail_accepted = rw found_cancelled (unfold cancelled_job fail_row in ground arith)

    found_revived : find (has_id j.id) (revived_table jobs) ≡ some revived
    unfolding revived_table revived has_id
    found_revived =
        find-map (has_id j.id)
          (update_row (fenced_row j.id j.fence_token) (failed_row cancelled_job last_err later))
          (cancelled_table jobs) cancelled_job (λ k. ground arith) found_cancelled

    revived_pending : j.attempts < j.max_attempts → revived.status ≡ pending
    unfolding revived cancelled_job fenced_row cancellable
    revived_pending left = ground (arith, eq_refl j.id, eq_refl j.org)

-- A cancelled job comes back: whenever a leased job with an attempt left is cancelled by its tenant,
-- the cancellation is accepted, and the failure that the worker then reports under its token is
-- accepted too and makes the job pending again.
pub fail_job_revives :
    (jobs : List Job) (j : Job) (last_err : String) (now later : ℕ)
    → find (has_id j.id) jobs ≡ some j
    → j.status ≡ leased
    → j.attempts < j.max_attempts
    → (jobs₁ jobs₂ : List Job) × (k : Job) × (cancel_job jobs j.org j.id now ≡ ok jobs₁)
      × (fail_job jobs₁ j.id j.fence_token last_err later ≡ ok jobs₂)
      × (find (has_id j.id) jobs₂ ≡ some k)
      × (k.status ≡ pending)
fail_job_revives jobs j last_err now later found is_leased left = (
  cancelled_table j now later last_err jobs,
  revived_table j now later last_err jobs,
  revived j now later last_err,
  cancel_accepted j now later last_err jobs found is_leased,
  fail_accepted j now later last_err jobs found is_leased,
  found_revived j now later last_err jobs found is_leased,
  revived_pending j now later last_err jobs found is_leased left,
)
