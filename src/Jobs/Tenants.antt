-- ===== src/Jobs/Tenants.antt =====
-- The methods of internal/persist/ops.go by which a tenant reads and changes its own jobs, and the
-- counters of `JobStats`. `JobView` is read off the row as it stands.
use architecture_rehearsal.Prelude.{
  ℕ, String, Option, none, List, [], ◌∷◌, Bool, true, false, ◌&&◌, ◌||◌, ◌==◌, eqb, ltb, filter,
  find, take, if◌then◌else◌,
}
use architecture_rehearsal.Jobs.{
  JobStatus, pending, done, failed, Job, not_found, Result, is_pending, is_leased, is_open,
  is_closed, update, affected, require_row,
}
use architecture_rehearsal.Jobs.Queue.{has_id, free_row, cancel_row}

unfoldable pub owned : String → String → Job → Bool
unfolding has_id
owned org id j = has_id id j && j.org == org

unfoldable pub get_job : List Job → String → String → Option Job
unfolding owned
get_job jobs org id = find (owned org id) jobs

-- `ORDER BY created_at DESC`, by insertion.
insert_desc : (ℕ → ℕ → Bool) → Job → List Job → List Job
insert_desc stamp_lt j [] = j ∷ []
insert_desc stamp_lt j (k ∷ ks) =
    if stamp_lt j.created_at k.created_at then k ∷ insert_desc stamp_lt j ks else j ∷ k ∷ ks

sort_desc : (ℕ → ℕ → Bool) → List Job → List Job
unfolding insert_desc
sort_desc stamp_lt [] = []
sort_desc stamp_lt (j ∷ js) = insert_desc stamp_lt j (sort_desc stamp_lt js)

listed : String → String → Job → Bool
listed org run_id j = j.org == org && (run_id == "" || j.run_id == run_id)

-- A limit that is not positive, or above 200, becomes 50.
unfoldable pub list_jobs : (ℕ → ℕ → Bool) → List Job → String → String → ℕ → List Job
unfolding sort_desc listed
list_jobs stamp_lt jobs org run_id limit =
    take (if eqb limit 0 || ltb 200 limit then 50 else limit)
      (sort_desc stamp_lt (filter (listed org run_id) jobs))

unfoldable pub retryable : String → String → Job → Bool
unfolding owned
retryable org id j = owned org id j && is_closed j.status

abbrev pub retry_row : ℕ → Job → Job
retry_row now j = record (free_row pending now j) { last_error = none; attempts = 0 }

unfoldable pub retry_job : List Job → String → String → ℕ → Result (List Job)
unfolding retryable
retry_job jobs org id now =
    require_row (affected (retryable org id) jobs) not_found
      (update (retryable org id) (retry_row now) jobs)

unfoldable pub cancellable : String → String → Job → Bool
unfolding owned
cancellable org id j = owned org id j && is_open j.status

unfoldable pub cancel_job : List Job → String → String → ℕ → Result (List Job)
unfolding cancellable
cancel_job jobs org id now =
    require_row (affected (cancellable org id) jobs) not_found
      (update (cancellable org id) (cancel_row now) jobs)

abbrev is_done : JobStatus → Bool
is_done done = true
is_done _ = false

abbrev is_failed : JobStatus → Bool
is_failed failed = true
is_failed _ = false

-- pending, leased, done, failed
unfoldable pub job_stats : List Job → ℕ × ℕ × ℕ × ℕ
job_stats jobs = (
  affected (λ j. is_pending j.status) jobs,
  affected (λ j. is_leased j.status) jobs,
  affected (λ j. is_done j.status) jobs,
  affected (λ j. is_failed j.status) jobs,
)
