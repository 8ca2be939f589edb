-- ===== src/Memory/Jobs.antt =====
-- The job queue of internal/api/memory_backend.go. The number in a new job's identifier is the clock
-- reading, and `decimal` writes it (`fmt.Sprintf("%d", …)`).
use architecture_rehearsal.Prelude.{
  ℕ, String, Option, none, some, List, [], ◌∷◌, ◌++◌, map, Bool, true, false, ◌&&◌, ◌||◌, ◌==◌, eqb,
  concat, length, filter, find, take, if◌then◌else◌, non_empty, any,
}
use mathlib.Core.List.{reverse}
use architecture_rehearsal.Memory.{
  MemStatus, pending, leased, done, failed, cancelled, MemJob, not_found, Result, ok, err,
}

abbrev pub is_open : MemStatus → Bool
is_open pending = true
is_open leased = true
is_open _ = false

abbrev is_pending : MemStatus → Bool
is_pending pending = true
is_pending _ = false

abbrev is_leased : MemStatus → Bool
is_leased leased = true
is_leased _ = false

abbrev is_done : MemStatus → Bool
is_done done = true
is_done _ = false

abbrev is_failed : MemStatus → Bool
is_failed failed = true
is_failed _ = false

abbrev pub with_status : MemStatus → MemJob → MemJob
with_status st j = record j { status = st }

abbrev added : (ℕ → String) → ℕ → String → String → String → String → String → MemJob
added decimal now kind run_id org payload operation_id = record {
  id = concat ("mem-job-" ∷ decimal now ∷ []);
  kind = kind;
  run_id = run_id;
  org = org;
  payload = payload;
  status = pending;
  op_id = operation_id;
}

abbrev or_append : List MemJob → MemJob → Option MemJob → List MemJob × String
or_append jobs j none = (jobs ++ j ∷ [], j.id)
or_append jobs j (some old) = (jobs, old.id)

-- The jobs after the call, and the identifier that it returns.
unfoldable pub enqueue :
    (decimal : ℕ → String) (now : ℕ)
    → List MemJob
    → String
    → String
    → String
    → String
    → String
    → List MemJob × String
enqueue decimal now jobs kind run_id org payload operation_id =
    or_append jobs (added decimal now kind run_id org payload operation_id)
      (find (λ j. non_empty operation_id && (j.org == org && j.op_id == operation_id)) jobs)

abbrev pub of_run : String → String → MemJob → Bool
of_run org run_id j = j.org == org && (j.run_id == run_id && is_open j.status)

unfoldable pub cancel_jobs_for_run : List MemJob → String → String → List MemJob × ℕ
cancel_jobs_for_run jobs org run_id = (
  map (λ j. if of_run org run_id j then with_status cancelled j else j) jobs,
  length (filter (of_run org run_id) jobs),
)

abbrev count : (MemStatus → Bool) → List MemJob → ℕ
count test jobs = length (filter (λ j. test j.status) jobs)

-- The numbers of pending, leased, done and failed jobs.
unfoldable pub job_stats : List MemJob → ℕ × ℕ × ℕ × ℕ
job_stats jobs =
    (count is_pending jobs, count is_leased jobs, count is_done jobs, count is_failed jobs)

abbrev pub owned : String → String → MemJob → Bool
owned org id j = j.org == org && j.id == id

unfoldable pub get_job : List MemJob → String → String → Option MemJob
get_job jobs org id = find (owned org id) jobs

abbrev listed : String → String → MemJob → Bool
listed org run_id j = j.org == org && (run_id == "" || j.run_id == run_id)

-- The newest jobs first; a limit that is not positive is 50.
unfoldable pub list_jobs : List MemJob → String → String → ℕ → List MemJob
list_jobs jobs org run_id limit =
    take (if eqb limit 0 then 50 else limit) (filter (listed org run_id) (reverse jobs))

-- The first job that passes the test gets the status: the loop returns there.
abbrev pub set_first : (MemJob → Bool) → MemStatus → List MemJob → List MemJob
set_first test st [] = []
set_first test st (j ∷ js) =
    let rest = set_first test st js in if test j then with_status st j ∷ js else j ∷ rest

abbrev pub cancellable : String → String → MemJob → Bool
cancellable org id j = owned org id j && is_open j.status

unfoldable pub cancel_job : List MemJob → String → String → Result (List MemJob)
cancel_job jobs org id =
    if any (cancellable org id) jobs
    then ok (set_first (cancellable org id) cancelled jobs)
    else err not_found

unfoldable pub retry_job : List MemJob → String → String → Result (List MemJob)
retry_job jobs org id =
    if any (owned org id) jobs then ok (set_first (owned org id) pending jobs) else err not_found
