-- ===== src/Tests/Queues.antt =====
-- The job queue (internal/persist) on concrete tables.
use architecture_rehearsal.Prelude.{
  ◌≡◌, refl, ne-==, ltb, arith, find, String, Option, none, some, List, [], ◌∷◌,
}
use architecture_rehearsal.Jobs.{Job, pending, leased, Result, ok, err}
use architecture_rehearsal.Jobs.Queue.{
  has_id, enqueue, new_job, claim_job, complete_job, fail_job, violates, take_job, release_expired,
  oldest_pending, claimable, held, same_operation,
}
use architecture_rehearsal.Jobs.Tenants.{cancel_job, get_job}
use architecture_rehearsal.Jobs.Rows.{Call, enqueues, claims, fails, cancels, retries, run_calls}
use architecture_rehearsal.Jobs.Unique.{UniqueIds}
use architecture_rehearsal.Jobs.Stale.{IsFencedOut, complete_job_once, claim_job_fences}
use architecture_rehearsal.Jobs.Revival.{fail_job_revives}
use architecture_rehearsal.Jobs.Enqueue.{enqueue_once}
use architecture_rehearsal.Jobs.Isolation.{view, view-run_calls}

abbrev waiting_job : Job
waiting_job = new_job "j1" "execute" "run-1" "acme" "{}" "op-1" 3

abbrev leased_job : Job
leased_job = record waiting_job {
  status = leased;
  attempts = 1;
  fence_token = 4;
  lease_holder = some "w1";
  lease_until = some 90;
}

abbrev other_job : Job
other_job = new_job "j2" "execute" "run-2" "globex" "{}" "op-1" 5

abbrev table : List Job
table = leased_job ∷ other_job ∷ []

table-UniqueIds : UniqueIds table
unfolding has_id
table-UniqueIds = (refl, (refl, tt))

abbrev calls : List Call
calls = claims "w2" 30 100 ∷ fails "j1" 4 "boom" 101 ∷ retries "acme" "j1" 102 ∷ []

abbrev jobs_of : Result (List Job) → List Job
jobs_of (ok jobs) = jobs
jobs_of (err e) = []

complete_job_once_example :
    IsFencedOut (run_calls ltb (jobs_of (complete_job table "j1" 4 50)) calls) "j1" 4
unfolding complete_job held has_id
complete_job_once_example =
    complete_job_once ltb table (jobs_of (complete_job table "j1" 4 50)) "j1" 4 50 calls
      table-UniqueIds refl

abbrev first_job : Option Job → Job
first_job none = waiting_job
first_job (some j) = j

-- The lease ran out at 90.
abbrev claim : Option Job × List Job
claim = claim_job ltb table "w2" 30 100

claim_job_fences_example : IsFencedOut (run_calls ltb claim.1 calls) "j1" 4
unfolding claim_job take_job release_expired oldest_pending claimable has_id
claim_job_fences_example =
    claim_job_fences ltb table claim.1 (first_job claim.0) "w2" 30 100 4 calls table-UniqueIds refl
      (omega arith)

fail_job_revives_example :
    (jobs₁ jobs₂ : List Job) × (k : Job) × (cancel_job table "acme" "j1" 50 ≡ ok jobs₁)
    × (fail_job jobs₁ "j1" 4 "timeout" 51 ≡ ok jobs₂)
    × (find (has_id "j1") jobs₂ ≡ some k)
    × (k.status ≡ pending)
unfolding has_id
fail_job_revives_example = fail_job_revives table leased_job "timeout" 50 51 refl refl (omega arith)

abbrev enqueued : List Job
enqueued = (enqueue table "verify" "run-1" "acme" "{}" "op-9" "j9" 60).1

enqueue_once_example :
    enqueue (run_calls ltb enqueued calls) "other" "run-5" "acme" "[]" "op-9" "j10" 70
    ≡ (ok "j9", run_calls ltb enqueued calls)
unfolding enqueue violates has_id same_operation
enqueue_once_example =
    enqueue_once ltb table enqueued "verify" "run-1" "acme" "{}" "op-9" "j9" "j9" "other" "run-5"
      "[]" "j10" 60 70 calls (ne-== "op-9" "" refl) (ne-== "j9" "" refl) refl

view-run_calls_example :
    let later =
      run_calls ltb table (cancels "acme" "j1" 50 ∷ enqueues "k" "r" "acme" "{}" "" "j7" 51 ∷ []) in
    (view "globex" later ≡ view "globex" table)
    × ((id : String) → get_job later "globex" id ≡ get_job table "globex" id)
view-run_calls_example =
    view-run_calls ltb "acme" "globex" table
      (cancels "acme" "j1" 50 ∷ enqueues "k" "r" "acme" "{}" "" "j7" 51 ∷ []) (refl, (refl, tt))
      (ne-== "acme" "globex" refl)
