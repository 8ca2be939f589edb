-- ===== src/Tests/Workers.antt =====
-- The table of runs and the worker (internal/persist) on concrete tables.
use architecture_rehearsal.Prelude.{
  ◌≡◌, refl, String, Option, none, some, List, [], ◌∷◌, ltb, arith, lookup,
}
use architecture_rehearsal.Run.{RehearsalRun}
use architecture_rehearsal.Run.Lifecycle.{new_run}
use architecture_rehearsal.Jobs.{Job, leased}
use architecture_rehearsal.Jobs.Queue.{
  new_job, claim_job, take_job, release_expired, oldest_pending, claimable, has_id, complete_job,
  renew_lease, job_is_active, held, held_by,
}
use architecture_rehearsal.Jobs.Rows
use architecture_rehearsal.RunTable.{Row, conflict, create_run, update_run, get_run}
use architecture_rehearsal.RunTable.Calls
use architecture_rehearsal.RunTable.Keys.{UniqueKeys, run_calls-UniqueKeys}
use architecture_rehearsal.RunTable.Versions.{update_run_once}
use architecture_rehearsal.Worker.{
  AdvancePayload, Worker, Database, WorkerError, Meanwhile, exec_advance, tick,
}
use architecture_rehearsal.Worker.Protocol.{Protocol, tick-Protocol}
use architecture_rehearsal.Worker.Stale.{OnlyOthers, exec_advance-fenced}
use architecture_rehearsal.Worker.Outdated.{Unwritten, exec_advance-outdated}
use architecture_rehearsal.Tests.Engines.{world, offline}

abbrev owned : RehearsalRun
owned = record offline { labels = ("org", "acme") ∷ []; version = 1 }

abbrev table : List Row
table = Calls.run_calls [] (Calls.creates owned 5 ∷ [])

no_rows : UniqueKeys []
no_rows org id = omega arith

table-UniqueKeys : UniqueKeys table
table-UniqueKeys = run_calls-UniqueKeys [] (Calls.creates owned 5 ∷ []) no_rows

update_run_once_example :
    let later_table =
      Calls.run_calls
        (update_run table owned 6).rows
        (Calls.updates (record owned { version = 2 }) 7 ∷ []) in
    update_run later_table owned 8
    ≡ record { error = some conflict; rows = later_table; run = owned }
unfolding new_run create_run update_run Calls.run_calls lookup
update_run_once_example =
    update_run_once table owned owned 6 8 (Calls.updates (record owned { version = 2 }) 7 ∷ [])
      table-UniqueKeys refl refl (refl, tt) refl refl refl (omega arith)

abbrev claimed_job : Job
claimed_job = record (new_job "j1" "run.advance" "run-1" "acme" "" "op-1" 3) {
  status = leased;
  attempts = 1;
  fence_token = 4;
  lease_holder = some "w1";
  lease_until = some 90;
}

abbrev database : Database
database = record { jobs = claimed_job ∷ []; runs = table; outcomes = [] }

abbrev worker : Worker
worker = record { holder = "w1"; work_dir = "work"; lease_ttl = 50 }

abbrev decoded : String → AdvancePayload
decoded payload = record { work_dir = ""; action = "" }

abbrev unstored : String → Option (String × String)
unstored path = none

abbrev shown : WorkerError → String
shown e = "failed"

-- Another worker claims the job when its lease has run out.
abbrev reclaimed : Meanwhile
reclaimed = record {
  jobs_before_check = Rows.claims "w2" 30 100 ∷ [];
  runs_before_check = [];
  runs_before_write = [];
  jobs_before_end = [];
  jobs_at_end = [];
}

exec_advance-fenced_example :
    OnlyOthers reclaimed table
      (exec_advance world ltb decoded unstored shown worker reclaimed database claimed_job
        101).database.runs
unfolding Rows.run_calls Rows.step claim_job take_job release_expired oldest_pending claimable
    has_id complete_job renew_lease job_is_active held held_by
exec_advance-fenced_example =
    exec_advance-fenced world ltb decoded unstored shown worker reclaimed database claimed_job 101
      (λ now. refl, λ holder ttl now. refl, λ holder. ground arith)

-- A server updates the run.
abbrev overtaken : Meanwhile
overtaken = record reclaimed {
  jobs_before_check = [];
  runs_before_check = Calls.creates owned 6 ∷ Calls.updates owned 7 ∷ [];
}

exec_advance-outdated_example :
    Unwritten overtaken table
      (exec_advance world ltb decoded unstored shown worker overtaken database claimed_job
        101).database.runs
unfolding new_run create_run update_run Calls.run_calls lookup get_run
exec_advance-outdated_example =
    exec_advance-outdated world ltb decoded unstored shown worker overtaken database claimed_job 101
      owned owned 7 (Calls.creates owned 6 ∷ []) [] refl refl table-UniqueKeys refl
      (refl, refl, refl) refl tt tt

tick-Protocol_example :
    Protocol world ltb decoded unstored shown worker reclaimed 101
      (claim_job ltb database.jobs worker.holder worker.lease_ttl 101)
      (tick world ltb decoded unstored shown worker reclaimed database 101).database.jobs
tick-Protocol_example = tick-Protocol world ltb decoded unstored shown worker reclaimed database 101
