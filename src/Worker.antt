-- ===== src/Worker.antt =====
-- internal/persist/worker.go: a worker claims a job, executes its run and reports the end of the job.
-- Between two of its calls on the database others call too (API servers, other workers, and this
-- worker's own heartbeat, which renews the lease): these calls are the record `Meanwhile`. The
-- goroutine that watches for a cancellation ends the engine's context, which is an answer of the
-- engine's world; the ticker that repeats `tick` is left out.
pub mod Protocol
pub mod Stale
pub mod Outdated
use architecture_rehearsal.Prelude.{
  ℕ, String, Option, none, some, List, [], ◌∷◌, ◌++◌, map, Bool, true, false, not, ◌&&◌, ◌==◌,
  insert, non_empty, if◌then◌else◌,
}
use architecture_rehearsal.Run.{RehearsalRun, cancelled, terminal}
use architecture_rehearsal.Run.Lifecycle.{transition}
use architecture_rehearsal.Run.History
use architecture_rehearsal.Calibrate.{Outcome}
use architecture_rehearsal.Engine.{World, Engine, Execution}
use architecture_rehearsal.Engine.Execute.{execute}
use architecture_rehearsal.Jobs.{Job}
use architecture_rehearsal.Jobs
use architecture_rehearsal.Jobs.Queue.{claim_job, complete_job, fail_job, job_is_active}
use architecture_rehearsal.Jobs.Rows
use architecture_rehearsal.RunTable.{Row, StoreError, Stored, get_run, update_run}
use architecture_rehearsal.RunTable.Calls

pub record AdvancePayload : Type 0 where
  pub work_dir : String
  pub action : String

pub record Worker : Type 0 where
  pub holder : String
  pub work_dir : String
  pub lease_ttl : ℕ

-- The tables `jobs`, `runs` and `calibration`.
pub record Database : Type 0 where
  pub jobs : List Job
  pub runs : List Row
  pub outcomes : List (String × Outcome)

pub data WorkerError : Type 0 where
  run_not_found unknown_kind stale_fence : WorkerError
  engine_error : String → WorkerError
  not_written : StoreError → WorkerError
  not_completed : Jobs.StoreError → WorkerError

-- The calls of others before the worker's test of its lease, before its write of the run, before it
-- ends the job, and between its test then and the completion.
pub record Meanwhile : Type 0 where
  pub jobs_before_check : List Rows.Call
  pub runs_before_check : List Calls.Call
  pub runs_before_write : List Calls.Call
  pub jobs_before_end : List Rows.Call
  pub jobs_at_end : List Rows.Call

pub record Advanced : Type 0 where
  pub database : Database
  pub error : Option WorkerError

abbrev pub ending : Jobs.Result (List Job) → Option WorkerError
ending (Jobs.ok jobs) = none
ending (Jobs.err e) = some (not_completed e)

abbrev pub written : Option StoreError → Option WorkerError
written none = none
written (some e) = some (not_written e)

abbrev pub with_blob : Option (String × String) → RehearsalRun → RehearsalRun
with_blob none r = r
with_blob (some blob) r = record r {
  labels = insert "chainBlobURI" blob.1 (insert "chainBlob" blob.0 r.labels);
}

-- `decode` reads the payload of a job as JSON; `chain_blob` stores the file of a chain, if the store
-- has a blob storage and all goes well, and gives its digest and URI. `now` is the clock's reading.
module _ {Snap Chg : Type 0} (w : World Snap Chg) (stamp_lt : ℕ → ℕ → Bool)
    (decode : String → AdvancePayload) (chain_blob : String → Option (String × String))
    (error_text : WorkerError → String) (k : Worker) where
  abbrev pub others : Meanwhile → Database → Database
  others m db = record db {
    jobs = Rows.run_calls stamp_lt db.jobs m.jobs_before_check;
    runs = Calls.run_calls db.runs m.runs_before_check;
  }

  -- The database is the one at the test of the lease.
  unfoldable pub persist_if_active : Meanwhile → Database → Job → RehearsalRun → ℕ → Advanced
  persist_if_active m db j r now =
      if job_is_active db.jobs j.id k.holder j.fence_token
      then (let runs = Calls.run_calls db.runs m.runs_before_write in
          let stored = update_run runs r now in
          record { database = record db { runs = stored.rows }; error = written stored.error })
      else record { database = db; error = some stale_fence }

  abbrev pub payload_of : Job → AdvancePayload
  payload_of j =
      if non_empty j.payload then decode j.payload else record { work_dir = ""; action = "" }

  abbrev pub engine_for : AdvancePayload → Engine
  engine_for p = record {
    work_dir = if p.work_dir == "" then k.work_dir else p.work_dir;
    holder = k.holder;
    calibrated = false;
  }

  -- The rows that an execution adds to the table `calibration`.
  unfoldable pub calibrated : String → RehearsalRun → List (String × Outcome)
  calibrated org r =
      if org == ""
      then []
      else map
          (λ sc. (
            org,
            record {
              scenario = sc;
              predicted = true;
              observed = r.status.verify_outcome == "verified";
              verified =
                  non_empty r.status.verify_outcome
                  && not (r.status.verify_outcome == "inconclusive");
            },
          ))
          r.status.predicted_failures

  abbrev pub labelled : RehearsalRun → RehearsalRun
  labelled r =
      let path = r.status.chain_path in if non_empty path then with_blob (chain_blob path) r else r

  abbrev pub conclude : Meanwhile → Database → Job → ℕ → Execution × Option String → Advanced
  conclude m db j now (x, some text) = record (persist_if_active m (others m db) j x.run now) {
    error = some (engine_error text);
  }
  conclude m db j now (x, none) =
      let counted = record db { outcomes = db.outcomes ++ calibrated j.org x.run } in
      persist_if_active m (others m counted) j (labelled x.run) now

  abbrev pub executed : Job → RehearsalRun → Execution × Option String
  executed j r =
      execute w (engine_for (payload_of j)) (record { run = r; outcomes = []; moment = 0 })

  abbrev pub advance : Meanwhile → Database → Job → ℕ → Option RehearsalRun → Advanced
  advance m db j now none = record { database = db; error = some run_not_found }
  advance m db j now (some r) =
      if (payload_of j).action == "cancel"
      then persist_if_active m (others m db) j
          (History.after r (transition r cancelled "cancelled by job" now)) now
      else if terminal r.status.phase
      then record { database = db; error = none }
      else conclude m db j now (executed j r)

  unfoldable pub exec_advance : Meanwhile → Database → Job → ℕ → Advanced
  unfolding persist_if_active calibrated
  exec_advance m db j now = advance m db j now (get_run db.runs j.org j.run_id)

  unfoldable pub execute_job : Meanwhile → Database → Job → ℕ → Advanced
  unfolding exec_advance
  execute_job m db j now =
      if j.kind == "run.advance"
      then exec_advance m db j now
      else record { database = db; error = some unknown_kind }

  -- The report of the job's end, on the database after the execution.
  abbrev pub finish : Meanwhile → Job → ℕ → Advanced → Advanced
  finish m j now done =
      let jobs = Rows.run_calls stamp_lt done.database.jobs m.jobs_before_end in
      elim done.error [
        | some e ↦ record {
          database = record (done.database) {
            jobs = Rows.after jobs (fail_job jobs j.id j.fence_token (error_text e) now);
          };
          error = some e;
        }
        | none ↦
            let active = job_is_active jobs j.id k.holder j.fence_token in
            let last = Rows.run_calls stamp_lt jobs m.jobs_at_end in
            let ended = complete_job last j.id j.fence_token now in
            if active
            then record {
              database = record (done.database) { jobs = Rows.after last ended };
              error = ending ended;
            }
            else record {
              database = record (done.database) { jobs = jobs };
              error = some stale_fence;
            }
      ]

  abbrev pub tick_with : Meanwhile → Database → ℕ → Option Job × List Job → Advanced
  tick_with m db now (none, jobs) = record { database = record db { jobs = jobs }; error = none }
  tick_with m db now (some j, jobs) =
      finish m j now (execute_job m (record db { jobs = jobs }) j now)

  unfoldable pub tick : Meanwhile → Database → ℕ → Advanced
  unfolding execute_job
  tick m db now = tick_with m db now (claim_job stamp_lt db.jobs k.holder k.lease_ttl now)
