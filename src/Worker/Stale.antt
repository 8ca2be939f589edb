-- ===== src/Worker/Stale.antt =====
-- A worker that has lost its job, or that read an outdated run, does not write the run
-- (internal/persist/worker.go, internal/persist/store.go).
use architecture_rehearsal.Prelude.{
  ℕ, ◌≡◌, refl, ◌⊎◌, inl, inr, String, Option, none, some, List, Bool, false, ◌==◌, Bool-cases,
}
use architecture_rehearsal.Run.{RehearsalRun, terminal}
use architecture_rehearsal.Engine.{World, Execution}
use architecture_rehearsal.Jobs.{Job}
use architecture_rehearsal.Jobs.Queue.{job_is_active}
use architecture_rehearsal.Jobs.Rows
use architecture_rehearsal.Jobs.Stale.{IsFencedOut}
use architecture_rehearsal.RunTable.{Row, get_run}
use architecture_rehearsal.RunTable.Calls
use architecture_rehearsal.Worker.{
  AdvancePayload, Worker, Database, WorkerError, Meanwhile, persist_if_active, conclude, advance,
  exec_advance, payload_of, executed,
}

-- Only others wrote the table of runs.
abbrev pub OnlyOthers : Meanwhile → List Row → List Row → Type 0
OnlyOthers m before after = (after ≡ before) ⊎ (after ≡ Calls.run_calls before m.runs_before_check)

module _ {Snap Chg : Type 0} (w : World Snap Chg) (stamp_lt : ℕ → ℕ → Bool)
    (decode : String → AdvancePayload) (chain_blob : String → Option (String × String))
    (error_text : WorkerError → String) (k : Worker) where
  persist-inactive :
      (m : Meanwhile) (db : Database) (j : Job) (r : RehearsalRun) (now : ℕ)
      → job_is_active db.jobs j.id k.holder j.fence_token ≡ false
      → (persist_if_active w stamp_lt decode chain_blob error_text k m db j r now).database.runs
        ≡ db.runs
  unfolding persist_if_active
  persist-inactive m db j r now h = rw h refl

  conclude-inactive :
      (m : Meanwhile) (db : Database) (j : Job) (now : ℕ) (done : Execution × Option String)
      → job_is_active
          (Rows.run_calls stamp_lt db.jobs m.jobs_before_check)
          j.id
          k.holder
          j.fence_token
        ≡ false
      → (conclude w stamp_lt decode chain_blob error_text k m db j now done).database.runs
        ≡ Calls.run_calls db.runs m.runs_before_check
  conclude-inactive m db j now (x, none) h = persist-inactive m _ j _ now h
  conclude-inactive m db j now (x, some text) h = persist-inactive m _ j _ now h

  advance-inactive :
      (m : Meanwhile) (db : Database) (j : Job) (now : ℕ) (found : Option RehearsalRun)
      → job_is_active
          (Rows.run_calls stamp_lt db.jobs m.jobs_before_check)
          j.id
          k.holder
          j.fence_token
        ≡ false
      → OnlyOthers m db.runs
          (advance w stamp_lt decode chain_blob error_text k m db j now found).database.runs
  advance-inactive m db j now none h = inl refl
  advance-inactive m db j now (some r) h =
      elim (Bool-cases
        ((payload_of w stamp_lt decode chain_blob error_text k j).action == "cancel")) [
          | inl cancel ↦ rw (cancel, advance) (inr (persist-inactive m _ j _ now h))
          | inr other ↦
              rw (other, advance)
                (elim (Bool-cases (terminal r.status.phase)) [
                  | inl final ↦ rw final (inl refl)
                  | inr nonfinal ↦ rw nonfinal (
                      inr (
                        conclude-inactive m db j now
                          (executed w stamp_lt decode chain_blob error_text k j r) h))
                ])
        ]

  -- A worker that was fenced out, because its job was claimed anew, completed or cancelled before it
  -- tests its lease, writes no run, whatever the engine did and whatever the job's action is: the
  -- table of runs afterwards is what the others made of it.
  pub exec_advance-fenced :
      (m : Meanwhile) (db : Database) (j : Job) (now : ℕ)
      → IsFencedOut (Rows.run_calls stamp_lt db.jobs m.jobs_before_check) j.id j.fence_token
      → OnlyOthers m db.runs
          (exec_advance w stamp_lt decode chain_blob error_text k m db j now).database.runs
  unfolding exec_advance
  exec_advance-fenced m db j now h =
      advance-inactive m db j now (get_run db.runs j.org j.run_id) (h.2 k.holder)
