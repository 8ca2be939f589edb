-- ===== src/Worker/Outdated.antt =====
-- A worker that read a run which others wrote since does not write it (internal/persist/worker.go,
-- internal/persist/store.go, internal/run/engine.go).
use architecture_rehearsal.Prelude.{
  ℕ, ◌≡◌, refl, ap, sym, ◌∙◌, ◌⊎◌, inl, inr, String, Option, none, some, List, [], ◌∷◌, ◌++◌, Bool,
  ◌==◌, arith, Bool-cases, All, insert, or_empty, lookup-insert, non_empty,
}
use architecture_rehearsal.Run.{RehearsalRun, cancelled, terminal}
use architecture_rehearsal.Run.Lifecycle.{transition, enter, acquire_lease, release_lease}
use architecture_rehearsal.Run.History
use architecture_rehearsal.Engine.{World, Execution}
use architecture_rehearsal.Engine.Refines.{execute-refines}
use architecture_rehearsal.Jobs.{Job}
use architecture_rehearsal.Jobs.Queue.{job_is_active}
use architecture_rehearsal.RunTable.{Row, get_run, update_run, run_org}
use architecture_rehearsal.RunTable.Calls
use architecture_rehearsal.RunTable.Calls.{MayWrite}
use architecture_rehearsal.RunTable.Keys.{UniqueKeys, run_calls-UniqueKeys}
use architecture_rehearsal.RunTable.Versions.{IsVersioned, update_run_once}
use architecture_rehearsal.Worker.{
  AdvancePayload, Worker, Database, WorkerError, Meanwhile, others, persist_if_active, conclude,
  advance, exec_advance, payload_of, labelled, with_blob, engine_for, executed,
}

-- The same run at the same version.
abbrev IsSame : RehearsalRun → RehearsalRun → Type 0
IsSame r s = (r.id ≡ s.id) × (r.version ≡ s.version) × (run_org r ≡ run_org s)

IsSame-trans : (r s t : RehearsalRun) → IsSame r s → IsSame s t → IsSame r t
IsSame-trans r s t h k = (h.0 ∙ k.0, h.1 ∙ k.1, h.2 ∙ k.2)

step-IsSame : (r : RehearsalRun) (c : History.Call) → IsSame (History.step r c) r
unfolding History.step transition enter acquire_lease release_lease
step-IsSame r (History.moves to msg now) = (ground arith, ground arith, ground arith)
step-IsSame r (History.acquires holder ttl now) = (ground arith, ground arith, ground arith)
step-IsSame r (History.releases holder) = (ground arith, ground arith, ground arith)

run_calls-IsSame : (r : RehearsalRun) (cs : List History.Call) → IsSame (History.run_calls r cs) r
unfolding History.run_calls
run_calls-IsSame r [] = (refl, refl, refl)
run_calls-IsSame r (c ∷ cs) =
    IsSame-trans (History.run_calls (History.step r c) cs) (History.step r c) r
      (run_calls-IsSame (History.step r c) cs) (step-IsSame r c)

run_calls-append :
    (rows : List Row) (cs ds : List Calls.Call)
    → Calls.run_calls rows (cs ++ ds) ≡ Calls.run_calls (Calls.run_calls rows cs) ds
unfolding Calls.run_calls
run_calls-append rows [] ds = refl
run_calls-append rows (c ∷ cs) ds = run_calls-append (Calls.step rows c) cs ds

All-append :
    (P : Calls.Call → Type 0) (cs ds : List Calls.Call) → All P cs → All P ds → All P (cs ++ ds)
All-append P [] ds h k = k
All-append P (c ∷ cs) ds h k = (h.0, All-append P cs ds h.1 k)

with_blob-IsSame :
    (blob : Option (String × String)) (r : RehearsalRun) → IsSame (with_blob blob r) r
with_blob-IsSame none r = (refl, refl, refl)
with_blob-IsSame (some blob) r = (
  refl,
  refl,
  ap or_empty (
      lookup-insert "chainBlobURI" "org" blob.1 (insert "chainBlob" blob.0 r.labels)
      ∙ lookup-insert "chainBlob" "org" blob.0 r.labels),
)

-- The worker wrote no run.
abbrev pub Unwritten : Meanwhile → List Row → List Row → Type 0
Unwritten m before after =
    (after ≡ before)
    ⊎ ((after ≡ Calls.run_calls before m.runs_before_check)
        ⊎ (after
            ≡ Calls.run_calls (Calls.run_calls before m.runs_before_check) m.runs_before_write))

module _ {Snap Chg : Type 0} (w : World Snap Chg) (stamp_lt : ℕ → ℕ → Bool)
    (decode : String → AdvancePayload) (chain_blob : String → Option (String × String))
    (error_text : WorkerError → String) (k : Worker) where
  labelled-IsSame :
      (r : RehearsalRun) → IsSame (labelled w stamp_lt decode chain_blob error_text k r) r
  labelled-IsSame r = elim (Bool-cases (non_empty r.status.chain_path)) [
    | inl given ↦ rw (given, labelled) (with_blob-IsSame (chain_blob r.status.chain_path) r)
    | inr none_given ↦ rw (none_given, labelled) (refl, refl, refl)
  ]

  executed-IsSame :
      (j : Job) (r : RehearsalRun)
      → IsSame (executed w stamp_lt decode chain_blob error_text k j r).0.run r
  executed-IsSame j r =
      let (cs, like) =
        execute-refines w
          (engine_for w stamp_lt decode chain_blob error_text k
            (payload_of w stamp_lt decode chain_blob error_text k j))
          (record { run = r; outcomes = []; moment = 0 }) in
      IsSame-trans (executed w stamp_lt decode chain_blob error_text k j r).0.run
        (History.run_calls r cs) r (like.4, like.5, like.6) (run_calls-IsSame r cs)

  module _ (m : Meanwhile) (db : Database) (j : Job) (now : ℕ) (r s : RehearsalRun) (t : ℕ)
      (bs cs : List Calls.Call) (among : m.runs_before_check ≡ bs ++ Calls.updates s t ∷ cs)
      (unique : UniqueKeys db.runs) (read : IsVersioned r) (same : IsSame r s)
      (accepted : (update_run (Calls.run_calls db.runs bs) s t).error ≡ none)
      (versioned : All (MayWrite IsVersioned) cs)
      (versioned' : All (MayWrite IsVersioned) m.runs_before_write) where
    stale_table :
        Calls.run_calls
          (update_run (Calls.run_calls db.runs bs) s t).rows
          (cs ++ m.runs_before_write)
        ≡ Calls.run_calls (Calls.run_calls db.runs m.runs_before_check) m.runs_before_write
    unfolding Calls.run_calls Calls.step
    stale_table = rw among (
        run_calls-append (update_run (Calls.run_calls db.runs bs) s t).rows cs m.runs_before_write
        ∙ ap (λ x. Calls.run_calls x m.runs_before_write)
            (sym (run_calls-append db.runs bs (Calls.updates s t ∷ cs))))

    refused_write :
        (r' : RehearsalRun)
        → IsSame r' r
        → let table =
            Calls.run_calls (Calls.run_calls db.runs m.runs_before_check) m.runs_before_write in
          (update_run table r' now).rows ≡ table
    refused_write r' kept =
        let past =
          update_run_once (Calls.run_calls db.runs bs) s r' t now (cs ++ m.runs_before_write)
            (run_calls-UniqueKeys db.runs bs unique) (rw (← same.1) read) accepted
            (All-append (MayWrite IsVersioned) cs m.runs_before_write versioned versioned')
            (kept.2 ∙ same.2) (kept.0 ∙ same.0) (rw (kept.1) read)
            (omega (arith, kept.1, same.1)) in
        rw (← stale_table) (ap (λ x. x.rows) past)

    persist-outdated :
        (db' : Database) (r' : RehearsalRun)
        → db'.runs ≡ Calls.run_calls db.runs m.runs_before_check
        → IsSame r' r
        → Unwritten m db.runs
            (persist_if_active w stamp_lt decode chain_blob error_text k m db' j r'
              now).database.runs
    unfolding persist_if_active
    persist-outdated db' r' here kept =
        elim (Bool-cases (job_is_active db'.jobs j.id k.holder j.fence_token)) [
          | inr lost ↦ rw lost (inr (inl here))
          | inl active ↦ rw active (
              inr (
                inr (
                  ap (λ x. (update_run (Calls.run_calls x m.runs_before_write) r' now).rows) here
                  ∙ refused_write r' kept)))
        ]

    conclude-outdated :
        (done : Execution × Option String)
        → IsSame done.0.run r
        → Unwritten m db.runs
            (conclude w stamp_lt decode chain_blob error_text k m db j now done).database.runs
    conclude-outdated (x, none) kept =
        persist-outdated _ (labelled w stamp_lt decode chain_blob error_text k x.run) refl (
          IsSame-trans (labelled w stamp_lt decode chain_blob error_text k x.run) x.run r
            (labelled-IsSame x.run) kept)
    conclude-outdated (x, some text) kept = persist-outdated _ x.run refl kept

    advance-outdated :
        Unwritten m db.runs
          (advance w stamp_lt decode chain_blob error_text k m db j now (some r)).database.runs
    unfolding History.step
    advance-outdated =
        elim (Bool-cases
          ((payload_of w stamp_lt decode chain_blob error_text k j).action == "cancel")) [
            | inl cancel ↦
                rw (cancel, advance)
                  (persist-outdated (others w stamp_lt decode chain_blob error_text k m db)
                    (History.after r (transition r cancelled "cancelled by job" now)) refl
                    (step-IsSame r (History.moves cancelled "cancelled by job" now)))
            | inr other ↦
                rw (other, advance)
                  (elim (Bool-cases (terminal r.status.phase)) [
                    | inl final ↦ rw final (inl refl)
                    | inr nonfinal ↦ rw nonfinal (
                        conclude-outdated (executed w stamp_lt decode chain_blob error_text k j r)
                          (executed-IsSame j r))
                  ])
          ]

  -- A worker never overwrites what others wrote since it read the run: where keys are distinct and no
  -- later update has the version 0, if among the calls of others before the worker tests its lease,
  -- after any of them, an update of the run from the version that the worker read was accepted, the worker writes no run, whatever the engine did: the
  -- table of runs afterwards is what the others made of it.
  pub exec_advance-outdated :
      (m : Meanwhile) (db : Database) (j : Job) (now : ℕ) (r s : RehearsalRun) (t : ℕ)
      (bs cs : List Calls.Call)
      → get_run db.runs j.org j.run_id ≡ some r
      → m.runs_before_check ≡ bs ++ Calls.updates s t ∷ cs
      → UniqueKeys db.runs
      → IsVersioned r
      → (r.id ≡ s.id) × (r.version ≡ s.version) × (run_org r ≡ run_org s)
      → (update_run (Calls.run_calls db.runs bs) s t).error ≡ none
      → All (MayWrite IsVersioned) cs
      → All (MayWrite IsVersioned) m.runs_before_write
      → Unwritten m db.runs
          (exec_advance w stamp_lt decode chain_blob error_text k m db j now).database.runs
  unfolding exec_advance
  exec_advance-outdated m db j now r s t bs cs found among unique read same accepted versioned
        versioned' =
      rw found (
        advance-outdated m db j now r s t bs cs among unique read same accepted versioned
          versioned')
