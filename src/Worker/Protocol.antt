-- ===== src/Worker/Protocol.antt =====
-- A worker's tick uses the job queue by its protocol (internal/persist/worker.go,
-- internal/persist/store.go): its claim, then the end of the claimed job under the claim's token.
use architecture_rehearsal.Prelude.{
  ℕ, ◌≡◌, refl, sym, ap, ◌∙◌, ◌⊎◌, inl, inr, String, Option, none, some, List, [], ◌∷◌, ◌++◌, Bool,
  ◌==◌, Bool-cases, Option-cases,
}
use architecture_rehearsal.Run.{RehearsalRun, terminal}
use architecture_rehearsal.Engine.{World, Execution}
use architecture_rehearsal.Jobs.{Job}
use architecture_rehearsal.Jobs.Queue.{claim_job, job_is_active}
use architecture_rehearsal.Jobs.Rows
use architecture_rehearsal.Jobs.Rows.{claims, completes, fails}
use architecture_rehearsal.RunTable.{get_run}
use architecture_rehearsal.Worker.{
  AdvancePayload, Worker, Database, WorkerError, Meanwhile, Advanced, persist_if_active, conclude,
  advance, exec_advance, payload_of, executed, execute_job, finish, tick_with, tick,
}

module _ {Snap Chg : Type 0} (w : World Snap Chg) (stamp_lt : ℕ → ℕ → Bool)
    (decode : String → AdvancePayload) (chain_blob : String → Option (String × String))
    (error_text : WorkerError → String) (k : Worker) where
  run_calls-append :
      (jobs : List Job) (cs ds : List Rows.Call)
      → Rows.run_calls stamp_lt jobs (cs ++ ds)
        ≡ Rows.run_calls stamp_lt (Rows.run_calls stamp_lt jobs cs) ds
  unfolding Rows.run_calls
  run_calls-append jobs [] ds = refl
  run_calls-append jobs (c ∷ cs) ds = run_calls-append (Rows.step stamp_lt jobs c) cs ds

  -- The execution leaves the jobs to the others.
  abbrev OthersJobs : Meanwhile → List Job → List Job → Type 0
  OthersJobs m before after =
      (after ≡ before) ⊎ (after ≡ Rows.run_calls stamp_lt before m.jobs_before_check)

  persist-jobs :
      (m : Meanwhile) (db : Database) (j : Job) (r : RehearsalRun) (now : ℕ)
      → (persist_if_active w stamp_lt decode chain_blob error_text k m db j r now).database.jobs
        ≡ db.jobs
  unfolding persist_if_active
  persist-jobs m db j r now =
      elim (Bool-cases (job_is_active db.jobs j.id k.holder j.fence_token)) [
        | inl active ↦ rw active refl
        | inr lost ↦ rw lost refl
      ]

  conclude-jobs :
      (m : Meanwhile) (db : Database) (j : Job) (now : ℕ) (done : Execution × Option String)
      → (conclude w stamp_lt decode chain_blob error_text k m db j now done).database.jobs
        ≡ Rows.run_calls stamp_lt db.jobs m.jobs_before_check
  conclude-jobs m db j now (x, none) = persist-jobs m _ j _ now
  conclude-jobs m db j now (x, some text) = persist-jobs m _ j _ now

  advance-jobs :
      (m : Meanwhile) (db : Database) (j : Job) (now : ℕ) (found : Option RehearsalRun)
      → OthersJobs m db.jobs
          (advance w stamp_lt decode chain_blob error_text k m db j now found).database.jobs
  advance-jobs m db j now none = inl refl
  advance-jobs m db j now (some r) =
      elim (Bool-cases
        ((payload_of w stamp_lt decode chain_blob error_text k j).action == "cancel")) [
          | inl cancel ↦ rw (cancel, advance) (inr (persist-jobs m _ j _ now))
          | inr other ↦
              rw (other, advance)
                (elim (Bool-cases (terminal r.status.phase)) [
                  | inl final ↦ rw final (inl refl)
                  | inr nonfinal ↦ rw nonfinal (
                      inr (
                        conclude-jobs m db j now
                          (executed w stamp_lt decode chain_blob error_text k j r)))
                ])
        ]

  execute_job-jobs :
      (m : Meanwhile) (db : Database) (j : Job) (now : ℕ)
      → OthersJobs m db.jobs
          (execute_job w stamp_lt decode chain_blob error_text k m db j now).database.jobs
  unfolding execute_job exec_advance
  execute_job-jobs m db j now = elim (Bool-cases (j.kind == "run.advance")) [
    | inl known ↦ rw known (advance-jobs m db j now (get_run db.runs j.org j.run_id))
    | inr unknown ↦ rw unknown (inl refl)
  ]

  -- The calls of the worker that end the job, with those of the others before each.
  abbrev pub IsEnd : Meanwhile → Job → ℕ → List Rows.Call → Type 0
  IsEnd m j now cs =
      (cs ≡ m.jobs_before_end)
      ⊎ (((text : String) × (cs ≡ m.jobs_before_end ++ fails j.id j.fence_token text now ∷ []))
          ⊎ (cs ≡ m.jobs_before_end ++ (m.jobs_at_end ++ completes j.id j.fence_token now ∷ [])))

  finish-calls :
      (m : Meanwhile) (j : Job) (now : ℕ) (done : Advanced)
      → (cs : List Rows.Call) × ((finish w stamp_lt decode chain_blob error_text k m j now
            done).database.jobs
          ≡ Rows.run_calls stamp_lt done.database.jobs cs)
        × IsEnd m j now cs
  unfolding Rows.run_calls Rows.step
  finish-calls m j now done =
      let jobs = Rows.run_calls stamp_lt done.database.jobs m.jobs_before_end in
      elim (Option-cases done.error) [
        | inr (e, f) ↦ (
          m.jobs_before_end ++ fails j.id j.fence_token (error_text e) now ∷ [],
          rw
              (
                f,
                finish,
                run_calls-append done.database.jobs m.jobs_before_end
                    (fails j.id j.fence_token (error_text e) now ∷ []),
              )
              refl,
          inr (inl (error_text e, refl)),
        )
        | inl f ↦ elim (Bool-cases (job_is_active jobs j.id k.holder j.fence_token)) [
          | inr lost ↦ (m.jobs_before_end, rw (f, finish) (rw lost refl), inl refl)
          | inl active ↦ (
            m.jobs_before_end ++ (m.jobs_at_end ++ completes j.id j.fence_token now ∷ []),
            rw
                (
                  f,
                  finish,
                  run_calls-append done.database.jobs m.jobs_before_end
                      (m.jobs_at_end ++ completes j.id j.fence_token now ∷ []),
                  run_calls-append jobs m.jobs_at_end (completes j.id j.fence_token now ∷ []),
                )
                (rw active refl),
            inr (inr refl),
          )
        ]
      ]

  abbrev pub Protocol : Meanwhile → ℕ → Option Job × List Job → List Job → Type 0
  Protocol m now claim after =
      ((claim.0 ≡ none) × (after ≡ claim.1))
      ⊎ ((j : Job) × (checked : List Rows.Call) × (cs : List Rows.Call) × (claim.0 ≡ some j)
          × ((checked ≡ []) ⊎ (checked ≡ m.jobs_before_check))
          × IsEnd m j now cs
          × (after ≡ Rows.run_calls stamp_lt claim.1 (checked ++ cs)))

  tick_with-Protocol :
      (m : Meanwhile) (db : Database) (now : ℕ) (claim : Option Job × List Job)
      → Protocol m now claim
          (tick_with w stamp_lt decode chain_blob error_text k m db now claim).database.jobs
  tick_with-Protocol m db now (none, jobs) = inl (refl, refl)
  tick_with-Protocol m db now (some j, jobs) =
      let start : Database = record db { jobs = jobs } in
      let done = execute_job w stamp_lt decode chain_blob error_text k m start j now in
      let (cs, left, end) = finish-calls m j now done in
      elim (execute_job-jobs m start j now) [
        | inl same ↦
            inr (j, [], cs, refl, inl refl, end, left ∙ ap (λ x. Rows.run_calls stamp_lt x cs) same)
        | inr others ↦ inr (
          j,
          m.jobs_before_check,
          cs,
          refl,
          inr refl,
          end,
          left
              ∙ (ap (λ x. Rows.run_calls stamp_lt x cs) others
                  ∙ sym (run_calls-append jobs m.jobs_before_check cs)),
        )
      ]

  -- A tick uses the job queue by its protocol: the jobs afterwards are those before after the claim,
  -- and if that returned a job, then after calls of the others before the worker's test of its lease
  -- (where it comes to that), calls of the others before the end, and at most one more call of the
  -- worker, which fails or completes the claimed job under the claim's token.
  pub tick-Protocol :
      (m : Meanwhile) (db : Database) (now : ℕ)
      → Protocol m now
          (claim_job stamp_lt db.jobs k.holder k.lease_ttl now)
          (tick w stamp_lt decode chain_blob error_text k m db now).database.jobs
  unfolding tick
  tick-Protocol m db now =
      tick_with-Protocol m db now (claim_job stamp_lt db.jobs k.holder k.lease_ttl now)
