-- ===== src/Memory/Views.antt =====
-- Tenant isolation of the queue in memory (internal/api/memory_backend.go).
use architecture_rehearsal.Prelude.{
  ℕ, ◌≡◌, ◌≢◌, refl, String, List, [], ◌∷◌, ◌++◌, map, Bool, true, false, ◌&&◌, ◌==◌, arith, eq_iff,
  ==-ne, filter, find, any, non_empty, Bool-cases, Option-cases, inl, inr, if◌then◌else◌,
}
use architecture_rehearsal.Memory.{MemStatus, cancelled, pending, MemJob, Result, ok, err}
use architecture_rehearsal.Memory.Jobs.{
  with_status, enqueue, of_run, cancel_jobs_for_run, owned, set_first, cancellable, cancel_job,
  retry_job,
}

-- What a tenant can see: its own jobs.
abbrev pub view : String → List MemJob → List MemJob
view org jobs = filter (λ j. j.org == org) jobs

-- The jobs after a call that may be refused.
abbrev pub after : List MemJob → Result (List MemJob) → List MemJob
after jobs (ok new) = new
after jobs (err e) = jobs

view-map :
    (other : String) (test : MemJob → Bool) (st : MemStatus) (jobs : List MemJob)
    → ((j : MemJob) → test j ≡ true → (j.org == other) ≡ false)
    → view other (map (λ j. if test j then with_status st j else j) jobs) ≡ view other jobs
view-map other test st [] apart = refl
view-map other test st (j ∷ js) apart = ground (arith, apart j, view-map other test st js apart)

view-set_first :
    (other : String) (test : MemJob → Bool) (st : MemStatus) (jobs : List MemJob)
    → ((j : MemJob) → test j ≡ true → (j.org == other) ≡ false)
    → view other (set_first test st jobs) ≡ view other jobs
view-set_first other test st [] apart = refl
view-set_first other test st (j ∷ js) apart =
    ground (arith, apart j, view-set_first other test st js apart)

view-snoc :
    (other : String) (jobs : List MemJob) (k : MemJob)
    → (k.org == other) ≡ false
    → view other (jobs ++ k ∷ []) ≡ view other jobs
view-snoc other [] k h = rw h refl
view-snoc other (j ∷ js) k h = ground (arith, view-snoc other js k h)

-- Whatever a tenant enqueues, cancels or retries in memory, another tenant's jobs stay as they are.
pub view-tenant_calls :
    (decimal : ℕ → String) (now : ℕ) (org other : String) (jobs : List MemJob)
    (kind run_id payload op id : String)
    → org ≢ other
    → (view other (enqueue decimal now jobs kind run_id org payload op).0 ≡ view other jobs)
      × ((view other (cancel_jobs_for_run jobs org run_id).0 ≡ view other jobs)
          × ((view other (after jobs (cancel_job jobs org id)) ≡ view other jobs)
              × (view other (after jobs (retry_job jobs org id)) ≡ view other jobs)))
unfolding enqueue cancel_jobs_for_run cancel_job retry_job
view-tenant_calls decimal now org other jobs kind run_id payload op id ne =
    let apart = ==-ne org other ne in
    (
      elim (Option-cases (find (λ j. non_empty op && (j.org == org && j.op_id == op)) jobs)) [
        | inl e ↦ rw e (view-snoc other jobs _ apart)
        | inr (old, e) ↦ rw e refl
      ],
      (
        view-map other (of_run org run_id) cancelled jobs
            (λ j t. ground (arith, t, eq_iff j.org org, eq_iff j.org other, ne)),
        (
          elim (Bool-cases (any (cancellable org id) jobs)) [
            | inl e ↦ rw e (
                view-set_first other (cancellable org id) cancelled jobs
                  (λ j t. ground (arith, t, eq_iff j.org org, eq_iff j.org other, ne)))
            | inr e ↦ rw e refl
          ],
          elim (Bool-cases (any (owned org id) jobs)) [
            | inl e ↦ rw e (
                view-set_first other (owned org id) pending jobs
                  (λ j t. ground (arith, t, eq_iff j.org org, eq_iff j.org other, ne)))
            | inr e ↦ rw e refl
          ],
        ),
      ),
    )
