-- ===== src/Jobs/Isolation.antt =====
-- Tenant isolation of the job queue (internal/persist/store.go, internal/persist/ops.go).
use architecture_rehearsal.Prelude.{
  ℕ, ◌≡◌, refl, ◌∙◌, ◌≢◌, ap, sym, All, String, List, [], ◌∷◌, ◌++◌, Bool, true, false, ◌==◌, arith,
  filter, inl, inr, eq_iff, ==-ne,
}
use architecture_rehearsal.Jobs.{Job, not_found, update, require_row}
use architecture_rehearsal.Jobs.Queue.{cancel_jobs_for_run, of_run, cancel_row}
use architecture_rehearsal.Jobs.Tenants.{
  get_job, owned, retry_job, retryable, retry_row, cancel_job, cancellable,
}
use architecture_rehearsal.Jobs.Rows.{
  Call, enqueues, claims, renews, completes, fails, cancels_run, cancels, retries, after, step,
  run_calls, enqueue_cases, require_row_cases,
}

-- The calls that a tenant makes for itself.
abbrev pub IsOf : String → Call → Type 0
IsOf org (enqueues kind run_id org' payload op id now) = org' ≡ org
IsOf org (cancels_run org' run_id now) = org' ≡ org
IsOf org (cancels org' id now) = org' ≡ org
IsOf org (retries org' id now) = org' ≡ org
IsOf org _ = ⊥

-- What a tenant can see: its own rows.
abbrev pub view : String → List Job → List Job
view org jobs = filter (λ j. j.org == org) jobs

view-update :
    (other : String) (test : Job → Bool) (set : Job → Job) (jobs : List Job)
    → ((j : Job) → test j ≡ true → (j.org == other) ≡ false)
    → ((j : Job) → (set j).org ≡ j.org)
    → view other (update test set jobs) ≡ view other jobs
view-update other test set [] apart same = refl
view-update other test set (j ∷ js) apart same =
    ground (arith, apart j, same j, view-update other test set js apart same)

view-snoc :
    (other : String) (jobs : List Job) (k : Job)
    → (k.org == other) ≡ false
    → view other (jobs ++ k ∷ []) ≡ view other jobs
view-snoc other [] k h = rw h refl
view-snoc other (j ∷ js) k h = ground (arith, view-snoc other js k h)

view-after :
    (other : String) (test : Job → Bool) (set : Job → Job) (jobs : List Job) (n : ℕ)
    → ((j : Job) → test j ≡ true → (j.org == other) ≡ false)
    → ((j : Job) → (set j).org ≡ j.org)
    → view other (after jobs (require_row n not_found (update test set jobs))) ≡ view other jobs
view-after other test set jobs n apart same =
    elim (require_row_cases jobs (update test set jobs) n not_found) [
      | inl old ↦ rw old refl
      | inr new ↦ rw new (view-update other test set jobs apart same)
    ]

-- No call that a tenant makes for itself (to enqueue, cancel or retry jobs) changes a row that
-- another tenant can see, or adds or removes one.
view-step :
    (stamp_lt : ℕ → ℕ → Bool) (org other : String) (jobs : List Job) (c : Call)
    → IsOf org c
    → org ≢ other
    → view other (step stamp_lt jobs c) ≡ view other jobs
unfolding step cancel_jobs_for_run cancel_job retry_job
view-step stamp_lt org other jobs (enqueues kind run_id org' payload op id now) h ne =
    elim (enqueue_cases jobs kind run_id org' payload op id now) [
      | inl e ↦ rw e refl
      | inr (v, e) ↦ rw e (view-snoc other jobs _ (rw h (==-ne org other ne)))
    ]
view-step stamp_lt org other jobs (cancels_run org' run_id now) h ne =
    view-update other (of_run org' run_id) (cancel_row now) jobs
      (λ j t. unfold of_run in ground (arith, h, eq_iff j.org org', eq_iff j.org other, ne))
      (λ j. refl)
view-step stamp_lt org other jobs (cancels org' id now) h ne =
    view-after other (cancellable org' id) (cancel_row now) jobs _
      (λ j t. unfold cancellable in ground (arith, h, eq_iff j.org org', eq_iff j.org other, ne))
      (λ j. refl)
view-step stamp_lt org other jobs (retries org' id now) h ne =
    view-after other (retryable org' id) (retry_row now) jobs _
      (λ j t. unfold retryable in ground (arith, h, eq_iff j.org org', eq_iff j.org other, ne))
      (λ j. refl)
view-step stamp_lt org other jobs (claims holder ttl now) h ne = absurd h
view-step stamp_lt org other jobs (renews id holder fence ttl now) h ne = absurd h
view-step stamp_lt org other jobs (completes id fence now) h ne = absurd h
view-step stamp_lt org other jobs (fails id fence last_err now) h ne = absurd h

-- What a tenant reads depends on its own rows alone.
get_job-view :
    (jobs : List Job) (org id : String) → get_job jobs org id ≡ get_job (view org jobs) org id
unfolding get_job owned
get_job-view [] org id = refl
get_job-view (j ∷ js) org id = ground (arith, get_job-view js org id)

views :
    (stamp_lt : ℕ → ℕ → Bool) (org other : String) (jobs : List Job) (cs : List Call)
    → All (IsOf org) cs
    → org ≢ other
    → view other (run_calls stamp_lt jobs cs) ≡ view other jobs
unfolding run_calls
views stamp_lt org other jobs [] h ne = refl
views stamp_lt org other jobs (c ∷ cs) h ne =
    views stamp_lt org other (step stamp_lt jobs c) cs h.1 ne
    ∙ view-step stamp_lt org other jobs c h.0 ne

-- No calls that tenants make for themselves (to enqueue, cancel or retry jobs) change a row that
-- another tenant can see, or add or remove one; so what the other tenant reads of any job stays.
pub view-run_calls :
    (stamp_lt : ℕ → ℕ → Bool) (org other : String) (jobs : List Job) (cs : List Call)
    → All (IsOf org) cs
    → org ≢ other
    → let later = run_calls stamp_lt jobs cs in
      (view other later ≡ view other jobs)
      × ((id : String) → get_job later other id ≡ get_job jobs other id)
view-run_calls stamp_lt org other jobs cs h ne =
    let same = views stamp_lt org other jobs cs h ne in
    (
      same,
      λ id.
          get_job-view (run_calls stamp_lt jobs cs) other id
          ∙ ap (λ t. get_job t other id) same
          ∙ sym (get_job-view jobs other id),
    )
