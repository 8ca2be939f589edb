-- ===== src/Jobs/Fences.antt =====
-- Fencing tokens of the job queue (internal/persist/store.go): a worker whose lease was passed on,
-- or whose job was completed, can never write to the job under its old token.
use architecture_rehearsal.Prelude.{
  ℕ, suc, ◌+◌, ◌≡◌, refl, ap, String, List, [], ◌∷◌, ◌++◌, map, Bool, true, false, not, ◌&&◌, ◌||◌,
  ◌==◌, arith, All, All-append, Bool-cases, any, eqb, ltb, inl, inr, eq_iff,
}
use architecture_rehearsal.Jobs.{
  Job, stale_fence, not_found, StoreError, is_leased, update, update_row, require_row,
}
use architecture_rehearsal.Jobs.Queue.{
  enqueue, claim_job, renew_lease, complete_job, cancel_jobs_for_run, release_expired, new_job,
  claimable, lease_row, has_id, held, held_by, violates,
}
use architecture_rehearsal.Jobs.Tenants.{retry_job, cancel_job, retryable, cancellable}
use architecture_rehearsal.Jobs.Rows.{
  Call, enqueues, claims, renews, completes, fails, cancels_run, cancels, retries, after, step,
  run_calls, All-map-row, All-oldest, claim_cases, enqueue_cases, require_row_cases, fail_cases,
}

-- The token `fence` of the job `id` is spent in this row: it was passed on, or the job is not leased.
unfoldable pub spent : String → ℕ → Job → Bool
spent id fence j =
    not (j.id == id)
    || (ltb fence j.fence_token || (eqb fence j.fence_token && not (is_leased j.status)))

-- The job is in the table, and in all its rows the token is spent.
abbrev pub IsSpent : String → ℕ → List Job → Type 0
IsSpent id fence jobs = (any (has_id id) jobs ≡ true) × All (λ j. spent id fence j ≡ true) jobs

pub any-map :
    (id : String) (f : Job → Job) (jobs : List Job)
    → ((j : Job) → (f j).id ≡ j.id)
    → any (has_id id) (map f jobs) ≡ any (has_id id) jobs
unfolding has_id
any-map id f [] same = refl
any-map id f (j ∷ js) same = rw (same j, any-map id f js same) refl

-- An update of rows that keeps their ids and spends no less keeps the token spent.
pub IsSpent-map :
    (id : String) (fence : ℕ) (f : Job → Job) (jobs : List Job)
    → ((j : Job) → (f j).id ≡ j.id)
    → ((j : Job) → spent id fence j ≡ true → spent id fence (f j) ≡ true)
    → IsSpent id fence jobs
    → IsSpent id fence (map f jobs)
IsSpent-map id fence f jobs same keep h =
    (rw (any-map id f jobs same) h.0, All-map-row _ _ f jobs keep h.1)

release_expired-spent :
    (id : String) (fence : ℕ) (stamp_lt : ℕ → ℕ → Bool) (now : ℕ) (j : Job)
    → spent id fence j ≡ true
    → spent id fence (release_expired stamp_lt now j) ≡ true
unfolding spent release_expired
release_expired-spent id fence stamp_lt now j h = ground arith

pub release_expired-id :
    (stamp_lt : ℕ → ℕ → Bool) (now : ℕ) (j : Job) → (release_expired stamp_lt now j).id ≡ j.id
unfolding release_expired
release_expired-id stamp_lt now j = ground arith

lease_row-spent :
    (id : String) (fence : ℕ) (k : Job) (holder : String) (until now : ℕ) (j : Job)
    → spent id fence k ≡ true
    → spent id fence j ≡ true
    → spent id fence
        (update_row (claimable k.id) (lease_row holder until (suc k.fence_token) now) j)
      ≡ true
unfolding spent claimable
lease_row-spent id fence k holder until now j p q =
    ground (arith, eq_iff k.id id, eq_iff j.id id, eq_iff j.id k.id)

claim_job-IsSpent :
    (id : String) (fence : ℕ) (stamp_lt : ℕ → ℕ → Bool) (jobs : List Job) (holder : String)
    (ttl now : ℕ)
    → IsSpent id fence jobs
    → IsSpent id fence (claim_job stamp_lt jobs holder ttl now).1
claim_job-IsSpent id fence stamp_lt jobs holder ttl now h =
    let waiting : List Job = map (release_expired stamp_lt now) jobs in
    let w : IsSpent id fence waiting =
      IsSpent-map id fence (release_expired stamp_lt now) jobs (release_expired-id stamp_lt now)
        (release_expired-spent id fence stamp_lt now) h in
    elim (claim_cases stamp_lt jobs holder ttl now) [
      | inl e ↦ rw e w
      | inr (k, o, n, e) ↦ rw e (
          IsSpent-map id fence _ waiting (λ j. ground arith)
            (λ j.
              lease_row-spent id fence k holder (now + ttl) now j
                (All-oldest (λ x. spent id fence x ≡ true) stamp_lt waiting w.1 o))
            w)
    ]

any-append :
    (id : String) (xs ys : List Job) → any (has_id id) xs ≡ true → any (has_id id) (xs ++ ys) ≡ true
any-append id [] ys h = cc
any-append id (x ∷ xs) ys h = ground (arith, any-append id xs ys)

new_job-spent :
    (id : String) (fence : ℕ) (jobs : List Job) (kind run_id org payload op id' : String) (now : ℕ)
    → any (has_id id) jobs ≡ true
    → violates id' org op jobs ≡ false
    → spent id fence (new_job id' kind run_id org payload op now) ≡ true
unfolding spent violates
new_job-spent id fence jobs kind run_id org payload op id' now h v = elim (Bool-cases (id' == id)) [
  | inl e ↦ ground (arith, ap (λ x. any (has_id x) jobs) ((eq_iff id' id).0 e))
  | inr e ↦ rw e refl
]

enqueue-IsSpent :
    (id : String) (fence : ℕ) (jobs : List Job) (kind run_id org payload op id' : String) (now : ℕ)
    → IsSpent id fence jobs
    → IsSpent id fence (enqueue jobs kind run_id org payload op id' now).1
enqueue-IsSpent id fence jobs kind run_id org payload op id' now h =
    elim (enqueue_cases jobs kind run_id org payload op id' now) [
      | inl e ↦ rw e h
      | inr (v, e) ↦ rw e (
        any-append id jobs _ h.0,
        All-append _ jobs _ h.1
            (new_job-spent id fence jobs kind run_id org payload op id' now h.0 v, tt),
      )
    ]

-- The updates of the other methods.
IsSpent-update :
    (id : String) (fence : ℕ) (test : Job → Bool) (set : Job → Job) (jobs : List Job) (n : ℕ)
    (e : StoreError)
    → ((j : Job) → (set j).id ≡ j.id)
    → ((j : Job) → spent id fence j ≡ true → spent id fence (update_row test set j) ≡ true)
    → IsSpent id fence jobs
    → IsSpent id fence (after jobs (require_row n e (update test set jobs)))
IsSpent-update id fence test set jobs n e same keep h =
    elim (require_row_cases jobs (update test set jobs) n e) [
      | inl old ↦ rw old h
      | inr new ↦
          rw new
            (IsSpent-map id fence (update_row test set) jobs (λ j. ground (arith, same j)) keep h)
    ]

-- Every method keeps a spent token spent.
step-IsSpent :
    (stamp_lt : ℕ → ℕ → Bool) (id : String) (fence : ℕ) (jobs : List Job) (c : Call)
    → IsSpent id fence jobs
    → IsSpent id fence (step stamp_lt jobs c)
unfolding step renew_lease complete_job cancel_jobs_for_run cancel_job retry_job
step-IsSpent stamp_lt id fence jobs (enqueues kind run_id org payload op id' now) h =
    enqueue-IsSpent id fence jobs kind run_id org payload op id' now h
step-IsSpent stamp_lt id fence jobs (claims holder ttl now) h =
    claim_job-IsSpent id fence stamp_lt jobs holder ttl now h
step-IsSpent stamp_lt id fence jobs (renews id' holder fence' ttl now) h =
    IsSpent-update id fence (held_by id' holder fence') _ jobs _ stale_fence (λ j. refl)
      (λ j. unfold spent in ground arith) h
step-IsSpent stamp_lt id fence jobs (completes id' fence' now) h =
    IsSpent-update id fence (held id' fence') _ jobs _ stale_fence (λ j. refl)
      (λ j. unfold spent in ground arith) h
step-IsSpent stamp_lt id fence jobs (fails id' fence' last_err now) h =
    elim (fail_cases jobs id' fence' last_err now) [
      | inl old ↦ rw old h
      | inr (k, new) ↦
          rw new
            (IsSpent-map id fence _ jobs (λ j. ground arith) (λ j. unfold spent in ground arith) h)
    ]
step-IsSpent stamp_lt id fence jobs (cancels_run org run_id now) h =
    IsSpent-map id fence _ jobs (λ j. ground arith) (λ j. unfold spent in ground arith) h
step-IsSpent stamp_lt id fence jobs (cancels org id' now) h =
    IsSpent-update id fence (cancellable org id') _ jobs _ not_found (λ j. refl)
      (λ j. unfold spent in ground arith) h
step-IsSpent stamp_lt id fence jobs (retries org id' now) h =
    IsSpent-update id fence (retryable org id') _ jobs _ not_found (λ j. refl)
      (λ j. unfold spent in ground arith) h

pub run_calls-IsSpent :
    (stamp_lt : ℕ → ℕ → Bool) (id : String) (fence : ℕ) (jobs : List Job) (cs : List Call)
    → IsSpent id fence jobs
    → IsSpent id fence (run_calls stamp_lt jobs cs)
unfolding run_calls
run_calls-IsSpent stamp_lt id fence jobs [] h = h
run_calls-IsSpent stamp_lt id fence jobs (c ∷ cs) h =
    run_calls-IsSpent stamp_lt id fence (step stamp_lt jobs c) cs
      (step-IsSpent stamp_lt id fence jobs c h)
