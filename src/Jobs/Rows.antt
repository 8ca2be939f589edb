-- ===== src/Jobs/Rows.antt =====
-- The methods on the job table (internal/persist) in any order, and what each does to a single row.
use architecture_rehearsal.Prelude.{
  ℕ, suc, ◌+◌, ◌≡◌, refl, ◌⊎◌, String, Option, none, some, List, [], ◌∷◌, ◌++◌, map, Bool, true,
  false, arith, All, Bool-cases, find, eqb, inl, inr,
}
use architecture_rehearsal.Jobs.{Job, Result, ok, err, update, affected, require_row, StoreError}
use architecture_rehearsal.Jobs.Queue.{
  enqueue, claim_job, renew_lease, complete_job, fail_job, cancel_jobs_for_run, release_expired,
  oldest_pending, new_job, claimed, claimable, lease_row, take_job, violates, fail_row, failed_row,
  fenced_row, has_id,
}
use architecture_rehearsal.Jobs.Tenants.{retry_job, cancel_job}

pub data Call : Type 0 where
  enqueues : String → String → String → String → String → String → ℕ → Call
  claims : String → ℕ → ℕ → Call
  renews : String → String → ℕ → ℕ → ℕ → Call
  completes : String → ℕ → ℕ → Call
  fails : String → ℕ → String → ℕ → Call
  cancels_run : String → String → ℕ → Call
  cancels : String → String → ℕ → Call
  retries : String → String → ℕ → Call

abbrev pub after : List Job → Result (List Job) → List Job
after jobs (ok jobs') = jobs'
after jobs (err e) = jobs

module _ (stamp_lt : ℕ → ℕ → Bool) where
  unfoldable pub step : List Job → Call → List Job
  step jobs (enqueues kind run_id org payload op id now) =
      (enqueue jobs kind run_id org payload op id now).1
  step jobs (claims holder ttl now) = (claim_job stamp_lt jobs holder ttl now).1
  step jobs (renews id holder fence ttl now) = after jobs (renew_lease jobs id holder fence ttl now)
  step jobs (completes id fence now) = after jobs (complete_job jobs id fence now)
  step jobs (fails id fence last_err now) = after jobs (fail_job jobs id fence last_err now)
  step jobs (cancels_run org run_id now) = (cancel_jobs_for_run jobs org run_id now).1
  step jobs (cancels org id now) = after jobs (cancel_job jobs org id now)
  step jobs (retries org id now) = after jobs (retry_job jobs org id now)

  unfoldable pub run_calls : List Job → List Call → List Job
  unfolding step
  run_calls jobs [] = jobs
  run_calls jobs (c ∷ cs) = run_calls (step jobs c) cs

-- A predicate of rows holds of the whole table after an update that keeps it.
pub All-map-row :
    (P Q : Job → Type 0) (f : Job → Job) (jobs : List Job)
    → ((j : Job) → P j → Q (f j))
    → All P jobs
    → All Q (map f jobs)
All-map-row P Q f [] k h = tt
All-map-row P Q f (j ∷ js) k h = (k j h.0, All-map-row P Q f js k h.1)

oldest-cons :
    (stamp_lt : ℕ → ℕ → Bool) (k : Job) (ks : List Job) {j : Job}
    → oldest_pending stamp_lt (k ∷ ks) ≡ some j
    → (j ≡ k) ⊎ (oldest_pending stamp_lt ks ≡ some j)
unfolding oldest_pending
oldest-cons stamp_lt k ks e = ground arith

-- The row that `ClaimJob` selects is a row of the table.
pub All-oldest :
    (P : Job → Type 0) (stamp_lt : ℕ → ℕ → Bool) (jobs : List Job) {j : Job}
    → All P jobs
    → oldest_pending stamp_lt jobs ≡ some j
    → P j
unfolding oldest_pending
All-oldest P stamp_lt [] h e = cc
All-oldest P stamp_lt (k ∷ ks) h e = elim (oldest-cons stamp_lt k ks e) [
  | inl same ↦ rw same h.0
  | inr rest ↦ All-oldest P stamp_lt ks h.1 rest
]

take_cases :
    (o : Option Job) (jobs : List Job) (holder : String) (until now : ℕ)
    → (take_job o jobs holder until now ≡ (none, jobs))
      ⊎ ((j : Job) × (o ≡ some j)
          × (eqb (affected (claimable j.id) jobs) 0 ≡ false)
          × (take_job o jobs holder until now ≡ (
            some (claimed j),
            update (claimable j.id) (lease_row holder until (suc j.fence_token) now) jobs,
          )))
unfolding take_job
take_cases none jobs holder until now = inl refl
take_cases (some j) jobs holder until now =
    elim (Bool-cases (eqb (affected (claimable j.id) jobs) 0)) [
      | inl e ↦ inl (rw e refl)
      | inr e ↦ inr (j, refl, e, rw e refl)
    ]

-- A claim either takes no job and only releases expired leases, or leases the selected row.
pub claim_cases :
    (stamp_lt : ℕ → ℕ → Bool) (jobs : List Job) (holder : String) (ttl now : ℕ)
    → let waiting = map (release_expired stamp_lt now) jobs in
      (claim_job stamp_lt jobs holder ttl now ≡ (none, waiting))
      ⊎ ((j : Job) × (oldest_pending stamp_lt waiting ≡ some j)
          × (eqb (affected (claimable j.id) waiting) 0 ≡ false)
          × (claim_job stamp_lt jobs holder ttl now ≡ (
            some (claimed j),
            update (claimable j.id) (lease_row holder (now + ttl) (suc j.fence_token) now) waiting,
          )))
unfolding claim_job take_job
claim_cases stamp_lt jobs holder ttl now =
    let waiting = map (release_expired stamp_lt now) jobs in
    take_cases (oldest_pending stamp_lt waiting) waiting holder (now + ttl) now

-- An insertion adds its row at the end, and only where no row has its id.
pub enqueue_cases :
    (jobs : List Job) (kind run_id org payload op id : String) (now : ℕ)
    → let after_enqueue = (enqueue jobs kind run_id org payload op id now).1 in
      (after_enqueue ≡ jobs)
      ⊎ ((violates id org op jobs ≡ false)
          × (after_enqueue ≡ jobs ++ new_job id kind run_id org payload op now ∷ []))
unfolding enqueue
enqueue_cases jobs kind run_id org payload op id now = ground arith

-- A method that updates rows leaves the table as it was or makes the update.
pub require_row_cases :
    (jobs updated : List Job) (n : ℕ) (e : StoreError)
    → (after jobs (require_row n e updated) ≡ jobs)
      ⊎ (after jobs (require_row n e updated) ≡ updated)
require_row_cases jobs updated n e = ground arith

-- An update that is accepted met a row.
pub require_row-ok :
    (jobs updated : List Job) (n : ℕ) (e : StoreError)
    → require_row n e updated ≡ ok jobs
    → (eqb n 0 ≡ false) × (jobs ≡ updated)
require_row-ok jobs updated n e h = ground arith

fail_row_cases :
    (o : Option Job) (jobs : List Job) (id : String) (fence : ℕ) (last_err : String) (now : ℕ)
    → (after jobs (fail_row o jobs id fence last_err now) ≡ jobs)
      ⊎ ((j : Job) × (after jobs (fail_row o jobs id fence last_err now)
            ≡ update (fenced_row id fence) (failed_row j last_err now) jobs))
unfolding fail_row
fail_row_cases none jobs id fence last_err now = inl refl
fail_row_cases (some j) jobs id fence last_err now = elim (Bool-cases (eqb j.fence_token fence)) [
  | inl e ↦ inr (j, rw e refl)
  | inr e ↦ inl (rw e refl)
]

-- `FailJob` leaves the table as it was or frees the rows of the id and the token.
pub fail_cases :
    (jobs : List Job) (id : String) (fence : ℕ) (last_err : String) (now : ℕ)
    → (after jobs (fail_job jobs id fence last_err now) ≡ jobs)
      ⊎ ((j : Job) × (after jobs (fail_job jobs id fence last_err now)
            ≡ update (fenced_row id fence) (failed_row j last_err now) jobs))
unfolding fail_job
fail_cases jobs id fence last_err now =
    fail_row_cases (find (has_id id) jobs) jobs id fence last_err now

-- A search by a test that an update of rows keeps finds the updated row.
pub find-map :
    (p : Job → Bool) (f : Job → Job) (jobs : List Job) (j : Job)
    → ((k : Job) → p (f k) ≡ p k)
    → find p jobs ≡ some j
    → find p (map f jobs) ≡ some (f j)
find-map p f [] j same h = cc
find-map p f (k ∷ ks) j same h = ground (arith, same k, find-map p f ks j same)

pub find-append :
    (p : Job → Bool) (xs ys : List Job) (j : Job) → find p xs ≡ some j → find p (xs ++ ys) ≡ some j
find-append p [] ys j h = cc
find-append p (x ∷ xs) ys j h = ground (arith, find-append p xs ys j)

-- Where the row that a search finds passes a test, the update of that test meets a row.
pub affected-find :
    (p test : Job → Bool) (jobs : List Job) (j : Job)
    → find p jobs ≡ some j
    → test j ≡ true
    → eqb (affected test jobs) 0 ≡ false
affected-find p test [] j h t = cc
affected-find p test (k ∷ ks) j h t = ground (arith, affected-find p test ks j)
