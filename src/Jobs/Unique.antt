-- ===== src/Jobs/Unique.antt =====
-- The primary key of the job table (internal/persist/schema.go): no method makes two rows of one id.
use architecture_rehearsal.Prelude.{
  ℕ, ◌≡◌, refl, ap, sym, subst, ◌∙◌, String, List, [], ◌∷◌, ◌++◌, map, Bool, true, false, not, ◌||◌,
  ◌==◌, arith, All, any, eqb, inl, inr, eq_iff, Bool-cases,
}
use architecture_rehearsal.Jobs.{
  Job, StoreError, stale_fence, not_found, update, update_row, affected, require_row,
}
use architecture_rehearsal.Jobs.Queue.{
  claim_job, renew_lease, complete_job, cancel_jobs_for_run, has_id, violates, release_expired,
}
use architecture_rehearsal.Jobs.Tenants.{retry_job, cancel_job}
use architecture_rehearsal.Jobs.Rows.{
  Call, enqueues, claims, renews, completes, fails, cancels_run, cancels, retries, after, step,
  run_calls, claim_cases, enqueue_cases, require_row_cases, fail_cases,
}
use architecture_rehearsal.Jobs.Fences.{any-map, release_expired-id}

abbrev pub UniqueIds : List Job → Type 0
UniqueIds [] = Unit
UniqueIds (j ∷ js) = (any (has_id j.id) js ≡ false) × UniqueIds js

UniqueIds-map :
    (f : Job → Job) (jobs : List Job)
    → ((j : Job) → (f j).id ≡ j.id)
    → UniqueIds jobs
    → UniqueIds (map f jobs)
UniqueIds-map f [] same u = tt
UniqueIds-map f (j ∷ js) same u =
    (rw (same j, any-map j.id f js same) u.0, UniqueIds-map f js same u.1)

any-snoc :
    (id : String) (jobs : List Job) (k : Job)
    → any (has_id id) jobs ≡ false
    → (k.id == id) ≡ false
    → any (has_id id) (jobs ++ k ∷ []) ≡ false
unfolding has_id
any-snoc id [] k h n = ground arith
any-snoc id (j ∷ js) k h n = ground (arith, any-snoc id js k)

UniqueIds-snoc :
    (jobs : List Job) (k : Job)
    → UniqueIds jobs
    → any (has_id k.id) jobs ≡ false
    → UniqueIds (jobs ++ k ∷ [])
unfolding has_id
UniqueIds-snoc [] k u h = (refl, tt)
UniqueIds-snoc (j ∷ js) k u h = (
  any-snoc j.id js k u.0 (ground (arith, eq_iff j.id k.id, eq_iff k.id j.id)),
  UniqueIds-snoc js k u.1 (ground arith),
)

violates-id :
    (id org op : String) (jobs : List Job)
    → violates id org op jobs ≡ false
    → any (has_id id) jobs ≡ false
unfolding violates
violates-id id org op jobs h = ground arith

UniqueIds-update :
    (test : Job → Bool) (set : Job → Job) (jobs : List Job) (n : ℕ) (e : StoreError)
    → ((j : Job) → (set j).id ≡ j.id)
    → UniqueIds jobs
    → UniqueIds (after jobs (require_row n e (update test set jobs)))
UniqueIds-update test set jobs n e same u =
    elim (require_row_cases jobs (update test set jobs) n e) [
      | inl old ↦ rw old u
      | inr new ↦ rw new (UniqueIds-map (update_row test set) jobs (λ j. ground (arith, same j)) u)
    ]

pub waiting-UniqueIds :
    (stamp_lt : ℕ → ℕ → Bool) (now : ℕ) (jobs : List Job)
    → UniqueIds jobs
    → UniqueIds (map (release_expired stamp_lt now) jobs)
waiting-UniqueIds stamp_lt now jobs u =
    UniqueIds-map (release_expired stamp_lt now) jobs (release_expired-id stamp_lt now) u

claim_job-UniqueIds :
    (stamp_lt : ℕ → ℕ → Bool) (jobs : List Job) (holder : String) (ttl now : ℕ)
    → UniqueIds jobs
    → UniqueIds (claim_job stamp_lt jobs holder ttl now).1
claim_job-UniqueIds stamp_lt jobs holder ttl now u =
    elim (claim_cases stamp_lt jobs holder ttl now) [
      | inl e ↦ subst (λ x. UniqueIds x.1) (sym e) (waiting-UniqueIds stamp_lt now jobs u)
      | inr (k, o, n, e) ↦
          subst (λ x. UniqueIds x.1) (sym e)
            (UniqueIds-map _ _ (λ j. ground arith) (waiting-UniqueIds stamp_lt now jobs u))
    ]

step-UniqueIds :
    (stamp_lt : ℕ → ℕ → Bool) (jobs : List Job) (c : Call)
    → UniqueIds jobs
    → UniqueIds (step stamp_lt jobs c)
unfolding step renew_lease complete_job cancel_jobs_for_run cancel_job retry_job
step-UniqueIds stamp_lt jobs (enqueues kind run_id org payload op id now) u =
    elim (enqueue_cases jobs kind run_id org payload op id now) [
      | inl e ↦ rw e u
      | inr (v, e) ↦ rw e (UniqueIds-snoc jobs _ u (violates-id id org op jobs v))
    ]
step-UniqueIds stamp_lt jobs (claims holder ttl now) u =
    claim_job-UniqueIds stamp_lt jobs holder ttl now u
step-UniqueIds stamp_lt jobs (renews id holder fence ttl now) u =
    UniqueIds-update _ _ jobs _ stale_fence (λ j. refl) u
step-UniqueIds stamp_lt jobs (completes id fence now) u =
    UniqueIds-update _ _ jobs _ stale_fence (λ j. refl) u
step-UniqueIds stamp_lt jobs (fails id fence last_err now) u =
    elim (fail_cases jobs id fence last_err now) [
      | inl old ↦ rw old u
      | inr (k, new) ↦ rw new (UniqueIds-map _ jobs (λ j. ground arith) u)
    ]
step-UniqueIds stamp_lt jobs (cancels_run org run_id now) u =
    UniqueIds-map _ jobs (λ j. ground arith) u
step-UniqueIds stamp_lt jobs (cancels org id now) u =
    UniqueIds-update _ _ jobs _ not_found (λ j. refl) u
step-UniqueIds stamp_lt jobs (retries org id now) u =
    UniqueIds-update _ _ jobs _ not_found (λ j. refl) u

-- The ids of the rows stay distinct under every sequence of the methods.
pub run_calls-UniqueIds :
    (stamp_lt : ℕ → ℕ → Bool) (jobs : List Job) (cs : List Call)
    → UniqueIds jobs
    → UniqueIds (run_calls stamp_lt jobs cs)
unfolding run_calls
run_calls-UniqueIds stamp_lt jobs [] u = u
run_calls-UniqueIds stamp_lt jobs (c ∷ cs) u =
    run_calls-UniqueIds stamp_lt (step stamp_lt jobs c) cs (step-UniqueIds stamp_lt jobs c u)

abbrev pub implies : String → (Job → Bool) → Job → Bool
implies id test j = not (has_id id j) || test j

no_rows_of :
    (id : String) (test : Job → Bool) (jobs : List Job)
    → ((j : Job) → test j ≡ true → has_id id j ≡ true)
    → any (has_id id) jobs ≡ false
    → (affected test jobs ≡ 0) × All (λ j. implies id test j ≡ true) jobs
no_rows_of id test [] sub h = (refl, tt)
no_rows_of id test (j ∷ js) sub h =
    let rest = no_rows_of id test js sub (ground arith) in
    (ground (arith, sub j, rest.0), (ground arith, rest.1))

-- Where ids are distinct, a test of rows of one id that some row passes is passed by all its rows.
pub only_row :
    (id : String) (test : Job → Bool) (jobs : List Job)
    → ((j : Job) → test j ≡ true → has_id id j ≡ true)
    → UniqueIds jobs
    → eqb (affected test jobs) 0 ≡ false
    → (any (has_id id) jobs ≡ true) × All (λ j. implies id test j ≡ true) jobs
only_row id test [] sub u h = cc
only_row id test (j ∷ js) sub u h = elim (Bool-cases (has_id id j)) [
  | inl here ↦
      let same : j.id ≡ id = unfold has_id in (eq_iff j.id id).0 here in
      let rest = no_rows_of id test js sub (ap (λ x. any (has_id x) js) (sym same) ∙ u.0) in
      (rw here refl, (ground (arith, sub j, rest.0), rest.1))
  | inr other ↦
      let rest = only_row id test js sub u.1 (ground (arith, sub j)) in
      (ground (arith, rest.0), (rw other refl, rest.1))
]
