-- ===== src/Jobs/Enqueue.antt =====
-- Exactly-once enqueueing by operation id (internal/persist/store.go, `Enqueue`).
use architecture_rehearsal.Prelude.{
  ℕ, ◌≡◌, refl, ◌∙◌, ◌≢◌, sym, subst, ◌⊎◌, String, Option, none, some, List, [], ◌∷◌, ◌++◌, map,
  Bool, true, false, ◌==◌, arith, any, find, inl, inr, eq_iff, eq_refl, ==-ne,
}
use architecture_rehearsal.Jobs.{
  Job, ok, StoreError, stale_fence, not_found, update, update_row, require_row,
}
use architecture_rehearsal.Jobs.Queue.{
  enqueue, claim_job, renew_lease, complete_job, cancel_jobs_for_run, same_operation, existing_id,
  violates, release_expired, new_job,
}
use architecture_rehearsal.Jobs.Tenants.{retry_job, cancel_job}
use architecture_rehearsal.Jobs.Rows.{
  Call, enqueues, claims, renews, completes, fails, cancels_run, cancels, retries, after, step,
  run_calls, claim_cases, enqueue_cases, require_row_cases, fail_cases, find-map, find-append,
}

-- The job of this operation has the id `i`.
abbrev pub HasOperation : String → String → String → List Job → Type 0
HasOperation org op i jobs = (j : Job) × (find (same_operation org op) jobs ≡ some j) × (j.id ≡ i)

-- An update of rows that keeps the columns of the keys.
abbrev KeepsKeys : (Job → Job) → Type 0
KeepsKeys f =
    (k : Job) → ((f k).id ≡ k.id) × ((f k).org ≡ k.org) × ((f k).operation_id ≡ k.operation_id)

HasOperation-map :
    (org op i : String) (f : Job → Job) (jobs : List Job)
    → KeepsKeys f
    → HasOperation org op i jobs
    → HasOperation org op i (map f jobs)
unfolding same_operation
HasOperation-map org op i f jobs keep (j, found, same) = (
  f j,
  find-map (same_operation org op) f jobs j (λ k. ground (arith, keep k)) found,
  (keep j).0 ∙ same,
)

HasOperation-update :
    (org op i : String) (test : Job → Bool) (set : Job → Job) (jobs : List Job) (n : ℕ)
    (e : StoreError)
    → KeepsKeys set
    → HasOperation org op i jobs
    → HasOperation org op i (after jobs (require_row n e (update test set jobs)))
HasOperation-update org op i test set jobs n e keep h =
    elim (require_row_cases jobs (update test set jobs) n e) [
      | inl old ↦ rw old h
      | inr new ↦ rw new (
          HasOperation-map org op i (update_row test set) jobs
            (λ k. (ground (arith, keep k), ground (arith, keep k), ground (arith, keep k))) h)
    ]

release_expired-keys :
    (stamp_lt : ℕ → ℕ → Bool) (now : ℕ) → KeepsKeys (release_expired stamp_lt now)
unfolding release_expired
release_expired-keys stamp_lt now k = (ground arith, ground arith, ground arith)

claim_job-HasOperation :
    (stamp_lt : ℕ → ℕ → Bool) (org op i : String) (jobs : List Job) (holder : String) (ttl now : ℕ)
    → HasOperation org op i jobs
    → HasOperation org op i (claim_job stamp_lt jobs holder ttl now).1
claim_job-HasOperation stamp_lt org op i jobs holder ttl now h =
    let w : HasOperation org op i (map (release_expired stamp_lt now) jobs) =
      HasOperation-map org op i _ jobs (release_expired-keys stamp_lt now) h in
    elim (claim_cases stamp_lt jobs holder ttl now) [
      | inl e ↦ subst (λ x. HasOperation org op i x.1) (sym e) w
      | inr (k, o, n, e) ↦
          subst (λ x. HasOperation org op i x.1) (sym e)
            (HasOperation-map org op i _ _ (λ x. (ground arith, ground arith, ground arith)) w)
    ]

step-HasOperation :
    (stamp_lt : ℕ → ℕ → Bool) (org op i : String) (jobs : List Job) (c : Call)
    → HasOperation org op i jobs
    → HasOperation org op i (step stamp_lt jobs c)
unfolding step renew_lease complete_job cancel_jobs_for_run cancel_job retry_job
step-HasOperation stamp_lt org op i jobs (enqueues kind run_id org' payload op' id now) h =
    elim (enqueue_cases jobs kind run_id org' payload op' id now) [
      | inl e ↦ rw e h
      | inr (v, e) ↦ rw e (h.0, find-append (same_operation org op) jobs _ h.0 h.1, h.2)
    ]
step-HasOperation stamp_lt org op i jobs (claims holder ttl now) h =
    claim_job-HasOperation stamp_lt org op i jobs holder ttl now h
step-HasOperation stamp_lt org op i jobs (renews id holder fence ttl now) h =
    HasOperation-update org op i _ _ jobs _ stale_fence (λ k. (refl, refl, refl)) h
step-HasOperation stamp_lt org op i jobs (completes id fence now) h =
    HasOperation-update org op i _ _ jobs _ stale_fence (λ k. (refl, refl, refl)) h
step-HasOperation stamp_lt org op i jobs (fails id fence last_err now) h =
    elim (fail_cases jobs id fence last_err now) [
      | inl old ↦ rw old h
      | inr (j, new) ↦
          rw new
            (HasOperation-map org op i _ jobs (λ k. (ground arith, ground arith, ground arith)) h)
    ]
step-HasOperation stamp_lt org op i jobs (cancels_run org' run_id now) h =
    HasOperation-map org op i _ jobs (λ k. (ground arith, ground arith, ground arith)) h
step-HasOperation stamp_lt org op i jobs (cancels org' id now) h =
    HasOperation-update org op i _ _ jobs _ not_found (λ k. (refl, refl, refl)) h
step-HasOperation stamp_lt org op i jobs (retries org' id now) h =
    HasOperation-update org op i _ _ jobs _ not_found (λ k. (refl, refl, refl)) h

run_calls-HasOperation :
    (stamp_lt : ℕ → ℕ → Bool) (org op i : String) (jobs : List Job) (cs : List Call)
    → HasOperation org op i jobs
    → HasOperation org op i (run_calls stamp_lt jobs cs)
unfolding run_calls
run_calls-HasOperation stamp_lt org op i jobs [] h = h
run_calls-HasOperation stamp_lt org op i jobs (c ∷ cs) h =
    run_calls-HasOperation stamp_lt org op i (step stamp_lt jobs c) cs
      (step-HasOperation stamp_lt org op i jobs c h)

existing_id-ok :
    (o : Option Job) (i : String)
    → existing_id o ≡ ok i
    → (j : Job) × (o ≡ some j) × (j.id ≡ i) × (i ≢ "")
unfolding existing_id
existing_id-ok none i e = cc
existing_id-ok (some j) i e =
    (j, refl, ground arith, λ z. ground (arith, eq_iff j.id "", eq_refl ""))

find-snoc :
    (p : Job → Bool) (jobs : List Job) (k : Job)
    → any p jobs ≡ false
    → p k ≡ true
    → find p (jobs ++ k ∷ []) ≡ some k
find-snoc p [] k h t = rw t refl
find-snoc p (j ∷ js) k h t = ground (arith, find-snoc p js k)

any-find : (p : Job → Bool) (jobs : List Job) (j : Job) → find p jobs ≡ some j → any p jobs ≡ true
any-find p [] j h = cc
any-find p (k ∷ ks) j h = ground (arith, any-find p ks j)

enqueue-ok :
    (jobs jobs' : List Job) (kind run_id org payload op id i : String) (now : ℕ)
    → op ≢ ""
    → enqueue jobs kind run_id org payload op id now ≡ (ok i, jobs')
    → ((org == "") ≡ false)
      × (((violates id org op jobs ≡ false)
            × (i ≡ id)
            × (jobs' ≡ jobs ++ new_job id kind run_id org payload op now ∷ []))
          ⊎ ((existing_id (find (same_operation org op) jobs) ≡ ok i) × (jobs' ≡ jobs)))
unfolding enqueue
enqueue-ok jobs jobs' kind run_id org payload op id i now op_ne e =
    let non = ==-ne op "" op_ne in ground arith

-- The first enqueueing under an operation id leaves its job in the table.
enqueue-HasOperation :
    (jobs jobs' : List Job) (kind run_id org payload op id i : String) (now : ℕ)
    → op ≢ ""
    → id ≢ ""
    → enqueue jobs kind run_id org payload op id now ≡ (ok i, jobs')
    → HasOperation org op i jobs' × (i ≢ "") × ((org == "") ≡ false)
enqueue-HasOperation jobs jobs' kind run_id org payload op id i now op_ne id_ne e =
    let (named, cases) = enqueue-ok jobs jobs' kind run_id org payload op id i now op_ne e in
    elim cases [
      | inl (v, same, new) ↦
          let k : Job = new_job id kind run_id org payload op now in
          let found : find (same_operation org op) (jobs ++ k ∷ []) ≡ some k =
            find-snoc (same_operation org op) jobs k (unfold violates in ground arith) (
              unfold same_operation in
              ground (arith, ==-ne op "" op_ne, eq_refl org, eq_refl op)) in
          ((k, rw new found, sym same), λ z. id_ne (sym same ∙ z), named)
      | inr (old, same) ↦
          let (j, found, is_i, i_ne) = existing_id-ok (find (same_operation org op) jobs) i old in
          ((j, rw same found, is_i), i_ne, named)
    ]

again :
    (jobs : List Job) (kind run_id org payload op id i : String) (now : ℕ)
    → op ≢ ""
    → i ≢ ""
    → (org == "") ≡ false
    → HasOperation org op i jobs
    → enqueue jobs kind run_id org payload op id now ≡ (ok i, jobs)
unfolding enqueue violates existing_id
again jobs kind run_id org payload op id i now op_ne i_ne named (j, found, same) =
    let seen = any-find (same_operation org op) jobs j found in
    ground (arith, ==-ne op "" op_ne, ==-ne i "" i_ne, found)

-- Enqueueing under one operation id happens once: after an enqueueing was accepted, and after any
-- calls, another one of the same tenant under the same operation id returns the id of the first job
-- and adds nothing, whatever its other arguments are.
pub enqueue_once :
    (stamp_lt : ℕ → ℕ → Bool) (jobs jobs' : List Job)
    (kind run_id org payload op id i kind' run_id' payload' id' : String) (now now' : ℕ)
    (cs : List Call)
    → op ≢ ""
    → id ≢ ""
    → enqueue jobs kind run_id org payload op id now ≡ (ok i, jobs')
    → let later = run_calls stamp_lt jobs' cs in
      enqueue later kind' run_id' org payload' op id' now' ≡ (ok i, later)
enqueue_once stamp_lt jobs jobs' kind run_id org payload op id i kind' run_id' payload' id' now now'
      cs op_ne id_ne e =
    let (h, i_ne, named) =
      enqueue-HasOperation jobs jobs' kind run_id org payload op id i now op_ne id_ne e in
    again (run_calls stamp_lt jobs' cs) kind' run_id' org payload' op id' i now' op_ne i_ne named
      (run_calls-HasOperation stamp_lt org op i jobs' cs h)
