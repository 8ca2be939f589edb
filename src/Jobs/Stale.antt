-- ===== src/Jobs/Stale.antt =====
-- What the fencing tokens guarantee to the worker of internal/persist/worker.go: after its job was
-- claimed anew or completed, its renewals, completions and writes of the run are refused for good.
use architecture_rehearsal.Prelude.{
  ℕ, suc, ◌<◌, ◌≡◌, refl, ◌+◌, ap, ◌∙◌, sym, String, Option, some, List, [], ◌∷◌, map, Bool, true,
  false, arith, All, eqb, inl, inr,
}
use architecture_rehearsal.Jobs.{Job, stale_fence, ok, err, update, update_row, affected, done}
use architecture_rehearsal.Jobs.Queue.{
  claim_job, renew_lease, complete_job, job_is_active, held, held_by, free_row, release_expired,
  claimable, lease_row, claimed,
}
use architecture_rehearsal.Jobs.Rows.{Call, run_calls, All-map-row, claim_cases, require_row-ok}
use architecture_rehearsal.Jobs.Fences.{spent, IsSpent, any-map, run_calls-IsSpent}
use architecture_rehearsal.Jobs.Unique.{UniqueIds, waiting-UniqueIds, implies, only_row}

-- All that a worker can do under its token fails.
abbrev pub IsFencedOut : List Job → String → ℕ → Type 0
IsFencedOut jobs id fence =
    ((now : ℕ) → complete_job jobs id fence now ≡ err stale_fence)
    × ((holder : String) (ttl now : ℕ) → renew_lease jobs id holder fence ttl now ≡ err stale_fence)
    × ((holder : String) → job_is_active jobs id holder fence ≡ false)

not_held :
    (id : String) (fence : ℕ) (jobs : List Job)
    → All (λ j. spent id fence j ≡ true) jobs
    → affected (held id fence) jobs ≡ 0
unfolding spent held
not_held id fence [] h = refl
not_held id fence (j ∷ js) h = ground (arith, not_held id fence js h.1)

not_held_by :
    (id holder : String) (fence : ℕ) (jobs : List Job)
    → All (λ j. spent id fence j ≡ true) jobs
    → affected (held_by id holder fence) jobs ≡ 0
unfolding spent held_by
not_held_by id holder fence [] h = refl
not_held_by id holder fence (j ∷ js) h = ground (arith, not_held_by id holder fence js h.1)

not_active :
    (id holder : String) (fence : ℕ) (jobs : List Job)
    → All (λ j. spent id fence j ≡ true) jobs
    → job_is_active jobs id holder fence ≡ false
unfolding spent job_is_active
not_active id holder fence [] h = refl
not_active id holder fence (j ∷ js) h = ground (arith, not_active id holder fence js h.1)

IsSpent-IsFencedOut :
    (id : String) (fence : ℕ) (jobs : List Job) → IsSpent id fence jobs → IsFencedOut jobs id fence
unfolding complete_job renew_lease
IsSpent-IsFencedOut id fence jobs h = (
  λ now. rw (not_held id fence jobs h.1) refl,
  λ holder ttl now. rw (not_held_by id holder fence jobs h.1) refl,
  λ holder. not_active id holder fence jobs h.1,
)

completed-IsSpent :
    (jobs jobs' : List Job) (id : String) (fence now : ℕ)
    → UniqueIds jobs
    → complete_job jobs id fence now ≡ ok jobs'
    → IsSpent id fence jobs'
unfolding complete_job
completed-IsSpent jobs jobs' id fence now u e =
    let (met, new) = require_row-ok jobs' _ _ stale_fence e in
    let rows = only_row id (held id fence) jobs (λ j h. unfold held in ground arith) u met in
    rw new (
      any-map id (update_row (held id fence) (free_row done now)) jobs (λ j. ground arith) ∙ rows.0,
      All-map-row (λ j. implies id (held id fence) j ≡ true) (λ j. spent id fence j ≡ true)
          (update_row (held id fence) (free_row done now)) jobs
          (λ j. unfold held spent in ground arith) rows.1,
    )

-- A job is completed once: where ids are distinct, after a completion under a token was accepted, and
-- after any calls of any workers and tenants, every further completion, renewal and activity check
-- under that token fails.
pub complete_job_once :
    (stamp_lt : ℕ → ℕ → Bool) (jobs jobs' : List Job) (id : String) (fence now : ℕ) (cs : List Call)
    → UniqueIds jobs
    → complete_job jobs id fence now ≡ ok jobs'
    → IsFencedOut (run_calls stamp_lt jobs' cs) id fence
complete_job_once stamp_lt jobs jobs' id fence now cs u e =
    IsSpent-IsFencedOut id fence (run_calls stamp_lt jobs' cs)
      (run_calls-IsSpent stamp_lt id fence jobs' cs (completed-IsSpent jobs jobs' id fence now u e))

leased-IsSpent :
    (k : Job) (waiting jobs' : List Job) (j : Job) (holder : String) (until now fence : ℕ)
    → UniqueIds waiting
    → eqb (affected (claimable k.id) waiting) 0 ≡ false
    → ◌≡◌ {A = Option Job × List Job}
        (
          some (claimed k),
          update (claimable k.id) (lease_row holder until (suc k.fence_token) now) waiting,
        )
        (some j, jobs')
    → fence < j.fence_token
    → IsSpent j.id fence jobs'
leased-IsSpent k waiting jobs' j holder until now fence u met e lt =
    let set : Job → Job = lease_row holder until (suc k.fence_token) now in
    let same : claimed k ≡ j = ground arith in
    let new : update (claimable k.id) set waiting ≡ jobs' = ground arith in
    let id_eq : k.id ≡ j.id = ap (λ x. x.id) same in
    let fence_lt : fence < suc k.fence_token = rw (← same) at lt in
    let rows =
      only_row k.id (claimable k.id) waiting (λ x h. unfold claimable in ground arith) u met in
    rw (← id_eq, ← new)
      (
        any-map k.id (update_row (claimable k.id) set) waiting (λ x. ground arith) ∙ rows.0,
        All-map-row (λ x. implies k.id (claimable k.id) x ≡ true) (λ x. spent k.id fence x ≡ true)
            (update_row (claimable k.id) set) waiting (λ x. unfold claimable spent in ground arith)
            rows.1,
      )

claimed-IsSpent :
    (stamp_lt : ℕ → ℕ → Bool) (jobs jobs' : List Job) (j : Job) (holder : String)
    (ttl now fence : ℕ)
    → UniqueIds jobs
    → claim_job stamp_lt jobs holder ttl now ≡ (some j, jobs')
    → fence < j.fence_token
    → IsSpent j.id fence jobs'
claimed-IsSpent stamp_lt jobs jobs' j holder ttl now fence u e lt =
    elim (claim_cases stamp_lt jobs holder ttl now) [
      | inl none_left ↦ cc
      | inr (k, _, met, found) ↦
          leased-IsSpent k (map (release_expired stamp_lt now) jobs) jobs' j holder (now + ttl) now
            fence (waiting-UniqueIds stamp_lt now jobs u) met (sym found ∙ e) lt
    ]

-- A claim fences out every earlier holder: where ids are distinct, after a claim returned a job, and
-- after any calls, every completion, renewal and activity check of that job under a smaller token
-- than the claimed one fails.
pub claim_job_fences :
    (stamp_lt : ℕ → ℕ → Bool) (jobs jobs' : List Job) (j : Job) (holder : String)
    (ttl now fence : ℕ) (cs : List Call)
    → UniqueIds jobs
    → claim_job stamp_lt jobs holder ttl now ≡ (some j, jobs')
    → fence < j.fence_token
    → IsFencedOut (run_calls stamp_lt jobs' cs) j.id fence
claim_job_fences stamp_lt jobs jobs' j holder ttl now fence cs u e lt =
    IsSpent-IsFencedOut j.id fence (run_calls stamp_lt jobs' cs) (
      run_calls-IsSpent stamp_lt j.id fence jobs' cs
        (claimed-IsSpent stamp_lt jobs jobs' j holder ttl now fence u e lt))
