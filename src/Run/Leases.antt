-- ===== src/Run/Leases.antt =====
-- The exclusive lease of a run (internal/run/lifecycle.go).
use architecture_rehearsal.Prelude.{
  ℕ, ◌+◌, ◌<◌, ◌≡◌, ◌≢◌, String, some, List, [], ◌∷◌, arith, All, eq_iff,
}
use architecture_rehearsal.Run.{RehearsalRun, Lease}
use architecture_rehearsal.Run.Lifecycle.{
  ok, err, lease_held, acquire_lease, release_lease, transition,
}
use architecture_rehearsal.Run.History.{Call, moves, acquires, releases, step, run_calls}

-- The calls that another party than `holder` can make, before the instant `t`.
abbrev pub IsOther : String → ℕ → Call → Type 0
IsOther holder t (moves to msg now) = Unit
IsOther holder t (acquires other ttl now) = (other ≢ holder) × (now < t)
IsOther holder t (releases other) = other ≢ holder

other_step :
    (r : RehearsalRun) (c : Call) (l : Lease)
    → r.status.lease ≡ some l
    → IsOther l.holder l.expires_at c
    → (step r c).status.lease ≡ some l
unfolding step transition acquire_lease release_lease
other_step r (moves to msg now) l e h = ground arith
other_step r (acquires other ttl now) l e h = ground (arith, eq_iff l.holder other)
other_step r (releases other) l e h = ground (arith, eq_iff l.holder other)

other_calls :
    (r : RehearsalRun) (cs : List Call) (l : Lease)
    → r.status.lease ≡ some l
    → All (IsOther l.holder l.expires_at) cs
    → (run_calls r cs).status.lease ≡ some l
unfolding run_calls
other_calls r [] l e h = e
other_calls r (c ∷ cs) l e h = other_calls (step r c) cs l (other_step r c l e h.0) h.1

-- A lease is exclusive: once acquired, it survives every transition and every call that others make
-- before it runs out, and each attempt of another to acquire it before then is refused.
pub acquire_lease_exclusive :
    (r s : RehearsalRun) (holder other : String) (ttl now later ttl' : ℕ) (cs : List Call)
    → acquire_lease r holder ttl now ≡ ok s
    → All (IsOther holder (now + ttl)) cs
    → other ≢ holder
    → later < now + ttl
    → acquire_lease (run_calls s cs) other ttl' later
      ≡ err (lease_held (record { holder = holder; expires_at = now + ttl }))
unfolding acquire_lease
acquire_lease_exclusive r s holder other ttl now later ttl' cs e h ne before =
    let l : Lease = record { holder = holder; expires_at = now + ttl } in
    let kept : (run_calls s cs).status.lease ≡ some l = other_calls s cs l (ground arith) h in
    ground (arith, kept, eq_iff holder other)
