-- ===== src/Run/History.antt =====
-- The calls that drive a run (internal/run/lifecycle.go) in any order, and what its history records.
use architecture_rehearsal.Prelude.{
  ℕ, ◌+◌, ◌≤◌, ◌<◌, ◌≡◌, refl, ◌⊎◌, inl, inr, String, Option, none, some, List, [], ◌∷◌, ◌++◌, Bool,
  true, false, arith, length,
}
use architecture_rehearsal.Run.{
  Phase, pending, collecting, compiling, rehearsing, gated, waiting_for_deployment, observing,
  verifying, failed, cancelled, Spec, Event, RehearsalRun,
}
use architecture_rehearsal.Run.Lifecycle.{
  Result, ok, err, phase_eq, new_run, allowed, past_deadline, enter, transition, acquire_lease,
  release_lease,
}

pub data Call : Type 0 where
  moves : Phase → String → ℕ → Call
  acquires : String → ℕ → ℕ → Call
  releases : String → Call

-- A call that is refused leaves the run as it was.
abbrev pub after : RehearsalRun → Result RehearsalRun → RehearsalRun
after r (ok s) = s
after r (err e) = r

unfoldable pub step : RehearsalRun → Call → RehearsalRun
step r (moves to msg now) = after r (transition r to msg now)
step r (acquires holder ttl now) = after r (acquire_lease r holder ttl now)
step r (releases holder) = release_lease r holder

unfoldable pub run_calls : RehearsalRun → List Call → RehearsalRun
run_calls r [] = r
run_calls r (c ∷ cs) = run_calls (step r c) cs

abbrev pub is_step : Option Phase → Phase → Bool
is_step none to = phase_eq to pending
is_step (some from) to = allowed from to

-- The events follow one another from `prev` to `last` along the table.
abbrev pub IsPath : Option Phase → List Event → Phase → Type 0
IsPath prev [] last = prev ≡ some last
IsPath prev (e ∷ es) last =
    (e.from ≡ prev) × (is_step prev e.to ≡ true) × IsPath (some e.to) es last

abbrev pub IsRecorded : RehearsalRun → Type 0
IsRecorded r = IsPath none r.status.history r.status.phase

IsPath-snoc :
    (prev : Option Phase) (es : List Event) (last : Phase) (e : Event)
    → IsPath prev es last
    → e.from ≡ some last
    → allowed last e.to ≡ true
    → IsPath prev (es ++ e ∷ []) e.to
IsPath-snoc prev [] last e p f a = rw p (f, a, refl)
IsPath-snoc prev (x ∷ es) last e p f a = (p.0, p.1, IsPath-snoc (some x.to) es last e p.2 f a)

new_run-IsRecorded :
    (id key : String) (spec : Spec) (now : ℕ) → IsRecorded (new_run id key spec now)
unfolding new_run
new_run-IsRecorded id key spec now = (refl, refl, refl)

enter-IsRecorded :
    (r : RehearsalRun) (to : Phase) (msg : String) (now : ℕ)
    → allowed r.status.phase to ≡ true
    → IsRecorded r
    → IsRecorded (enter r to msg now)
unfolding enter
enter-IsRecorded r to msg now a p = IsPath-snoc none r.status.history r.status.phase _ p refl a

abbrev pub Unmoved : RehearsalRun → RehearsalRun → Type 0
Unmoved r s =
    (s.status.phase ≡ r.status.phase)
    × (s.status.history ≡ r.status.history)
    × (s.status.deadline ≡ r.status.deadline)

-- The step of the table that a call makes, if it makes one.
abbrev pub Moved : RehearsalRun → Call → RehearsalRun → Type 0
Moved r (moves to msg now) s =
    (allowed r.status.phase to ≡ true)
    × ((past_deadline r.status.deadline now ≡ false)
        ⊎ (phase_eq to failed ≡ true)
        ⊎ (phase_eq to cancelled ≡ true))
    × (s ≡ enter r to msg now)
Moved r (acquires holder ttl now) s = ⊥
Moved r (releases holder) s = ⊥

pub step_cases : (r : RehearsalRun) (c : Call) → Unmoved r (step r c) ⊎ Moved r c (step r c)
unfolding step transition acquire_lease release_lease
step_cases r (moves to msg now) = ground arith
step_cases r (acquires holder ttl now) = inl (ground arith, ground arith, ground arith)
step_cases r (releases holder) = inl (ground arith, ground arith, ground arith)

step-IsRecorded : (r : RehearsalRun) (c : Call) → IsRecorded r → IsRecorded (step r c)
step-IsRecorded r (moves to msg now) p = elim (step_cases r (moves to msg now)) [
  | inl u ↦ rw (u.0, u.1) p
  | inr m ↦ rw (m.2) (enter-IsRecorded r to msg now m.0 p)
]
step-IsRecorded r (acquires holder ttl now) p = elim (step_cases r (acquires holder ttl now)) [
  | inl u ↦ rw (u.0, u.1) p
  | inr m ↦ absurd m
]
step-IsRecorded r (releases holder) p = elim (step_cases r (releases holder)) [
  | inl u ↦ rw (u.0, u.1) p
  | inr m ↦ absurd m
]

run_calls-IsRecorded :
    (r : RehearsalRun) (cs : List Call) → IsRecorded r → IsRecorded (run_calls r cs)
unfolding run_calls
run_calls-IsRecorded r [] p = p
run_calls-IsRecorded r (c ∷ cs) p = run_calls-IsRecorded (step r c) cs (step-IsRecorded r c p)

-- How far along its life a phase stands; every step of the table goes up.
abbrev rank : Phase → ℕ
rank pending = 1
rank collecting = 2
rank compiling = 3
rank rehearsing = 4
rank gated = 5
rank waiting_for_deployment = 6
rank observing = 7
rank verifying = 8
rank _ = 9

abbrev rank? : Option Phase → ℕ
rank? none = 0
rank? (some p) = rank p

allowed-rank : (from to : Phase) → allowed from to ≡ true → rank from < rank to
unfolding allowed
allowed-rank from to h = ground arith

is_step-rank : (prev : Option Phase) (to : Phase) → is_step prev to ≡ true → rank? prev < rank to
is_step-rank none to h = ground arith
is_step-rank (some from) to h = allowed-rank from to h

IsPath-rank :
    (prev : Option Phase) (es : List Event) (last : Phase)
    → IsPath prev es last
    → length es + rank? prev ≤ rank last
IsPath-rank prev [] last p = rw p (omega arith)
IsPath-rank prev (e ∷ es) last p =
    omega (arith, is_step-rank prev e.to p.1, IsPath-rank (some e.to) es last p.2)

rank-le : (p : Phase) → rank p ≤ 9
rank-le p = ground arith

-- After any calls whatever on a new run, its history is a path of the transition table from the
-- creation to the current phase, and it holds nine events at most.
pub run_calls-history :
    (id key : String) (spec : Spec) (now : ℕ) (cs : List Call)
    → let r = run_calls (new_run id key spec now) cs in IsRecorded r × (length r.status.history ≤ 9)
run_calls-history id key spec now cs =
    let p =
      run_calls-IsRecorded (new_run id key spec now) cs (new_run-IsRecorded id key spec now) in
    (p, omega (arith, IsPath-rank none _ _ p, rank-le _))
