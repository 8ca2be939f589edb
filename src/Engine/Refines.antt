-- ===== src/Engine/Refines.antt =====
-- The engine moves a run only by the calls of its lifecycle (internal/run/engine.go,
-- internal/run/lifecycle.go).
use architecture_rehearsal.Prelude.{
  ◌*◌, ◌≡◌, refl, String, Option, List, [], ◌∷◌, ◌++◌, Bool, true, false, ◌==◌, arith, Bool-cases,
  inl, inr,
}
use architecture_rehearsal.Run.{RehearsalRun, Phase, terminal}
use architecture_rehearsal.Run.Lifecycle.{
  Result, ok, err, transition, enter, acquire_lease, release_lease, held_by_other, second,
}
use architecture_rehearsal.Run.History.{Call, moves, acquires, releases, after, step, run_calls}
use architecture_rehearsal.Engine.{Verification, World, Engine, Execution}
use architecture_rehearsal.Engine.Steps.{move}
use architecture_rehearsal.Engine.Observe.{conclude}
use architecture_rehearsal.Engine.Execute.{
  Stage, Progress, goes_on, stops, perform, run_steps, pre_steps, post_steps, complete, after_post,
  after_pre, released, started, begin, holder_of, execute,
}
use architecture_rehearsal.Engine.Kept.{IsAlike, IsAlike-trans, perform-elim, Kept, run_steps-Kept}

step-IsAlike : (r s : RehearsalRun) (c : Call) → IsAlike r s → IsAlike (step r c) (step s c)
unfolding step transition enter acquire_lease held_by_other release_lease
step-IsAlike r s (moves to msg now) h = ground arith
step-IsAlike r s (acquires holder ttl now) h = ground arith
step-IsAlike r s (releases holder) h = ground arith

run_calls-IsAlike :
    (r s : RehearsalRun) (cs : List Call) → IsAlike r s → IsAlike (run_calls r cs) (run_calls s cs)
unfolding run_calls
run_calls-IsAlike r s [] h = h
run_calls-IsAlike r s (c ∷ cs) h = run_calls-IsAlike (step r c) (step s c) cs (step-IsAlike r s c h)

run_calls-append :
    (r : RehearsalRun) (cs ds : List Call) → run_calls r (cs ++ ds) ≡ run_calls (run_calls r cs) ds
unfolding run_calls
run_calls-append r [] ds = refl
run_calls-append r (c ∷ cs) ds = run_calls-append (step r c) cs ds

-- Some lifecycle calls lead from the one run to the other.
abbrev pub Reaches : RehearsalRun → RehearsalRun → Type 0
Reaches r s = (cs : List Call) × IsAlike s (run_calls r cs)

pub Reaches-refl : (r s : RehearsalRun) → IsAlike s r → Reaches r s
unfolding run_calls
Reaches-refl r s h = ([], h)

pub Reaches-trans : (r s t : RehearsalRun) → Reaches r s → Reaches s t → Reaches r t
Reaches-trans r s t (cs, h) (ds, k) = (
  cs ++ ds,
  rw (run_calls-append r cs ds) (
      IsAlike-trans t (run_calls s ds) (run_calls (run_calls r cs) ds) k
        (run_calls-IsAlike s (run_calls r cs) ds h)),
)

Reaches-step : (r : RehearsalRun) (c : Call) → Reaches r (step r c)
unfolding run_calls
Reaches-step r c = (c ∷ [], (refl, refl, refl, refl, refl, refl, refl))

module _ {Snap Chg : Type 0} (w : World Snap Chg) (e : Engine) where
  pub Reaches-move :
      (x : Execution) (to : Phase) (msg : String) → Reaches x.run (move w e x to msg).run
  unfolding move run_calls step
  Reaches-move x to msg =
      (moves to msg (w.clock x.moment) ∷ [], (refl, refl, refl, refl, refl, refl, refl))

  Reaches-conclude : (x : Execution) (v : Verification) → Reaches x.run (conclude w e x v).run
  unfolding conclude
  Reaches-conclude x v = elim (Bool-cases (v.outcome == "verified")) [
    | inl same ↦ rw same (Reaches-refl x.run x.run (refl, refl, refl, refl, refl, refl, refl))
    | inr other ↦ rw other (Reaches-move x _ v.summary)
  ]

  pub Reaches-perform : (stage : Stage) (x : Execution) → Reaches x.run (perform w e stage x).0.run
  Reaches-perform stage x =
      perform-elim w e (λ r. Reaches x.run r) stage x (λ r h. Reaches-refl x.run r h)
        (λ y v h.
          Reaches-trans x.run y.run (conclude w e y v).run (Reaches-refl x.run y.run h)
            (Reaches-conclude y v))

  Reaches-complete : (msg : String) (x : Execution) → Reaches x.run (complete w e msg x).run
  Reaches-complete msg x = elim (Bool-cases (terminal x.run.status.phase)) [
    | inl t ↦ rw (t, complete) (Reaches-refl x.run x.run (refl, refl, refl, refl, refl, refl, refl))
    | inr t ↦ rw (t, complete) (Reaches-move x _ msg)
  ]

  run_steps-Reaches :
      (r : RehearsalRun) (post : Bool) (steps : List (Phase × Stage × String)) (x : Execution)
      → Reaches r x.run
      → Kept w e (λ y. Reaches r y.run) (run_steps w e post steps x)
  run_steps-Reaches r =
      run_steps-Kept w e (λ y. Reaches r y.run)
        (λ x to msg h. Reaches-trans r x.run (move w e x to msg).run h (Reaches-move x to msg))
        (λ stage x h. Reaches-trans r x.run (perform w e stage x).0.run h (Reaches-perform stage x))

  Reaches-after_post :
      (r : RehearsalRun) (p : Progress)
      → Kept w e (λ y. Reaches r y.run) p
      → Reaches r (after_post w e p).0.run
  Reaches-after_post r (stops x text) h = h
  Reaches-after_post r (goes_on x) h =
      Reaches-trans r x.run (complete w e _ x).run h (Reaches-complete _ x)

  Reaches-after_pre :
      (r : RehearsalRun) (p : Progress)
      → Kept w e (λ y. Reaches r y.run) p
      → Reaches r (after_pre w e p).0.run
  Reaches-after_pre r (stops x text) h = h
  Reaches-after_pre r (goes_on x) h = elim (Bool-cases (x.run.spec.observed_ref == "")) [
    | inl none_given ↦
        rw (none_given, after_pre)
          (Reaches-trans r x.run (complete w e _ x).run h (Reaches-complete _ x))
    | inr given ↦
        rw (given, after_pre)
          (Reaches-after_post r (run_steps w e true post_steps x)
            (run_steps-Reaches r true post_steps x h))
  ]

  Reaches-released :
      (r : RehearsalRun) (done : Execution × Option String)
      → Reaches r done.0.run
      → Reaches r (released w e done).0.run
  unfolding step
  Reaches-released r (x, text) h =
      Reaches-trans r x.run (release_lease x.run (holder_of w e)) h
        (Reaches-step x.run (releases (holder_of w e)))

  Reaches-begin :
      (x : Execution) (attempt : Result RehearsalRun)
      → Reaches x.run (after x.run attempt)
      → Reaches x.run (begin w e x attempt).0.run
  Reaches-begin x (err refusal) h =
      Reaches-refl x.run x.run (refl, refl, refl, refl, refl, refl, refl)
  Reaches-begin x (ok r) h =
      Reaches-released x.run (after_pre w e (run_steps w e false pre_steps (started w e x r))) (
        Reaches-after_pre x.run (run_steps w e false pre_steps (started w e x r))
          (run_steps-Reaches x.run false pre_steps (started w e x r) h))

  -- However the engine is run, whatever the packages answer, whenever the context is cancelled and
  -- wherever an error stops it, there is a sequence of calls of the run's lifecycle (transitions,
  -- acquisitions and releases of the lease) that takes the run from its phase, history, deadline,
  -- lease, identifier, version and organisation before to those after.
  pub execute-refines :
      (x : Execution) → (cs : List Call) × IsAlike (execute w e x).0.run (run_calls x.run cs)
  unfolding execute step
  execute-refines x =
      Reaches-begin x (acquire_lease x.run (holder_of w e) (600 * second) (w.clock x.moment))
        (Reaches-step x.run (acquires (holder_of w e) (600 * second) (w.clock x.moment)))
