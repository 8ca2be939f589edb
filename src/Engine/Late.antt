-- ===== src/Engine/Late.antt =====
-- What the engine (internal/run/engine.go) does with a completion that the deadline refuses.
use architecture_rehearsal.Prelude.{◌*◌, ◌≡◌, refl, ap, ◌∙◌, String, none, true, false, ◌==◌}
use architecture_rehearsal.Run.{RehearsalRun, gated, terminal}
use architecture_rehearsal.Run.Lifecycle.{ok, acquire_lease, second, past_deadline}
use architecture_rehearsal.Engine.{World, Engine, Execution}
use architecture_rehearsal.Engine.Steps.{move}
use architecture_rehearsal.Engine.Execute.{
  goes_on, run_steps, pre_steps, complete, after_pre, started, begin, holder_of, execute,
}
use architecture_rehearsal.Run.Moves.{after-late, release-phase}

module _ {Snap Chg : Type 0} (w : World Snap Chg) (e : Engine) where
  complete-late :
      (x : Execution) (msg : String)
      → x.run.status.phase ≡ gated
      → past_deadline x.run.status.deadline (w.clock x.moment) ≡ true
      → (complete w e msg x).run.status.phase ≡ gated
  unfolding move terminal
  complete-late x msg g d =
      rw (ap terminal g, complete) (after-late x.run msg (w.clock x.moment) g d)

  -- If the deadline passes after the gate and no observation is wanted, an execution returns no error
  -- though the run is left in the gated phase: the refusal of its completion is dropped.
  pub execute-late :
      (x y : Execution) (r : RehearsalRun)
      → acquire_lease x.run (holder_of w e) (600 * second) (w.clock x.moment) ≡ ok r
      → run_steps w e false pre_steps (started w e x r) ≡ goes_on y
      → y.run.status.phase ≡ gated
      → (y.run.spec.observed_ref == "") ≡ true
      → past_deadline y.run.status.deadline (w.clock y.moment) ≡ true
      → ((execute w e x).1 ≡ none) × ((execute w e x).0.run.status.phase ≡ gated)
  unfolding execute move
  execute-late x y r a h g o d =
      rw (a, h, begin)
        (rw (o, after_pre)
          (refl, release-phase (complete w e _ y).run (holder_of w e) ∙ complete-late y _ g d))
