-- ===== src/Engine/Execute.antt =====
-- ExecuteContext of internal/run/engine.go.
use architecture_rehearsal.Prelude.{
  suc, ◌*◌, String, Option, none, some, List, [], ◌∷◌, Bool, true, false, ◌&&◌, ◌==◌, concat,
  if◌then◌else◌,
}
use architecture_rehearsal.Run.{
  RehearsalRun, Phase, collecting, compiling, rehearsing, gated, waiting_for_deployment, observing,
  verifying, completed, failed, cancelled, terminal,
}
use architecture_rehearsal.Run.Lifecycle.{
  Result, ok, err, transition, acquire_lease, release_lease, second,
}
use architecture_rehearsal.Engine.{with_run, World, Engine, Execution}
use architecture_rehearsal.Engine.Steps.{move, step_collect, step_compile, step_rehearse, step_gate}
use architecture_rehearsal.Engine.Observe.{step_observe, step_verify}

-- The functions of the steps; `pass` is a nil function.
pub data Stage : Type 0 where
  collect compile rehearse gate pass observe verify : Stage

-- A loop ends with the run at hand, or stops `ExecuteContext` with its result.
pub data Progress : Type 0 where
  goes_on : Execution → Progress
  stops : Execution → Option String → Progress

abbrev pub pre_steps : List (Phase × Stage × String)
pre_steps =
    (collecting, collect, "collect baseline")
    ∷ (compiling, compile, "load change")
    ∷ (rehearsing, rehearse, "analyze")
    ∷ (gated, gate, "gate decision")
    ∷ []

abbrev pub post_steps : List (Phase × Stage × String)
post_steps =
    (waiting_for_deployment, pass, "deployment assumed (offline)")
    ∷ (observing, observe, "load observed")
    ∷ (verifying, verify, "verify + persist chain")
    ∷ []

module _ {Snap Chg : Type 0} (w : World Snap Chg) (e : Engine) where
  abbrev on_run : Execution → RehearsalRun × Option String → Execution × Option String
  on_run x (r, text) = (with_run x r, text)

  unfoldable pub perform : Stage → Execution → Execution × Option String
  unfolding step_collect step_compile step_rehearse step_gate step_observe step_verify
  perform collect x = (x, step_collect w e x.run)
  perform compile x = (x, step_compile w e x.run)
  perform rehearse x = on_run x (step_rehearse w e x.run)
  perform gate x = on_run x (step_gate w e x.run)
  perform pass x = (x, none)
  perform observe x = (x, step_observe w e x.run)
  perform verify x = step_verify w e x

  unfoldable pub run_steps : Bool → List (Phase × Stage × String) → Execution → Progress
  unfolding move perform terminal
  run_steps post [] x = goes_on x
  run_steps post ((to, stage, msg) ∷ steps) x = elim (w.context x.moment) [
    | some text ↦ stops (move w e x cancelled (concat ("cancelled: " ∷ text ∷ []))) (some text)
    | none ↦ elim (terminal x.run.status.phase) [
      | true ↦ stops x none
      | false ↦ elim (transition x.run to msg (w.clock x.moment)) [
        | err refusal ↦
            stops (move w e (move w e x to msg) failed (w.error_text refusal))
              (some (w.error_text refusal))
        | ok r ↦
            let done = perform stage (move w e x to msg) in
            elim done.1 [
              | some text ↦
                  stops
                    (if post && terminal done.0.run.status.phase
                      then done.0
                      else move w e done.0 failed text)
                    (some text)
              | none ↦ run_steps post steps done.0
            ]
      ]
    ]
  ]

  abbrev pub complete : String → Execution → Execution
  complete msg x = if terminal x.run.status.phase then x else move w e x completed msg

  abbrev pub after_post : Progress → Execution × Option String
  after_post (stops x text) = (x, text)
  after_post (goes_on x) = (complete "verification finished" x, none)

  abbrev pub after_pre : Progress → Execution × Option String
  after_pre (stops x text) = (x, text)
  after_pre (goes_on x) =
      if x.run.spec.observed_ref == ""
      then (complete "gated only (no observedRef); not calibrated as verified" x, none)
      else after_post (run_steps true post_steps x)

  abbrev pub holder_of : String
  holder_of = if e.holder == "" then "local-runner" else e.holder

  -- The deferred release of the lease.
  abbrev pub released : Execution × Option String → Execution × Option String
  released (x, text) = (with_run x (release_lease x.run holder_of), text)

  -- The execution that holds the lease.
  abbrev pub started : Execution → RehearsalRun → Execution
  started x r = record x { run = r; moment = suc x.moment }

  abbrev pub begin : Execution → Result RehearsalRun → Execution × Option String
  begin x (err refusal) = (x, some (w.error_text refusal))
  begin x (ok r) = released (after_pre (run_steps false pre_steps (started x r)))

  -- The execution after `ExecuteContext`, and its error.
  unfoldable pub execute : Execution → Execution × Option String
  unfolding run_steps acquire_lease release_lease
  execute x = begin x (acquire_lease x.run holder_of (600 * second) (w.clock x.moment))
