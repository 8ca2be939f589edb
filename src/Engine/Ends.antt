-- ===== src/Engine/Ends.antt =====
-- How an execution of the engine ends (internal/run/engine.go, internal/run/lifecycle.go).
use architecture_rehearsal.Prelude.{
  ℕ, ◌*◌, ◌≡◌, refl, ap, ◌∙◌, String, List, [], ◌∷◌, Bool, true, false, ◌&&◌, ◌==◌, Bool-cases,
  Option-cases, inl, inr, ◌⊎◌,
}
use architecture_rehearsal.Run.{
  RehearsalRun, Phase, gated, verifying, completed, inconclusive, terminal, allowed_transitions,
}
use architecture_rehearsal.Run.Lifecycle.{
  ok, transition, allowed, acquire_lease, second, past_deadline, phase_eq,
}
use architecture_rehearsal.Engine.{Verification, World, Engine, Execution}
use architecture_rehearsal.Engine.Steps.{move}
use architecture_rehearsal.Engine.Observe.{conclude}
use architecture_rehearsal.Engine.Execute.{
  Stage, Progress, goes_on, stops, perform, run_steps, pre_steps, post_steps, complete, after_post,
  after_pre, started, begin, holder_of, execute,
}
use architecture_rehearsal.Engine.Kept.{perform-elim, Kept, run_steps-Kept, Result-cases}
use architecture_rehearsal.Run.Moves.{
  transition-ok, after-phase, after-lands, &&-right, after-failed, after-cancelled, after-deadline,
  release-phase, acquire-phase, acquire-deadline, terminal-verifying,
}

-- The run is in the phase, or in a final one.
abbrev IsAt : Phase → RehearsalRun → Type 0
IsAt p r = (r.status.phase ≡ p) ⊎ (terminal r.status.phase ≡ true)

IsAt-trans : (p : Phase) (r s : RehearsalRun) → IsAt p r → IsAt r.status.phase s → IsAt p s
unfolding terminal
IsAt-trans p r s (inl same) (inl kept) = inl (kept ∙ same)
IsAt-trans p r s (inr final) (inl kept) = inr (ap terminal kept ∙ final)
IsAt-trans p r s h (inr final) = inr final

-- Before the verification a run can be cancelled.
IsAt-verifying :
    (p : Phase) (r : RehearsalRun)
    → IsAt p r
    → phase_eq p verifying ≡ false
    → phase_eq r.status.phase verifying ≡ false
IsAt-verifying p r (inl same) k = rw same k
IsAt-verifying p r (inr final) k = terminal-verifying r.status.phase final

module _ {Snap Chg : Type 0} (w : World Snap Chg) (e : Engine) where
  conclude-IsAt :
      (x : Execution) (v : Verification) → IsAt x.run.status.phase (conclude w e x v).run
  unfolding conclude move terminal
  conclude-IsAt x v = elim (Bool-cases (v.outcome == "verified")) [
    | inl same ↦ rw same (inl refl)
    | inr other ↦ rw other (elim (Bool-cases (v.outcome == "inconclusive")) [
      | inl unsure ↦ rw unsure (elim (after-phase x.run inconclusive v.summary (w.clock x.moment)) [
        | inl same ↦ inl same
        | inr moved ↦ inr (ap terminal moved)
      ])
      | inr sure ↦ rw sure (inr (after-failed x.run v.summary (w.clock x.moment)))
    ])
  ]

  move-phase :
      (x : Execution) (r : RehearsalRun) (to : Phase) (msg : String)
      → transition x.run to msg (w.clock x.moment) ≡ ok r
      → (move w e x to msg).run.status.phase ≡ to
  unfolding move
  move-phase x r to msg g = rw g (transition-ok x.run r to msg (w.clock x.moment) g)

  perform-IsAt :
      (p : Phase) (stage : Stage) (x : Execution)
      → IsAt p x.run
      → IsAt p (perform w e stage x).0.run
  perform-IsAt p stage x h =
      perform-elim w e (IsAt p) stage x (λ r k. IsAt-trans p x.run r h (inl (k.0)))
        (λ y v k.
          IsAt-trans p x.run (conclude w e y v).run h
            (elim (conclude-IsAt y v) [ inl same ↦ inl (same ∙ k.0) | inr final ↦ inr final ]))

  abbrev IsEnding : Phase → Progress → Type 0
  IsEnding p (goes_on x) = IsAt p x.run
  IsEnding p (stops x text) = terminal x.run.status.phase ≡ true

  -- The phase that the steps lead to from `p`, where they are not cut short while verifying.
  abbrev last_to : Phase → List (Phase × Stage × String) → Phase
  last_to p [] = p
  last_to p ((to, stage, msg) ∷ steps) = last_to to steps

  abbrev IsTame : Phase → List (Phase × Stage × String) → Type 0
  IsTame p [] = Unit
  IsTame p ((to, stage, msg) ∷ steps) = (phase_eq p verifying ≡ false) × IsTame to steps

  run_steps-IsEnding :
      (post : Bool) (steps : List (Phase × Stage × String)) (p : Phase) (x : Execution)
      → IsTame p steps
      → IsAt p x.run
      → IsEnding (last_to p steps) (run_steps w e post steps x)
  unfolding run_steps move
  run_steps-IsEnding post [] p x t h = h
  run_steps-IsEnding post ((to, stage, msg) ∷ steps) p x t h =
      elim (Option-cases (w.context x.moment)) [
        | inr (text, f) ↦
            rw (f, run_steps)
              (after-cancelled x.run _ (w.clock x.moment) (IsAt-verifying p x.run h t.0))
        | inl f ↦
            rw (f, run_steps)
              (elim (Bool-cases (terminal x.run.status.phase)) [
                | inl final ↦ rw final final
                | inr nonfinal ↦
                    rw nonfinal (elim (Result-cases (transition x.run to msg (w.clock x.moment))) [
                      | inl (refusal, g) ↦ rw g (after-failed (move w e x to msg).run _ (w.clock _))
                      | inr (r, g) ↦
                          rw g (elim (Option-cases (perform w e stage (move w e x to msg)).1) [
                            | inr (text, k) ↦
                                rw k
                                  (elim (Bool-cases (
                                    post
                                    && terminal
                                        (perform w e stage
                                          (move w e x to msg)).0.run.status.phase)) [
                                            | inl b ↦ rw b (&&-right post _ b)
                                            | inr b ↦ rw b (
                                                after-failed
                                                  (perform w e stage (move w e x to msg)).0.run _
                                                  (w.clock _))
                                          ])
                            | inl k ↦ rw k (
                                run_steps-IsEnding post steps to _ t.1 (
                                  perform-IsAt to stage (move w e x to msg)
                                    (inl (move-phase x r to msg g))))
                          ])
                    ])
              ])
      ]

  -- At no moment the deadline of the run has passed.
  abbrev pub InTime : RehearsalRun → Type 0
  InTime r = (n : ℕ) → past_deadline r.status.deadline (w.clock n) ≡ false

  move-InTime :
      (x : Execution) (to : Phase) (msg : String) → InTime x.run → InTime (move w e x to msg).run
  unfolding move
  move-InTime x to msg h n = rw (after-deadline x.run to msg (w.clock x.moment)) (h n)

  conclude-InTime :
      (x : Execution) (v : Verification) → InTime x.run → InTime (conclude w e x v).run
  unfolding conclude
  conclude-InTime x v h = elim (Bool-cases (v.outcome == "verified")) [
    | inl same ↦ rw same h
    | inr other ↦ rw other (move-InTime x _ v.summary h)
  ]

  run_steps-InTime :
      (post : Bool) (steps : List (Phase × Stage × String)) (x : Execution)
      → InTime x.run
      → Kept w e (λ y. InTime y.run) (run_steps w e post steps x)
  run_steps-InTime =
      run_steps-Kept w e (λ y. InTime y.run) (λ x to msg h. move-InTime x to msg h)
        (λ stage x h.
          perform-elim w e InTime stage x (λ r k n. rw (k.2) (h n))
            (λ y v k. conclude-InTime y v (λ n. rw (k.2) (h n))))

  complete-terminal :
      (p : Phase) (msg : String) (x : Execution)
      → allowed p completed ≡ true
      → IsAt p x.run
      → InTime x.run
      → terminal (complete w e msg x).run.status.phase ≡ true
  unfolding move terminal
  complete-terminal p msg x a h d = elim (Bool-cases (terminal x.run.status.phase)) [
    | inl final ↦ rw (final, complete) final
    | inr nonfinal ↦
        rw (nonfinal, complete)
          (elim h [
            | inl same ↦ ap terminal (
                after-lands x.run completed msg (w.clock x.moment) (rw same a)
                  (rw (d x.moment) refl))
            | inr final ↦ cc (final, nonfinal)
          ])
  ]

  after_post-terminal :
      (p : Progress)
      → IsEnding verifying p
      → Kept w e (λ y. InTime y.run) p
      → terminal (after_post w e p).0.run.status.phase ≡ true
  unfolding allowed allowed_transitions
  after_post-terminal (stops x text) h d = h
  after_post-terminal (goes_on x) h d = complete-terminal verifying _ x refl h d

  after_pre-terminal :
      (p : Progress)
      → IsEnding gated p
      → Kept w e (λ y. InTime y.run) p
      → terminal (after_pre w e p).0.run.status.phase ≡ true
  unfolding allowed allowed_transitions
  after_pre-terminal (stops x text) h d = h
  after_pre-terminal (goes_on x) h d = elim (Bool-cases (x.run.spec.observed_ref == "")) [
    | inl none_given ↦ rw (none_given, after_pre) (complete-terminal gated _ x refl h d)
    | inr given ↦
        rw (given, after_pre)
          (after_post-terminal (run_steps w e true post_steps x)
            (run_steps-IsEnding true post_steps gated x (refl, (refl, (refl, tt))) h)
            (run_steps-InTime true post_steps x d))
  ]

  begin-terminal :
      (x : Execution) (r : RehearsalRun)
      → phase_eq r.status.phase verifying ≡ false
      → InTime r
      → terminal (begin w e x (ok r)).0.run.status.phase ≡ true
  begin-terminal x r k d =
      let p = run_steps w e false pre_steps (started w e x r) in
      rw (release-phase (after_pre w e p).0.run (holder_of w e)) (
        after_pre-terminal p
          (run_steps-IsEnding false pre_steps r.status.phase (started w e x r)
            (k, (refl, (refl, (refl, tt)))) (inl refl))
          (run_steps-InTime false pre_steps (started w e x r) d))

  -- An execution that gets the lease, of a run that is not being verified and whose deadline does not
  -- pass meanwhile, ends with the run in a final phase, whatever the packages answer and whenever the
  -- context is cancelled.
  pub execute-terminal :
      (x : Execution) (r : RehearsalRun)
      → acquire_lease x.run (holder_of w e) (600 * second) (w.clock x.moment) ≡ ok r
      → phase_eq x.run.status.phase verifying ≡ false
      → InTime x.run
      → terminal (execute w e x).0.run.status.phase ≡ true
  unfolding execute
  execute-terminal x r a k d = rw a (
      begin-terminal x r
        (rw (acquire-phase x.run r (holder_of w e) (600 * second) (w.clock x.moment) a) k)
        (λ n.
          rw (acquire-deadline x.run r (holder_of w e) (600 * second) (w.clock x.moment) a) (d n)))
