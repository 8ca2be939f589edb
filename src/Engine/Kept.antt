-- ===== src/Engine/Kept.antt =====
-- What the steps of the engine (internal/run/engine.go) leave as it is, and the induction over its
-- loops.
use architecture_rehearsal.Prelude.{
  ap, lookup, insert, or_empty, lookup-insert, ◌≡◌, refl, ◌∙◌, String, some, List, [], ◌∷◌, ◌++◌,
  Bool, ◌&&◌, arith, Bool-cases, Option-cases, inl, inr, ◌⊎◌,
}
use architecture_rehearsal.Run.{RehearsalRun, Phase, terminal}
use architecture_rehearsal.Run.Lifecycle.{Result, ok, err, RunError, transition}
use architecture_rehearsal.Policy
use architecture_rehearsal.Policy.Gate.{evaluate}
use architecture_rehearsal.Engine.{
  Loaded, loaded, refused, Report, Verification, World, Engine, Execution,
}
use architecture_rehearsal.Engine.Steps.{
  move, step_rehearse, step_gate, rehearsed, escalated, noted, load_inputs, path, gate_input,
}
use architecture_rehearsal.Engine.Observe.{
  step_verify, verified, chained, conclude, calibrate, verify_chain, verify_observed, verify_with,
  verify_on,
}
use architecture_rehearsal.Engine.Execute.{
  Stage, collect, compile, rehearse, gate, pass, observe, verify, Progress, goes_on, stops, perform,
  run_steps,
}

Loaded-cases {ℓ} :
    {A : Type ℓ} (l : Loaded A)
    → ((text : String) × (l ≡ refused text)) ⊎ ((a : A) × (l ≡ loaded a))
Loaded-cases (loaded a) = inr (a, refl)
Loaded-cases (refused text) = inl (text, refl)

pub Result-cases {ℓ} :
    {A : Type ℓ} (l : Result A) → ((e : RunError) × (l ≡ err e)) ⊎ ((a : A) × (l ≡ ok a))
Result-cases (ok a) = inr (a, refl)
Result-cases (err e) = inl (e, refl)

-- The parts of a run that its lifecycle calls read and write are the same, and its key and version.
abbrev pub IsAlike : RehearsalRun → RehearsalRun → Type 0
IsAlike r s =
    (r.status.phase ≡ s.status.phase)
    × (r.status.history ≡ s.status.history)
    × (r.status.deadline ≡ s.status.deadline)
    × (r.status.lease ≡ s.status.lease)
    × (r.id ≡ s.id)
    × (r.version ≡ s.version)
    × (or_empty (lookup "org" r.labels) ≡ or_empty (lookup "org" s.labels))

pub IsAlike-trans : (r s t : RehearsalRun) → IsAlike r s → IsAlike s t → IsAlike r t
IsAlike-trans r s t h k =
    (h.0 ∙ k.0, h.1 ∙ k.1, h.2 ∙ k.2, h.3 ∙ k.3, h.4 ∙ k.4, h.5 ∙ k.5, h.6 ∙ k.6)

module _ {Snap Chg : Type 0} (w : World Snap Chg) (e : Engine) where
  escalated-IsAlike : (r : RehearsalRun) (res : Policy.Result) → IsAlike (escalated w e r res) r
  unfolding escalated
  escalated-IsAlike r res = ground arith

  noted-IsAlike : (r : RehearsalRun) → IsAlike (noted w e r) r
  unfolding noted
  noted-IsAlike r = ground arith

  rehearsed-org :
      (r : RehearsalRun) (rep : Report)
      → or_empty (lookup "org" (rehearsed w e r rep).labels) ≡ or_empty (lookup "org" r.labels)
  unfolding rehearsed
  rehearsed-org r rep = ap or_empty (
      lookup-insert "_reportPath" "org" _ (insert "_semanticDigest" rep.semantic_digest r.labels)
      ∙ lookup-insert "_semanticDigest" "org" rep.semantic_digest r.labels)

  step_rehearse-IsAlike : (r : RehearsalRun) → IsAlike (step_rehearse w e r).0 r
  unfolding step_rehearse rehearsed
  step_rehearse-IsAlike r = elim (Loaded-cases (load_inputs w e r)) [
    | inl (text, f) ↦ rw f (refl, refl, refl, refl, refl, refl, refl)
    | inr (inputs, f) ↦ rw f (elim (Loaded-cases (w.analyze inputs.0 inputs.1)) [
      | inl (text, g) ↦ rw g (refl, refl, refl, refl, refl, refl, refl)
      | inr (rep, g) ↦ rw g (refl, refl, refl, refl, refl, refl, rehearsed-org r rep)
    ])
  ]

  step_gate-IsAlike : (r : RehearsalRun) → IsAlike (step_gate w e r).0 r
  unfolding step_gate
  step_gate-IsAlike r = elim (Loaded-cases (w.load_policy (path w e r.spec.policy_path))) [
    | inl (text, f) ↦ rw f (refl, refl, refl, refl, refl, refl, refl)
    | inr (doc, f) ↦ rw f (
        let s = escalated w e r (evaluate (some doc) (gate_input w e r)) in
        IsAlike-trans (noted w e s) s r (noted-IsAlike s)
          (escalated-IsAlike r (evaluate (some doc) (gate_input w e r))))
  ]

  abbrev charged : Execution → Snap × Chg → Report → Snap → Verification → Execution
  charged x inputs rep obs v = record x {
    run = chained w e (verified w e x.run v) (w.check_chain inputs.0 inputs.1 rep obs v);
    outcomes = x.outcomes ++ calibrate w e rep v;
  }

  -- The verification only writes beside the lifecycle, and concludes.
  module _ (P : RehearsalRun → Type 0) (x : Execution)
      (beside : (r : RehearsalRun) → IsAlike r x.run → P r)
      (concluded : (y : Execution) (v : Verification)
        → IsAlike y.run x.run
        → P (conclude w e y v).run) where
    verify_chain-elim :
        (inputs : Snap × Chg) (rep : Report) (obs : Snap) (v : Verification)
        → P (verify_chain w e x inputs rep obs v).0.run
    unfolding verified chained
    verify_chain-elim inputs rep obs v =
        elim (Option-cases (w.build_chain inputs.0 inputs.1 rep obs v)) [
          | inr (text, f) ↦
              rw (f, verify_chain)
                (beside (verified w e x.run v) (refl, refl, refl, refl, refl, refl, refl))
          | inl f ↦
              rw (f, verify_chain)
                (concluded (charged x inputs rep obs v) v
                  (refl, refl, refl, refl, refl, refl, refl))
        ]

    verify_observed-elim :
        (inputs : Snap × Chg) (rep : Report) (obs : Loaded Snap)
        → P (verify_observed w e x inputs rep obs).0.run
    verify_observed-elim inputs rep (refused text) =
        beside x.run (refl, refl, refl, refl, refl, refl, refl)
    verify_observed-elim inputs rep (loaded obs) = verify_chain-elim inputs rep obs _

    verify_with-elim :
        (inputs : Snap × Chg) (rep : Loaded Report) → P (verify_with w e x inputs rep).0.run
    verify_with-elim inputs (refused text) = beside x.run (refl, refl, refl, refl, refl, refl, refl)
    verify_with-elim inputs (loaded rep) = verify_observed-elim inputs rep _

    verify_on-elim : (inputs : Loaded (Snap × Chg)) → P (verify_on w e x inputs).0.run
    verify_on-elim (refused text) = beside x.run (refl, refl, refl, refl, refl, refl, refl)
    verify_on-elim (loaded inputs) = verify_with-elim inputs _

    pub step_verify-elim : P (step_verify w e x).0.run
    unfolding step_verify
    step_verify-elim = verify_on-elim (load_inputs w e x.run)

  -- So do the other stages.
  pub perform-elim :
      (P : RehearsalRun → Type 0) (stage : Stage) (x : Execution)
      → ((r : RehearsalRun) → IsAlike r x.run → P r)
      → ((y : Execution) (v : Verification) → IsAlike y.run x.run → P (conclude w e y v).run)
      → P (perform w e stage x).0.run
  unfolding perform
  perform-elim P collect x b c = b x.run (refl, refl, refl, refl, refl, refl, refl)
  perform-elim P compile x b c = b x.run (refl, refl, refl, refl, refl, refl, refl)
  perform-elim P rehearse x b c = b (step_rehearse w e x.run).0 (step_rehearse-IsAlike x.run)
  perform-elim P gate x b c = b (step_gate w e x.run).0 (step_gate-IsAlike x.run)
  perform-elim P pass x b c = b x.run (refl, refl, refl, refl, refl, refl, refl)
  perform-elim P observe x b c = b x.run (refl, refl, refl, refl, refl, refl, refl)
  perform-elim P verify x b c = step_verify-elim P x b c

  -- What every move and every stage keeps, a loop of steps keeps.
  abbrev pub Kept : (Execution → Type 0) → Progress → Type 0
  Kept P (goes_on x) = P x
  Kept P (stops x text) = P x

  pub run_steps-Kept :
      (P : Execution → Type 0)
      → ((x : Execution) (to : Phase) (msg : String) → P x → P (move w e x to msg))
      → ((stage : Stage) (x : Execution) → P x → P (perform w e stage x).0)
      → (post : Bool) (steps : List (Phase × Stage × String)) (x : Execution) → P x
      → Kept P (run_steps w e post steps x)
  unfolding run_steps
  run_steps-Kept P m s post [] x h = h
  run_steps-Kept P m s post ((to, stage, msg) ∷ steps) x h =
      elim (Option-cases (w.context x.moment)) [
        | inr (text, f) ↦ rw (f, run_steps) (m x _ _ h)
        | inl f ↦
            rw (f, run_steps)
              (elim (Bool-cases (terminal x.run.status.phase)) [
                | inl t ↦ rw t h
                | inr t ↦ rw t (elim (Result-cases (transition x.run to msg (w.clock x.moment))) [
                  | inl (refusal, g) ↦ rw g (m (move w e x to msg) _ _ (m x to msg h))
                  | inr (r, g) ↦
                      rw g (elim (Option-cases (perform w e stage (move w e x to msg)).1) [
                        | inr (text, k) ↦
                            rw k
                              (elim (Bool-cases (
                                post
                                && terminal
                                    (perform w e stage (move w e x to msg)).0.run.status.phase)) [
                                      | inl b ↦ rw b (s stage _ (m x to msg h))
                                      | inr b ↦ rw b (m _ _ _ (s stage _ (m x to msg h)))
                                    ])
                        | inl k ↦
                            rw k (run_steps-Kept P m s post steps _ (s stage _ (m x to msg h)))
                      ])
                ])
              ])
      ]
