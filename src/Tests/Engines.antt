-- ===== src/Tests/Engines.antt =====
-- The engine of internal/run/engine.go in a concrete world.
use architecture_rehearsal.Prelude.{
  ℕ, ◌*◌, ◌≡◌, refl, none, some, [], ◌∷◌, true, false, concat, text_eq,
}
use architecture_rehearsal.Run.{RehearsalRun, gated, terminal}
use architecture_rehearsal.Run.Lifecycle.{new_run, transition, acquire_lease, second}
use architecture_rehearsal.Run.History.{after}
use architecture_rehearsal.Policy.{Document}
use architecture_rehearsal.Policy.Gate.{evaluate}
use architecture_rehearsal.Engine.{loaded, Report, Verification, World, Engine, Execution}
use architecture_rehearsal.Engine.Execute.{
  Progress, goes_on, stops, execute, run_steps, pre_steps, started,
}
use architecture_rehearsal.Engine.Refines.{Reaches, execute-refines}
use architecture_rehearsal.Engine.Ends.{execute-terminal}
use architecture_rehearsal.Engine.Late.{execute-late}
use architecture_rehearsal.Tests.Runs.{demo_spec}

abbrev analysis : Report
analysis = record {
  decision = "approve";
  risk = "low";
  summary = "fine";
  predicted_failures = "node-drain" ∷ [];
  baseline_digest = "b";
  change_digest = "c";
  proposed_digest = "p";
  semantic_digest = "s";
  required_missing = 0;
}

abbrev checked : Verification
checked = record {
  outcome = "verified";
  score = "1.00";
  summary = "as predicted";
  observed_digest = "o";
  report_digest = "s";
  checks = record { name = "scenario:node-drain"; passed = true; unknown = false } ∷ [];
}

abbrev rules : Document
rules = record { api_version = []; kind = []; block = []; warn = []; unknown_as_block = none }

abbrev pub world : World ℕ ℕ
world = record {
  stat = λ name. none;
  load_snapshot = λ name. loaded 1;
  load_change = λ name. loaded 2;
  analyze = λ base change. loaded analysis;
  load_policy = λ name. loaded rules;
  saved_report = λ name. some analysis;
  verify = λ rep obs base change. checked;
  digest_of = λ v. "v";
  build_chain = λ base change rep obs v. none;
  check_chain = λ base change rep obs v. none;
  is_abs = λ name. false;
  join = λ dir name. concat (dir ∷ "/" ∷ name ∷ []);
  show_texts = λ texts. "[]";
  error_text = λ refusal. "refused";
  clock = λ n. n;
  context = λ n. none;
}

abbrev engine : Engine
engine = record { work_dir = "work"; holder = ""; calibrated = true }

abbrev pub offline : RehearsalRun
offline = record (new_run "run-1" "key-1" demo_spec 0) {
  spec = record demo_spec { observed_ref = "observed.json" };
}

abbrev at_start : RehearsalRun → Execution
at_start r = record { run = r; outcomes = []; moment = 0 }

execute-refines_example : Reaches offline (execute world engine (at_start offline)).0.run
execute-refines_example = execute-refines world engine (at_start offline)

-- The run without a deadline.
abbrev unbounded : RehearsalRun
unbounded = record offline { status = record (offline.status) { deadline = none } }

abbrev leased : RehearsalRun → RehearsalRun
leased r = after r (acquire_lease r "local-runner" (600 * second) 0)

execute-terminal_example :
    terminal (execute world engine (at_start unbounded)).0.run.status.phase ≡ true
unfolding new_run acquire_lease
execute-terminal_example =
    execute-terminal world engine (at_start unbounded) (leased unbounded) refl refl (λ n. refl)

-- The run without an observation, whose deadline passes after the gate.
abbrev hurried : RehearsalRun
hurried = record (new_run "run-2" "key-2" demo_spec 0) {
  status = record ((new_run "run-2" "key-2" demo_spec 0).status) { deadline = some 4 };
}

abbrev reached : Execution → Progress → Execution
reached x (goes_on y) = y
reached x (stops y text) = x

abbrev at_gate : Execution
at_gate = reached (at_start hurried) (
    run_steps world engine false pre_steps
      (started world engine (at_start hurried) (leased hurried)))

execute-late_example :
    ((execute world engine (at_start hurried)).1 ≡ none)
    × ((execute world engine (at_start hurried)).0.run.status.phase ≡ gated)
unfolding new_run acquire_lease run_steps transition evaluate text_eq
execute-late_example =
    execute-late world engine (at_start hurried) at_gate (leased hurried) refl refl refl refl refl

abbrev approved : RehearsalRun
approved = record offline {
  status = record (offline.status) { decision = "approve"; risk = "low" };
}
