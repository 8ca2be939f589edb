-- ===== src/Tests/Runs.antt =====
-- The lifecycle of a run (internal/run/lifecycle.go) on concrete runs.
use architecture_rehearsal.Prelude.{◌≡◌, ne-==, ◌≤◌, ◌+◌, refl, arith, length, List, [], ◌∷◌}
use architecture_rehearsal.Run.{collecting, compiling, cancelled, Spec, RehearsalRun}
use architecture_rehearsal.Run.Lifecycle.{Result, ok, err, lease_held, new_run, acquire_lease}
use architecture_rehearsal.Run.History.{
  Call, moves, acquires, releases, run_calls, IsRecorded, run_calls-history,
}
use architecture_rehearsal.Run.Ends.{late_calls_stop, IsStopped}
use architecture_rehearsal.Run.Leases.{acquire_lease_exclusive}

abbrev pub demo_spec : Spec
demo_spec = record {
  cluster_name = "kind";
  baseline_ref = "baseline.json";
  change_ref = "change.json";
  observed_ref = "";
  scenarios = "node-drain" ∷ [];
  gate = record { block_on = []; warn_on = [] };
  policy_path = "";
  out_dir = "out";
  timeout_seconds = 60;
}

abbrev fresh : RehearsalRun
fresh = new_run "run-1" "key-1" demo_spec 5

abbrev drive : List Call
drive =
    acquires "worker-a" 10 6
    ∷ moves collecting "collect" 7
    ∷ moves compiling "compile" 8
    ∷ moves cancelled "stop" 9
    ∷ moves compiling "again" 10
    ∷ []

run_calls-history_example :
    IsRecorded (run_calls fresh drive) × (length (run_calls fresh drive).status.history ≤ 9)
run_calls-history_example = run_calls-history "run-1" "key-1" demo_spec 5 drive

abbrev stopped : RehearsalRun
stopped = run_calls fresh drive

late_calls_stop_example :
    IsStopped fresh.status.phase
      (run_calls fresh (moves collecting "late" 100000000000 ∷ releases "x" ∷ [])).status.phase
unfolding new_run
late_calls_stop_example =
    late_calls_stop fresh (moves collecting "late" 100000000000 ∷ releases "x" ∷ []) 60000000005
      refl (omega arith, (tt, tt))

abbrev leased_run : Result RehearsalRun → RehearsalRun
leased_run (ok r) = r
leased_run (err e) = fresh

abbrev held_run : RehearsalRun
held_run = leased_run (acquire_lease fresh "worker-a" 10 6)

acquire_lease_exclusive_example :
    acquire_lease
      (run_calls held_run (moves collecting "go" 7 ∷ acquires "worker-b" 5 8 ∷ []))
      "worker-b"
      20
      15
    ≡ err (lease_held (record { holder = "worker-a"; expires_at = 6 + 10 }))
unfolding new_run acquire_lease
acquire_lease_exclusive_example =
    acquire_lease_exclusive fresh held_run "worker-a" "worker-b" 10 6 15 20
      (moves collecting "go" 7 ∷ acquires "worker-b" 5 8 ∷ []) refl
      (tt, ((ne-== "worker-b" "worker-a" refl, omega arith), tt)) (ne-== "worker-b" "worker-a" refl)
      (omega arith)
