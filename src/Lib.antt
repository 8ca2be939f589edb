-- ===== src/Lib.antt =====
-- The core of architecture-rehearsal: a control plane that rehearses infrastructure changes. A
-- client creates a run; the run moves through its phases while workers lease jobs and execute it;
-- detectors judge the change on the architecture graph; the gate aggregates their verdicts, a policy
-- decides over them, and the PreSync hook turns the decision into an exit code that lets Argo CD
-- sync or not.
--
-- Parts, with the paths of the repository:
--   Prelude       names of the libraries, tests, list functions, dictionaries and texts
--   Run           internal/run/lifecycle.go: the run record and the table of phases; Run/Lifecycle has
--                 NewRun (new_run), Transition, AcquireLease and ReleaseLease; Run/History, Run/Ends and
--                 Run/Leases reason on sequences of these calls
--   Engine        internal/run/engine.go: ExecuteContext (execute in Engine/Execute) with its steps
--                 (Engine/Steps before the deployment, Engine/Observe after it); the packages that it
--                 calls are the record World of their answers
--   Jobs          internal/persist/store.go and ops.go: the table of jobs; Jobs/Queue has Enqueue,
--                 ClaimJob, RenewLease, CompleteJob, FailJob and CancelJobsForRun, Jobs/Tenants GetJob,
--                 ListJobs, RetryJob, CancelJob and JobStats; Jobs/Rows puts the calls of all workers and
--                 tenants in any order, and the other modules there reason on such sequences
--   RunTable      internal/persist/store.go and ops.go: the table of runs, with CreateRun, UpdateRun and
--                 PutRun; RunTable/Versions reasons on its optimistic versions
--   Worker        internal/persist/worker.go: tick on the queue, the engine and the table of runs, with
--                 the calls of others between a worker's own
--   Chain         internal/chain/chain.go: the evidence chain (build, verify_chain) and its digests
--                 (compute_digest of internal/contract/digest.go, semantic_digest of internal/analyze/analyze.go)
--   Analyze       internal/analyze: from the findings to the decision (decide)
--   Scenario      internal/scenario: RunAll (run_all) and the default runners: rwo_node_loss.go and
--                 volume_az.go in Scenario/Storage, service_routing.go and pdb_disruption.go in
--                 Scenario/Traffic, cni_capacity.go in Scenario/Capacity, prom_zero_match.go in
--                 Scenario/Prometheus
--   Impact        internal/impact: the verdicts and their aggregation (Impact/Gate, types.go and gate.go),
--                 Run over the detectors (Impact/Run) and the detectors: pdb.go in Impact/Pdb, its first
--                 loop, Impact/Budgets, the whole, and Impact/Unavailable, the numbers of pods; netpol.go,
--                 blast.go and pvc.go in Impact/Netpol, Impact/Blast and Impact/Pvc
--   Podtemplate   internal/podtemplate/compare.go: the comparison of templates
--   Verify        internal/verify/verify.go: RunWithOptions (Verify/Operation) with the checks of the
--                 scenarios (Verify/Signals, Verify/Measures, Verify/Scenarios), of the change
--                 (Verify/Identity) and the outcome (Verify/Judge)
--   Presync       internal/presync/decision.go: the hook's decision, override and exit code, and what
--                 cmd/rehearsal/argo_presync.go makes of them (run_presync)
--   Calibrate     internal/calibrate/calibrate.go: the counters of predictions
--   Authz, Rbac   internal/authz/authz.go and internal/rbac/rbac.go: who may do what
--   Memory        internal/api/memory_backend.go: the backend without a database
--   Graph         internal/graph/types.go and traverse.go: the graph, its index (build_index) and its
--                 walks (Graph/Walk); Graph/Validate is internal/validate/validate.go
--   Loader        internal/loader/loader.go: ApplyChange (apply_change), which makes the proposed graph
--   Policy        internal/policy/engine.go: the syntax of a rule (Policy/Syntax), validateExpr and match
--                 (Policy/Match) and Evaluate (Policy/Gate)
--   Tests         concrete inputs
--
-- State is passed explicitly: an operation takes the run, the table or the backend and returns the
-- new one, an error is a value, and a refused call leaves the state as it was. The clock reading of
-- a call is an argument. A concurrent use is a sequence of whole calls, for a method runs in one SQL
-- statement or transaction, or under a lock; Enqueue, PutRun and FailJob are two statements each,
-- and a call of another worker between the two is not modelled. Go maps are association lists and
-- slices are lists. Numbers are natural numbers: the counters only grow by one, and no limit of a
-- machine word is modelled there; the integer of a policy rule is scanned with its 64 bits, and the
-- share of pods of a rollout has the int of 64 bits of amd64, with its wrap-around.
--
-- Parameters stand for what is not in the repository or has no meaning here: the order of stamps in
-- SQL (`stamp_lt`), `strings.ToUpper` and `strings.ToLower` on single runes, float64 division in the
-- rates, the printing of numbers and quoted texts, SHA-256 and encoding/json under the digests of
-- artifacts, and the
-- decoding of a job's payload. A walk of the graph runs on fuel, one unit for each seed and each
-- edge: a node joins the queue as a seed or over an edge whose end is marked then.
--
-- Not modelled: the SQL methods on other tables than jobs and runs, the detector of capacity
-- (internal/impact/scheduling.go), the coverage and the report around the decision
-- (internal/analyze/analyze.go), the signing of evidence, the compilers of changes, and everything
-- that is input and output (HTTP, Kubernetes, Argo CD, files, signatures).
pub mod Prelude
pub mod Run
pub mod Jobs
pub mod Impact
pub mod Presync
pub mod Calibrate
pub mod Authz
pub mod Rbac
pub mod RunTable
pub mod Worker
pub mod Chain
pub mod Loader
pub mod Analyze
pub mod Memory
pub mod Graph
pub mod Policy
pub mod Engine
pub mod Scenario
pub mod Podtemplate
pub mod Verify
pub mod Tests
