-- ===== src/Tests.antt =====
-- Concrete inputs: the runs, jobs, reports, backends and graphs on which the theorems are applied.
mod Runs
mod Engines
mod Workers
mod Detectors
mod Chains
mod Queues
mod Gates
mod Tenants
mod Graphs
mod Verifications
mod Detections
mod Scenarios
