-- ===== src/Impact.antt =====
-- internal/impact/types.go and internal/impact/gate.go: the detectors' verdicts and the gate that
-- aggregates them. A status is a string, as in the source, where any value may occur.
pub mod Gate
pub mod Severity
pub mod FailClosed
pub mod Unavailable
pub mod Pdb
pub mod PdbOrder
pub mod PdbBounds
pub mod Context
pub mod Run
pub mod Agree
pub mod Budgets
pub mod BudgetSteps
pub mod BudgetsPass
pub mod Netpol
pub mod NetpolSteps
pub mod NetpolDependencies
pub mod NetpolCuts
pub mod Blast
pub mod Pvc
pub mod PvcZones
use architecture_rehearsal.Prelude.{ℕ, String, List, Bool}

pub record Verdict : Type 0 where
  pub detector : String
  pub status : String
  pub explanation : String
  pub confidence : String
  pub evidence : List String
  pub affected : List String
  pub missing : List String

pub record Report : Type 0 where
  pub app_name : String
  pub change_id : String
  pub revision : String
  pub verdict : String
  pub detectors : List Verdict
  pub affected : List String
  pub predicted : List String
  pub missing : List String
  pub confidence : String
  pub summary : String
  pub analyze_decision : String
  pub analyze_risk : String
