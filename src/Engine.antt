-- ===== src/Engine.antt =====
-- internal/run/engine.go: the engine that drives a run from its baseline to its verification. The
-- packages that it calls (loader, analyze, policy.Load, verify, chain) and the file system are the
-- record `World` of their answers, over types of snapshots and changes; of a report and of a
-- verification it has the fields that the engine reads. Writing the artifacts and signing them changes
-- nothing that the engine reads, but for the saved report: what reading that file gives is the
-- world's answer too. The clock and the context are read at moments, which every transition moves on.
pub mod Steps
pub mod Observe
pub mod Execute
pub mod Kept
pub mod Refines
pub mod Ends
pub mod Late
pub mod Escalates
use architecture_rehearsal.Prelude.{ℕ, String, Option, List, Bool}
use architecture_rehearsal.Run.{RehearsalRun}
use architecture_rehearsal.Run.Lifecycle.{RunError}
use architecture_rehearsal.Policy.{Document, Text}
use architecture_rehearsal.Calibrate.{Outcome}

-- A result of a package that may fail with an error's text.
pub data Loaded {ℓ} (A : Type ℓ) : Type ℓ where
  loaded : A → Loaded A
  refused : String → Loaded A

-- What the engine reads of `analyze.Report`; `required_missing` is `len(Coverage.RequiredMissing)`.
pub record Report : Type 0 where
  pub decision : String
  pub risk : String
  pub summary : String
  pub predicted_failures : List String
  pub baseline_digest : String
  pub change_digest : String
  pub proposed_digest : String
  pub semantic_digest : String
  pub required_missing : ℕ

pub record Check : Type 0 where
  pub name : String
  pub passed : Bool
  pub unknown : Bool

-- What the engine reads of `verify.Result`; `score` is printed with "%.2f".
pub record Verification : Type 0 where
  pub outcome : String
  pub score : String
  pub summary : String
  pub observed_digest : String
  pub report_digest : String
  pub checks : List Check

pub record World (Snap Chg : Type 0) : Type 0 where
  pub stat : String → Option String
  pub load_snapshot : String → Loaded Snap
  pub load_change : String → Loaded Chg
  pub analyze : Snap → Chg → Loaded Report
  pub load_policy : String → Loaded Document
  pub saved_report : String → Option Report
  pub verify : Report → Snap → Snap → Chg → Verification
  pub digest_of : Verification → String
  pub build_chain : Snap → Chg → Report → Snap → Verification → Option String
  pub check_chain : Snap → Chg → Report → Snap → Verification → Option String
  pub is_abs : String → Bool
  pub join : String → String → String
  pub show_texts : List Text → String
  pub error_text : RunError → String
  pub clock : ℕ → ℕ
  pub context : ℕ → Option String

-- `Engine`; `calibrated` says whether a calibration store is set.
pub record Engine : Type 0 where
  pub work_dir : String
  pub holder : String
  pub calibrated : Bool

-- A run in execution: the outcomes given to the calibration store, and the moment.
pub record Execution : Type 0 where
  pub run : RehearsalRun
  pub outcomes : List Outcome
  pub moment : ℕ

abbrev pub with_run : Execution → RehearsalRun → Execution
with_run x r = record x { run = r }
