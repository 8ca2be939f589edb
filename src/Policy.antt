-- ===== src/Policy.antt =====
-- internal/policy/engine.go: the gate rules of an organisation over the facts of an analysis. A text
-- is the list of its code points, for the rules are taken apart. `Load` reads a file and is left out;
-- the numbers of an input are counts. An error is its kind and the text that it quotes.
pub mod Syntax
pub mod Match
pub mod Gate
pub mod Defaults
use architecture_rehearsal.Prelude.{ℕ, Option, none, some, List, [], ◌∷◌, Bool, true, false, codes}

abbrev pub Text : Type 0
Text = List ℕ

pub record Document : Type 0 where
  pub api_version : Text
  pub kind : Text
  pub block : List Text
  pub warn : List Text
  pub unknown_as_block : Option Bool

pub record Input : Type 0 where
  pub risk : Text
  pub decision : Text
  pub rollback : Text
  pub required_missing : ℕ
  pub findings : ℕ
  pub critical_paths : ℕ

pub data Decision : Type 0 where
  approve warn block unknown : Decision

pub record Result : Type 0 where
  pub decision : Decision
  pub matched : List Text

-- A nil document, or an omitted value, blocks.
abbrev pub or_true : Option Bool → Bool
or_true none = true
or_true (some b) = b

unfoldable pub unknown_as_block_effective : Option Document → Bool
unknown_as_block_effective none = true
unknown_as_block_effective (some d) = or_true d.unknown_as_block

abbrev pub default_document : Document
default_document = record {
  api_version = codes "rehearsal.io/v1beta1";
  kind = codes "RehearsalPolicy";
  block =
      codes "risk in [\"critical\",\"high\"]"
      ∷ codes "decision == \"block\""
      ∷ codes "rollback == \"unavailable\""
      ∷ codes "requiredMissing > 0"
      ∷ [];
  warn = codes "risk == \"medium\"" ∷ codes "decision == \"warn\"" ∷ [];
  unknown_as_block = some true;
}
