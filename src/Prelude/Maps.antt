-- ===== src/Prelude/Maps.antt =====
-- Dictionaries keyed by texts, as association lists: Go's `m[k]`, `m[k] = v`.
use Prim.Native.String.{String}
use mathlib.Core.Path.{◌≡◌, refl}
use mathlib.Core.Option.{Option, none, some}
use mathlib.Core.List.{List, [], ◌∷◌}
use native.Mathlib.Omega.{arith}
use text.Mathlib.Text.{◌==◌}
use text.Mathlib.TextEquality.{eq_iff}
use architecture_rehearsal.Prelude.Tests.{if◌then◌else◌}

module _ {ℓ} {V : Type ℓ} where
  unfoldable pub lookup : String → List (String × V) → Option V
  lookup key [] = none
  lookup key (entry ∷ rest) = if entry.0 == key then some entry.1 else lookup key rest

  unfoldable pub insert : String → V → List (String × V) → List (String × V)
  insert key value [] = (key, value) ∷ []
  insert key value (entry ∷ rest) =
      if entry.0 == key then (key, value) ∷ rest else entry ∷ insert key value rest

  -- A write is read back, and changes nothing else.
  pub lookup-insert :
      (written read : String) (value : V) (entries : List (String × V))
      → lookup read (insert written value entries)
        ≡ (if written == read then some value else lookup read entries)
  unfolding lookup insert
  lookup-insert written read value [] = refl
  lookup-insert written read value (entry ∷ rest) = ground (
    arith,
    lookup-insert written read value rest,
    eq_iff written read,
    eq_iff entry.0 read,
    eq_iff entry.0 written,
  )

-- `m[k]` of a map of strings: the zero value on a missing key.
abbrev pub or_empty : Option String → String
or_empty none = ""
or_empty (some s) = s
