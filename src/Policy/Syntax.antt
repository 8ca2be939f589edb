-- ===== src/Policy/Syntax.antt =====
-- What the rules of internal/policy/engine.go use of package strings, and `fmt.Sscanf` with "%d".
use architecture_rehearsal.Prelude.{
  ℕ, zero, suc, ◌+◌, ◌-◌, ◌*◌, ◌^◌, Option, none, some, List, [], ◌∷◌, Bool, true, false, ◌&&◌,
  ◌||◌, leb, ltb, eqb, length, if◌then◌else◌, trim_left, has_prefix,
}
use mathlib.Core.List.{reverse}
use architecture_rehearsal.Policy.{Text}

abbrev pub drop : ℕ → Text → Text
drop zero t = t
drop (suc n) [] = []
drop (suc n) (c ∷ t) = drop n t

abbrev pub suc_option : Option ℕ → Option ℕ
suc_option none = none
suc_option (some n) = some (suc n)

-- `strings.Index` of one character; `none` is -1.
unfoldable pub index_of : ℕ → Text → Option ℕ
index_of c [] = none
index_of c (d ∷ t) = let rest = index_of c t in if eqb d c then some 0 else suc_option rest

-- `strings.SplitN(t, sep, 2)` of a text that contains the separator.
unfoldable pub split_two : Text → Text → Text × Text
split_two sep [] = ([], [])
split_two sep (c ∷ t) =
    let rest = split_two sep t in
    if has_prefix (c ∷ t) sep then ([], drop (length sep) (c ∷ t)) else (c ∷ rest.0, rest.1)

abbrev cons_first : ℕ → List Text → List Text
cons_first c [] = (c ∷ []) ∷ []
cons_first c (t ∷ ts) = (c ∷ t) ∷ ts

-- `strings.Split` at one character.
unfoldable pub split : ℕ → Text → List Text
split sep [] = [] ∷ []
split sep (c ∷ t) = let rest = split sep t in if eqb c sep then [] ∷ rest else cons_first c rest

abbrev is_quote : ℕ → Bool
is_quote c = eqb c b'"' || eqb c b'\''

abbrev drop_quotes : Text → Text
drop_quotes [] = []
drop_quotes (c ∷ t) = let rest = drop_quotes t in if is_quote c then rest else c ∷ t

-- `strings.Trim(t, "\"'")`
unfoldable pub trim_quotes : Text → Text
trim_quotes t = reverse (drop_quotes (reverse (drop_quotes t)))

abbrev is_digit : ℕ → Bool
is_digit c = leb b'0' c && leb c b'9'

-- The number that the leading digits spell, after those read before.
abbrev digits : ℕ → Text → ℕ
digits acc [] = acc
digits acc (c ∷ t) = let rest = digits (acc * 10 + (c - b'0')) t in if is_digit c then rest else acc

abbrev starts_with_digit : Text → Bool
starts_with_digit [] = false
starts_with_digit (c ∷ t) = is_digit c

-- A scanned `int`: `minus n` is -n.
pub data Scanned : Type 0 where
  plus minus : ℕ → Scanned

-- The number of 64 bits after a sign; out of its range, or without a digit, there is an error.
abbrev unsigned : Text → Option Scanned
unsigned t =
    if starts_with_digit t && ltb (digits 0 t) (2 ^ 63) then some (plus (digits 0 t)) else none

abbrev negative : Text → Option Scanned
negative t =
    if starts_with_digit t && leb (digits 0 t) (2 ^ 63) then some (minus (digits 0 t)) else none

abbrev signed : Text → Option Scanned
signed [] = none
signed (c ∷ t) =
    if eqb c b'-' then negative t else if eqb c b'+' then unsigned t else unsigned (c ∷ t)

unfoldable pub scan_int : Text → Option Scanned
scan_int t = signed (trim_left t)

-- `count > n`
abbrev pub exceeds : ℕ → Scanned → Bool
exceeds count (plus n) = ltb n count
exceeds count (minus zero) = ltb 0 count
exceeds count (minus (suc n)) = true
