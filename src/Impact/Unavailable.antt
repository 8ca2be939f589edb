-- ===== src/Impact/Unavailable.antt =====
-- How many pods a rollout or a disruption may take down (internal/impact/pdb.go), with the int of 64 bits
-- of amd64. A percentage is computed exactly: so is Go's float64, while the product of the replicas and
-- the percentage is below 2 ^ 53. A float64 out of the range of int is converted to the least int. The
-- replicas themselves are below 2 ^ 63.
use architecture_rehearsal.Prelude.{
  ℕ, zero, suc, ◌+◌, ◌-◌, ◌*◌, ◌^◌, ◌/◌, String, Option, none, some, List, [], ◌∷◌, map, Bool, true,
  false, not, ◌&&◌, ◌==◌, leb, ltb, eqb, codes, text_eq, ascii_upper, if◌then◌else◌,
}
use mathlib.Core.List.{reverse}
use architecture_rehearsal.Graph.{Node, ℤ, pos, negsuc, attr_string, attr_int}

-- The digits of a number, all of the text up to a digit at which the number does not fit in 64 bits,
-- where the scan stops and gives the greatest number.
abbrev digits : ℕ → List ℕ → Option ℕ
digits acc [] = some acc
digits acc (c ∷ t) =
    let next = acc * 10 + (c - b'0') in
    let rest = digits next t in
    if not (leb b'0' c && leb c b'9')
    then none
    else if leb (2 ^ 64) next
    then some (2 ^ 64 - 1)
    else rest

abbrev pub all_digits : List ℕ → Option ℕ
all_digits [] = none
all_digits (c ∷ t) = digits 0 (c ∷ t)

abbrev pub negated : ℕ → ℤ
negated zero = pos 0
negated (suc n) = negsuc n

-- A number of 64 bits: out of its range, `strconv.Atoi` gives the nearest one beside its error.
abbrev positive : Option ℕ → ℤ
positive none = pos 0
positive (some n) = pos (if ltb n (2 ^ 63) then n else 2 ^ 63 - 1)

abbrev negative : Option ℕ → ℤ
negative none = pos 0
negative (some n) = negated (if leb n (2 ^ 63) then n else 2 ^ 63)

-- `v, _ := strconv.Atoi(t)`; other errors give 0.
unfoldable pub atoi : List ℕ → ℤ
atoi [] = pos 0
atoi (c ∷ t) =
    if eqb c b'-'
    then negative (all_digits t)
    else if eqb c b'+'
    then positive (all_digits t)
    else positive (all_digits (c ∷ t))

abbrev pub least_int : ℤ
least_int = negsuc (2 ^ 63 - 1)

-- `int(x)` of a float64 without a fraction.
abbrev pub to_int : ℤ → ℤ
to_int (pos n) = if ltb n (2 ^ 63) then pos n else least_int
to_int (negsuc n) = if ltb n (2 ^ 63) then negsuc n else least_int

-- `int` of `math.Floor` of `replicas * p / 100`.
unfoldable pub floor_percent : ℕ → ℤ → ℤ
floor_percent replicas (pos p) = to_int (pos ((replicas * p) / 100))
floor_percent replicas (negsuc n) = to_int (negated ((replicas * suc n + 99) / 100))

-- An int that is only used if it is positive: 0 stands for the least one.
abbrev pub if_int : ℕ → ℕ
if_int n = if ltb n (2 ^ 63) then n else 0

-- `int` of `math.Ceil` of `replicas * p / 100`.
unfoldable pub ceil_percent : ℕ → ℕ → ℕ
ceil_percent replicas p = if_int ((replicas * p + 99) / 100)

-- The text without a last "%", if it has one.
abbrev pub percent_of : List ℕ → Option (List ℕ)
percent_of [] = none
percent_of (c ∷ t) = if eqb c b'%' then some (reverse t) else none

abbrev at_least_0 : ℤ → ℤ
at_least_0 (pos n) = pos n
at_least_0 (negsuc n) = pos 0

abbrev pub parse_value : Option (List ℕ) → List ℕ → ℕ → ℤ
parse_value none t replicas = at_least_0 (atoi t)
parse_value (some p) t replicas = floor_percent replicas (atoi p)

unfoldable pub parse_max_unavailable : String → ℕ → ℤ
unfolding atoi floor_percent
parse_max_unavailable ms replicas =
    if ms == ""
    then pos (replicas / 4)
    else parse_value (percent_of (reverse (codes ms))) (codes ms) replicas

-- `strings.EqualFold(s, "Recreate")`: no other letters fold to these.
abbrev is_recreate : String → Bool
is_recreate s = text_eq (map ascii_upper (codes s)) (codes "RECREATE")

unfoldable pub rollout_max_unavailable : Option Node → ℕ → ℤ × Bool
unfolding parse_max_unavailable
rollout_max_unavailable w replicas =
    if is_recreate (attr_string w "strategyType")
    then (pos replicas, true)
    else (parse_max_unavailable (attr_string w "maxUnavailable") replicas, false)

abbrev positive_part : ℤ → ℕ
positive_part (pos n) = n
positive_part (negsuc n) = 0

-- A share of the replicas if the percentage is positive, and otherwise the number.
abbrev or_number : (ℕ → ℕ) → ℕ → ℤ → ℤ → ℕ
or_number share replicas (pos (suc p)) n = if ltb 0 replicas then share (suc p) else positive_part n
or_number share replicas _ n = positive_part n

unfoldable pub effective_min_available : Option Node → ℕ → ℕ
unfolding ceil_percent
effective_min_available none replicas = 0
effective_min_available (some pdb) replicas =
    or_number (ceil_percent replicas) replicas (attr_int (some pdb) "minAvailablePercent")
      (attr_int (some pdb) "minAvailable")

unfoldable pub effective_max_unavailable : Option Node → ℕ → ℕ
effective_max_unavailable none replicas = 0
effective_max_unavailable (some pdb) replicas =
    or_number (λ p. if_int ((replicas * p) / 100)) replicas
      (attr_int (some pdb) "maxUnavailablePercent") (attr_int (some pdb) "maxUnavailable")

-- `remaining <= 0`, where `remaining` is the replicas less those that may be unavailable: a difference
-- of 2 ^ 63 or more wraps around to a negative int.
unfoldable pub none_remain : ℕ → ℤ → Bool
none_remain replicas (pos n) = leb replicas n
none_remain replicas (negsuc n) = leb (2 ^ 63) (replicas + suc n)
