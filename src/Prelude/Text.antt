-- ===== src/Prelude/Text.antt =====
-- What the program uses of Go's package strings, over the code points of a text.
use Prim.Native.Nat.{ℕ, ◌+◌, ◌-◌}
use Prim.Native.Char.{code}
use Prim.Native.String.{String}
use Prim.Native.String
use mathlib.Core.Bool.{Bool, true, false, ◌&&◌, ◌||◌}
use mathlib.Core.List.{List, [], ◌∷◌, ◌++◌, reverse}
use architecture_rehearsal.Prelude.Tests.{leb, eqb, if◌then◌else◌}

-- `String` has its own `[]` and `∷`.
abbrev pub codes : String → List ℕ
codes String.[] = []
codes (String.◌∷◌ c s) = code c ∷ codes s

-- Texts one after the other, as `fmt.Sprintf` puts them.
unfoldable pub concat : List String → String
concat [] = ""
concat (s ∷ ss) = String.◌++◌ s (concat ss)

unfoldable pub text_eq : List ℕ → List ℕ → Bool
text_eq [] [] = true
text_eq (c ∷ cs) (d ∷ ds) = eqb c d && text_eq cs ds
text_eq _ _ = false

-- `unicode.IsSpace`.
unfoldable pub is_space : ℕ → Bool
is_space c =
    (leb 9 c && leb c 13)
    || (eqb c 32
        || (eqb c 0x85
            || (eqb c 0xa0
                || (eqb c 0x1680
                    || ((leb 0x2000 c && leb c 0x200a)
                        || (eqb c 0x2028
                            || (eqb c 0x2029
                                || (eqb c 0x202f || (eqb c 0x205f || eqb c 0x3000)))))))))

unfoldable pub trim_left : List ℕ → List ℕ
unfolding is_space
trim_left [] = []
trim_left (c ∷ cs) = let rest = trim_left cs in if is_space c then rest else c ∷ cs

-- `strings.TrimSpace`.
unfoldable pub trim_space : List ℕ → List ℕ
unfolding trim_left
trim_space t = reverse (trim_left (reverse (trim_left t)))

-- `strings.HasPrefix`.
unfoldable pub has_prefix : List ℕ → List ℕ → Bool
has_prefix t [] = true
has_prefix [] (p ∷ ps) = false
has_prefix (c ∷ cs) (p ∷ ps) = eqb c p && has_prefix cs ps

-- `strings.Contains`.
unfoldable pub contains_text : List ℕ → List ℕ → Bool
unfolding has_prefix
contains_text [] p = has_prefix [] p
contains_text (c ∷ cs) p = has_prefix (c ∷ cs) p || contains_text cs p

-- The ASCII part of `unicode.ToUpper` and `unicode.ToLower`.
unfoldable pub ascii_upper : ℕ → ℕ
ascii_upper c = if leb b'a' c && leb c b'z' then c - 32 else c

-- The part of `unicode.ToLower` whose results are ASCII: the letters A to Z, the dotted capital I and
-- the Kelvin sign.
unfoldable pub ascii_lower : ℕ → ℕ
ascii_lower c =
    if leb b'A' c && leb c b'Z'
    then c + 32
    else if eqb c 0x130
    then b'i'
    else if eqb c 0x212a
    then b'k'
    else c

-- `strings.Join`
unfoldable pub join : List ℕ → List (List ℕ) → List ℕ
join sep [] = []
join sep (t ∷ []) = t
join sep (t ∷ u ∷ us) = t ++ sep ++ join sep (u ∷ us)

-- `strings.HasPrefix` of strings.
abbrev pub starts : String → String → Bool
starts s p = has_prefix (codes s) (codes p)
