-- ===== src/Loader.antt =====
-- internal/loader/loader.go: the change envelope and ApplyChange, which makes the proposed graph. Text
-- is compared by code points, as Go's order of UTF-8 bytes does. What a snapshot does not have here
-- (labels, metadata, warnings and other provenance) is left out, the facts that go there too; a copy
-- of a value is the value.
pub mod Applied
use architecture_rehearsal.Prelude.{
  ℕ, String, Option, none, some, List, [], ◌∷◌, ◌++◌, map, filter, Bool, true, false, not, ◌&&◌,
  ◌||◌, ◌==◌, eqb, ltb, any, codes, concat, insert, lookup, non_empty, if◌then◌else◌,
}
use architecture_rehearsal.Graph.{
  Node, Edge, Snapshot, Attribute, ℤ, text, flag, float64, fraction, int, int64,
}

pub record ChangeEnvelope : Type 0 where
  pub kind : String
  pub id : String
  pub title : String
  pub description : String
  pub seeds : List String
  pub facts : List (String × Attribute)
  pub added_nodes : List Node
  pub removed_nodes : List String
  pub patch_nodes : List Node
  pub added_edges : List Edge

abbrev codes_lt : List ℕ → List ℕ → Bool
codes_lt [] [] = false
codes_lt [] (d ∷ ds) = true
codes_lt (c ∷ cs) [] = false
codes_lt (c ∷ cs) (d ∷ ds) = let rest = codes_lt cs ds in if ltb c d then true else eqb c d && rest

-- Go's `<` on strings.
abbrev pub text_lt : String → String → Bool
text_lt s t = codes_lt (codes s) (codes t)

-- `sort.SliceStable`
module _ {ℓ} {A : Type ℓ} (lt : A → A → Bool) where
  abbrev pub put_sorted : A → List A → List A
  put_sorted x [] = x ∷ []
  put_sorted x (y ∷ ys) = let rest = put_sorted x ys in if lt y x then y ∷ rest else x ∷ y ∷ ys

  abbrev pub sorted : List A → List A
  sorted [] = []
  sorted (x ∷ xs) = put_sorted x (sorted xs)

abbrev pub node_lt : Node → Node → Bool
node_lt n m = text_lt n.id m.id

abbrev pub edge_lt : Edge → Edge → Bool
edge_lt e f =
    if not (e.from == f.from)
    then text_lt e.from f.from
    else if not (e.to == f.to)
    then text_lt e.to f.to
    else text_lt e.rel f.rel

-- The map `removed`.
abbrev pub is_removed : List String → String → Bool
is_removed removed id = any (λ r. r == id) removed

-- `patches[id]`: of patches of one id the last.
abbrev or_here : Bool → Node → Option Node → Option Node
or_here here p (some later) = some later
or_here here p none = if here then some p else none

abbrev patch_of : String → List Node → Option Node
patch_of id [] = none
patch_of id (p ∷ ps) = or_here (p.id == id) p (patch_of id ps)

abbrev insert_all :
    List (String × Attribute) → List (String × Attribute) → List (String × Attribute)
insert_all [] attributes = attributes
insert_all (entry ∷ rest) attributes = insert_all rest (insert entry.0 entry.1 attributes)

abbrev or_kept : String → String → String
or_kept new old = if non_empty new then new else old

abbrev merged : Node → Option Node → Node
merged n none = n
merged n (some p) = record n {
  name = or_kept p.name n.name;
  namespace = or_kept p.namespace n.namespace;
  attributes = insert_all p.attributes n.attributes;
}

unfoldable pub patched : List Node → Node → Node
patched patches n = merged n (patch_of n.id patches)

unfoldable pub apply_change : Snapshot → ChangeEnvelope → Snapshot
unfolding patched
apply_change base ch =
    let removed = ch.removed_nodes in
    record {
      id = concat (base.id ∷ "+" ∷ ch.id ∷ []);
      name = concat (base.name ∷ " + " ∷ ch.title ∷ []);
      source = concat ("proposed:" ∷ ch.kind ∷ []);
      phase = "proposed";
      nodes = sorted node_lt (
          map (patched ch.patch_nodes) (filter (λ n. not (is_removed removed n.id)) base.nodes)
          ++ ch.added_nodes);
      edges = sorted edge_lt (
          filter (λ e. not (is_removed removed e.from || is_removed removed e.to)) base.edges
          ++ ch.added_edges);
    }

abbrev as_int : ℤ → Option Attribute → ℤ
as_int default (some (float64 i)) = i
as_int default (some (fraction i shown)) = i
as_int default (some (int i)) = i
as_int default (some (int64 i)) = i
as_int default _ = default

unfoldable pub fact_int : List (String × Attribute) → String → ℤ → ℤ
fact_int m key default = as_int default (lookup key m)

abbrev as_string : String → Option Attribute → String
as_string default (some (text s)) = if non_empty s then s else default
as_string default _ = default

unfoldable pub fact_string : List (String × Attribute) → String → String → String
fact_string m key default = as_string default (lookup key m)

abbrev as_bool : Bool → Option Attribute → Bool
as_bool default (some (flag b)) = b
as_bool default _ = default

unfoldable pub fact_bool : List (String × Attribute) → String → Bool → Bool
fact_bool m key default = as_bool default (lookup key m)
