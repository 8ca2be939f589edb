-- ===== src/Graph.antt =====
-- internal/graph/types.go: the architecture graph, its index and the readers of attributes. A kind
-- and a relation are Go strings. The provenance of a snapshot (cluster, warnings, stamps, labels,
-- metadata) is left out, for nothing here reads it.
pub mod Walk
pub mod Values
pub mod Lookup
pub mod Steps
pub mod Fuel
pub mod Reach
pub mod Once
pub mod Validate
use architecture_rehearsal.Prelude.{
  ℕ, zero, suc, String, Option, none, some, List, [], ◌∷◌, ◌++◌, Bool, true, false, lookup, insert,
}

pub data ℤ : Type 0 where
  pos : ℕ → ℤ
  negsuc : ℕ → ℤ

-- The values of an attribute. A float64 without a fraction is its integer, one with a fraction has the
-- integer that Go's `int` makes of it and what `fmt.Sprint` shows, and so has a value of another type.
-- A map has its fields in the order of their keys.
mutual
  pub data Attribute : Type 0 where
    text : String → Attribute
    flag : Bool → Attribute
    float64 : ℤ → Attribute
    fraction : ℤ → String → Attribute
    int : ℤ → Attribute
    int64 : ℤ → Attribute
    array : Items → Attribute
    object : Fields → Attribute
    null : Attribute
    other : String → Attribute

  pub data Items : Type 0 where
    nil : Items
    cons : Attribute → Items → Items

  pub data Fields : Type 0 where
    end : Fields
    field : String → Attribute → Fields → Fields

pub record Node : Type 0 where
  pub id : String
  pub kind : String
  pub name : String
  pub namespace : String
  pub attributes : List (String × Attribute)
  pub source : String
  pub source_ref : String

pub record Edge : Type 0 where
  pub id : String
  pub from : String
  pub to : String
  pub rel : String
  pub attrs : List (String × Attribute)

pub record Snapshot : Type 0 where
  pub id : String
  pub name : String
  pub source : String
  pub phase : String
  pub nodes : List Node
  pub edges : List Edge

abbrev pub known_kinds : List String
known_kinds =
    "Cluster" ∷ "Node" ∷ "Namespace" ∷ "Workload" ∷ "Pod" ∷ "Service" ∷ "Ingress" ∷ "PVC" ∷ "PV"
    ∷ "PDB" ∷ "HPA" ∷ "ServiceAccount" ∷ "Alert" ∷ "SLO" ∷ "Team" ∷ "Change" ∷ "IAMRole"
    ∷ "NetworkPolicy" ∷ []

abbrev pub known_relations : List String
known_relations =
    "DEPENDS_ON" ∷ "RUNS_ON" ∷ "PROTECTED_BY" ∷ "OBSERVED_BY" ∷ "OWNED_BY" ∷ "DEPLOYED_WITH"
    ∷ "BINDS_VOLUME" ∷ "SCHEDULES_ON" ∷ "ROUTES_TO" ∷ "SCALES" ∷ "USES_IDENTITY" ∷ "OWNS" ∷ []

pub record Index : Type 0 where
  pub snap : Snapshot
  pub by_id : List (String × Node)
  pub out : List (String × List Edge)
  pub in' : List (String × List Edge)
  pub by_kind : List (String × List Node)

-- `m[k]` of a map of slices.
abbrev pub or_nil {ℓ} : {A : Type ℓ} → Option (List A) → List A
or_nil none = []
or_nil (some xs) = xs

-- `m[k] = append(m[k], v)`
unfoldable pub append_to {ℓ} :
    {A : Type ℓ} → String → A → List (String × List A) → List (String × List A)
append_to k v m = insert k (or_nil (lookup k m) ++ v ∷ []) m

unfoldable pub index_node : Index → Node → Index
index_node idx n = record idx {
  by_id = insert n.id n idx.by_id;
  by_kind = append_to n.kind n idx.by_kind;
}

unfoldable pub index_edge : Index → Edge → Index
index_edge idx e = record idx { out = append_to e.from e idx.out; in' = append_to e.to e idx.in' }

unfoldable pub index_nodes : Index → List Node → Index
index_nodes idx [] = idx
index_nodes idx (n ∷ ns) = index_nodes (index_node idx n) ns

unfoldable pub index_edges : Index → List Edge → Index
index_edges idx [] = idx
index_edges idx (e ∷ es) = index_edges (index_edge idx e) es

unfoldable pub build_index : Snapshot → Index
build_index s =
    index_edges
      (index_nodes (record { snap = s; by_id = []; out = []; in' = []; by_kind = [] }) s.nodes)
      s.edges

abbrev as_text : Option Attribute → String
as_text (some (text s)) = s
as_text _ = ""

abbrev as_flag : Option Attribute → Bool
as_flag (some (flag b)) = b
as_flag _ = false

abbrev as_int : Option Attribute → ℤ
as_int (some (float64 i)) = i
as_int (some (fraction i shown)) = i
as_int (some (int i)) = i
as_int (some (int64 i)) = i
as_int _ = pos 0

-- The receiver of an attribute reader may be nil.
unfoldable pub attr_string : Option Node → String → String
attr_string none key = ""
attr_string (some n) key = as_text (lookup key n.attributes)

unfoldable pub attr_bool : Option Node → String → Bool
attr_bool none key = false
attr_bool (some n) key = as_flag (lookup key n.attributes)

unfoldable pub attr_int : Option Node → String → ℤ
attr_int none key = pos 0
attr_int (some n) key = as_int (lookup key n.attributes)

-- A number that is not positive is the fallback.
abbrev positive_or : ℕ → ℤ → ℕ
positive_or d (pos (suc n)) = suc n
positive_or d _ = d

unfoldable pub workload_replicas : Option Node → ℕ
unfolding attr_int
workload_replicas n =
    positive_or (positive_or 0 (attr_int n "desiredReplicas")) (attr_int n "replicas")
