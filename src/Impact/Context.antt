-- ===== src/Impact/Context.antt =====
-- internal/impact: the input of the detectors (types.go), the names that they show and the selectors of
-- labels (netpol.go). A nil pointer is `none`; a snapshot with its metadata is the record `Observed`
-- that the verification has too. `decimal` shows an integer.
use architecture_rehearsal.Prelude.{
  String, Option, none, some, List, [], ◌∷◌, Bool, true, false, ◌&&◌, ◌||◌, ◌==◌, any, lookup,
  concat, non_empty, if◌then◌else◌,
}
use architecture_rehearsal.Graph.{Node, Edge, Snapshot, Index, flag, text, ℤ, Fields, end, field}
use architecture_rehearsal.Graph.Values.{field_of, sprint, as_object}
use architecture_rehearsal.Loader.{ChangeEnvelope}
use architecture_rehearsal.Verify.{Observed, Value, scalar, meta_value}
use architecture_rehearsal.Impact.{Verdict}

pub record Context : Type 0 where
  pub baseline : Option Observed
  pub proposed : Option Snapshot
  pub change : Option ChangeEnvelope
  pub base_idx : Option Index
  pub prop_idx : Option Index
  pub pdbs_collected : Bool

-- A verdict without evidence.
abbrev pub plain : String → String → String → String → List String → Verdict
plain detector status explanation confidence missing = record {
  detector = detector;
  status = status;
  explanation = explanation;
  confidence = confidence;
  evidence = [];
  affected = [];
  missing = missing;
}

abbrev pub concerning : String → String → String → String → List String → List String → Verdict
concerning detector status explanation confidence evidence affected = record {
  detector = detector;
  status = status;
  explanation = explanation;
  confidence = confidence;
  evidence = evidence;
  affected = affected;
  missing = [];
}

abbrev shown_node : String → Option Node → String
shown_node id none = id
shown_node id (some n) =
    if non_empty n.namespace then concat (n.namespace ∷ "/" ∷ n.name ∷ []) else n.name

unfoldable pub display : Index → String → String
display idx id = shown_node id (lookup id idx.by_id)

-- The node of the first index, or else of the second.
abbrev pub or_else : Option Node → Option Node → Option Node
or_else none n = n
or_else (some m) n = some m

abbrev pub edges_of : Option Snapshot → List Edge
edges_of none = []
edges_of (some s) = s.edges

abbrev pub baseline_edges : Option Observed → List Edge
baseline_edges none = []
baseline_edges (some o) = o.graph.edges

abbrev known_by : Option Value → Option Bool
known_by (some (scalar (flag b))) = some b
known_by (some (scalar (text s))) = some (s == "true" || s == "1")
known_by _ = none

abbrev or_any_pdb : Option Bool → List Node → Bool
or_any_pdb (some b) nodes = b
or_any_pdb none nodes = any (λ n. n.kind == "PDB") nodes

-- `pdbsInventoryKnown`
unfoldable pub pdbs_inventory_known : Option Observed → Bool
pdbs_inventory_known none = false
pdbs_inventory_known (some base) =
    or_any_pdb (known_by (meta_value base.meta "pdbsCollected")) base.graph.nodes

abbrev pub no_fields : Option Fields → Bool
no_fields none = true
no_fields (some end) = true
no_fields (some (field k v rest)) = false

module _ (decimal : ℤ → String) where
  abbrev labels_match : Fields → Fields → Bool
  labels_match end labels = true
  labels_match (field k v rest) labels =
      sprint decimal (field_of k labels) == sprint decimal (some v) && labels_match rest labels

  unfoldable pub selector_matches : Option Fields → Option Fields → Bool
  selector_matches none labels = true
  selector_matches (some end) labels = true
  selector_matches (some (field k v rest)) none = false
  selector_matches (some (field k v rest)) (some labels) = labels_match (field k v rest) labels

abbrev pub object_at : String → Node → Option Fields
object_at key n = as_object (lookup key n.attributes)
