-- ===== src/Graph/Validate.antt =====
-- internal/validate/validate.go: the contracts of a snapshot and of a change. A result is the first
-- error, `none` is Go's nil error. `quote` is the verb `%q` of package fmt.
pub mod Sound
pub mod Changes
use architecture_rehearsal.Prelude.{
  ℕ, String, Option, none, some, List, [], ◌∷◌, map, Bool, true, false, not, ◌&&◌, ◌||◌, ◌==◌,
  concat, codes, trim_space, contains, find, lookup, insert, if◌then◌else◌, non_empty,
}
use architecture_rehearsal.Graph.{Node, Edge, Snapshot, known_kinds, known_relations}

pub record Error : Type 0 where
  pub code : String
  pub message : String

-- Goes on with the second check when the first has no error.
abbrev pub first_error : Option Error → Option Error → Option Error
first_error none e = e
first_error (some e) rest = some e

abbrev pub fail_if : Bool → String → List String → Option Error
fail_if true code parts = some (record { code = code; message = concat parts })
fail_if false code parts = none

abbrev is_nil : List ℕ → Bool
is_nil [] = true
is_nil (c ∷ cs) = false

-- `strings.TrimSpace(s) == ""`
abbrev pub is_blank : String → Bool
is_blank s = is_nil (trim_space (codes s))

abbrev pub known_phases : List String
known_phases = "" ∷ "baseline" ∷ "proposed" ∷ "deployed" ∷ "observed" ∷ []

abbrev pub edge_key : Edge → String
edge_key e = concat (e.from ∷ "|" ∷ e.rel ∷ "|" ∷ e.to ∷ [])

-- `changeLike`
pub record ChangeLike : Type 0 where
  pub get_id : String
  pub get_title : String
  pub get_seeds : List String
  pub get_removed_nodes : List String
  pub get_patch_nodes : List Node
  pub get_added_nodes : List Node
  pub get_added_edges : List Edge

module _ (quote : String → String) where
  unfoldable pub check_node : List String → Node → Option Error
  check_node seen n = first_error (fail_if (n.id == "") "node.id" ("node with empty id" ∷ [])) (
      first_error
        (fail_if (contains seen n.id) "node.duplicate" ("duplicate node id: " ∷ n.id ∷ []))
        (first_error (fail_if (n.kind == "") "node.kind" ("node " ∷ n.id ∷ " missing kind" ∷ [])) (
          fail_if (not (contains known_kinds n.kind)) "node.kind.unknown"
            ("node " ∷ n.id ∷ " unknown kind " ∷ quote n.kind ∷ []))))

  unfoldable pub check_nodes : List String → List Node → Option Error
  unfolding check_node
  check_nodes seen [] = none
  check_nodes seen (n ∷ ns) = first_error (check_node seen n) (check_nodes (n.id ∷ seen) ns)

  unfoldable pub check_edge : List String → List String → Edge → Option Error
  check_edge seen keys e =
      first_error
        (fail_if (e.from == "" || e.to == "") "edge.endpoints" ("edge missing from/to" ∷ []))
        (first_error
          (fail_if (not (contains seen e.from)) "edge.dangling"
            ("edge from unknown node: " ∷ e.from ∷ []))
          (first_error
            (fail_if (not (contains seen e.to)) "edge.dangling"
              ("edge to unknown node: " ∷ e.to ∷ []))
            (first_error
              (fail_if (not (contains known_relations e.rel)) "edge.rel.unknown"
                ("unknown relation " ∷ quote e.rel ∷ []))
              (fail_if (contains keys (edge_key e)) "edge.duplicate"
                ("duplicate edge: " ∷ edge_key e ∷ [])))))

  unfoldable pub check_edges : List String → List String → List Edge → Option Error
  unfolding check_edge
  check_edges seen keys [] = none
  check_edges seen keys (e ∷ es) =
      first_error (check_edge seen keys e) (check_edges seen (edge_key e ∷ keys) es)

  unfoldable pub check_snapshot : Option Snapshot → Option Error
  unfolding check_nodes check_edges
  check_snapshot none = fail_if true "snapshot.nil" ("snapshot is nil" ∷ [])
  check_snapshot (some s) =
      first_error (fail_if (is_blank s.id) "snapshot.id" ("id is required" ∷ [])) (
        first_error
          (fail_if (not (contains known_phases s.phase)) "snapshot.phase"
            ("invalid phase " ∷ quote s.phase ∷ []))
          (first_error (check_nodes [] s.nodes) (check_edges (map (λ n. n.id) s.nodes) [] s.edges)))

  unfoldable pub check_change : Option ChangeLike → Option Error
  check_change none = fail_if true "change.nil" ("change is nil" ∷ [])
  check_change (some ch) =
      first_error (fail_if (is_blank ch.get_id) "change.id" ("id is required" ∷ []))
        (fail_if (is_blank ch.get_title) "change.title" ("title is required" ∷ []))

  -- The last node of an identifier counts.
  abbrev pub by_id : List (String × Node) → List Node → List (String × Node)
  by_id idx [] = idx
  by_id idx (n ∷ ns) = by_id (insert n.id n idx) ns

  abbrev pub is_known : Option Node → Bool
  is_known none = false
  is_known (some n) = true

  unfoldable pub check_removed : List (String × Node) → List String → Option Error
  check_removed idx [] = none
  check_removed idx (id ∷ ids) =
      first_error
        (fail_if (not (is_known (lookup id idx))) "change.remove.missing"
          ("removed node not in baseline: " ∷ id ∷ []))
        (check_removed idx ids)

  abbrev pub check_patch : Node → Option Node → Option Error
  check_patch p none =
      fail_if true "change.patch.missing" ("patch node not in baseline: " ∷ p.id ∷ [])
  check_patch p (some bn) =
      fail_if (non_empty p.kind && not (p.kind == bn.kind)) "change.patch.kind"
        ("patch cannot change node kind for " ∷ p.id ∷ [])

  unfoldable pub check_patches : List (String × Node) → List Node → Option Error
  check_patches idx [] = none
  check_patches idx (p ∷ ps) = first_error (check_patch p (lookup p.id idx)) (check_patches idx ps)

  unfoldable pub check_seeds : List (String × Node) → List Node → List String → Option Error
  check_seeds idx added [] = none
  check_seeds idx added (seed ∷ seeds) =
      first_error
        (fail_if
          (non_empty seed
            && (not (is_known (lookup seed idx)) && not (contains (map (λ a. a.id) added) seed)))
          "change.seed.missing" ("seed not in baseline or addedNodes: " ∷ seed ∷ []))
        (check_seeds idx added seeds)

  unfoldable pub check_added_edges : List Edge → Option Error
  check_added_edges [] = none
  check_added_edges (e ∷ es) =
      first_error
        (fail_if (not (contains known_relations e.rel)) "change.edge.rel"
          ("unknown relation " ∷ quote e.rel ∷ []))
        (check_added_edges es)

  unfoldable pub change_against_baseline : Option Snapshot → ChangeLike → Option Error
  unfolding check_snapshot check_change
  change_against_baseline none ch = check_change (some ch)
  change_against_baseline (some base) ch =
      let idx = by_id [] base.nodes in
      first_error (check_change (some ch)) (
        first_error (check_snapshot (some base)) (
          first_error (check_removed idx ch.get_removed_nodes) (
            first_error (check_patches idx ch.get_patch_nodes) (
              first_error (check_seeds idx ch.get_added_nodes ch.get_seeds)
                (check_added_edges ch.get_added_edges)))))
