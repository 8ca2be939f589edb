-- ===== src/Graph/Validate/Sound.antt =====
-- What a valid snapshot is (internal/validate/validate.go).
use architecture_rehearsal.Prelude.{
  ◌≡◌, ◌≢◌, refl, String, Option, none, some, List, [], ◌∷◌, map, Bool, true, false, not, ◌==◌,
  arith, eq_iff, contains, contains-mem, All, All-map, Memᴰ,
}
use architecture_rehearsal.Graph.{Node, Edge, Snapshot, known_kinds, known_relations}
use architecture_rehearsal.Graph.Validate.{
  Error, first_error, fail_if, known_phases, edge_key, check_node, check_nodes, check_edge,
  check_edges, check_snapshot,
}

pub first_error-none : (a b : Option Error) → first_error a b ≡ none → (a ≡ none) × (b ≡ none)
first_error-none none b h = (refl, h)
first_error-none (some e) b h = cc

pub fail_if-none :
    (test : Bool) (code : String) (parts : List String)
    → fail_if test code parts ≡ none
    → test ≡ false
fail_if-none true code parts h = cc
fail_if-none false code parts h = refl

-- A check passes when its test fails and the checks after it pass.
pub passed :
    (test : Bool) (code : String) (parts : List String) (rest : Option Error)
    → first_error (fail_if test code parts) rest ≡ none
    → (test ≡ false) × (rest ≡ none)
passed test code parts rest h =
    let split = first_error-none (fail_if test code parts) rest h in
    (fail_if-none test code parts split.0, split.1)

pub known : (xs : List String) (s : String) → not (contains xs s) ≡ false → Memᴰ s xs
known xs s h = contains-mem xs s (ground (arith, h))

-- No text stands twice in the list.
abbrev pub IsDistinct : List String → Type 0
IsDistinct [] = Unit
IsDistinct (s ∷ ss) = All (λ t. t ≢ s) ss × IsDistinct ss

abbrev pub IsNodeOk : Node → Type 0
IsNodeOk n = (n.id ≢ "") × Memᴰ n.kind known_kinds

abbrev pub IsEdgeOk : List String → Edge → Type 0
IsEdgeOk ids e = Memᴰ e.from ids × (Memᴰ e.to ids × Memᴰ e.rel known_relations)

abbrev IsNew : List String → String → Type 0
IsNew seen s = contains seen s ≡ false

IsNew-tail : (seen : List String) (s t : String) → IsNew (s ∷ seen) t → IsNew seen t × (t ≢ s)
IsNew-tail seen s t h = (ground (arith, h), λ e. ground (arith, h, eq_iff s t, e))

module _ (quote : String → String) where
  node_ok :
      (seen : List String) (n : Node)
      → check_node quote seen n ≡ none
      → IsNodeOk n × IsNew seen n.id
  unfolding check_node
  node_ok seen n h =
      let one = passed (n.id == "") _ _ _ h in
      let two = passed _ _ _ _ one.1 in
      let three = passed _ _ _ _ two.1 in
      (
        (
          (λ e. ground (arith, one.0, eq_iff n.id "", e)),
          known known_kinds n.kind (fail_if-none _ _ _ three.1),
        ),
        two.0,
      )

  nodes_ok :
      (seen : List String) (ns : List Node)
      → check_nodes quote seen ns ≡ none
      → All IsNodeOk ns × (All (IsNew seen) (map (λ n. n.id) ns) × IsDistinct (map (λ n. n.id) ns))
  unfolding check_nodes
  nodes_ok seen [] h = (tt, (tt, tt))
  nodes_ok seen (n ∷ ns) h =
      let split =
        first_error-none (check_node quote seen n) (check_nodes quote (n.id ∷ seen) ns) h in
      let first = node_ok seen n split.0 in
      let rest = nodes_ok (n.id ∷ seen) ns split.1 in
      let ids = map (λ n. n.id) ns in
      (
        (first.0, rest.0),
        (
          (first.1, All-map (λ t k. (IsNew-tail seen n.id t k).0) ids rest.1.0),
          (All-map (λ t k. (IsNew-tail seen n.id t k).1) ids rest.1.0, rest.1.1),
        ),
      )

  edge_ok :
      (ids keys : List String) (e : Edge)
      → check_edge quote ids keys e ≡ none
      → IsEdgeOk ids e × IsNew keys (edge_key e)
  unfolding check_edge
  edge_ok ids keys e h =
      let one = passed _ _ _ _ h in
      let two = passed _ _ _ _ one.1 in
      let three = passed _ _ _ _ two.1 in
      let four = passed _ _ _ _ three.1 in
      (
        (known ids e.from two.0, (known ids e.to three.0, known known_relations e.rel four.0)),
        fail_if-none _ _ _ four.1,
      )

  edges_ok :
      (ids keys : List String) (es : List Edge)
      → check_edges quote ids keys es ≡ none
      → All (IsEdgeOk ids) es × (All (IsNew keys) (map edge_key es) × IsDistinct (map edge_key es))
  unfolding check_edges
  edges_ok ids keys [] h = (tt, (tt, tt))
  edges_ok ids keys (e ∷ es) h =
      let split =
        first_error-none (check_edge quote ids keys e)
          (check_edges quote ids (edge_key e ∷ keys) es) h in
      let first = edge_ok ids keys e split.0 in
      let rest = edges_ok ids (edge_key e ∷ keys) es split.1 in
      let others = map edge_key es in
      (
        (first.0, rest.0),
        (
          (first.1, All-map (λ t k. (IsNew-tail keys (edge_key e) t k).0) others rest.1.0),
          (All-map (λ t k. (IsNew-tail keys (edge_key e) t k).1) others rest.1.0, rest.1.1),
        ),
      )

-- A snapshot that validation accepts has a known phase, nodes with distinct non-empty identifiers
-- and known kinds, and edges with known relations between nodes of the snapshot, no two of which
-- have the same key.
pub check_snapshot-none :
    (quote : String → String) (s : Snapshot)
    → check_snapshot quote (some s) ≡ none
    → let ids = map (λ n. n.id) s.nodes in
      Memᴰ s.phase known_phases
      × ((All IsNodeOk s.nodes × IsDistinct ids)
          × (All (IsEdgeOk ids) s.edges × IsDistinct (map edge_key s.edges)))
unfolding check_snapshot
check_snapshot-none quote s h =
    let ids = map (λ n. n.id) s.nodes in
    let one = passed _ _ _ _ h in
    let two = passed _ _ _ _ one.1 in
    let split =
      first_error-none (check_nodes quote [] s.nodes) (check_edges quote ids [] s.edges) two.1 in
    let nodes = nodes_ok quote [] s.nodes split.0 in
    let edges = edges_ok quote ids [] s.edges split.1 in
    (known known_phases s.phase two.0, ((nodes.0, nodes.1.1), (edges.0, edges.1.1)))
