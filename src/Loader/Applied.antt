-- ===== src/Loader/Applied.antt =====
-- Which nodes and edges the proposed graph has (ApplyChange of internal/loader/loader.go).
use architecture_rehearsal.Prelude.{
  ◌≡◌, refl, ◌∙◌, ap, String, List, [], ◌∷◌, ◌++◌, map, filter, Bool, true, not, ◌&&◌, ◌||◌, ◌==◌,
  any, any-append, arith,
}
use text.Mathlib.TextEquality.{eq_iff}
use architecture_rehearsal.Graph.{Node, Edge, Snapshot}
use architecture_rehearsal.Loader.{
  ChangeEnvelope, put_sorted, sorted, node_lt, edge_lt, is_removed, patched, apply_change,
}

module _ {ℓ} {A : Type ℓ} where
  pub any-put_sorted :
      (lt : A → A → Bool) (p : A → Bool) (x : A) (xs : List A)
      → any p (put_sorted lt x xs) ≡ (p x || any p xs)
  any-put_sorted lt p x [] = refl
  any-put_sorted lt p x (y ∷ ys) = ground (arith, any-put_sorted lt p x ys)

  pub any-sorted :
      (lt : A → A → Bool) (p : A → Bool) (xs : List A) → any p (sorted lt xs) ≡ any p xs
  any-sorted lt p [] = refl
  any-sorted lt p (x ∷ xs) =
      any-put_sorted lt p x (sorted lt xs) ∙ ap (λ b. p x || b) (any-sorted lt p xs)

  any-map :
      (p : A → Bool) (f : A → A) (xs : List A)
      → ((x : A) → p (f x) ≡ p x)
      → any p (map f xs) ≡ any p xs
  any-map p f [] h = refl
  any-map p f (x ∷ xs) h = rw (h x, any-map p f xs h) refl

  -- A test that all elements which pass it agree on.
  any-filter :
      (p keep : A → Bool) (b : Bool) (xs : List A)
      → ((x : A) → p x ≡ true → keep x ≡ b)
      → any p (filter keep xs) ≡ (any p xs && b)
  any-filter p keep b [] h = refl
  any-filter p keep b (x ∷ xs) h = ground (arith, h x, any-filter p keep b xs h)

abbrev pub has_node : String → List Node → Bool
has_node id nodes = any (λ n. n.id == id) nodes

abbrev pub is_edge : String → String → String → Edge → Bool
is_edge from to rel e = e.from == from && (e.to == to && e.rel == rel)

abbrev pub has_edge : String → String → String → List Edge → Bool
has_edge from to rel edges = any (is_edge from to rel) edges

patched-id : (patches : List Node) (n : Node) → (patched patches n).id ≡ n.id
unfolding patched
patched-id patches n = ground arith

nodes_kept :
    (removed : List String) (id : String) (n : Node)
    → (n.id == id) ≡ true
    → not (is_removed removed n.id) ≡ not (is_removed removed id)
nodes_kept removed id n h = ap (λ x. not (is_removed removed x)) ((eq_iff n.id id).0 h)

edges_kept :
    (removed : List String) (from to rel : String) (e : Edge)
    → is_edge from to rel e ≡ true
    → not (is_removed removed e.from || is_removed removed e.to)
      ≡ not (is_removed removed from || is_removed removed to)
edges_kept removed from to rel e h =
    let same_from : e.from ≡ from = (eq_iff e.from from).0 (ground (arith, h)) in
    let same_to : e.to ≡ to = (eq_iff e.to to).0 (ground (arith, h)) in
    ap (λ x. not (is_removed removed x || is_removed removed e.to)) same_from
    ∙ ap (λ x. not (is_removed removed from || is_removed removed x)) same_to

-- The proposed graph has a node of an identifier exactly when the change adds one, or the baseline has
-- one and the change does not remove it; patches neither add nor remove nodes. It has an edge exactly
-- when the change adds it, or the baseline has it and the change removes neither of its ends.
pub apply_change-graph :
    (base : Snapshot) (ch : ChangeEnvelope) (id from to rel : String)
    → let proposed = apply_change base ch in
      let removed = ch.removed_nodes in
      (has_node id proposed.nodes
        ≡ ((has_node id base.nodes && not (is_removed removed id)) || has_node id ch.added_nodes))
      × (has_edge from to rel proposed.edges ≡ (
          (has_edge from to rel base.edges
            && not (is_removed removed from || is_removed removed to))
          || has_edge from to rel ch.added_edges))
unfolding apply_change
apply_change-graph base ch id from to rel =
    let removed = ch.removed_nodes in
    let kept_nodes = filter (λ n. not (is_removed removed n.id)) base.nodes in
    let kept_edges =
      filter (λ e. not (is_removed removed e.from || is_removed removed e.to)) base.edges in
    let is_node : Node → Bool = λ n. n.id == id in
    (
      any-sorted node_lt is_node (map (patched ch.patch_nodes) kept_nodes ++ ch.added_nodes)
          ∙ (any-append is_node (map (patched ch.patch_nodes) kept_nodes) ch.added_nodes
              ∙ ap (λ b. b || has_node id ch.added_nodes)
                  (any-map is_node (patched ch.patch_nodes) kept_nodes
                      (λ n. ap (λ x. x == id) (patched-id ch.patch_nodes n))
                    ∙ any-filter is_node (λ n. not (is_removed removed n.id))
                        (not (is_removed removed id)) base.nodes (nodes_kept removed id))),
      any-sorted edge_lt (is_edge from to rel) (kept_edges ++ ch.added_edges)
          ∙ (any-append (is_edge from to rel) kept_edges ch.added_edges
              ∙ ap (λ b. b || has_edge from to rel ch.added_edges)
                  (any-filter (is_edge from to rel)
                    (λ e. not (is_removed removed e.from || is_removed removed e.to))
                    (not (is_removed removed from || is_removed removed to)) base.edges
                    (edges_kept removed from to rel))),
    )
