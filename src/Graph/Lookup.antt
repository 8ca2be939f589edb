-- ===== src/Graph/Lookup.antt =====
-- What the index of a graph holds (internal/graph/types.go).
use architecture_rehearsal.Prelude.{
  ◌≡◌, refl, sym, ap, ◌∙◌, String, List, [], ◌∷◌, ◌++◌, Bool, ◌==◌, eq_iff, lookup, lookup-insert,
  filter, Bool-cases, inl, inr, if◌then◌else◌,
}
use mathlib.Core.List.{append-nil, append_assoc}
use architecture_rehearsal.Graph.{
  Node, Edge, Snapshot, Index, or_nil, append_to, index_node, index_nodes, index_edge, index_edges,
  build_index,
}

append_to-lookup {ℓ} :
    {A : Type ℓ} (k j : String) (v : A) (m : List (String × List A))
    → or_nil (lookup j (append_to k v m)) ≡ or_nil (lookup j m) ++ (if k == j then v ∷ [] else [])
unfolding append_to
append_to-lookup k j v m = elim (Bool-cases (k == j)) [
  | inl e ↦ rw (lookup-insert k j (or_nil (lookup k m) ++ v ∷ []) m, e, (eq_iff k j).0 e) refl
  | inr e ↦
      rw (lookup-insert k j (or_nil (lookup k m) ++ v ∷ []) m, e)
        (sym (append-nil (or_nil (lookup j m))))
]

snoc-filter {ℓ} :
    {A : Type ℓ} (p : A → Bool) (x : A) (xs before : List A) {after : List A}
    → after ≡ before ++ (if p x then x ∷ [] else [])
    → after ++ filter p xs ≡ before ++ filter p (x ∷ xs)
snoc-filter p x xs before e = elim (Bool-cases (p x)) [
  | inl t ↦ rw (e, t) (append_assoc before (x ∷ []) (filter p xs))
  | inr t ↦ rw (e, t) (ap (λ l. l ++ filter p xs) (append-nil before))
]

out-edges :
    (idx : Index) (xs : List Edge) (k : String)
    → or_nil (lookup k (index_edges idx xs).out)
      ≡ or_nil (lookup k idx.out) ++ filter (λ x. x.from == k) xs
unfolding index_edges index_edge
out-edges idx [] k = sym (append-nil (or_nil (lookup k idx.out)))
out-edges idx (x ∷ xs) k =
    out-edges (index_edge idx x) xs k
    ∙ snoc-filter (λ y. y.from == k) x xs (or_nil (lookup k idx.out))
        (append_to-lookup x.from k x idx.out)

in-edges :
    (idx : Index) (xs : List Edge) (k : String)
    → or_nil (lookup k (index_edges idx xs).in')
      ≡ or_nil (lookup k idx.in') ++ filter (λ x. x.to == k) xs
unfolding index_edges index_edge
in-edges idx [] k = sym (append-nil (or_nil (lookup k idx.in')))
in-edges idx (x ∷ xs) k =
    in-edges (index_edge idx x) xs k
    ∙ snoc-filter (λ y. y.to == k) x xs (or_nil (lookup k idx.in'))
        (append_to-lookup x.to k x idx.in')

by_kind-nodes :
    (idx : Index) (xs : List Node) (k : String)
    → or_nil (lookup k (index_nodes idx xs).by_kind)
      ≡ or_nil (lookup k idx.by_kind) ++ filter (λ x. x.kind == k) xs
unfolding index_nodes index_node
by_kind-nodes idx [] k = sym (append-nil (or_nil (lookup k idx.by_kind)))
by_kind-nodes idx (x ∷ xs) k =
    by_kind-nodes (index_node idx x) xs k
    ∙ snoc-filter (λ y. y.kind == k) x xs (or_nil (lookup k idx.by_kind))
        (append_to-lookup x.kind k x idx.by_kind)

by_kind-edges : (idx : Index) (es : List Edge) → (index_edges idx es).by_kind ≡ idx.by_kind
unfolding index_edges index_edge
by_kind-edges idx [] = refl
by_kind-edges idx (e ∷ es) = by_kind-edges (index_edge idx e) es

no_edges :
    (idx : Index) (ns : List Node)
    → ((index_nodes idx ns).out ≡ idx.out) × ((index_nodes idx ns).in' ≡ idx.in')
unfolding index_nodes index_node
no_edges idx [] = (refl, refl)
no_edges idx (n ∷ ns) = no_edges (index_node idx n) ns

abbrev empty_index : Snapshot → Index
empty_index s = record { snap = s; by_id = []; out = []; in' = []; by_kind = [] }

snap-nodes : (idx : Index) (ns : List Node) → (index_nodes idx ns).snap ≡ idx.snap
unfolding index_nodes index_node
snap-nodes idx [] = refl
snap-nodes idx (n ∷ ns) = snap-nodes (index_node idx n) ns

snap-edges : (idx : Index) (es : List Edge) → (index_edges idx es).snap ≡ idx.snap
unfolding index_edges index_edge
snap-edges idx [] = refl
snap-edges idx (e ∷ es) = snap-edges (index_edge idx e) es

pub build_index-snap : (s : Snapshot) → (build_index s).snap ≡ s
unfolding build_index
build_index-snap s =
    snap-edges (index_nodes (empty_index s) s.nodes) s.edges ∙ snap-nodes (empty_index s) s.nodes

-- The index of a snapshot gives, for an identifier, the edges that start there and those that end
-- there, and for a kind its nodes, each in the snapshot's order.
pub build_index-lookup :
    (s : Snapshot) (k : String)
    → (or_nil (lookup k (build_index s).out) ≡ filter (λ e. e.from == k) s.edges)
      × ((or_nil (lookup k (build_index s).in') ≡ filter (λ e. e.to == k) s.edges)
          × (or_nil (lookup k (build_index s).by_kind) ≡ filter (λ n. n.kind == k) s.nodes))
unfolding build_index lookup
build_index-lookup s k =
    let indexed = index_nodes (empty_index s) s.nodes in
    (
      out-edges indexed s.edges k
          ∙ ap (λ m. or_nil (lookup k m) ++ filter (λ e. e.from == k) s.edges)
              (no_edges (empty_index s) s.nodes).0,
      (
        in-edges indexed s.edges k
            ∙ ap (λ m. or_nil (lookup k m) ++ filter (λ e. e.to == k) s.edges)
                (no_edges (empty_index s) s.nodes).1,
        ap (λ m. or_nil (lookup k m)) (by_kind-edges indexed s.edges)
            ∙ by_kind-nodes (empty_index s) s.nodes k,
      ),
    )
