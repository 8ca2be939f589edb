-- ===== src/Graph/Fuel.antt =====
-- The fuel of the walks is enough (internal/graph/traverse.go): every step takes an item from the
-- queue, and every item it adds uses up an edge whose end was not seen.
use architecture_rehearsal.Prelude.{
  ℕ, zero, suc, ◌+◌, ◌≤◌, ◌≡◌, refl, sym, subst, String, Option, some, List, [], ◌∷◌, ◌++◌, map,
  false, not, ◌==◌, arith, eq_refl, length, length-append, length-map, length-filter, mem-filter,
  lookup, filter, contains, All, Memᴰ, inl, inr, non_empty,
}
use architecture_rehearsal.Graph.{Edge, Snapshot, or_nil, build_index}
use architecture_rehearsal.Graph.Lookup.{build_index-lookup, build_index-snap}
use architecture_rehearsal.Graph.Steps.{visit-cases, expand-cases}
use architecture_rehearsal.Graph.Walk.{
  Queue, visit, expand, walk, walk_from, walk_forward, walk_reverse, fuel_for, depth_or_8,
}

-- The number of edges whose end was not seen.
abbrev unseen : (Edge → String) → List Edge → List String → ℕ
unseen end es seen = length (filter (λ e. not (contains seen (end e))) es)

unseen-more :
    (end : Edge → String) (es : List Edge) (seen : List String) (s : String)
    → unseen end es (s ∷ seen) ≤ unseen end es seen
unseen-more end [] seen s = omega arith
unseen-more end (e ∷ es) seen s = ground (arith, unseen-more end es seen s)

unseen-mem :
    (end : Edge → String) (es : List Edge) (seen : List String) (e : Edge)
    → Memᴰ e es
    → contains seen (end e) ≡ false
    → suc (unseen end es (end e ∷ seen)) ≤ unseen end es seen
unseen-mem end [] seen e m h = elim m [ ]
unseen-mem end (x ∷ es) seen e (Memᴰ.head y) h =
    rw (sym y, h, eq_refl (end e)) (omega (arith, unseen-more end es seen (end e)))
unseen-mem end (x ∷ es) seen e (Memᴰ.tail m) h = ground (arith, unseen-mem end es seen e m h)

-- The queue and the unseen edges together do not grow.
visit-unseen :
    (end : Edge → String) (allowed : Option (List String)) (depth : ℕ) (all es : List Edge)
    (seen : List String) (q : Queue)
    → All (λ e. Memᴰ e all) es
    → length (visit end allowed depth es seen q).1
        + unseen end all (visit end allowed depth es seen q).0
      ≤ length q + unseen end all seen
unfolding visit
visit-unseen end allowed depth all [] seen q h = omega arith
visit-unseen end allowed depth all (e ∷ es) seen q h =
    elim (visit-cases end allowed depth e es seen q) [
      | inl skip ↦ rw skip (visit-unseen end allowed depth all es seen q h.1)
      | inr (ok, fresh) ↦ rw fresh (
          omega (
            arith,
            unseen-mem end all seen e h.0 ok.1,
            visit-unseen end allowed depth all es (end e ∷ seen) (q ++ (end e, suc depth) ∷ []) h.1,
            length-append q ((end e, suc depth) ∷ []),
          ))
    ]

expand-unseen :
    (end : Edge → String) (edges_of : String → List Edge) (allowed : Option (List String))
    (max_depth : ℕ) (all : List Edge) (id : String) (depth : ℕ) (seen : List String) (q : Queue)
    → All (λ e. Memᴰ e all) (edges_of id)
    → length (expand end edges_of allowed max_depth id depth seen q).1
        + unseen end all (expand end edges_of allowed max_depth id depth seen q).0
      ≤ length q + unseen end all seen
expand-unseen end edges_of allowed max_depth all id depth seen q h =
    elim (expand-cases end edges_of allowed max_depth id depth seen q) [
      | inl deep ↦ rw deep (omega arith)
      | inr (shallow, e) ↦ rw e (visit-unseen end allowed depth all (edges_of id) seen q h)
    ]

walk-fuel :
    (end : Edge → String) (edges_of : String → List Edge) (allowed : Option (List String))
    (max_depth : ℕ) (all : List Edge)
    → ((id : String) → All (λ e. Memᴰ e all) (edges_of id))
    → (fuel : ℕ) (seen : List String) (q : Queue) → length q + unseen end all seen ≤ fuel
    → (order : List String) × (walk end edges_of allowed max_depth fuel seen q ≡ some order)
unfolding walk
walk-fuel end edges_of allowed max_depth all h fuel seen [] le = ([], refl)
walk-fuel end edges_of allowed max_depth all h zero seen (cur ∷ q) le = absurd (omega (arith, le))
walk-fuel end edges_of allowed max_depth all h (suc fuel) seen ((id, depth) ∷ q) le =
    let next = expand end edges_of allowed max_depth id depth seen q in
    let rest = walk-fuel end edges_of allowed max_depth all h fuel next.0 next.1 (
      omega (arith, le, expand-unseen end edges_of allowed max_depth all id depth seen q (h id))) in
    (id ∷ rest.0, rw rest.1 refl)

-- A walk that starts with its seeds has fuel for the seeds and the edges.
walk_from-fuel :
    (end : Edge → String) (edges_of : String → List Edge) (all : List Edge)
    → ((id : String) → All (λ e. Memᴰ e all) (edges_of id))
    → (seeds : List String) (allowed : Option (List String)) (max_depth fuel : ℕ)
    → length seeds + length all ≤ fuel
    → (order : List String) × (walk_from end edges_of fuel seeds allowed max_depth ≡ some order)
unfolding walk_from
walk_from-fuel end edges_of all h seeds allowed max_depth fuel le =
    let start = filter non_empty seeds in
    walk-fuel end edges_of allowed (depth_or_8 max_depth) all h fuel start (map (λ s. (s, 0)) start)
      (omega (
        arith,
        le,
        length-map {B = String × ℕ} (λ s. (s, 0)) start,
        length-filter non_empty seeds,
        length-filter (λ e. not (contains start (end e))) all,
      ))

-- Both walks return for every snapshot, all seeds, relations and depths: a queue item for each seed
-- and for each edge of the snapshot is enough.
pub walks_return :
    (s : Snapshot) (seeds : List String) (allowed : Option (List String)) (max_depth : ℕ)
    → ((order : List String) × (walk_forward (build_index s) seeds allowed max_depth ≡ some order))
      × ((order : List String) × (walk_reverse (build_index s) seeds allowed max_depth
            ≡ some order))
unfolding walk_forward walk_reverse
walks_return s seeds allowed max_depth =
    let enough =
      subst (λ t. length seeds + length s.edges ≤ length seeds + length t.edges)
        (sym (build_index-snap s)) (omega arith) in
    (
      walk_from-fuel (λ e. e.to) (λ id. or_nil (lookup id (build_index s).out)) s.edges
          (λ id. rw (build_index-lookup s id).0 (mem-filter (λ e. e.from == id) s.edges)) seeds
          allowed max_depth (fuel_for (build_index s) seeds) enough,
      walk_from-fuel (λ e. e.from) (λ id. or_nil (lookup id (build_index s).in')) s.edges
          (λ id. rw (build_index-lookup s id).1.0 (mem-filter (λ e. e.to == id) s.edges)) seeds
          allowed max_depth (fuel_for (build_index s) seeds) enough,
    )
