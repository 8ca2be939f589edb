-- ===== src/Graph/Reach.antt =====
-- What the walks visit (internal/graph/traverse.go).
use architecture_rehearsal.Prelude.{
  ℕ, zero, suc, ◌≤◌, ◌≡◌, ◌≢◌, subst, String, Option, none, some, List, [], ◌∷◌, ◌++◌, map, true,
  ◌==◌, arith, eq_iff, filter, filter-passes, mem-filter, All, All-append, All-map, All-zip, Memᴰ,
  lookup, non_empty, inl, inr,
}
use architecture_rehearsal.Graph.{Edge, Snapshot, or_nil, build_index}
use architecture_rehearsal.Graph.Lookup.{build_index-lookup}
use architecture_rehearsal.Graph.Steps.{visit-cases, expand-cases}
use architecture_rehearsal.Graph.Walk.{
  Queue, allows, visit, expand, walk, walk_from, walk_forward, walk_reverse, and_then, fuel_for,
  depth_or_8,
}

-- A node is reached over allowed edges: a seed by none, the end of an edge by one more than the node
-- where the edge starts. `start` and `end` are the two ends of an edge in the walk's direction.
pub data IsReached (start end : Edge → String) (edges : List Edge) (allowed : Option (List String))
    (seeds : List String) : ℕ → String → Type 0 where
  seed : (s : String) → Memᴰ s seeds → s ≢ "" → IsReached start end edges allowed seeds 0 s
  hop :
      (n : ℕ) (e : Edge)
      → IsReached start end edges allowed seeds n (start e)
      → Memᴰ e edges
      → allows allowed e.rel ≡ true
      → IsReached start end edges allowed seeds (suc n) (end e)

module _ (start end : Edge → String) (edges : List Edge) (allowed : Option (List String))
    (seeds : List String) (max_depth : ℕ) where
  abbrev pub IsNear : String → Type 0
  IsNear id = (n : ℕ) × (IsReached start end edges allowed seeds n id × (n ≤ max_depth))

  abbrev IsQueued : String × ℕ → Type 0
  IsQueued item = IsReached start end edges allowed seeds item.1 item.0 × (item.1 ≤ max_depth)

  visit-IsQueued :
      (id : String) (depth : ℕ) (es : List Edge) (seen : List String) (q : Queue)
      → IsReached start end edges allowed seeds depth id
      → suc depth ≤ max_depth
      → All (λ e. Memᴰ e edges × (start e ≡ id)) es
      → All IsQueued q
      → All IsQueued (visit end allowed depth es seen q).1
  unfolding visit
  visit-IsQueued id depth [] seen q r le h k = k
  visit-IsQueued id depth (e ∷ es) seen q r le h k =
      elim (visit-cases end allowed depth e es seen q) [
        | inl skip ↦ rw skip (visit-IsQueued id depth es seen q r le h.1 k)
        | inr (ok, fresh) ↦ rw fresh (
            visit-IsQueued id depth es (end e ∷ seen) (q ++ (end e, suc depth) ∷ []) r le h.1 (
              All-append IsQueued q ((end e, suc depth) ∷ []) k
                ((hop depth e (rw h.0.1 r) h.0.0 ok.0, le), tt)))
      ]

  expand-IsQueued :
      (edges_of : String → List Edge) (id : String) (depth : ℕ) (seen : List String) (q : Queue)
      → edges_of id ≡ filter (λ e. start e == id) edges
      → IsQueued (id, depth)
      → All IsQueued q
      → All IsQueued (expand end edges_of allowed max_depth id depth seen q).1
  expand-IsQueued edges_of id depth seen q h r k =
      elim (expand-cases end edges_of allowed max_depth id depth seen q) [
        | inl deep ↦ rw deep k
        | inr (shallow, e) ↦
            rw (e, h)
              (visit-IsQueued id depth (filter (λ e. start e == id) edges) seen q r.0
                (ground (arith, shallow))
                (All-zip (λ e. Memᴰ e edges) (λ e. start e ≡ id) (filter (λ e. start e == id) edges)
                  (mem-filter (λ e. start e == id) edges)
                  (All-map (λ e t. (eq_iff (start e) id).0 t) (filter (λ e. start e == id) edges)
                    (filter-passes (λ e. start e == id) edges)))
                k)
      ]

  abbrev AreNear : Option (List String) → Type 0
  AreNear none = Unit
  AreNear (some order) = All IsNear order

  and_then-AreNear :
      (id : String) (rest : Option (List String))
      → IsNear id
      → AreNear rest
      → AreNear (and_then id rest)
  and_then-AreNear id none h k = tt
  and_then-AreNear id (some order) h k = (h, k)

  walk-AreNear :
      (edges_of : String → List Edge)
      → ((id : String) → edges_of id ≡ filter (λ e. start e == id) edges)
      → (fuel : ℕ) (seen : List String) (q : Queue) → All IsQueued q
      → AreNear (walk end edges_of allowed max_depth fuel seen q)
  unfolding walk
  walk-AreNear edges_of h fuel seen [] k = tt
  walk-AreNear edges_of h zero seen (cur ∷ q) k = tt
  walk-AreNear edges_of h (suc fuel) seen ((id, depth) ∷ q) k =
      let next = expand end edges_of allowed max_depth id depth seen q in
      and_then-AreNear id (walk end edges_of allowed max_depth fuel next.0 next.1) (depth, k.0)
        (walk-AreNear edges_of h fuel next.0 next.1
          (expand-IsQueued edges_of id depth seen q (h id) k.0 k.1))

  seeds-IsQueued :
      (ids : List String)
      → All (λ s. Memᴰ s seeds) ids
      → All (λ s. non_empty s ≡ true) ids
      → All IsQueued (map (λ s. (s, 0)) ids)
  seeds-IsQueued [] h k = tt
  seeds-IsQueued (s ∷ ids) h k = (
    (seed s h.0 (λ e. ground (arith, k.0, eq_iff s "", e)), omega arith),
    seeds-IsQueued ids h.1 k.1,
  )

walk_from-IsNear :
    (start end : Edge → String) (edges : List Edge) (allowed : Option (List String))
    (seeds : List String) (max_depth : ℕ) (edges_of : String → List Edge)
    → ((id : String) → edges_of id ≡ filter (λ e. start e == id) edges)
    → (fuel : ℕ) (order : List String)
    → walk_from end edges_of fuel seeds allowed max_depth ≡ some order
    → All (IsNear start end edges allowed seeds (depth_or_8 max_depth)) order
unfolding walk_from
walk_from-IsNear start end edges allowed seeds max_depth edges_of h fuel order w =
    let ids = filter non_empty seeds in
    let deepest = depth_or_8 max_depth in
    subst (AreNear start end edges allowed seeds deepest) w (
      walk-AreNear start end edges allowed seeds deepest edges_of h fuel ids (map (λ s. (s, 0)) ids)
        (seeds-IsQueued start end edges allowed seeds deepest ids (mem-filter non_empty seeds)
          (filter-passes non_empty seeds)))

-- Every node that the forward walk visits is reached from a non-empty seed over at most as many
-- allowed edges as the depth says (8 for the depth 0), each from its start to its end; and every
-- node that the reverse walk visits in the same way over edges from their ends to their starts.
pub walks_reach :
    (s : Snapshot) (seeds order back : List String) (allowed : Option (List String)) (max_depth : ℕ)
    → walk_forward (build_index s) seeds allowed max_depth ≡ some order
    → walk_reverse (build_index s) seeds allowed max_depth ≡ some back
    → All (IsNear (λ e. e.from) (λ e. e.to) s.edges allowed seeds (depth_or_8 max_depth)) order
      × All (IsNear (λ e. e.to) (λ e. e.from) s.edges allowed seeds (depth_or_8 max_depth)) back
unfolding walk_forward walk_reverse
walks_reach s seeds order back allowed max_depth w v = (
  walk_from-IsNear (λ e. e.from) (λ e. e.to) s.edges allowed seeds max_depth
      (λ id. or_nil (lookup id (build_index s).out)) (λ id. (build_index-lookup s id).0)
      (fuel_for (build_index s) seeds) order w,
  walk_from-IsNear (λ e. e.to) (λ e. e.from) s.edges allowed seeds max_depth
      (λ id. or_nil (lookup id (build_index s).in')) (λ id. (build_index-lookup s id).1.0)
      (fuel_for (build_index s) seeds) back v,
)
