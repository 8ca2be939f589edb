-- ===== src/Graph/Walk.antt =====
-- internal/graph/traverse.go: the walks over the graph. The two walks differ in the map of the index
-- and in the end of an edge that they take; the queue holds identifiers with their depths, and `seen`
-- is a list. A walk runs on fuel, `none` is a walk that runs out of it.
use architecture_rehearsal.Prelude.{
  ℕ, zero, suc, ◌+◌, String, Option, none, some, List, [], ◌∷◌, ◌++◌, map, Bool, true, not, ◌||◌,
  ◌==◌, leb, eqb, length, filter, contains, non_empty, lookup, if◌then◌else◌,
}
use architecture_rehearsal.Graph.{Edge, Index, or_nil}

-- `allowed`: nil allows every relation.
abbrev pub allows : Option (List String) → String → Bool
allows none rel = true
allows (some rels) rel = contains rels rel

abbrev pub Queue : Type 0
Queue = List (String × ℕ)

-- The part of a walk over the edges of one node of the depth `depth`.
unfoldable pub visit :
    (Edge → String)
    → Option (List String)
    → ℕ
    → List Edge
    → List String
    → Queue
    → List String × Queue
visit end allowed depth [] seen q = (seen, q)
visit end allowed depth (e ∷ es) seen q =
    let skip = not (allows allowed e.rel) || contains seen (end e) in
    visit end allowed depth es (if skip then seen else end e ∷ seen)
      (if skip then q else q ++ (end e, suc depth) ∷ [])

-- Nothing is visited from a node at the greatest depth.
unfoldable pub expand :
    (Edge → String)
    → (String → List Edge)
    → Option (List String)
    → ℕ
    → String
    → ℕ
    → List String
    → Queue
    → List String × Queue
expand end edges_of allowed max_depth id depth seen q =
    if leb max_depth depth then (seen, q) else visit end allowed depth (edges_of id) seen q

abbrev pub and_then : String → Option (List String) → Option (List String)
and_then id none = none
and_then id (some order) = some (id ∷ order)

unfoldable pub walk :
    (Edge → String)
    → (String → List Edge)
    → Option (List String)
    → ℕ
    → ℕ
    → List String
    → Queue
    → Option (List String)
walk end edges_of allowed max_depth fuel seen [] = some []
walk end edges_of allowed max_depth zero seen (cur ∷ q) = none
walk end edges_of allowed max_depth (suc fuel) seen ((id, depth) ∷ q) =
    let next = expand end edges_of allowed max_depth id depth seen q in
    and_then id (walk end edges_of allowed max_depth fuel next.0 next.1)

-- Each seed and each edge puts at most one item on the queue.
abbrev pub fuel_for : Index → List String → ℕ
fuel_for idx seeds = length seeds + length idx.snap.edges

abbrev pub depth_or_8 : ℕ → ℕ
depth_or_8 max_depth = if eqb max_depth 0 then 8 else max_depth

unfoldable pub walk_from :
    (Edge → String)
    → (String → List Edge)
    → ℕ
    → List String
    → Option (List String)
    → ℕ
    → Option (List String)
walk_from end edges_of fuel seeds allowed max_depth =
    let start = filter non_empty seeds in
    walk end edges_of allowed (depth_or_8 max_depth) fuel start (map (λ s. (s, 0)) start)

-- A negative depth counts as 0.
unfoldable pub walk_forward : Index → List String → Option (List String) → ℕ → Option (List String)
walk_forward idx seeds allowed max_depth =
    walk_from (λ e. e.to) (λ id. or_nil (lookup id idx.out)) (fuel_for idx seeds) seeds allowed
      max_depth

unfoldable pub walk_reverse : Index → List String → Option (List String) → ℕ → Option (List String)
walk_reverse idx seeds allowed max_depth =
    walk_from (λ e. e.from) (λ id. or_nil (lookup id idx.in')) (fuel_for idx seeds) seeds allowed
      max_depth

abbrev pub dependent_relations : List String
dependent_relations = "DEPENDS_ON" ∷ "OBSERVED_BY" ∷ "PROTECTED_BY" ∷ "ROUTES_TO" ∷ "SCALES" ∷ []

abbrev pub without : String → Option (List String) → Option (List String)
without seed none = none
without seed (some ids) = some (filter (λ id. not (id == seed)) ids)

unfoldable pub dependents_of : Index → String → Option (List String)
dependents_of idx seed = without seed (walk_reverse idx (seed ∷ []) (some dependent_relations) 6)
