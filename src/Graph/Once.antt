-- ===== src/Graph/Once.antt =====
-- The walks visit a node once (internal/graph/traverse.go).
use architecture_rehearsal.Prelude.{
  ℕ, zero, suc, ◌≡◌, refl, sym, ap, subst, ◌⊎◌, inl, inr, String, Option, none, some, List, [], ◌∷◌,
  ◌++◌, map, Bool, true, false, ◌||◌, ◌==◌, arith, eq_iff, eq_refl, filter, contains, lookup,
  non_empty, Bool-cases,
}
use architecture_rehearsal.Graph.{Edge, Snapshot, or_nil, build_index}
use architecture_rehearsal.Graph.Steps.{visit-cases, expand-cases}
use architecture_rehearsal.Graph.Walk.{
  Queue, visit, expand, walk, walk_from, walk_forward, walk_reverse, and_then, depth_or_8, fuel_for,
}

-- No text of the list comes again later in it.
abbrev pub IsOnce : List String → Type 0
IsOnce [] = Unit
IsOnce (s ∷ ss) = (contains ss s ≡ false) × IsOnce ss

abbrev ids : Queue → List String
ids q = map (λ item. item.0) q

-- What a walk keeps: the queue repeats nothing and was seen.
abbrev IsSeen : List String → Queue → Type 0
IsSeen seen q = IsOnce (ids q) × ((x : String) → contains (ids q) x ≡ true → contains seen x ≡ true)

-- What it adds: nothing that was seen before.
abbrev IsGrown : List String → Queue → List String → Queue → Type 0
IsGrown seen q seen' q' =
    ((x : String) → contains seen x ≡ true → contains seen' x ≡ true)
    × ((x : String)
        → contains (ids q') x ≡ true
        → (contains (ids q) x ≡ true) ⊎ (contains seen x ≡ false))

ids-snoc :
    (q : Queue) (y x : String) (d : ℕ)
    → contains (ids (q ++ (y, d) ∷ [])) x ≡ (contains (ids q) x || (y == x))
ids-snoc [] y x d = ground arith
ids-snoc (item ∷ q) y x d = ground (arith, ids-snoc q y x d)

IsOnce-snoc :
    (q : Queue) (y : String) (d : ℕ)
    → contains (ids q) y ≡ false
    → IsOnce (ids q)
    → IsOnce (ids (q ++ (y, d) ∷ []))
IsOnce-snoc [] y d h k = (refl, tt)
IsOnce-snoc (item ∷ q) y d h k = (
  ground (arith, ids-snoc q y item.0 d, h, k.0, eq_iff y item.0, eq_iff item.0 y),
  IsOnce-snoc q y d (ground (arith, h)) k.1,
)

snoc-cases :
    (seen : List String) (q : Queue) (y x : String) (d : ℕ)
    → contains (ids (q ++ (y, d) ∷ [])) x ≡ true
    → contains seen y ≡ false
    → (contains (ids q) x ≡ true) ⊎ (contains seen x ≡ false)
snoc-cases seen q y x d m h = elim (Bool-cases (y == x)) [
  | inl same ↦ inr (subst (λ z. contains seen z ≡ false) ((eq_iff y x).0 same) h)
  | inr other ↦ inl (ground (arith, m, ids-snoc q y x d, other))
]

visit-IsGrown :
    (end : Edge → String) (allowed : Option (List String)) (depth : ℕ) (es : List Edge)
    (seen : List String) (q : Queue)
    → IsSeen seen q
    → let next = visit end allowed depth es seen q in
      IsSeen next.0 next.1 × IsGrown seen q next.0 next.1
unfolding visit
visit-IsGrown end allowed depth [] seen q h = (h, ((λ x m. m), (λ x m. inl m)))
visit-IsGrown end allowed depth (e ∷ es) seen q h =
    elim (visit-cases end allowed depth e es seen q) [
      | inl skip ↦
          subst (λ next. IsSeen next.0 next.1 × IsGrown seen q next.0 next.1) (sym skip)
            (visit-IsGrown end allowed depth es seen q h)
      | inr (ok, fresh) ↦
          let q' = q ++ (end e, suc depth) ∷ [] in
          let rest = visit-IsGrown end allowed depth es (end e ∷ seen) q' (
            IsOnce-snoc q (end e) (suc depth) (ground (arith, h.1 (end e), ok.1)) h.0,
            λ x m. ground (arith, m, ids-snoc q (end e) x (suc depth), h.1 x, eq_iff (end e) x),
          ) in
          subst (λ next. IsSeen next.0 next.1 × IsGrown seen q next.0 next.1) (sym fresh)
            (
              rest.0,
              (
                (λ x m. rest.1.0 x (ground (arith, m))),
                λ x m. elim (rest.1.1 x m) [
                  | inl old ↦ snoc-cases seen q (end e) x (suc depth) old ok.1
                  | inr new ↦ inr (ground (arith, new))
                ],
              ),
            )
    ]

expand-IsGrown :
    (end : Edge → String) (edges_of : String → List Edge) (allowed : Option (List String))
    (max_depth : ℕ) (id : String) (depth : ℕ) (seen : List String) (q : Queue)
    → IsSeen seen q
    → let next = expand end edges_of allowed max_depth id depth seen q in
      IsSeen next.0 next.1 × IsGrown seen q next.0 next.1
expand-IsGrown end edges_of allowed max_depth id depth seen q h =
    elim (expand-cases end edges_of allowed max_depth id depth seen q) [
      | inl deep ↦
          subst (λ next. IsSeen next.0 next.1 × IsGrown seen q next.0 next.1) (sym deep)
            (h, ((λ x m. m), (λ x m. inl m)))
      | inr (shallow, e) ↦
          subst (λ next. IsSeen next.0 next.1 × IsGrown seen q next.0 next.1) (sym e)
            (visit-IsGrown end allowed depth (edges_of id) seen q h)
    ]

-- What the walk visits from here on: nothing twice, and only what is queued or not yet seen.
abbrev Visits : List String → Queue → Option (List String) → Type 0
Visits seen q none = Unit
Visits seen q (some order) =
    IsOnce order
    × ((x : String)
        → contains order x ≡ true
        → (contains (ids q) x ≡ true) ⊎ (contains seen x ≡ false))

not_both : {b : Bool} → b ≡ true → b ≡ false → ⊥
not_both t f = ground (arith, t, f)

not_before :
    (seen seen' : List String) (x : String)
    → (contains seen x ≡ true → contains seen' x ≡ true)
    → contains seen' x ≡ false
    → contains seen x ≡ false
not_before seen seen' x g n = elim (Bool-cases (contains seen x)) [
  | inl s ↦ absurd (not_both (g s) n)
  | inr e ↦ e
]

came_from :
    (seen : List String) (q : Queue) (seen' : List String) (q' : Queue) (order : List String)
    (x : String)
    → IsGrown seen q seen' q'
    → Visits seen' q' (some order)
    → contains order x ≡ true
    → (contains (ids q) x ≡ true) ⊎ (contains seen x ≡ false)
came_from seen q seen' q' order x g v m = elim (v.1 x m) [
  | inl k ↦ g.1 x k
  | inr n ↦ inr (not_before seen seen' x (g.0 x) n)
]

and_then-Visits :
    (id : String) (depth : ℕ) (seen : List String) (q : Queue) (seen' : List String) (q' : Queue)
    (rest : Option (List String))
    → IsSeen seen ((id, depth) ∷ q)
    → IsGrown seen q seen' q'
    → Visits seen' q' rest
    → Visits seen ((id, depth) ∷ q) (and_then id rest)
and_then-Visits id depth seen q seen' q' none h g v = tt
and_then-Visits id depth seen q seen' q' (some order) h g v =
    let first = h.1 id (rw (eq_refl id) refl) in
    let came =
      λ (x : String) (m : contains order x ≡ true). came_from seen q seen' q' order x g v m in
    (
      (
        elim (Bool-cases (contains order id)) [
          | inl m ↦ elim (came id m) [
            | inl old ↦ absurd (not_both old h.0.0)
            | inr new ↦ absurd (not_both first new)
          ]
          | inr e ↦ e
        ],
        v.0,
      ),
      λ x m. elim (Bool-cases (id == x)) [
        | inl e ↦ inl (rw e refl)
        | inr e ↦ elim (came x (ground (arith, m, e))) [
          | inl old ↦ inl (ground (arith, old))
          | inr new ↦ inr new
        ]
      ],
    )

walk-Visits :
    (end : Edge → String) (edges_of : String → List Edge) (allowed : Option (List String))
    (max_depth fuel : ℕ) (seen : List String) (q : Queue)
    → IsSeen seen q
    → Visits seen q (walk end edges_of allowed max_depth fuel seen q)
unfolding walk
walk-Visits end edges_of allowed max_depth fuel seen [] h = (tt, λ x m. cc)
walk-Visits end edges_of allowed max_depth zero seen (cur ∷ q) h = tt
walk-Visits end edges_of allowed max_depth (suc fuel) seen ((id, depth) ∷ q) h =
    let next = expand end edges_of allowed max_depth id depth seen q in
    let grown =
      expand-IsGrown end edges_of allowed max_depth id depth seen q
        (h.0.1, λ x m. h.1 x (ground (arith, m))) in
    and_then-Visits id depth seen q next.0 next.1
      (walk end edges_of allowed max_depth fuel next.0 next.1) h grown.1
      (walk-Visits end edges_of allowed max_depth fuel next.0 next.1 grown.0)

start-ids : (seeds : List String) → ids (map (λ s. (s, 0)) seeds) ≡ seeds
start-ids [] = refl
start-ids (s ∷ seeds) = ap (λ ss. s ∷ ss) (start-ids seeds)

walk_from-IsOnce :
    (end : Edge → String) (edges_of : String → List Edge) (fuel : ℕ) (seeds : List String)
    (allowed : Option (List String)) (max_depth : ℕ) (order : List String)
    → IsOnce (filter non_empty seeds)
    → walk_from end edges_of fuel seeds allowed max_depth ≡ some order
    → IsOnce order
unfolding walk_from
walk_from-IsOnce end edges_of fuel seeds allowed max_depth order h w =
    let start = filter non_empty seeds in
    let same = sym (start-ids start) in
    (subst (Visits start (map (λ s. (s, 0)) start)) w (
      walk-Visits end edges_of allowed (depth_or_8 max_depth) fuel start (map (λ s. (s, 0)) start)
        (subst IsOnce same h, λ x m. subst (λ ss. contains ss x ≡ true) (start-ids start) m))).0

-- If no non-empty seed is given twice, neither walk visits a node twice, also where the graph has cycles.
pub walks-IsOnce :
    (s : Snapshot) (seeds order back : List String) (allowed : Option (List String)) (max_depth : ℕ)
    → IsOnce (filter non_empty seeds)
    → walk_forward (build_index s) seeds allowed max_depth ≡ some order
    → walk_reverse (build_index s) seeds allowed max_depth ≡ some back
    → IsOnce order × IsOnce back
unfolding walk_forward walk_reverse
walks-IsOnce s seeds order back allowed max_depth h w v = (
  walk_from-IsOnce (λ e. e.to) (λ id. or_nil (lookup id (build_index s).out))
      (fuel_for (build_index s) seeds) seeds allowed max_depth order h w,
  walk_from-IsOnce (λ e. e.from) (λ id. or_nil (lookup id (build_index s).in'))
      (fuel_for (build_index s) seeds) seeds allowed max_depth back h v,
)
