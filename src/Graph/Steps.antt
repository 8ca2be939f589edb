-- ===== src/Graph/Steps.antt =====
-- The cases of one step of a walk (internal/graph/traverse.go).
use architecture_rehearsal.Prelude.{
  ℕ, suc, ◌≡◌, refl, String, Option, List, [], ◌∷◌, ◌++◌, true, false, leb, contains, Bool-cases,
  ◌⊎◌, inl, inr,
}
use architecture_rehearsal.Graph.{Edge}
use architecture_rehearsal.Graph.Walk.{Queue, allows, visit, expand}

-- An edge is skipped, or its end is new and joins the queue.
pub visit-cases :
    (end : Edge → String) (allowed : Option (List String)) (depth : ℕ) (e : Edge) (es : List Edge)
    (seen : List String) (q : Queue)
    → (visit end allowed depth (e ∷ es) seen q ≡ visit end allowed depth es seen q)
      ⊎ (((allows allowed e.rel ≡ true) × (contains seen (end e) ≡ false))
          × (visit end allowed depth (e ∷ es) seen q
              ≡ visit end allowed depth es (end e ∷ seen) (q ++ (end e, suc depth) ∷ [])))
unfolding visit
visit-cases end allowed depth e es seen q = elim (Bool-cases (allows allowed e.rel)) [
  | inl ok ↦ elim (Bool-cases (contains seen (end e))) [
    | inl old ↦ inl (rw (ok, old) refl)
    | inr fresh ↦ inr ((ok, fresh), rw (ok, fresh) refl)
  ]
  | inr bad ↦ inl (rw bad refl)
]

pub expand-cases :
    (end : Edge → String) (edges_of : String → List Edge) (allowed : Option (List String))
    (max_depth : ℕ) (id : String) (depth : ℕ) (seen : List String) (q : Queue)
    → (expand end edges_of allowed max_depth id depth seen q ≡ (seen, q))
      ⊎ ((leb max_depth depth ≡ false)
          × (expand end edges_of allowed max_depth id depth seen q
              ≡ visit end allowed depth (edges_of id) seen q))
unfolding expand
expand-cases end edges_of allowed max_depth id depth seen q =
    elim (Bool-cases (leb max_depth depth)) [
      | inl deep ↦ inl (rw deep refl)
      | inr shallow ↦ inr (shallow, rw shallow refl)
    ]
