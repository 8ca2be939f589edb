-- ===== src/Graph/Validate/Changes.antt =====
-- What a change that fits its baseline is (internal/validate/validate.go).
use architecture_rehearsal.Prelude.{
  ◌≡◌, refl, sym, ◌⊎◌, inl, inr, String, Option, none, some, List, [], ◌∷◌, map, true, not, ◌&&◌,
  ◌==◌, arith, eq_iff, contains, contains-mem, All, Memᴰ, lookup, insert, lookup-insert, Bool-cases,
  non_empty,
}
use mathlib.Core.List.Memᴰ.{head, tail}
use architecture_rehearsal.Graph.{Node, Edge, Snapshot, known_relations}
use architecture_rehearsal.Graph.Validate.{
  ChangeLike, check_change, check_snapshot, by_id, is_known, check_patch, check_removed,
  check_patches, check_seeds, check_added_edges, change_against_baseline,
}
use architecture_rehearsal.Graph.Validate.Sound.{first_error-none, passed, known}

-- A seed is empty, or a node of the baseline or of the change.
abbrev pub IsSeed : List String → List String → String → Type 0
IsSeed ids added s = (s ≡ "") ⊎ (Memᴰ s ids ⊎ Memᴰ s added)

module _ (quote : String → String) where
  by_id-known :
      (idx : List (String × Node)) (ns : List Node) (k : String)
      → is_known quote (lookup k (by_id quote idx ns)) ≡ true
      → (is_known quote (lookup k idx) ≡ true) ⊎ Memᴰ k (map (λ n. n.id) ns)
  by_id-known idx [] k h = inl h
  by_id-known idx (n ∷ ns) k h = elim (by_id-known (insert n.id n idx) ns k h) [
    | inl e ↦ elim (Bool-cases (n.id == k)) [
      | inl same ↦ inr (head (sym ((eq_iff n.id k).0 same)))
      | inr other ↦ inl (rw other at (rw (lookup-insert n.id k n idx) at e))
    ]
    | inr m ↦ inr (tail m)
  ]

  is_in :
      (ns : List Node) (k : String)
      → is_known quote (lookup k (by_id quote [] ns)) ≡ true
      → Memᴰ k (map (λ n. n.id) ns)
  unfolding lookup
  is_in ns k h = elim (by_id-known [] ns k h) [ inl e ↦ cc | inr m ↦ m ]

  removed_ok :
      (ns : List Node) (ids : List String)
      → check_removed quote (by_id quote [] ns) ids ≡ none
      → All (λ id. Memᴰ id (map (λ n. n.id) ns)) ids
  unfolding check_removed
  removed_ok ns [] h = tt
  removed_ok ns (id ∷ ids) h =
      let one = passed (not (is_known quote (lookup id (by_id quote [] ns)))) _ _ _ h in
      (is_in ns id (ground (arith, one.0)), removed_ok ns ids one.1)

  patched : (p : Node) (o : Option Node) → check_patch quote p o ≡ none → is_known quote o ≡ true
  patched p none h = cc
  patched p (some n) h = refl

  patches_ok :
      (ns ps : List Node)
      → check_patches quote (by_id quote [] ns) ps ≡ none
      → All (λ p. Memᴰ p.id (map (λ n. n.id) ns)) ps
  unfolding check_patches
  patches_ok ns [] h = tt
  patches_ok ns (p ∷ ps) h =
      let found = lookup p.id (by_id quote [] ns) in
      let one =
        first_error-none (check_patch quote p found) (check_patches quote (by_id quote [] ns) ps)
          h in
      (is_in ns p.id (patched p found one.0), patches_ok ns ps one.1)

  seeds_ok :
      (ns added : List Node) (seeds : List String)
      → check_seeds quote (by_id quote [] ns) added seeds ≡ none
      → All (IsSeed (map (λ n. n.id) ns) (map (λ n. n.id) added)) seeds
  unfolding check_seeds
  seeds_ok ns added [] h = tt
  seeds_ok ns added (s ∷ seeds) h =
      let known_s = is_known quote (lookup s (by_id quote [] ns)) in
      let in_added = contains (map (λ a. a.id) added) s in
      let one = passed (non_empty s && (not known_s && not in_added)) _ _ _ h in
      (
        elim (Bool-cases (s == "")) [
          | inl e ↦ inl ((eq_iff s "").0 e)
          | inr e ↦ elim (Bool-cases known_s) [
            | inl k ↦ inr (inl (is_in ns s k))
            | inr k ↦
                inr (inr (contains-mem (map (λ a. a.id) added) s (ground (arith, e, k, one.0))))
          ]
        ],
        seeds_ok ns added seeds one.1,
      )

  edges_known :
      (es : List Edge)
      → check_added_edges quote es ≡ none
      → All (λ e. Memᴰ e.rel known_relations) es
  unfolding check_added_edges
  edges_known [] h = tt
  edges_known (e ∷ es) h =
      let one = passed _ _ _ _ h in (known known_relations e.rel one.0, edges_known es one.1)

-- A change that validation accepts against a baseline removes and patches only nodes of the
-- baseline, has no seed but nodes of the baseline and those that it adds, and adds only edges of a
-- known relation; and the baseline itself is accepted.
pub change_against_baseline-none :
    (quote : String → String) (base : Snapshot) (ch : ChangeLike)
    → change_against_baseline quote (some base) ch ≡ none
    → let ids = map (λ n. n.id) base.nodes in
      let added = map (λ n. n.id) ch.get_added_nodes in
      (check_snapshot quote (some base) ≡ none)
      × ((All (λ id. Memᴰ id ids) ch.get_removed_nodes
            × All (λ p. Memᴰ p.id ids) ch.get_patch_nodes)
          × (All (IsSeed ids added) ch.get_seeds
              × All (λ e. Memᴰ e.rel known_relations) ch.get_added_edges))
unfolding change_against_baseline
change_against_baseline-none quote base ch h =
    let one = first_error-none (check_change quote (some ch)) _ h in
    let two = first_error-none (check_snapshot quote (some base)) _ one.1 in
    let three =
      first_error-none (check_removed quote (by_id quote [] base.nodes) ch.get_removed_nodes) _
        two.1 in
    let four =
      first_error-none (check_patches quote (by_id quote [] base.nodes) ch.get_patch_nodes) _
        three.1 in
    let five =
      first_error-none
        (check_seeds quote (by_id quote [] base.nodes) ch.get_added_nodes ch.get_seeds)
        (check_added_edges quote ch.get_added_edges) four.1 in
    (
      two.0,
      (
        (
          removed_ok quote base.nodes ch.get_removed_nodes three.0,
          patches_ok quote base.nodes ch.get_patch_nodes four.0,
        ),
        (
          seeds_ok quote base.nodes ch.get_added_nodes ch.get_seeds five.0,
          edges_known quote ch.get_added_edges five.1,
        ),
      ),
    )
