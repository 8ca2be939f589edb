-- ===== src/Verify/Clear.antt =====
-- What it means that no check is against the prediction or leaves it open (internal/verify/verify.go).
use architecture_rehearsal.Prelude.{
  ◌≡◌, refl, String, Option, none, some, List, [], ◌∷◌, ◌++◌, map, filter, gather, any, All,
  All-map, Bool, true, false, not, ◌&&◌, ◌||◌, ◌==◌, arith, Bool-cases, inl, inr, lookup, concat,
  any-append, any-gather, none_passes, contains-mem, All-mem,
}
use architecture_rehearsal.Graph.{Node, Index, ℤ, pos, build_index, workload_replicas}
use architecture_rehearsal.Loader.{ChangeEnvelope}
use architecture_rehearsal.Analyze.{unique_after}
use architecture_rehearsal.Verify.{Observed, Prediction, Check, fails, is_some, eqz, optional_int}
use architecture_rehearsal.Verify.Scenarios.{independent_scenario_check}
use architecture_rehearsal.Verify.Identity.{
  PatchId, Applied, patch_present, patch_found, patch_result, patch_loop, with_result,
  change_identity_checks, delta_checks, still_present, digest_check, parts_of, removed_delta,
  or_consistent, patch_delta,
}
use architecture_rehearsal.Verify.Outcome.{refutes, leaves_open}
use architecture_rehearsal.Verify.Evidence.{scenario-hard}

-- The observed node has the replicas that the patch wants, if it wants any.
abbrev pub has_replicas : Option ℤ → Node → Bool
has_replicas none n = true
has_replicas (some want) n = eqz (pos (workload_replicas (some n))) want

abbrev pub is_applied : Index → Node → Option Node → Bool
is_applied idx p none = p.id == ""
is_applied idx p (some n) = p.id == "" || has_replicas (optional_int p.attributes "replicas") n

-- Nothing in a list of checks is against the prediction or leaves it open.
abbrev pub troubles : Check → Bool
troubles c = refutes c || leaves_open c

pub untroubled :
    (cs : List Check)
    → any refutes cs ≡ false
    → any leaves_open cs ≡ false
    → any troubles cs ≡ false
untroubled [] h k = refl
untroubled (c ∷ cs) h k = ground (arith, untroubled cs)

pub skipped_applied :
    (idx : Index) (p : Node) (o : Option Node) → (p.id == "") ≡ true → is_applied idx p o ≡ true
skipped_applied idx p none e = e
skipped_applied idx p (some n) e = ground (arith, e)

pub unique_after-All :
    (P : String → Type 0) (seen ss : List String)
    → All P seen
    → All P (unique_after seen ss)
    → All P ss
unique_after-All P seen [] h k = tt
unique_after-All P seen (s ∷ ss) h k = elim (Bool-cases (any (λ t. t == s) seen)) [
  | inl e ↦ (All-mem P seen h (contains-mem seen s e), unique_after-All P seen ss h (rw e at k))
  | inr e ↦ let (here, rest) = rw e at k in (here, unique_after-All P (s ∷ seen) ss (here, h) rest)
]

pub clear_append :
    (xs ys : List Check)
    → any troubles (xs ++ ys) ≡ false
    → (any troubles xs ≡ false) × (any troubles ys ≡ false)
clear_append xs ys h = ground (arith, h, any-append troubles xs ys)

pub clear_parts :
    (a b c d e f : List Check)
    → any troubles (a ++ b ++ c ++ d ++ e ++ f) ≡ false
    → (any troubles a ≡ false)
      × ((any troubles b ≡ false)
          × ((any troubles c ≡ false)
              × ((any troubles d ≡ false) × ((any troubles e ≡ false) × (any troubles f ≡ false)))))
clear_parts a b c d e f h = ground (
  arith,
  h,
  any-append troubles (a ++ b ++ c ++ d ++ e) f,
  any-append troubles (a ++ b ++ c ++ d) e,
  any-append troubles (a ++ b ++ c) d,
  any-append troubles (a ++ b) c,
  any-append troubles a b,
)

pub both_given :
    {A B : Type 0} (a : Option A) (b : Option B)
    → (is_some a && is_some b) ≡ true
    → (x : A) × (y : B) × (a ≡ some x) × (b ≡ some y)
both_given none b h = cc
both_given (some x) none h = cc
both_given (some x) (some y) h = (x, y, refl, refl)

module _ (decimal : ℤ → String) where
  present_applied :
      (idx : Index) (p n : Node) (want : Option ℤ)
      → any troubles (patch_present decimal p n want).1 ≡ false
      → has_replicas want n ≡ true
  unfolding patch_present
  present_applied idx p n none h = refl
  present_applied idx p n (some want) h = ground (arith, h)

  found_applied :
      (idx : Index) (p : Node) (o : Option Node)
      → any troubles (patch_found decimal p o).1 ≡ false
      → is_applied idx p o ≡ true
  found_applied idx p none h = cc
  found_applied idx p (some n) h =
      ground (arith, present_applied idx p n (optional_int p.attributes "replicas") h)

  result_applied :
      (idx : Index) (p : Node)
      → any troubles (patch_result decimal idx p).1 ≡ false
      → is_applied idx p (lookup p.id idx.by_id) ≡ true
  unfolding patch_result
  result_applied idx p h = found_applied idx p (lookup p.id idx.by_id) h

  loop_applied :
      (idx : Index) (ps : List Node) (acc : Applied)
      → any troubles (patch_loop decimal idx ps acc).checks ≡ false
      → (any troubles acc.checks ≡ false)
        × All (λ p. is_applied idx p (lookup p.id idx.by_id) ≡ true) ps
  unfolding patch_loop
  loop_applied idx [] acc h = (h, tt)
  loop_applied idx (p ∷ ps) acc h = elim (Bool-cases (p.id == "")) [
    | inl e ↦
        let (before, rest) = loop_applied idx ps acc (rw (e, any) at h) in
        (before, (skipped_applied idx p (lookup p.id idx.by_id) e, rest))
    | inr e ↦
        let (before, rest) =
          loop_applied idx ps (with_result decimal acc (patch_result decimal idx p))
            (rw (e, any) at h) in
        let split = any-append troubles acc.checks (patch_result decimal idx p).1 in
        (
          ground (arith, before, split),
          (result_applied idx p (ground (arith, before, split)), rest),
        )
  ]

  pub All-present :
      (idx : Index) (cs : List String)
      → any troubles (
          map
            (λ c.
              fails
                (concat ("component_missing:" ∷ c ∷ []))
                "primary workload/PVC from finding not present in observed graph")
            (filter (λ c. not (is_some (lookup c idx.by_id))) cs))
        ≡ false
      → All (λ c. is_some (lookup c idx.by_id) ≡ true) cs
  All-present idx [] h = tt
  All-present idx (c ∷ cs) h = ground (arith, h, All-present idx cs)

  pub All-matched :
      (pred : Prediction) (o : Observed) (idx : Index) (ss : List String)
      → any troubles (map (λ s. independent_scenario_check decimal s pred o idx) ss) ≡ false
      → All (λ s. (independent_scenario_check decimal s pred o idx).passed ≡ true) ss
  All-matched pred o idx [] h = tt
  All-matched pred o idx (s ∷ ss) h =
      ground (arith, h, All-matched pred o idx ss, scenario-hard decimal s pred o idx)

  pub identity_applied :
      (fingerprint : List PatchId → String) (ch : ChangeEnvelope) (idx : Index)
      → any troubles (change_identity_checks decimal fingerprint ch idx).1 ≡ false
      → All (λ p. is_applied idx p (lookup p.id idx.by_id) ≡ true) ch.patch_nodes
  unfolding change_identity_checks
  identity_applied fingerprint ch idx h =
      let start : Applied = record { applied = 0; wanted = 0; checks = [] } in
      let acc = patch_loop decimal idx ch.patch_nodes start in
      (loop_applied idx ch.patch_nodes start (
        ground (
          arith,
          h,
          any-append troubles acc.checks (
              gather (still_present decimal idx) ch.removed_nodes
              ++ digest_check decimal (fingerprint (parts_of ch)) ch acc),
        ))).1

  consistent_troubles :
      (cs : List Check) → any troubles (or_consistent decimal cs) ≡ any troubles cs
  consistent_troubles [] = refl
  consistent_troubles (c ∷ cs) = refl

  -- A node of the kind Node that was to be removed is in the observed graph.
  abbrev pub still_there : Option Node → Option Node → Bool
  still_there (some before) (some n) = before.kind == "Node"
  still_there _ _ = false

  removed_gone :
      (id : String) (before after : Option Node)
      → any troubles (removed_delta decimal id before after) ≡ false
      → still_there before after ≡ false
  removed_gone id none none h = refl
  removed_gone id none (some n) h = refl
  removed_gone id (some before) none h = refl
  removed_gone id (some before) (some n) h = ground (arith, h)

  pub delta_gone :
      (base observed : Observed) (ch : ChangeEnvelope)
      → any troubles (delta_checks decimal base.graph ch observed.graph) ≡ false
      → All
          (λ id.
            still_there
              (lookup id (build_index base.graph).by_id)
              (lookup id (build_index observed.graph).by_id)
            ≡ false)
          ch.removed_nodes
  unfolding delta_checks
  delta_gone base observed ch h =
      let before = (build_index base.graph).by_id in
      let after = (build_index observed.graph).by_id in
      let gone =
        gather (λ id. removed_delta decimal id (lookup id before) (lookup id after))
          ch.removed_nodes in
      let moved =
        gather
          (λ p.
            patch_delta decimal p (lookup p.id before) (lookup p.id after)
              (optional_int p.attributes "replicas"))
          ch.patch_nodes in
      All-map (λ id k. removed_gone id (lookup id before) (lookup id after) k) ch.removed_nodes
        (none_passes
          (λ id. any troubles (removed_delta decimal id (lookup id before) (lookup id after)))
          ch.removed_nodes
          (ground (
            arith,
            h,
            consistent_troubles (gone ++ moved),
            any-append troubles gone moved,
            any-gather troubles
                (λ id. removed_delta decimal id (lookup id before) (lookup id after))
                ch.removed_nodes,
          )))
