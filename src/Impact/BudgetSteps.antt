-- ===== src/Impact/BudgetSteps.antt =====
-- How the steps of the rollout detector keep its findings honest (internal/impact/pdb.go).
use architecture_rehearsal.Prelude.{
  ℕ, ◌≡◌, refl, String, some, List, [], ◌∷◌, ◌++◌, any, Bool, true, false, not, ◌&&◌, ◌||◌, ◌==◌,
  eq_iff, arith, Bool-cases, inl, inr, eqb, ltb, leb, if◌then◌else◌,
}
use architecture_rehearsal.Graph.{Node, ℤ, pos}
use architecture_rehearsal.Verify.{ltz}
use architecture_rehearsal.Impact.Unavailable.{
  none_remain, effective_min_available, effective_max_unavailable,
}
use architecture_rehearsal.Impact.Pdb.{
  Rollout, Findings, add, unless_block, judge, judge_all, is_empty,
}
use architecture_rehearsal.Impact.Budgets.{
  Judged, stop, go, unless_worse, remaining, below, tighter, single, judge_budget,
}

-- The workload has no replicas, or its template is certain and its strategy keeps a pod.
abbrev pub is_safe : Rollout → Bool
is_safe x = eqb x.replicas 0 || (not x.uncertain && not (none_remain x.replicas x.max_unavailable))

-- Findings that pass exactly when there are none.
abbrev pub IsHonest : Findings → Type 0
IsHonest f = (f.worst == "PASS") ≡ is_empty f.findings

-- How far findings go on passing: they stay honest, and pass if they did and a test holds.
abbrev Passes : Findings → Bool → Findings → Type 0
Passes f test g = IsHonest g × ((g.worst == "PASS") ≡ ((f.worst == "PASS") && test))

snoc-is_empty : (xs : List String) (s : String) → is_empty (xs ++ s ∷ []) ≡ false
snoc-is_empty [] s = refl
snoc-is_empty (x ∷ xs) s = refl

add-Passes :
    (f : Findings) (msg : String) (ids : List String) (worst : String)
    → (worst == "PASS") ≡ false
    → Passes f false (add f msg ids worst)
add-Passes f msg ids worst h = ground (arith, h, snoc-is_empty f.findings msg)

unless_block-pass :
    (worst status : String)
    → (status == "PASS") ≡ false
    → (unless_block worst status == "PASS") ≡ false
unless_block-pass worst status h = elim (Bool-cases (worst == "BLOCK")) [
  | inl e ↦ rw ((eq_iff worst "BLOCK").0 e) refl
  | inr e ↦ rw (e, unless_block) h
]

unless_worse-pass :
    (worst status : String)
    → (status == "PASS") ≡ false
    → (unless_worse worst status == "PASS") ≡ false
unless_worse-pass worst status h = elim (Bool-cases (worst == "BLOCK")) [
  | inl e ↦ rw ((eq_iff worst "BLOCK").0 e) refl
  | inr e ↦ elim (Bool-cases (worst == "UNKNOWN")) [
    | inl u ↦ rw ((eq_iff worst "UNKNOWN").0 u) refl
    | inr o ↦ rw (e, o, unless_worse) h
  ]
]

if-pass :
    (c : Bool) (a b : String)
    → (a == "PASS") ≡ false
    → (b == "PASS") ≡ false
    → ((if c then a else b) == "PASS") ≡ false
if-pass true a b h k = h
if-pass false a b h k = k

keep-Passes : (f : Findings) → IsHonest f → Passes f true f
keep-Passes f h = (h, ground arith)

module _ (decimal : ℤ → String) where
  judge-Passes :
      (f : Findings) (x : Rollout) → IsHonest f → Passes f (is_safe x) (judge decimal f x)
  unfolding judge
  judge-Passes f x h = elim (Bool-cases (eqb x.replicas 0)) [
    | inl gone ↦ rw gone (keep-Passes f h)
    | inr some_pods ↦ elim (Bool-cases x.uncertain) [
      | inl unsure ↦
          rw (some_pods, unsure)
            (add-Passes f _ []
              (if none_remain x.replicas x.max_unavailable || x.recreate
                then "BLOCK"
                else unless_block f.worst "UNKNOWN")
              (if-pass (none_remain x.replicas x.max_unavailable || x.recreate) "BLOCK"
                (unless_block f.worst "UNKNOWN") refl (unless_block-pass f.worst "UNKNOWN" refl)))
      | inr sure ↦ elim (Bool-cases (none_remain x.replicas x.max_unavailable)) [
        | inr stays ↦ rw (some_pods, sure, stays) (keep-Passes f h)
        | inl goes ↦ elim (Bool-cases x.recreate) [
          | inl recreates ↦
              rw (some_pods, sure, goes, recreates)
                (add-Passes f _ [] (if x.triggers then "BLOCK" else unless_block f.worst "WARN") (
                  if-pass x.triggers "BLOCK" (unless_block f.worst "WARN") refl
                    (unless_block-pass f.worst "WARN" refl)))
          | inr rolls ↦ elim (Bool-cases x.triggers) [
            | inl now ↦ rw (some_pods, sure, goes, rolls, now) (add-Passes f _ [] "BLOCK" refl)
            | inr later ↦
                rw (some_pods, sure, goes, rolls, later)
                  (add-Passes f _ [] (unless_block f.worst "WARN")
                    (unless_block-pass f.worst "WARN" refl))
          ]
        ]
      ]
    ]
  ]

  pub judge_all-Passes :
      (xs : List Rollout) (f : Findings)
      → IsHonest f
      → IsHonest (judge_all decimal f xs)
        × (((judge_all decimal f xs).worst == "PASS")
            ≡ ((f.worst == "PASS") && not (any (λ x. not (is_safe x)) xs)))
  unfolding judge_all
  judge_all-Passes [] f h = (h, ground arith)
  judge_all-Passes (x ∷ xs) f h =
      let (honest, step) = judge-Passes f x h in
      let (rest, all) = judge_all-Passes xs (judge decimal f x) honest in
      (rest, ground (arith, all, step))

  -- Enough pods of a workload of a budget remain for the budget's minimum, where some remain, the
  -- strategy is not Recreate and the template is certain.
  abbrev pub keeps_minimum : Node → Rollout → Bool
  keeps_minimum pdb x =
      let min = effective_min_available (some pdb) x.replicas in
      (none_remain x.replicas x.max_unavailable || (x.recreate || x.uncertain))
      || not (ltb 0 min && ltb (remaining x.replicas x.max_unavailable) min)

  if_added :
      (c : Bool) (f : Findings) (msg : String) (ids : List String) (worst : String)
      → IsHonest f
      → (worst == "PASS") ≡ false
      → Passes f (not c) (if c then add f msg ids worst else f)
  if_added true f msg ids worst h k = add-Passes f msg ids worst k
  if_added false f msg ids worst h k = keep-Passes f h

  below-Passes :
      (pdb : Node) (x : Rollout) (rest min : ℕ) (f : Findings)
      → IsHonest f
      → Passes f (not (ltb 0 min && ltb rest min)) (below decimal pdb x rest min f)
  below-Passes pdb x rest min f h =
      if_added (ltb 0 min && ltb rest min) f _ (pdb.id ∷ x.id ∷ [])
        (if x.triggers then "BLOCK" else unless_worse f.worst "WARN") h
        (if-pass x.triggers "BLOCK" (unless_worse f.worst "WARN") refl
          (unless_worse-pass f.worst "WARN" refl))

  -- Whatever is added later, findings that pass then have passed before.
  abbrev PassesOnly : Findings → Findings → Type 0
  PassesOnly f g = IsHonest g × ((g.worst == "PASS" && not (f.worst == "PASS")) ≡ false)

  only : (f : Findings) (test : Bool) (g : Findings) → Passes f test g → PassesOnly f g
  only f test g h = ground (arith, h)

  tighter-PassesOnly :
      (pdb : Node) (x : Rollout) (max : ℕ) (f : Findings)
      → IsHonest f
      → PassesOnly f (tighter decimal pdb x max f)
  tighter-PassesOnly pdb x max f h = only f _ (tighter decimal pdb x max f) (
      if_added (ltb 0 max && ltz (pos max) x.max_unavailable) f _ (pdb.id ∷ x.id ∷ [])
        (unless_worse f.worst "WARN") h (unless_worse-pass f.worst "WARN" refl))

  single-PassesOnly :
      (pdb : Node) (x : Rollout) (min : ℕ) (f : Findings)
      → IsHonest f
      → PassesOnly f (single decimal pdb x min f)
  single-PassesOnly pdb x min f h = only f _ (single decimal pdb x min f) (
      if_added (eqb x.replicas 1 && leb 1 min) f _ (pdb.id ∷ x.id ∷ [])
        (unless_worse f.worst "WARN") h (unless_worse-pass f.worst "WARN" refl))

  -- A step of the loop over the budgets, which ends in no PASS or goes on passing if a test holds.
  abbrev pub Steps : Findings → Bool → Judged → Type 0
  Steps f test (stop v) = (v.status == "PASS") ≡ false
  Steps f test (go g) =
      IsHonest g × ((g.worst == "PASS" && not (f.worst == "PASS" && test)) ≡ false)

  both :
      (pdb : Node) (x : Rollout) (rest min max : ℕ) (f : Findings)
      → IsHonest f
      → IsHonest
          (single decimal pdb x min (tighter decimal pdb x max (below decimal pdb x rest min f)))
        × (((single decimal pdb x min
                  (tighter decimal pdb x max (below decimal pdb x rest min f))).worst
                == "PASS"
              && not (f.worst == "PASS" && not (ltb 0 min && ltb rest min)))
            ≡ false)
  both pdb x rest min max f h =
      let g = below decimal pdb x rest min f in
      let k = tighter decimal pdb x max g in
      let (honest, first) = below-Passes pdb x rest min f h in
      let (honest', second) = tighter-PassesOnly pdb x max g honest in
      let (honest'', third) = single-PassesOnly pdb x min k honest' in
      (honest'', ground (arith, first, second, third))

  pub judge_budget-Steps :
      (pdb : Node) (f : Findings) (x : Rollout)
      → IsHonest f
      → Steps f (keeps_minimum pdb x) (judge_budget decimal pdb f x)
  unfolding judge_budget
  judge_budget-Steps pdb f x h = elim (Bool-cases (eqb x.replicas 0)) [
    | inl gone ↦ rw gone refl
    | inr some_pods ↦
        elim (Bool-cases
          (none_remain x.replicas x.max_unavailable || (x.recreate || x.uncertain))) [
            | inl skipped ↦ rw (some_pods, skipped) (h, ground arith)
            | inr looked ↦
                rw (some_pods, looked)
                  (both pdb x (remaining x.replicas x.max_unavailable)
                    (effective_min_available (some pdb) x.replicas)
                    (effective_max_unavailable (some pdb) x.replicas) f h)
          ]
  ]
