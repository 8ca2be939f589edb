-- ===== src/Impact/PdbOrder.antt =====
-- What the order of the workloads decides in the first loop of internal/impact/pdb.go.
use architecture_rehearsal.Prelude.{
  ◌≡◌, refl, ◌∙◌, ap, String, Option, none, some, List, [], ◌∷◌, Bool, false, not, ◌||◌, ◌==◌, eqb,
  Bool-cases, inl, inr, if◌then◌else◌, any,
}
use text.Mathlib.TextEquality.{eq_iff}
use architecture_rehearsal.Graph.{ℤ}
use architecture_rehearsal.Impact.Pdb.{
  Rollout, Findings, judge, judge_all, unless_block, no_findings,
}
use architecture_rehearsal.Impact.Unavailable.{none_remain}

-- What a workload says alone: nothing, or a status.
unfoldable pub says : Rollout → Option String
says x =
    let gone = none_remain x.replicas x.max_unavailable in
    if eqb x.replicas 0
    then none
    else if x.uncertain
    then some (if gone || x.recreate then "BLOCK" else "UNKNOWN")
    else if not gone
    then none
    else if x.triggers
    then some "BLOCK"
    else some "WARN"

abbrev is_block : Option String → Bool
is_block none = false
is_block (some status) = status == "BLOCK"

abbrev pub says_block : Rollout → Bool
says_block x = is_block (says x)

abbrev or_before : Option String → String → String
or_before none before = before
or_before (some status) before = status

-- The last status of a list of workloads, after `before`.
abbrev pub last_said : String → List Rollout → String
last_said before [] = before
last_said before (x ∷ xs) = last_said (or_before (says x) before) xs

unless_block_if :
    (worst status : String)
    → unless_block worst status ≡ (if worst == "BLOCK" then "BLOCK" else status)
unless_block_if worst status = elim (Bool-cases (worst == "BLOCK")) [
  | inl same ↦ rw (same, unless_block) ((eq_iff worst "BLOCK").0 same)
  | inr other ↦ rw (other, unless_block) refl
]

combined :
    (before : String) (o : Option String) (t : Bool) (last : String → String)
    → let w = if is_block o || before == "BLOCK" then "BLOCK" else or_before o before in
      (if w == "BLOCK" || t then "BLOCK" else last w)
      ≡ (if before == "BLOCK" || (is_block o || t) then "BLOCK" else last (or_before o before))
combined before none t last = elim (Bool-cases (before == "BLOCK")) [
  | inl same ↦ rw same refl
  | inr other ↦ rw other (rw other refl)
]
combined before (some status) t last = elim (Bool-cases (status == "BLOCK")) [
  | inl blocks ↦ rw blocks (elim (Bool-cases (before == "BLOCK")) [
    | inl same ↦ rw same refl
    | inr other ↦ rw other refl
  ])
  | inr mild ↦ rw mild (elim (Bool-cases (before == "BLOCK")) [
    | inl same ↦ rw same refl
    | inr other ↦ rw other (rw mild refl)
  ])
]

unless_block_self : (worst : String) → worst ≡ (if worst == "BLOCK" then "BLOCK" else worst)
unless_block_self worst = elim (Bool-cases (worst == "BLOCK")) [
  | inl same ↦ rw same ((eq_iff worst "BLOCK").0 same)
  | inr other ↦ rw other refl
]

module _ (decimal : ℤ → String) where
  judge-worst :
      (f : Findings) (x : Rollout)
      → (judge decimal f x).worst
        ≡ (if says_block x || f.worst == "BLOCK" then "BLOCK" else or_before (says x) f.worst)
  unfolding judge says
  judge-worst f x = elim (Bool-cases (eqb x.replicas 0)) [
    | inl empty ↦ rw empty (unless_block_self f.worst)
    | inr some_pods ↦ rw some_pods (elim (Bool-cases x.uncertain) [
      | inl unsure ↦
          rw unsure (elim (Bool-cases (none_remain x.replicas x.max_unavailable || x.recreate)) [
            | inl severe ↦ rw severe refl
            | inr mild ↦ rw mild (unless_block_if f.worst "UNKNOWN")
          ])
      | inr sure ↦ rw sure (elim (Bool-cases (none_remain x.replicas x.max_unavailable)) [
        | inr left ↦ rw left (unless_block_self f.worst)
        | inl gone ↦ rw gone (elim (Bool-cases x.triggers) [
          | inl rolls ↦
              rw rolls
                (elim (Bool-cases x.recreate) [ inl all ↦ rw all refl | inr part ↦ rw part refl ])
          | inr latent ↦ rw latent (elim (Bool-cases x.recreate) [
            | inl all ↦ rw all (unless_block_if f.worst "WARN")
            | inr part ↦ rw part (unless_block_if f.worst "WARN")
          ])
        ])
      ])
    ])
  ]

  judge_all-worst :
      (f : Findings) (xs : List Rollout)
      → (judge_all decimal f xs).worst
        ≡ (if f.worst == "BLOCK" || any says_block xs then "BLOCK" else last_said f.worst xs)
  unfolding judge_all
  judge_all-worst f [] = elim (Bool-cases (f.worst == "BLOCK")) [
    | inl same ↦ rw same ((eq_iff f.worst "BLOCK").0 same)
    | inr other ↦ rw other refl
  ]
  judge_all-worst f (x ∷ xs) =
      judge_all-worst (judge decimal f x) xs
      ∙ (ap (λ w. if w == "BLOCK" || any says_block xs then "BLOCK" else last_said w xs)
            (judge-worst f x)
          ∙ combined f.worst (says x) (any says_block xs) (λ w. last_said w xs))

  -- The status of the first loop is BLOCK if some workload blocks; otherwise it is the status of the
  -- last workload that has one, not the most severe of them.
  pub judge_all_last_wins :
      (xs : List Rollout)
      → (judge_all decimal no_findings xs).worst
        ≡ (if any says_block xs then "BLOCK" else last_said "PASS" xs)
  judge_all_last_wins xs = judge_all-worst no_findings xs
