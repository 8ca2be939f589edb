-- ===== src/Impact/NetpolSteps.antt =====
-- The cuts that the detector of network policies finds (internal/impact/netpol.go).
use architecture_rehearsal.Prelude.{
  ◌≡◌, refl, String, Option, none, some, List, [], ◌∷◌, ◌++◌, map, filter, is_nil, any, Bool, true,
  false, not, ◌&&◌, ◌==◌, arith, Bool-cases, inl, inr,
}
use architecture_rehearsal.Graph.{Node, Edge, Index, ℤ}
use architecture_rehearsal.Loader.{ChangeEnvelope}
use architecture_rehearsal.Impact.Context.{Context}
use architecture_rehearsal.Impact.Netpol.{
  netpol_touched, policies_of, cuts_edge, cuts_between, resolve, Cut, cuts_of, dependencies,
  cut_verdict, judge_policies,
}

module _ (decimal : ℤ → String) where
  -- A policy of the proposed graph cuts between two nodes that are there.
  abbrev pub cut_between : List Node → Option Node → Option Node → Bool
  cut_between policies (some from) (some to) = any (λ np. cuts_edge decimal np from to) policies
  cut_between policies _ _ = false

  abbrev pub is_cut : Index → Index → Edge → Bool
  is_cut prop base e =
      cut_between (policies_of prop) (resolve decimal prop base e.from)
        (resolve decimal prop base e.to)

  pub filter-is_nil {ℓ} :
      {A : Type ℓ} (p : A → Bool) (xs : List A) → is_nil (filter p xs) ≡ not (any p xs)
  filter-is_nil p [] = refl
  filter-is_nil p (x ∷ xs) = ground (arith, filter-is_nil p xs)

  map-is_nil {ℓ κ} :
      {A : Type ℓ} {B : Type κ} (f : A → B) (xs : List A) → is_nil (map f xs) ≡ is_nil xs
  map-is_nil f [] = refl
  map-is_nil f (x ∷ xs) = refl

  append-is_nil {ℓ} : {A : Type ℓ} (xs ys : List A) → is_nil (xs ++ ys) ≡ (is_nil xs && is_nil ys)
  append-is_nil [] ys = refl
  append-is_nil (x ∷ xs) ys = refl

  between-is_nil :
      (policies : List Node) (a b : Option Node)
      → is_nil (cuts_between decimal policies a b) ≡ not (cut_between policies a b)
  between-is_nil policies none b = refl
  between-is_nil policies (some from) none = refl
  between-is_nil policies (some from) (some to) =
      let cut : Node → Cut = λ np. record { policy = np; source = from; target = to } in
      rw (map-is_nil cut (filter (λ np. cuts_edge decimal np from to) policies))
        (filter-is_nil (λ np. cuts_edge decimal np from to) policies)

  cuts-is_nil :
      (prop base : Index) (deps : List Edge)
      → is_nil (cuts_of decimal prop base deps) ≡ not (any (is_cut prop base) deps)
  unfolding cuts_of
  cuts-is_nil prop base [] = refl
  cuts-is_nil prop base (e ∷ es) =
      let here =
        cuts_between decimal (policies_of prop) (resolve decimal prop base e.from)
          (resolve decimal prop base e.to) in
      rw
        (
          append-is_nil here (cuts_of decimal prop base es),
          between-is_nil (policies_of prop) (resolve decimal prop base e.from)
              (resolve decimal prop base e.to),
          cuts-is_nil prop base es,
        )
        (ground arith)

  verdict_block :
      (prop : Index) (cs : List Cut)
      → ((cut_verdict decimal prop cs).status == "BLOCK") ≡ not (is_nil cs)
  verdict_block prop [] = refl
  verdict_block prop (c ∷ cs) = refl

  nil-any {ℓ} : {A : Type ℓ} (p : A → Bool) (xs : List A) → is_nil xs ≡ true → any p xs ≡ false
  nil-any p [] h = refl
  nil-any p (x ∷ xs) h = cc

  without_policies :
      (policies : List Node) (a b : Option Node)
      → is_nil policies ≡ true
      → cut_between policies a b ≡ false
  without_policies policies none b h = refl
  without_policies policies (some from) none h = refl
  without_policies policies (some from) (some to) h =
      nil-any (λ np. cuts_edge decimal np from to) policies h

  no_cut :
      (prop base : Index) (deps : List Edge)
      → is_nil (policies_of prop) ≡ true
      → any (is_cut prop base) deps ≡ false
  no_cut prop base [] h = refl
  no_cut prop base (e ∷ es) h =
      rw
        (without_policies (policies_of prop) (resolve decimal prop base e.from)
          (resolve decimal prop base e.to) h)
        (no_cut prop base es h)

  pub judge-block :
      (ctx : Context) (ch : ChangeEnvelope) (base prop : Index)
      → ((judge_policies decimal ctx ch base prop).status == "BLOCK")
        ≡ (netpol_touched ch base prop && any (is_cut prop base) (dependencies decimal ctx))
  judge-block ctx ch base prop =
      let deps = dependencies decimal ctx in
      elim (Bool-cases (netpol_touched ch base prop)) [
        | inr quiet ↦ rw quiet refl
        | inl touched ↦ elim (Bool-cases (is_nil deps)) [
          | inl empty ↦ rw (touched, empty, nil-any (is_cut prop base) deps empty) refl
          | inr given ↦ elim (Bool-cases (is_nil (policies_of prop))) [
            | inl free ↦ rw (touched, given, free, no_cut prop base deps free) refl
            | inr bound ↦
                rw (touched, given, bound)
                  (rw
                    (
                      verdict_block prop (cuts_of decimal prop base deps),
                      cuts-is_nil prop base deps,
                    )
                    (ground arith))
          ]
        ]
      ]
