-- ===== src/Impact/PvcZones.antt =====
-- When the detector of claims passes (internal/impact/pvc.go).
use architecture_rehearsal.Prelude.{
  ◌≡◌, refl, String, Option, none, some, List, [], ◌∷◌, ◌++◌, gather, is_nil, any, contains, All,
  All-map, All-zip, Bool, true, false, not, ◌&&◌, ◌||◌, ◌==◌, arith, Bool-cases, inl, inr,
  non_empty,
}
use architecture_rehearsal.Graph.{Node, Index, ℤ, Fields, attr_string}
use architecture_rehearsal.Verify.{Observed}
use architecture_rehearsal.Impact.Context.{Context, object_at}
use architecture_rehearsal.Impact.Pvc.{
  claims_of, nodes_of, zone_set, binders, selected_zone, selector_conflict, empty_zone,
  conflicts_of, lacks_zone, needs_zone, concluded, judge_claims, judge_given, evaluate, Conflict,
}

module _ (decimal : ℤ → String) where
  -- The zone that a node selector shows is none or the claim's, if that has one.
  abbrev pub zone_agrees : Node → Option Fields → Bool
  zone_agrees pvc none = true
  zone_agrees pvc (some sel) =
      let zone = attr_string (some pvc) "zone" in
      zone == "" || (selected_zone decimal sel == "" || zone == selected_zone decimal sel)

  -- The claim has no zone, or one of the zones, and has one if the baseline calls its storage class
  -- zonal.
  abbrev pub is_placed : Option Observed → List String → Node → Bool
  is_placed baseline zones pvc =
      (attr_string (some pvc) "zone" == "" || contains zones (attr_string (some pvc) "zone"))
      && not (lacks_zone decimal baseline pvc)

  -- What the loop asks of a claim.
  abbrev is_clear : Option Observed → Index → List String → Node → Bool
  is_clear baseline prop zones pvc =
      not (lacks_zone decimal baseline pvc) && is_nil (conflicts_of decimal prop zones pvc)

  append-is_nil : (xs ys : List (Conflict decimal)) → is_nil (xs ++ ys) ≡ (is_nil xs && is_nil ys)
  append-is_nil [] ys = refl
  append-is_nil (x ∷ xs) ys = refl

  concluded-pass :
      (pvcs : List Node) (zones : List String) (cs : List (Conflict decimal))
      → ((concluded decimal pvcs zones cs).status == "PASS") ≡ (
          is_nil cs
          && not (any (λ pvc. non_empty (attr_string (some pvc) "zone")) pvcs && is_nil zones))
  concluded-pass pvcs zones [] =
      elim (Bool-cases
        (any (λ pvc. non_empty (attr_string (some pvc) "zone")) pvcs && is_nil zones)) [
          | inl e ↦ rw e refl
          | inr e ↦ rw e refl
        ]
  concluded-pass pvcs zones (c ∷ cs) = refl

  loop-pass :
      (baseline : Option Observed) (prop : Index) (zones : List String) (pvcs rest : List Node)
      (cs : List (Conflict decimal))
      → ((judge_claims decimal baseline prop zones pvcs rest cs).status == "PASS") ≡ true
      → (is_nil cs ≡ true)
        × (All (λ pvc. is_clear baseline prop zones pvc ≡ true) rest
            × (not (any (λ pvc. non_empty (attr_string (some pvc) "zone")) pvcs && is_nil zones)
                ≡ true))
  unfolding judge_claims
  loop-pass baseline prop zones pvcs [] cs h = ground (arith, h, concluded-pass pvcs zones cs)
  loop-pass baseline prop zones pvcs (pvc ∷ rest) cs h =
      elim (Bool-cases (lacks_zone decimal baseline pvc)) [
        | inl lacks ↦ cc (rw lacks at h)
        | inr has ↦
            let more = conflicts_of decimal prop zones pvc in
            let (empty, (later, zoned)) =
              loop-pass baseline prop zones pvcs rest (cs ++ more) (rw has at h) in
            let split = append-is_nil cs more in
            (ground (arith, empty, split), ((ground (arith, empty, split, has), later), zoned))
      ]

  gather-nil :
      (f : Node → List (Conflict decimal)) (ws : List Node)
      → is_nil (gather f ws) ≡ true
      → All (λ w. is_nil (f w) ≡ true) ws
  gather-nil f [] h = tt
  gather-nil f (w ∷ ws) h =
      let split = append-is_nil (f w) (gather f ws) in
      (ground (arith, h, split), gather-nil f ws (ground (arith, h, split)))

  selector-agrees :
      (prop : Index) (pvc w : Node) (sel : Option Fields)
      → is_nil (selector_conflict decimal prop pvc w sel) ≡ true
      → zone_agrees pvc sel ≡ true
  selector-agrees prop pvc w none h = refl
  selector-agrees prop pvc w (some sel) h = ground (arith, h)

  zoned-All :
      (q : Node → Bool) (b : Bool) (xs : List Node)
      → not (any q xs && b) ≡ true
      → All (λ x. (q x && b) ≡ false) xs
  zoned-All q b [] h = tt
  zoned-All q b (x ∷ xs) h = (ground (arith, h), zoned-All q b xs (ground (arith, h)))

  claim-fits :
      (baseline : Option Observed) (prop : Index) (zones : List String) (pvc : Node)
      → (is_clear baseline prop zones pvc ≡ true)
        × ((non_empty (attr_string (some pvc) "zone") && is_nil zones) ≡ false)
      → (is_placed baseline zones pvc ≡ true)
        × All (λ w. zone_agrees pvc (object_at "nodeSelector" w) ≡ true) (binders prop pvc)
  unfolding conflicts_of
  claim-fits baseline prop zones pvc h =
      let chosen =
        gather (λ w. selector_conflict decimal prop pvc w (object_at "nodeSelector" w))
          (binders prop pvc) in
      let split = append-is_nil chosen (empty_zone decimal zones pvc) in
      (
        ground (arith, h, split),
        All-map (λ w k. selector-agrees prop pvc w (object_at "nodeSelector" w) k)
            (binders prop pvc)
            (gather-nil (λ w. selector_conflict decimal prop pvc w (object_at "nodeSelector" w))
              (binders prop pvc) (ground (arith, h, split))),
      )

  claims-fit :
      (baseline : Option Observed) (prop : Index) (zones : List String) (pvcs : List Node)
      → ((judge_claims decimal baseline prop zones pvcs pvcs []).status == "PASS") ≡ true
      → All
          (λ pvc.
            (is_placed baseline zones pvc ≡ true)
            × All (λ w. zone_agrees pvc (object_at "nodeSelector" w) ≡ true) (binders prop pvc))
          pvcs
  claims-fit baseline prop zones pvcs h =
      let (empty, (clear, zoned)) = loop-pass baseline prop zones pvcs pvcs [] h in
      All-map (λ pvc k. claim-fits baseline prop zones pvc k) pvcs
        (All-zip (λ pvc. is_clear baseline prop zones pvc ≡ true)
          (λ pvc. (non_empty (attr_string (some pvc) "zone") && is_nil zones) ≡ false) pvcs clear
          (zoned-All (λ pvc. non_empty (attr_string (some pvc) "zone")) (is_nil zones) pvcs zoned))

  nil-All {κ} : (P : Node → Type κ) (xs : List Node) → is_nil xs ≡ true → All P xs
  nil-All P [] h = tt
  nil-All P (x ∷ xs) h = cc

  -- The detector passes only if every claim of the proposed graph has no zone or a zone of the nodes, and
  -- a zone if the baseline calls its storage class zonal, and if every workload that binds it and has
  -- a node selector shows its zone there, or an empty text.
  pub evaluate-is_placed :
      (ctx : Context) (base prop : Index)
      → ctx.base_idx ≡ some base
      → ctx.prop_idx ≡ some prop
      → ((evaluate decimal ctx).status == "PASS") ≡ true
      → All
          (λ pvc.
            (is_placed ctx.baseline (zone_set (nodes_of prop base)) pvc ≡ true)
            × All (λ w. zone_agrees pvc (object_at "nodeSelector" w) ≡ true) (binders prop pvc))
          (claims_of prop)
  unfolding evaluate
  evaluate-is_placed ctx base prop b p h =
      let nodes = nodes_of prop base in
      let given : ((judge_given decimal ctx (some base) (some prop)).status == "PASS") ≡ true =
        rw (b, p) at h in
      elim (Bool-cases (is_nil (claims_of prop))) [
        | inl empty ↦ nil-All _ (claims_of prop) empty
        | inr some_claims ↦ elim (Bool-cases (needs_zone prop (claims_of prop) && is_nil nodes)) [
          | inl lacks ↦ cc (rw (some_claims, lacks) at given)
          | inr has ↦
              claims-fit ctx.baseline prop (zone_set nodes) (claims_of prop)
                (rw (some_claims, has) at given)
        ]
      ]
