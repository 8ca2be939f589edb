-- ===== src/Podtemplate/Subset.antt =====
-- The comparison of a desired template with the live one (internal/podtemplate/compare.go).
use architecture_rehearsal.Prelude.{
  ◌≡◌, refl, String, Option, none, some, true, false, ◌==◌, eq_iff, arith, Bool-cases, inl, inr,
  ==-ne, ne-==, &&_iff, sym,
}
use architecture_rehearsal.Graph.{
  Attribute, text, flag, float64, fraction, int, int64, array, object, null, other, Items, nil,
  cons, Fields, end, field,
}
use architecture_rehearsal.Graph.Values.{field_of}
use architecture_rehearsal.Podtemplate.{
  same_scalar, scalar_equal, subset_equal, subset_fields, subset_items, subset_changed,
}

scalar_trans :
    (a b c : Attribute)
    → scalar_equal a b ≡ true
    → scalar_equal b c ≡ true
    → scalar_equal a c ≡ true
unfolding scalar_equal same_scalar
scalar_trans a b c h k = grind (arith, eq_iff, h, k)

scalar-object : (a : Attribute) (m : Fields) → scalar_equal a (object m) ≡ false
unfolding scalar_equal same_scalar
scalar-object a m = ground arith

scalar-array : (a : Attribute) (m : Items) → scalar_equal a (array m) ≡ false
unfolding scalar_equal same_scalar
scalar-array a m = ground arith

scalar-step :
    (a b c : Attribute)
    → scalar_equal a b ≡ true
    → subset_equal b c ≡ true
    → scalar_equal a c ≡ true
unfolding subset_equal
scalar-step a (object m) c h k = ground (arith, h, scalar-object a m)
scalar-step a (array m) c h k = ground (arith, h, scalar-array a m)
scalar-step a (text s) c h k = scalar_trans a (text s) c h k
scalar-step a (flag s) c h k = scalar_trans a (flag s) c h k
scalar-step a (float64 s) c h k = scalar_trans a (float64 s) c h k
scalar-step a (fraction i s) c h k = scalar_trans a (fraction i s) c h k
scalar-step a (int s) c h k = scalar_trans a (int s) c h k
scalar-step a (int64 s) c h k = scalar_trans a (int64 s) c h k
scalar-step a null c h k = scalar_trans a null c h k
scalar-step a (other s) c h k = scalar_trans a (other s) c h k

value_found :
    (v : Attribute) (o : Option Attribute)
    → elim o [ none ↦ false | some w ↦ subset_equal v w ] ≡ true
    → (u : Attribute) × (o ≡ some u) × (subset_equal v u ≡ true)
value_found v none h = cc
value_found v (some u) h = (u, refl, h)

first_field :
    (k : String) (v : Attribute) (rest l : Fields)
    → subset_fields (field k v rest) l ≡ true
    → ((u : Attribute) × (field_of k l ≡ some u) × (subset_equal v u ≡ true))
      × (subset_fields rest l ≡ true)
unfolding subset_equal
first_field k v rest l h =
    let both =
      (&&_iff (elim (field_of k l) [ none ↦ false | some w ↦ subset_equal v w ])
          (subset_fields rest l)).0
        h in
    (value_found v (field_of k l) both.0, both.1)

-- The live value that a map has under a key with a part of it.
found :
    (k : String) (w : Attribute) (m l : Fields)
    → field_of k m ≡ some w
    → subset_fields m l ≡ true
    → (u : Attribute) × (field_of k l ≡ some u) × (subset_equal w u ≡ true)
unfolding field_of
found k w end l e h = cc
found k w (field j v rest) l e h =
    let ((u, here, part), later) = first_field j v rest l h in
    elim (Bool-cases (j == k)) [
      | inl t ↦
          let value : v ≡ w = cc (rw t at e) in
          (u, rw (sym ((eq_iff j k).0 t)) here, rw (sym value) part)
      | inr t ↦ found k w rest l (rw t at e) later
    ]

fields-of :
    (d : Fields) (b : Attribute) → subset_equal (object d) b ≡ true → (m : Fields) × (b ≡ object m)
unfolding subset_equal
fields-of d (object m) h = (m, refl)
fields-of d (text s) h = cc
fields-of d (flag s) h = cc
fields-of d (float64 s) h = cc
fields-of d (fraction i s) h = cc
fields-of d (int s) h = cc
fields-of d (int64 s) h = cc
fields-of d (array s) h = cc
fields-of d null h = cc
fields-of d (other s) h = cc

items-of :
    (d : Items) (b : Attribute) → subset_equal (array d) b ≡ true → (m : Items) × (b ≡ array m)
unfolding subset_equal
items-of d (array m) h = (m, refl)
items-of d (text s) h = cc
items-of d (flag s) h = cc
items-of d (float64 s) h = cc
items-of d (fraction i s) h = cc
items-of d (int s) h = cc
items-of d (int64 s) h = cc
items-of d (object s) h = cc
items-of d null h = cc
items-of d (other s) h = cc

mutual
  unfolding subset_equal

  value_trans :
      (a b c : Attribute)
      → subset_equal a b ≡ true
      → subset_equal b c ≡ true
      → subset_equal a c ≡ true
  value_trans (object d) b c h k =
      let (m, e) = fields-of d b h in
      let (l, f) = fields-of m c (rw e at k) in
      rw f (fields_trans d m l (rw e at h) (rw (e, f) at k))
  value_trans (array d) b c h k =
      let (m, e) = items-of d b h in
      let (l, f) = items-of m c (rw e at k) in rw f (items_trans d m l (rw e at h) (rw (e, f) at k))
  value_trans (text s) b c h k = scalar-step (text s) b c h k
  value_trans (flag s) b c h k = scalar-step (flag s) b c h k
  value_trans (float64 s) b c h k = scalar-step (float64 s) b c h k
  value_trans (fraction i s) b c h k = scalar-step (fraction i s) b c h k
  value_trans (int s) b c h k = scalar-step (int s) b c h k
  value_trans (int64 s) b c h k = scalar-step (int64 s) b c h k
  value_trans null b c h k = scalar-step null b c h k
  value_trans (other s) b c h k = scalar-step (other s) b c h k

  fields_trans :
      (d m l : Fields)
      → subset_fields d m ≡ true
      → subset_fields m l ≡ true
      → subset_fields d l ≡ true
  fields_trans end m l h k = refl
  fields_trans (field key v rest) m l h k =
      let ((w, here, part), later) = first_field key v rest m h in
      let (u, there, part') = found key w m l here k in
      rw (there, value_trans v w u part part', fields_trans rest m l later k) refl

  items_trans :
      (d m l : Items) → subset_items d m ≡ true → subset_items m l ≡ true → subset_items d l ≡ true
  items_trans nil nil nil h k = refl
  items_trans nil nil (cons z zs) h k = cc
  items_trans nil (cons y ys) l h k = cc
  items_trans (cons x xs) nil l h k = cc
  items_trans (cons x xs) (cons y ys) nil h k = cc
  items_trans (cons x xs) (cons y ys) (cons z zs) h k =
      let (hx, hs) = (&&_iff (subset_equal x y) (subset_items xs ys)).0 h in
      let (kx, ks) = (&&_iff (subset_equal y z) (subset_items ys zs)).0 k in
      rw (value_trans x y z hx kx, items_trans xs ys zs hs ks) refl

-- A field that the desired map does not have changes nothing in the live one.
extra_field :
    (k : String) (v : Attribute) (d l : Fields)
    → field_of k d ≡ none
    → subset_fields d l ≡ true
    → subset_fields d (field k v l) ≡ true
unfolding field_of subset_equal
extra_field k v end l n h = refl
extra_field k v (field j w rest) l n h = elim (Bool-cases (j == k)) [
  | inl t ↦ cc (rw t at n)
  | inr t ↦
      let ((u, here, part), later) = first_field j w rest l h in
      rw
        (==-ne k j (λ e. ne-== j k t (sym e)), here, part, extra_field k v rest l (rw t at n) later)
        refl
]

-- A desired template that is unchanged against a second one, which is unchanged against a live one, is
-- unchanged against the live one, also when that has a field more that the desired one does not set,
-- as the server's defaults are.
pub subset_changed-chain :
    (d m l : Fields) (k : String) (v : Attribute)
    → subset_changed (some d) (some m) ≡ false
    → subset_changed (some m) (some l) ≡ false
    → field_of k d ≡ none
    → (subset_changed (some d) (some l) ≡ false)
      × (subset_changed (some d) (some (field k v l)) ≡ false)
unfolding subset_changed subset_equal
subset_changed-chain d m l k v h g n =
    let all = fields_trans d m l (ground (arith, h)) (ground (arith, g)) in
    (rw all refl, rw (extra_field k v d l n all) refl)
