-- ===== src/Podtemplate.antt =====
-- internal/podtemplate/compare.go: whether a sync changes a pod template. A nil map is `none`; deepCopyRaw
-- makes the value itself. Values of other types than those of JSON are compared by what `fmt.Sprint`
-- shows of them.
pub mod Subset
use architecture_rehearsal.Prelude.{
  String, Option, none, some, List, [], ◌∷◌, Bool, true, false, not, ◌&&◌, ◌==◌, contains,
  if◌then◌else◌,
}
use architecture_rehearsal.Graph.{
  ℤ, pos, negsuc, Attribute, text, flag, float64, fraction, int, int64, array, object, null, other,
  Items, nil, cons, Fields, end, field,
}
use architecture_rehearsal.Graph.Values.{field_of}
use architecture_rehearsal.Verify.{eqz}

-- `normalizeScalar`
abbrev pub normalize_scalar : Attribute → Attribute
normalize_scalar (float64 i) = int64 i
normalize_scalar (int i) = int64 i
normalize_scalar v = v

abbrev pub same_flag : Bool → Bool → Bool
same_flag true b = b
same_flag false b = not b

-- `scalarEqual` of normalized values, of which the first is no map and no list.
unfoldable pub same_scalar : Attribute → Attribute → Bool
same_scalar (text s) (text t) = s == t
same_scalar (flag a) (flag b) = same_flag a b
same_scalar (int64 i) (int64 j) = eqz i j
same_scalar (fraction i s) (fraction j t) = s == t
same_scalar (other s) (other t) = s == t
same_scalar null null = true
same_scalar _ _ = false

unfoldable pub scalar_equal : Attribute → Attribute → Bool
unfolding same_scalar
scalar_equal a b = same_scalar (normalize_scalar a) (normalize_scalar b)

unfoldable mutual
  unfolding scalar_equal

  pub subset_equal : Attribute → Attribute → Bool
  subset_equal (object d) live = elim live [ object l ↦ subset_fields d l | _ ↦ false ]
  subset_equal (array d) live = elim live [ array l ↦ subset_items d l | _ ↦ false ]
  subset_equal desired live = scalar_equal desired live

  pub subset_fields : Fields → Fields → Bool
  subset_fields end l = true
  subset_fields (field k v rest) l =
      elim (field_of k l) [ none ↦ false | some w ↦ subset_equal v w ] && subset_fields rest l

  pub subset_items : Items → Items → Bool
  subset_items nil nil = true
  subset_items (cons x xs) (cons y ys) = subset_equal x y && subset_items xs ys
  subset_items _ _ = false

unfoldable pub subset_changed : Option Fields → Option Fields → Bool
unfolding subset_equal
subset_changed none none = false
subset_changed (some d) (some l) = not (subset_equal (object d) (object l))
subset_changed _ _ = true

abbrev is_null : Attribute → Bool
is_null null = true
is_null _ = false

unfoldable mutual
  pub normalize_value : Attribute → Attribute
  normalize_value (object fs) = object (normalize_fields fs)
  normalize_value (array xs) = array (normalize_items xs)
  normalize_value v = normalize_scalar v

  pub normalize_fields : Fields → Fields
  normalize_fields end = end
  normalize_fields (field k v rest) =
      let others = normalize_fields rest in
      if is_null v then others else field k (normalize_value v) others

  pub normalize_items : Items → Items
  normalize_items nil = nil
  normalize_items (cons x xs) = cons (normalize_value x) (normalize_items xs)

-- `reflect.DeepEqual`
unfoldable mutual
  pub deep_same : Attribute → Attribute → Bool
  deep_same (object a) b = elim b [ object c ↦ same_fields a c | _ ↦ false ]
  deep_same (array a) b = elim b [ array c ↦ same_items a c | _ ↦ false ]
  deep_same a b = same_scalar a b

  pub same_fields : Fields → Fields → Bool
  same_fields end end = true
  same_fields (field k v rest) (field j w others) =
      (k == j) && (deep_same v w && same_fields rest others)
  same_fields _ _ = false

  pub same_items : Items → Items → Bool
  same_items nil nil = true
  same_items (cons x xs) (cons y ys) = deep_same x y && same_items xs ys
  same_items _ _ = false

unfoldable pub deep_equal : Option Fields → Option Fields → Bool
unfolding deep_same normalize_value
deep_equal none none = true
deep_equal (some a) (some b) = deep_same (normalize_value (object a)) (normalize_value (object b))
deep_equal _ _ = false

unfoldable pub clone_map : Option Fields → Option Fields
unfolding normalize_value
clone_map none = none
clone_map (some m) = some (normalize_fields m)

abbrev volatile_keys : List String
volatile_keys =
    "creationTimestamp" ∷ "resourceVersion" ∷ "uid" ∷ "generation" ∷ "managedFields" ∷ "selfLink"
    ∷ "ownerReferences" ∷ []

-- The map without some keys.
unfoldable pub without_keys : List String → Fields → Fields
without_keys keys end = end
without_keys keys (field k v rest) =
    let others = without_keys keys rest in if contains keys k then others else field k v others

-- The map whose value under `metadata`, if it is a map, has lost the volatile keys, and is gone if
-- nothing is left of it.
abbrev put_meta : Fields → Fields → Fields
put_meta end others = others
put_meta (field k v rest) others = field "metadata" (object (field k v rest)) others

abbrev clean_field : String → Attribute → Fields → Fields
clean_field k (object meta) others =
    if k == "metadata"
    then put_meta (without_keys volatile_keys meta) others
    else field k (object meta) others
clean_field k v others = field k v others

abbrev clean : Fields → Fields
clean end = end
clean (field k v rest) = clean_field k v (clean rest)

unfoldable pub sanitize_template_meta : Option Fields → Option Fields
unfolding normalize_value without_keys
sanitize_template_meta none = none
sanitize_template_meta (some tpl) = some (clean (normalize_fields tpl))
