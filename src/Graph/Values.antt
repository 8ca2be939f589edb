-- ===== src/Graph/Values.antt =====
-- The nested values of attributes (internal/graph/types.go): maps, lists, and what `fmt.Sprint` shows of
-- them. `decimal` shows an integer.
use Prim.Native.String
use architecture_rehearsal.Prelude.{
  String, Option, none, some, List, [], ◌∷◌, Bool, true, false, ◌==◌, if◌then◌else◌,
}
use architecture_rehearsal.Graph.{
  ℤ, Attribute, text, flag, float64, fraction, int, int64, array, object, null, other, Items, nil,
  cons, Fields, end, field,
}

-- `m[k]` of a map.
unfoldable pub field_of : String → Fields → Option Attribute
field_of key end = none
field_of key (field k v rest) = let later = field_of key rest in if k == key then some v else later

unfoldable pub elements_of : Items → List Attribute
elements_of nil = []
elements_of (cons x xs) = x ∷ elements_of xs

unfoldable pub entries : Fields → List (String × Attribute)
entries end = []
entries (field k v rest) = (k, v) ∷ entries rest

-- `v.(map[string]any)`, also of a missing value.
abbrev pub as_object : Option Attribute → Option Fields
as_object (some (object fs)) = some fs
as_object _ = none

-- `v.([]any)`, where a value that is none has no elements.
abbrev pub as_array : Option Attribute → List Attribute
as_array (some (array xs)) = elements_of xs
as_array _ = []

abbrev pub sprint_flag : Bool → String
sprint_flag true = "true"
sprint_flag false = "false"

module _ (decimal : ℤ → String) where
  unfoldable mutual
    pub sprint_value : Attribute → String
    sprint_value (text s) = s
    sprint_value (flag b) = sprint_flag b
    sprint_value (float64 i) = decimal i
    sprint_value (fraction i shown) = shown
    sprint_value (int i) = decimal i
    sprint_value (int64 i) = decimal i
    sprint_value (array xs) = String.◌++◌ "[" (String.◌++◌ (sprint_items xs) "]")
    sprint_value (object fs) = String.◌++◌ "map[" (String.◌++◌ (sprint_fields fs) "]")
    sprint_value null = "<nil>"
    sprint_value (other shown) = shown

    sprint_items : Items → String
    sprint_items nil = ""
    sprint_items (cons x xs) = String.◌++◌ (sprint_value x) (sprint_more xs)

    sprint_more : Items → String
    sprint_more nil = ""
    sprint_more (cons x xs) = String.◌++◌ " " (String.◌++◌ (sprint_value x) (sprint_more xs))

    sprint_fields : Fields → String
    sprint_fields end = ""
    sprint_fields (field k v rest) =
        String.◌++◌ k (String.◌++◌ ":" (String.◌++◌ (sprint_value v) (more_fields rest)))

    more_fields : Fields → String
    more_fields end = ""
    more_fields (field k v rest) =
        String.◌++◌ " "
          (String.◌++◌ k (String.◌++◌ ":" (String.◌++◌ (sprint_value v) (more_fields rest))))

  -- `fmt.Sprint`, also of a missing value.
  unfoldable pub sprint : Option Attribute → String
  unfolding sprint_value
  sprint none = "<nil>"
  sprint (some v) = sprint_value v
