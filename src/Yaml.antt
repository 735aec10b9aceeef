-- ===== src/Yaml.antt =====
-- What `yaml.Unmarshal` puts into a Go value of type any: a document as a tree. A `map[string]any` is
-- a list of fields, of which the first with a key counts.
pub mod Laws
use kg.Base.{
  Bool, true, false, List, [], ◌∷◌, Option, none, some, Text, ◌==◌, ◌≡◌, ◌⊎◌, if◌then◌else◌,
}

-- `scalar` is a number or a Boolean, as `%v` prints it.
mutual
  pub data Value : Type 0 where
    null : Value
    text : Text → Value
    scalar : Text → Value
    list : Items → Value
    mapping : Fields → Value

  pub data Items : Type 0 where
    no_items : Items
    item : Value → Items → Items

  pub data Fields : Type 0 where
    no_fields : Fields
    field : Text → Value → Fields → Fields

-- `v, ok := m[k]`
unfoldable pub lookup : Text → Fields → Option Value
lookup k no_fields = none
lookup k (field j v fs) = if j == k then some v else lookup k fs

-- `m[k] = v`
unfoldable pub set : Text → Value → Fields → Fields
set k v no_fields = field k v no_fields
set k v (field j w fs) = if j == k then field k v fs else field j w (set k v fs)

-- `s, _ := v.(string)`
abbrev pub as_text : Option Value → Text
as_text (some (text s)) = s
as_text _ = []

-- A mapping, or a new one where there is none or null.
abbrev pub as_mapping : Option Value → Option Fields
as_mapping none = some no_fields
as_mapping (some null) = some no_fields
as_mapping (some (mapping fs)) = some fs
as_mapping (some _) = none

-- What stands at a path of keys.
unfoldable pub at_path : List Text → Value → Option Value
at_path [] v = some v
at_path (k ∷ ks) (mapping fs) = elim (lookup k fs) [ none ↦ none | some w ↦ at_path ks w ]
at_path (k ∷ ks) _ = none

-- Two paths of which neither begins with the other.
abbrev pub Diverges : List Text → List Text → Type 0
Diverges [] qs = ⊥
Diverges (p ∷ ps) [] = ⊥
Diverges (p ∷ ps) (q ∷ qs) = (¬ (p ≡ q)) ⊎ Diverges ps qs
