-- ===== src/Json.antt =====
-- The JSON values that the program reads: `serde_json::Value` and its accessors.
use thermite_rs.Prelude.{
  Bool, List, Option, Text, [], false, if◌then◌else◌, none, some, text_eq, true, ◌∷◌,
}

-- A number is kept as the text that `Number::to_string` renders; what it reads as is a parameter
-- of the definitions that ask. An object lists its entries in the map's iteration order.
mutual
  pub data Value : Type 0 where
    null : Value
    bool : Bool → Value
    number : Text → Value
    string : Text → Value
    array : Items → Value
    object : Fields → Value

  pub data Items : Type 0 where
    nil : Items
    item : Value → Items → Items

  pub data Fields : Type 0 where
    end : Fields
    field : Text → Value → Fields → Fields

unfoldable pub to_list : Items → List Value
to_list nil = []
to_list (item v vs) = v ∷ to_list vs

unfoldable pub entries : Fields → List (Text × Value)
entries end = []
entries (field k v fs) = (k, v) ∷ entries fs

unfoldable pub lookup : Text → Fields → Option Value
lookup key end = none
lookup key (field k v fs) = if text_eq k key then some v else lookup key fs

-- `value.get(key)` with a text key.
unfoldable pub get : Text → Value → Option Value
unfolding lookup text_eq
get key (object fs) = lookup key fs
get key _ = none

-- `value.pointer("/a/b")`; no token that the program uses is an array index.
unfoldable pub pointer : List Text → Value → Option Value
unfolding get
pointer [] v = some v
pointer (t ∷ ts) v = elim (get t v) [ none ↦ none | some w ↦ pointer ts w ]

abbrev pub as_str : Value → Option Text
as_str (string s) = some s
as_str _ = none

abbrev pub as_bool : Value → Option Bool
as_bool (bool b) = some b
as_bool _ = none

unfoldable pub as_array : Value → Option (List Value)
unfolding to_list
as_array (array vs) = some (to_list vs)
as_array _ = none

abbrev pub is_object : Value → Bool
is_object (object _) = true
is_object _ = false

-- `Option::and_then` and its relatives.
abbrev pub and_then {ℓ κ} : {A : Type ℓ} {B : Type κ} → Option A → (A → Option B) → Option B
and_then none f = none
and_then (some a) f = f a

abbrev pub or_else {ℓ} : {A : Type ℓ} → Option A → Option A → Option A
or_else none o = o
or_else (some a) o = some a

abbrev pub unwrap_or {ℓ} : {A : Type ℓ} → Option A → A → A
unwrap_or none d = d
unwrap_or (some a) d = a

abbrev pub is_empty : Text → Bool
is_empty [] = true
is_empty _ = false

-- `.filter(|s| !s.is_empty())`.
abbrev pub non_empty : Option Text → Option Text
non_empty none = none
non_empty (some []) = none
non_empty (some (c ∷ cs)) = some (c ∷ cs)
