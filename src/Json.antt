-- ===== src/Json.antt =====
-- encoding/json's generic values: what a Go `interface{}` holds after decoding. An object is a list
-- of fields, which stands for a Go map; `set` and `remove` are assignment and `delete`. A number
-- keeps its text and what `int(p)` makes of it.
pub mod Laws
use formae_plugin_kubernetes.Prelude.{
  String, Bool, true, false, Option, none, some, str_eq, if◌then◌else◌,
}
use formae_plugin_kubernetes.Prelude.Decimal.{ℤ}

mutual
  pub data Json : Type 0 where
    null : Json
    bool : Bool → Json
    num : String → ℤ → Json
    str : String → Json
    arr : Items → Json
    obj : Fields → Json

  pub data Items : Type 0 where
    nil : Items
    cons : Json → Items → Items

  pub data Fields : Type 0 where
    end : Fields
    field : String → Json → Fields → Fields

unfoldable pub get : String → Fields → Option Json
get k end = none
get k (field j v fs) = if str_eq j k then some v else get k fs

unfoldable pub set : String → Json → Fields → Fields
set k v end = field k v end
set k v (field j w fs) = if str_eq j k then field k v fs else field j w (set k v fs)

unfoldable pub remove : String → Fields → Fields
remove k end = end
remove k (field j w fs) = let rest = remove k fs in if str_eq j k then rest else field j w rest

-- `_, ok := m[k]`
abbrev pub has : String → Fields → Bool
has k fs = elim (get k fs) [ none ↦ false | some v ↦ true ]

-- `len(m) == 0`
abbrev pub is_empty : Fields → Bool
is_empty end = true
is_empty (field k v fs) = false

-- `v.(map[string]interface{})`, `v.([]interface{})` and `v.(string)` on `m[k]`.
abbrev pub as_object : Option Json → Option Fields
as_object (some (obj fs)) = some fs
as_object _ = none

abbrev pub as_array : Option Json → Option Items
as_array (some (arr xs)) = some xs
as_array _ = none

-- The zero value where the assertion fails.
abbrev pub as_text : Option Json → String
as_text (some (str s)) = s
as_text _ = ""

abbrev pub object_at : String → Fields → Option Fields
object_at k fs = as_object (get k fs)

abbrev pub array_at : String → Fields → Option Items
array_at k fs = as_array (get k fs)

abbrev pub text_at : String → Fields → String
text_at k fs = as_text (get k fs)

-- A change made in place to the object that `m[k]` holds, if it holds one.
unfoldable pub within : String → (Fields → Fields) → Fields → Fields
within k change fs = elim (object_at k fs) [
  | none ↦ fs
  | some inner ↦ set k (obj (change inner)) fs
]

-- Every field's value, by its key; and every item.
unfoldable pub map_fields : (String → Json → Json) → Fields → Fields
map_fields f end = end
map_fields f (field k v fs) = field k (f k v) (map_fields f fs)

unfoldable pub map_items : (Json → Json) → Items → Items
map_items f nil = nil
map_items f (cons v xs) = cons (f v) (map_items f xs)

-- The fields whose key passes, and the items that pass.
unfoldable pub filter_keys : (String → Bool) → Fields → Fields
filter_keys keep end = end
filter_keys keep (field k v fs) =
    let rest = filter_keys keep fs in if keep k then field k v rest else rest

unfoldable pub filter_items : (Json → Bool) → Items → Items
filter_items keep nil = nil
filter_items keep (cons v xs) =
    let rest = filter_items keep xs in if keep v then cons v rest else rest

abbrev pub no_items : Items → Bool
no_items nil = true
no_items (cons v xs) = false
