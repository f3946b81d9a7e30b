-- ===== src/Prov/Normalize.antt =====
-- pkg/resources/prov/normalize.go: label, annotation and selector maps whose keys were expanded at
-- their dots become flat again before a payload is read. `sprint` is fmt's `%v`, of the leaves that
-- are no text; a map that is changed in place is a value that is returned changed.
pub mod Laws
use formae_plugin_kubernetes.Prelude.{
  String, ◌<>◌, Bool, true, false, not, ◌&&◌, ◌||◌, Option, none, some, str_eq, if◌then◌else◌,
}
use formae_plugin_kubernetes.Json.{
  Json, Items, Fields, null, bool, num, str, arr, obj, nil, cons, end, field, set, has,
}

unfoldable pub is_string_map_key : String → Bool
is_string_map_key key =
    str_eq key "labels"
    || str_eq key "annotations"
    || str_eq key "matchLabels"
    || str_eq key "nodeSelector"

abbrev pub is_label_selector_shape : Fields → Bool
is_label_selector_shape m = has "matchLabels" m || has "matchExpressions" m

abbrev pub is_object : Json → Bool
is_object (obj m) = true
is_object _ = false

unfoldable pub has_nested_object_value : Fields → Bool
has_nested_object_value end = false
has_nested_object_value (field k v m) = is_object v || has_nested_object_value m

abbrev pub full_key : String → String → String
full_key prefix k = if str_eq prefix "" then k else prefix <> ("." <> k)

-- `for sk, sv := range found { out[sk] = sv }`
unfoldable pub merge : Fields → Fields → Fields
merge end out = out
merge (field k v found) out = merge found (set k v out)

module _ (sprint : Json → String) where
  unfoldable mutual
    pub collapse_onto : Fields → String → Fields → Fields
    collapse_onto end prefix out = out
    collapse_onto (field k v m) prefix out =
        collapse_onto m prefix (collapse_value v (full_key prefix k) out)

    pub collapse_value : Json → String → Fields → Fields
    collapse_value (obj m) full out = merge (collapse_onto m full end) out
    collapse_value (str s) full out = set full (str s) out
    collapse_value null full out = set full (str "") out
    collapse_value (bool b) full out = set full (str (sprint (bool b))) out
    collapse_value (num s n) full out = set full (str (sprint (num s n))) out
    collapse_value (arr xs) full out = set full (str (sprint (arr xs))) out

  unfoldable pub collapse_string_map : Fields → String → Fields
  unfolding collapse_onto
  collapse_string_map m prefix = collapse_onto m prefix end

  -- The two cases that collapse the value of a key.
  abbrev pub collapses : String → Json → Bool
  collapses k (obj m) =
      (is_string_map_key k && has_nested_object_value m)
      || (str_eq k "selector" && (not (is_label_selector_shape m) && has_nested_object_value m))
  collapses k _ = false

  abbrev pub collapsed : Json → Json
  collapsed (obj m) = obj (collapse_string_map m "")
  collapsed v = v

  unfoldable mutual
    pub walk_and_flatten : Json → Json
    walk_and_flatten (obj m) = obj (flatten_fields m)
    walk_and_flatten (arr xs) = arr (flatten_items xs)
    walk_and_flatten null = null
    walk_and_flatten (bool b) = bool b
    walk_and_flatten (num s n) = num s n
    walk_and_flatten (str s) = str s

    pub flatten_fields : Fields → Fields
    flatten_fields end = end
    flatten_fields (field k child m) =
        let walked = walk_and_flatten child in
        field k (if collapses k child then collapsed child else walked) (flatten_fields m)

    pub flatten_items : Items → Items
    flatten_items nil = nil
    flatten_items (cons child xs) = cons (walk_and_flatten child) (flatten_items xs)

-- `NormalizeMetadata`: `decode` and `encode` are encoding/json's, and none stands for an error.
unfoldable pub normalize_metadata :
    (Json → String) → (String → Option Json) → (Json → Option String) → String → Option String
unfolding walk_and_flatten
normalize_metadata sprint decode encode raw =
    if str_eq raw ""
    then some raw
    else elim (decode raw) [ none ↦ none | some doc ↦ encode (walk_and_flatten sprint doc) ]
