-- ===== src/Prov/Replicas.antt =====
-- pkg/resources/prov/replicaownership.go: whether formae owns the replica count of a live object.
-- A manager's field tree is given as what decoding makes of its bytes, none where that fails.
use formae_plugin_kubernetes.Prelude.{
  String, ◌<>◌, Bool, true, false, Option, none, some, List, [], ◌∷◌, str_eq, if◌then◌else◌,
}
use formae_plugin_kubernetes.Json.{Json, Fields, null, obj, end, get, set, remove, has}

-- An entry of `metadata.managedFields`: `fields` is none for a nil `FieldsV1` and for bytes that do
-- not decode as an object.
pub record ManagedFields : Type 0 where
  pub manager : String
  pub fields : Option Fields

-- json.Unmarshal into a map: null gives a nil map, which reads as an empty one.
abbrev pub as_map : Json → Option Fields
as_map null = some end
as_map (obj fs) = some fs
as_map _ = none

unfoldable pub walk_field_tree : Fields → List String → Bool
walk_field_tree tree [] = true
walk_field_tree tree (name ∷ []) = has ("f:" <> name) tree
walk_field_tree tree (name ∷ (further ∷ path)) = elim (get ("f:" <> name) tree) [
  | none ↦ false
  | some raw ↦ elim (as_map raw) [
    | none ↦ false
    | some child ↦ walk_field_tree child (further ∷ path)
  ]
]

unfoldable pub manager_owns_field : List ManagedFields → String → List String → Bool
unfolding walk_field_tree
manager_owns_field [] manager path = false
manager_owns_field (entry ∷ entries) manager path =
    let rest = manager_owns_field entries manager path in
    if str_eq entry.manager manager
    then elim entry.fields [
      | none ↦ rest
      | some tree ↦ if walk_field_tree tree path then true else rest
    ]
    else rest

abbrev pub field_manager : String
field_manager = "formae"

-- The bytes with another `spec` in the object that they decode to.
abbrev pub with_spec : (Fields → Option String) → String → Fields → Fields → String
with_spec encode properties whole spec = elim (encode (set "spec" (obj spec) whole)) [
  | none ↦ properties
  | some text ↦ text
]

abbrev pub strip_replicas : (Fields → Option String) → String → Fields → Option Fields → String
strip_replicas encode properties whole none = properties
strip_replicas encode properties whole (some spec) =
    if has "replicas" spec
    then with_spec encode properties whole (remove "replicas" spec)
    else properties

abbrev pub spec_of : Fields → Option Fields
spec_of whole = elim (get "spec" whole) [ none ↦ none | some raw ↦ as_map raw ]

-- `decode` and `encode` are encoding/json's: `none` stands for an error.
unfoldable pub strip_unowned_replicas :
    (String → Option Json) → (Fields → Option String) → String → List ManagedFields → String
unfolding manager_owns_field
strip_unowned_replicas decode encode properties managed =
    if manager_owns_field managed field_manager ("spec" ∷ ("replicas" ∷ []))
    then properties
    else elim (decode properties) [
      | none ↦ properties
      | some raw ↦ elim (as_map raw) [
        | none ↦ properties
        | some whole ↦ strip_replicas encode properties whole (spec_of whole)
      ]
    ]
