-- ===== src/Prov/NativeId.antt =====
-- pkg/resources/prov/nativeid.go and customid.go: the identifiers of resources as texts. The errors
-- keep which check refused; their texts are not modelled.
pub mod RoundTrip
pub mod Custom
use formae_plugin_kubernetes.Prelude.{
  String, ◌<>◌, Bool, ◌||◌, Option, none, some, List, [], ◌∷◌, str_eq, if◌then◌else◌,
}
use formae_plugin_kubernetes.Prelude.Text.{split, cut, cut_last, contains}

pub data IdError : Type 0 where
  empty_id separator_count empty_namespace empty_name has_separator : IdError
  empty_part : IdError

pub data Parsed {ℓ} (A : Type ℓ) : Type ℓ where
  ok : A → Parsed A
  err : IdError → Parsed A

unfoldable pub native_id : String → String → String
native_id ns name = ns <> ("/" <> name)

abbrev pub two_parts : List String → Parsed (String × String)
two_parts (ns ∷ name ∷ []) =
    if str_eq ns ""
    then err empty_namespace
    else if str_eq name ""
    then err empty_name
    else ok (ns, name)
two_parts _ = err separator_count

unfoldable pub parse_namespaced_native_id : String → Parsed (String × String)
unfolding split
parse_namespaced_native_id id = if str_eq id "" then err empty_id else two_parts (split b'/' id)

unfoldable pub parse_cluster_native_id : String → Parsed String
unfolding contains
parse_cluster_native_id id =
    if str_eq id "" then err empty_id else if contains b'/' id then err has_separator else ok id

-- The deprecated parser, which cuts at the first separator and accepts anything.
unfoldable pub parse_native_id : String → String × String
unfolding cut
parse_native_id id = elim (cut b'/' id) [ none ↦ ("", id) | some (ns, name) ↦ (ns, name) ]

unfoldable pub native_id_with_uid : String → String → String
native_id_with_uid name uid = name <> (":" <> uid)

unfoldable pub parse_native_id_with_uid : String → String × String
unfolding cut
parse_native_id_with_uid id = elim (cut b':' id) [
  | none ↦ (id, "")
  | some (name, uid) ↦ (name, uid)
]

-- customid.go
unfoldable pub custom_resource_id : String → String → String → String → String
custom_resource_id api_version kind ns name =
    ((api_version <> ("/" <> kind)) <> ("/" <> ns)) <> ("/" <> name)

-- The last three pieces are name, namespace and kind; what is left, rejoined, is the API version.
unfoldable pub parse_custom_resource_id : String → Parsed (String × String × String × String)
unfolding cut_last
parse_custom_resource_id id = elim (cut_last b'/' id) [
  | none ↦ err separator_count
  | some (front, name) ↦ elim (cut_last b'/' front) [
    | none ↦ err separator_count
    | some (head, ns) ↦ elim (cut_last b'/' head) [
      | none ↦ err separator_count
      | some (api_version, kind) ↦
          if str_eq api_version "" || str_eq kind "" || str_eq name ""
          then err empty_part
          else ok (api_version, kind, ns, name)
    ]
  ]
]
