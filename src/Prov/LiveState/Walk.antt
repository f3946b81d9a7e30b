-- ===== src/Prov/LiveState/Walk.antt =====
-- livestate.go: the walk that removes server defaults below every object, by the path that leads to
-- it. The walk's fuel is the depth of the document.
use formae_plugin_kubernetes.Prelude.{
  ℕ, zero, suc, String, ◌<>◌, Bool, false, ◌||◌, List, [], ◌∷◌, str_eq, if◌then◌else◌,
}
use Prim.Native.Nat.{max}
use formae_plugin_kubernetes.Json.{
  Json, Items, Fields, null, bool, num, str, arr, obj, nil, cons, end, field, remove, has,
  map_fields, map_items,
}
use formae_plugin_kubernetes.Prov.LiveState.Strip.{
  any_key, strip_server_managed_labels, strip_server_managed_annotations,
  strip_service_account_volume_mounts,
}

abbrev pub container_list_paths : List String
container_list_paths =
    "spec.containers" ∷ "spec.initContainers" ∷ "spec.ephemeralContainers"
    ∷ "spec.template.spec.containers" ∷ "spec.template.spec.initContainers"
    ∷ "spec.template.spec.ephemeralContainers" ∷ "spec.jobTemplate.spec.template.spec.containers"
    ∷ "spec.jobTemplate.spec.template.spec.initContainers"
    ∷ "spec.jobTemplate.spec.template.spec.ephemeralContainers" ∷ []

abbrev pub pod_spec_paths : List String
pod_spec_paths = "spec" ∷ "spec.template.spec" ∷ "spec.jobTemplate.spec.template.spec" ∷ []

-- Whether the path is one of the listed ones with "[]" behind it.
abbrev pub any_element_of : String → List String → Bool
any_element_of path [] = false
any_element_of path (p ∷ ps) = str_eq path (p <> "[]") || any_element_of path ps

unfoldable pub is_container_element_path : String → Bool
is_container_element_path path = any_element_of path container_list_paths

unfoldable pub join_path : String → String → String
join_path base key = if str_eq base "" then key else base <> ("." <> key)

-- The rules for the object at a path, before the walk goes into its fields.
abbrev pub strip_pod_rule : String → Fields → Fields
strip_pod_rule path fs = if any_key path pod_spec_paths then remove "serviceAccount" fs else fs

abbrev pub strip_container_rule : String → Fields → Fields
strip_container_rule path fs =
    if is_container_element_path path
    then strip_service_account_volume_mounts (remove "imagePullPolicy" fs)
    else fs

abbrev pub strip_label_rule : Fields → Fields
strip_label_rule fs = if has "labels" fs then strip_server_managed_labels fs else fs

abbrev pub strip_annotation_rule : Fields → Fields
strip_annotation_rule fs = if has "annotations" fs then strip_server_managed_annotations fs else fs

unfoldable pub strip_node : String → Fields → Fields
unfolding is_container_element_path strip_service_account_volume_mounts strip_server_managed_labels
    strip_server_managed_annotations
strip_node path fs =
    strip_annotation_rule (strip_label_rule (strip_container_rule path (strip_pod_rule path fs)))

unfoldable pub walk : ℕ → String → Json → Json
unfolding strip_node join_path
walk zero path v = v
walk (suc n) path (obj fs) =
    obj (map_fields (λ k child. walk n (join_path path k) child) (strip_node path fs))
walk (suc n) path (arr xs) = arr (map_items (walk n (path <> "[]")) xs)
walk (suc n) path v = v

unfoldable mutual
  pub depth : Json → ℕ
  depth (arr xs) = suc (depth_items xs)
  depth (obj fs) = suc (depth_fields fs)
  depth null = 1
  depth (bool b) = 1
  depth (num s n) = 1
  depth (str s) = 1

  pub depth_items : Items → ℕ
  depth_items nil = 0
  depth_items (cons v xs) = max (depth v) (depth_items xs)

  pub depth_fields : Fields → ℕ
  depth_fields end = 0
  depth_fields (field k v fs) = max (depth v) (depth_fields fs)

unfoldable pub strip_server_defaults : Json → String → Json
unfolding walk depth
strip_server_defaults v path = walk (depth v) path v
