-- ===== src/Prov/LiveState/Strip.antt =====
-- livestate.go: the lists of server-managed names, and the rules for metadata, volumes and mounts.
use formae_plugin_kubernetes.Prelude.{
  String, Bool, true, false, not, ◌||◌, none, some, List, [], ◌∷◌, str_eq, if◌then◌else◌,
}
use formae_plugin_kubernetes.Prelude.Text.{has_prefix}
use formae_plugin_kubernetes.Json.{
  Json, Fields, obj, arr, remove, set, object_at, array_at, text_at, filter_keys, filter_items,
  is_empty, no_items,
}

abbrev pub server_managed_meta_fields : List String
server_managed_meta_fields =
    "uid" ∷ "resourceVersion" ∷ "creationTimestamp" ∷ "generation" ∷ "deletionGracePeriodSeconds"
    ∷ []

abbrev pub server_managed_annotation_prefixes : List String
server_managed_annotation_prefixes =
    "deployment.kubernetes.io/" ∷ "deprecated.daemonset.template.generation" ∷ []

abbrev pub server_managed_label_prefixes : List String
server_managed_label_prefixes = "kubernetes.io/" ∷ "batch.kubernetes.io/" ∷ []

abbrev pub server_managed_label_keys : List String
server_managed_label_keys = "controller-uid" ∷ "job-name" ∷ []

abbrev pub service_account_mount_prefix : String
service_account_mount_prefix = "/var/run/secrets/kubernetes.io/serviceaccount"

-- Whether a key has one of the prefixes, or is one of the keys.
abbrev pub any_prefix : String → List String → Bool
any_prefix k [] = false
any_prefix k (p ∷ ps) = has_prefix k p || any_prefix k ps

abbrev pub any_key : String → List String → Bool
any_key k [] = false
any_key k (j ∷ js) = str_eq k j || any_key k js

abbrev pub is_managed_label : String → Bool
is_managed_label k =
    any_prefix k server_managed_label_prefixes || any_key k server_managed_label_keys

abbrev pub is_managed_annotation : String → Bool
is_managed_annotation k = any_prefix k server_managed_annotation_prefixes

-- Drops the managed keys of the map at `name`, and the map itself if none is left.
abbrev pub strip_keys : String → (String → Bool) → Fields → Fields
strip_keys name managed meta = elim (object_at name meta) [
  | none ↦ meta
  | some m ↦
      let kept = filter_keys (λ k. not (managed k)) m in
      if is_empty kept then remove name meta else set name (obj kept) meta
]

unfoldable pub strip_server_managed_labels : Fields → Fields
strip_server_managed_labels = strip_keys "labels" is_managed_label

unfoldable pub strip_server_managed_annotations : Fields → Fields
strip_server_managed_annotations = strip_keys "annotations" is_managed_annotation

-- `for _, key := range keys { delete(m, key) }`
unfoldable pub remove_all : List String → Fields → Fields
remove_all [] fs = fs
remove_all (k ∷ ks) fs = remove_all ks (remove k fs)

-- An item passes unless it is an object whose text at `key` has the prefix.
abbrev pub lacks_prefix : String → String → Json → Bool
lacks_prefix key prefix (obj fs) = not (has_prefix (text_at key fs) prefix)
lacks_prefix key prefix _ = true

-- Filters the array at `name`, and drops it if nothing is left.
abbrev pub strip_items : String → (Json → Bool) → Fields → Fields
strip_items name keep fs = elim (array_at name fs) [
  | none ↦ fs
  | some xs ↦
      let kept = filter_items keep xs in
      if no_items kept then remove name fs else set name (arr kept) fs
]

unfoldable pub strip_service_account_volume_mounts : Fields → Fields
strip_service_account_volume_mounts =
    strip_items "volumeMounts" (lacks_prefix "mountPath" service_account_mount_prefix)

unfoldable pub strip_service_account_volumes : Fields → Fields
strip_service_account_volumes = strip_items "volumes" (lacks_prefix "name" "kube-api-access-")

-- The rules for top-level metadata.
unfoldable pub strip_metadata : Fields → Fields
unfolding remove_all strip_server_managed_labels strip_server_managed_annotations
strip_metadata meta = strip_server_managed_labels (
    strip_server_managed_annotations
      (remove "finalizers" (remove_all server_managed_meta_fields meta)))
