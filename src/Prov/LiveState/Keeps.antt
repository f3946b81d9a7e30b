-- ===== src/Prov/LiveState/Keeps.antt =====
-- livestate.go: which fields of an object the rules can change or take away.
use formae_plugin_kubernetes.Prelude.{
  ℕ, zero, suc, String, ◌≡◌, refl, inl, inr, Bool, false, Option, none, some, List, [], ◌∷◌, str_eq,
  Option-cases, Bool-cases, arith, eq_iff, ◌∙◌,
}
use formae_plugin_kubernetes.Json.{
  Json, Fields, null, bool, num, str, arr, obj, get, remove, object_at, array_at, has,
}
use formae_plugin_kubernetes.Json.Laws.{get-set, get-remove, get-map_fields}
use formae_plugin_kubernetes.Prov.LiveState.Strip.{
  strip_keys, strip_items, strip_server_managed_labels, strip_server_managed_annotations,
  strip_service_account_volume_mounts, is_managed_label, is_managed_annotation, lacks_prefix,
  service_account_mount_prefix, any_key,
}
use formae_plugin_kubernetes.Prov.LiveState.Walk.{
  walk, strip_node, strip_pod_rule, strip_container_rule, strip_label_rule, strip_annotation_rule,
  is_container_element_path,
}

-- The field of a value, if it is an object that has it.
abbrev pub field_of : String → Json → Option Json
field_of k (obj fs) = get k fs
field_of k _ = none

-- The field of a value that may be missing.
abbrev pub below : String → Option Json → Option Json
below k none = none
below k (some v) = field_of k v

pub get-strip_keys :
    (name : String) (managed : String → Bool) (k : String) (fs : Fields)
    → str_eq name k ≡ false
    → get k (strip_keys name managed fs) ≡ get k fs
get-strip_keys name managed k fs ne = elim (Option-cases (object_at name fs)) [
  | inl e ↦ ground arith
  | inr (m, e) ↦ grind (arith, get-set, get-remove, eq_iff)
]

pub strip_keys-absent :
    (name : String) (managed : String → Bool) (k : String) (fs : Fields)
    → get k fs ≡ none
    → get k (strip_keys name managed fs) ≡ none
strip_keys-absent name managed k fs gone = elim (Option-cases (object_at name fs)) [
  | inl e ↦ ground arith
  | inr (m, e) ↦ grind (arith, get-set, get-remove, eq_iff)
]

get-strip_items :
    (name : String) (keep : Json → Bool) (k : String) (fs : Fields)
    → str_eq name k ≡ false
    → get k (strip_items name keep fs) ≡ get k fs
get-strip_items name keep k fs ne = elim (Option-cases (array_at name fs)) [
  | inl e ↦ ground arith
  | inr (xs, e) ↦ grind (arith, get-set, get-remove, eq_iff)
]

strip_items-absent :
    (name : String) (keep : Json → Bool) (k : String) (fs : Fields)
    → get k fs ≡ none
    → get k (strip_items name keep fs) ≡ none
strip_items-absent name keep k fs gone = elim (Option-cases (array_at name fs)) [
  | inl e ↦ ground arith
  | inr (xs, e) ↦ grind (arith, get-set, get-remove, eq_iff)
]

abbrev pub touched : List String
touched = "labels" ∷ "annotations" ∷ "serviceAccount" ∷ "imagePullPolicy" ∷ "volumeMounts" ∷ []

-- What one rule of a node keeps of an object: a field outside the list, and a field's absence.
abbrev pub IsTame : (Fields → Fields) → Type 0
IsTame rule =
    ((k : String) (fs : Fields) → any_key k touched ≡ false → get k (rule fs) ≡ get k fs)
    × ((k : String) (fs : Fields) → get k fs ≡ none → get k (rule fs) ≡ none)

pod_rule-IsTame : (path : String) → IsTame (strip_pod_rule path)
pod_rule-IsTame path =
    (λ k fs ne. grind (arith, get-remove, eq_iff), λ k fs gone. grind (arith, get-remove, eq_iff))

mounts-IsTame : IsTame strip_service_account_volume_mounts
unfolding strip_service_account_volume_mounts
mounts-IsTame = (
  λ k fs ne.
      get-strip_items "volumeMounts" (lacks_prefix "mountPath" service_account_mount_prefix) k fs
        (grind (arith, eq_iff)),
  λ k fs gone.
      strip_items-absent "volumeMounts" (lacks_prefix "mountPath" service_account_mount_prefix) k fs
        gone,
)

container_rule-IsTame : (path : String) → IsTame (strip_container_rule path)
container_rule-IsTame path = (
  λ k fs ne. elim (Bool-cases (is_container_element_path path)) [
    | inr e ↦ ground arith
    | inl e ↦
        rw (e, mounts-IsTame.0 k (remove "imagePullPolicy" fs) ne)
          (grind (arith, get-remove, eq_iff))
  ],
  λ k fs gone. elim (Bool-cases (is_container_element_path path)) [
    | inr e ↦ ground arith
    | inl e ↦
        rw e (mounts-IsTame.1 k (remove "imagePullPolicy" fs) (grind (arith, get-remove, eq_iff)))
  ],
)

label_rule-IsTame : IsTame strip_label_rule
unfolding strip_server_managed_labels
label_rule-IsTame = (
  λ k fs ne. elim (Bool-cases (has "labels" fs)) [
    | inr e ↦ ground arith
    | inl e ↦ rw e (get-strip_keys "labels" is_managed_label k fs (grind (arith, eq_iff)))
  ],
  λ k fs gone. elim (Bool-cases (has "labels" fs)) [
    | inr e ↦ ground arith
    | inl e ↦ rw e (strip_keys-absent "labels" is_managed_label k fs gone)
  ],
)

annotation_rule-IsTame : IsTame strip_annotation_rule
unfolding strip_server_managed_annotations
annotation_rule-IsTame = (
  λ k fs ne. elim (Bool-cases (has "annotations" fs)) [
    | inr e ↦ ground arith
    | inl e ↦ rw e (get-strip_keys "annotations" is_managed_annotation k fs (grind (arith, eq_iff)))
  ],
  λ k fs gone. elim (Bool-cases (has "annotations" fs)) [
    | inr e ↦ ground arith
    | inl e ↦ rw e (strip_keys-absent "annotations" is_managed_annotation k fs gone)
  ],
)

-- The rules at a node leave every other field as it is, and bring no field back.
pub strip_node-IsTame : (path : String) → IsTame (strip_node path)
unfolding strip_node
strip_node-IsTame path = (
  λ k fs ne.
      annotation_rule-IsTame.0 k _ ne
      ∙ (label_rule-IsTame.0 k _ ne
          ∙ ((container_rule-IsTame path).0 k _ ne ∙ (pod_rule-IsTame path).0 k fs ne)),
  λ k fs gone. annotation_rule-IsTame.1 k _ (
      label_rule-IsTame.1 k _
        ((container_rule-IsTame path).1 k _ ((pod_rule-IsTame path).1 k fs gone))),
)

-- The walk leaves texts as they are, and brings no field back.
pub walk-str : (n : ℕ) (path s : String) → walk n path (str s) ≡ str s
unfolding walk
walk-str zero path s = refl
walk-str (suc n) path s = refl

pub walk-absent :
    (n : ℕ) (path k : String) (v : Json) → field_of k v ≡ none → field_of k (walk n path v) ≡ none
unfolding walk
walk-absent zero path k v gone = gone
walk-absent (suc n) path k (obj fs) gone =
    rw (get-map_fields, (strip_node-IsTame path).1 k fs gone) refl
walk-absent (suc n) path k (arr xs) gone = refl
walk-absent (suc n) path k null gone = refl
walk-absent (suc n) path k (bool b) gone = refl
walk-absent (suc n) path k (num s z) gone = refl
walk-absent (suc n) path k (str s) gone = refl
