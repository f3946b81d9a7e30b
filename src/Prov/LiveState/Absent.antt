-- ===== src/Prov/LiveState/Absent.antt =====
-- livestate.go: the fields that stay absent, and those that stay as they are, up to the walk.
use formae_plugin_kubernetes.Prelude.{
  String, ◌≡◌, ◌≢◌, refl, inl, inr, Bool, true, false, Option, none, some, List, [], ◌∷◌, ◌∙◌, ap,
  str_eq, Option-cases, Bool-cases, arith, eq_iff, if◌then◌else◌,
}
use formae_plugin_kubernetes.Json.{
  Json, Fields, null, bool, num, str, arr, obj, get, remove, object_at, as_object, within,
}
use formae_plugin_kubernetes.Json.Laws.{get-set, get-remove, get-within_ne}
use formae_plugin_kubernetes.Prov.LiveState.Strip.{
  any_key, remove_all, strip_metadata, strip_server_managed_labels,
  strip_server_managed_annotations, server_managed_meta_fields, is_managed_label,
  is_managed_annotation,
}
use formae_plugin_kubernetes.Prov.LiveState.Kinds.{
  strip_namespace_spec, strip_controller_injected_fields, strip_job_spec, strip_pod_spec,
  strip_service_spec, strip_volume_spec,
}
use formae_plugin_kubernetes.Prov.LiveState.Keeps.{below, strip_keys-absent}

-- The fields of metadata that are never returned.
abbrev pub dropped_meta_fields : List String
dropped_meta_fields = "finalizers" ∷ server_managed_meta_fields

remove_all-absent :
    (keys : List String) (k : String) (fs : Fields)
    → get k fs ≡ none
    → get k (remove_all keys fs) ≡ none
unfolding remove_all
remove_all-absent [] k fs gone = gone
remove_all-absent (j ∷ keys) k fs gone =
    remove_all-absent keys k (remove j fs) (grind (arith, get-remove, eq_iff))

get-remove_all :
    (keys : List String) (k : String) (fs : Fields)
    → any_key k keys ≡ true
    → get k (remove_all keys fs) ≡ none
unfolding remove_all
get-remove_all [] k fs h = ground arith
get-remove_all (j ∷ keys) k fs h = elim (Bool-cases (str_eq k j)) [
  | inl e ↦ remove_all-absent keys k (remove j fs) (grind (arith, get-remove, eq_iff))
  | inr e ↦ get-remove_all keys k (remove j fs) (ground arith)
]

pub strip_metadata-absent :
    (k : String) (fs : Fields)
    → any_key k dropped_meta_fields ≡ true
    → get k (strip_metadata fs) ≡ none
unfolding strip_metadata strip_server_managed_labels strip_server_managed_annotations
strip_metadata-absent k fs h = strip_keys-absent "labels" is_managed_label k _ (
    strip_keys-absent "annotations" is_managed_annotation k _
      (elim (Bool-cases (str_eq "finalizers" k)) [
        | inl e ↦ grind (arith, get-remove, eq_iff)
        | inr e ↦ grind (arith, get-remove, eq_iff, get-remove_all server_managed_meta_fields k fs)
      ]))

-- A change in place establishes or keeps that a field is absent below a key.
pub below-within :
    (key k : String) (change : Fields → Fields) (fs : Fields)
    → ((inner : Fields) → object_at key fs ≡ some inner → get k (change inner) ≡ none)
    → below k (get key (within key change fs)) ≡ none
unfolding within
below-within key k change fs law = elim (Option-cases (get key fs)) [
  | inl e ↦ ground arith
  | inr (obj inner, e) ↦
      ground (arith, get-set key key (obj (change inner)) fs, eq_iff key key, law inner)
  | inr (null, e) ↦ ground arith
  | inr (bool b, e) ↦ ground arith
  | inr (num s n, e) ↦ ground arith
  | inr (str s, e) ↦ ground arith
  | inr (arr xs, e) ↦ ground arith
]

pub get-strip_namespace_spec :
    (kind k : String) (fs : Fields)
    → str_eq k "spec" ≡ false
    → get k (strip_namespace_spec kind fs) ≡ get k fs
unfolding strip_namespace_spec
get-strip_namespace_spec kind k fs ne =
    grind (arith, get-set, get-remove, eq_iff, Option-cases (object_at "spec" fs))

either : {A : Type 0} (P : A → Type 0) (b : Bool) (x y : A) → P x → P y → P (if b then x else y)
either P true x y p q = p
either P false x y p q = q

-- What the rules by kind come to: a property of all of these holds of their result.
strip_controller-cases :
    (kind : String) (fs : Fields) (P : Fields → Type 0)
    → ((change : Fields → Fields) → P (within "spec" change fs))
    → P (within "metadata" strip_server_managed_labels (within "spec" strip_job_spec fs))
    → P (remove "data" fs)
    → P fs
    → P (strip_controller_injected_fields kind fs)
unfolding strip_controller_injected_fields
strip_controller-cases kind fs P spec job secret other =
    either P (str_eq kind "Pod") _ _ (spec strip_pod_spec) (
      either P (str_eq kind "Job") _ _ job (
        either P (str_eq kind "Service") _ _ (spec strip_service_spec) (
          either P (str_eq kind "Secret") _ _ secret
            (either P (str_eq kind "PersistentVolume") _ _ (spec strip_volume_spec) other))))

pub differs : (k j : String) → str_eq k j ≡ false → j ≢ k
differs k j h = grind (arith, eq_iff)

-- The rules by kind change no field at the top but spec, metadata and data.
pub get-strip_controller :
    (kind k : String) (fs : Fields)
    → str_eq k "spec" ≡ false
    → str_eq k "metadata" ≡ false
    → str_eq k "data" ≡ false
    → get k (strip_controller_injected_fields kind fs) ≡ get k fs
get-strip_controller kind k fs a b c =
    strip_controller-cases kind fs (λ out. get k out ≡ get k fs)
      (λ change. get-within_ne "spec" k change fs (differs k "spec" a))
      (get-within_ne "metadata" k strip_server_managed_labels (within "spec" strip_job_spec fs)
          (differs k "metadata" b)
        ∙ get-within_ne "spec" k strip_job_spec fs (differs k "spec" a))
      (grind (arith, get-remove, eq_iff)) refl

below-object :
    (k : String) (o : Option Json) (inner : Fields)
    → as_object o ≡ some inner
    → below k o ≡ none
    → get k inner ≡ none
below-object k none inner e gone = ground arith
below-object k (some (obj fs)) inner e gone = ground arith
below-object k (some null) inner e gone = ground arith
below-object k (some (bool b)) inner e gone = ground arith
below-object k (some (num s n)) inner e gone = ground arith
below-object k (some (str s)) inner e gone = ground arith
below-object k (some (arr xs)) inner e gone = ground arith

-- They bring no field of metadata back.
pub below-strip_controller :
    (kind k : String) (fs : Fields)
    → below k (get "metadata" fs) ≡ none
    → below k (get "metadata" (strip_controller_injected_fields kind fs)) ≡ none
unfolding strip_server_managed_labels
below-strip_controller kind k fs gone =
    strip_controller-cases kind fs (λ out. below k (get "metadata" out) ≡ none)
      (λ change.
        ap (below k) (get-within_ne "spec" "metadata" change fs (differs "metadata" "spec" refl))
        ∙ gone)
      (below-within "metadata" k _ (within "spec" strip_job_spec fs) (λ inner at_meta.
        strip_keys-absent "labels" is_managed_label k inner (
          below-object k (get "metadata" (within "spec" strip_job_spec fs)) inner at_meta (
            ap (below k)
              (get-within_ne "spec" "metadata" strip_job_spec fs (differs "metadata" "spec" refl))
            ∙ gone))))
      (ap (below k) (get-remove "data" "metadata" fs) ∙ gone) gone
