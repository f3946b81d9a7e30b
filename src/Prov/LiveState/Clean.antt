-- ===== src/Prov/LiveState/Clean.antt =====
-- livestate.go: what `LiveState` guarantees of the object that it encodes.
use mathlib.Core.Option
use formae_plugin_kubernetes.Prelude.{
  ℕ, String, ◌≡◌, ◌⊎◌, refl, true, false, Option, none, some, ◌∷◌, ◌∙◌, ap, arith, eq_iff,
}
use formae_plugin_kubernetes.Json.{Json, Fields, str, obj, get, within, map_fields}
use formae_plugin_kubernetes.Json.Laws.{get-set, get-remove, get-map_fields, get-within_ne}
use formae_plugin_kubernetes.Prov.LiveState.Strip.{any_key, strip_metadata}
use formae_plugin_kubernetes.Prov.LiveState.Kinds.{
  strip_status, strip_namespace_spec, strip_controller_injected_fields,
}
use formae_plugin_kubernetes.Prov.LiveState.Walk.{
  walk, depth, depth_fields, strip_node, join_path, strip_server_defaults,
}
use formae_plugin_kubernetes.Prov.LiveState.Build.{live_fields, strip_top, with_type}
use formae_plugin_kubernetes.Prov.LiveState.Keeps.{
  field_of, below, touched, strip_node-IsTame, walk-str, walk-absent,
}
use formae_plugin_kubernetes.Prov.LiveState.Absent.{
  dropped_meta_fields, strip_metadata-absent, below-within, get-strip_namespace_spec, differs,
  get-strip_controller, below-strip_controller,
}

pub walk-obj :
    (path : String) (fs : Fields)
    → strip_server_defaults (obj fs) path
      ≡ obj (
          map_fields
            (λ k child. walk (depth_fields fs) (join_path path k) child)
            (strip_node path fs))
unfolding strip_server_defaults walk depth
walk-obj path fs = refl

-- The object that is encoded has the fields of the stripped one, each walked, but for those that the
-- rules at the top touch.
get-live :
    (kind api_version k : String) (result : Fields)
    → any_key k touched ≡ false
    → let top = strip_top kind api_version result in
      field_of k (live_fields kind api_version result)
      ≡ Option.map (walk (depth_fields top) (join_path "" k)) (get k top)
unfolding live_fields
get-live kind api_version k result h =
    let top = strip_top kind api_version result in
    ap (field_of k) (walk-obj "" top)
    ∙ (get-map_fields (λ j child. walk (depth_fields top) (join_path "" j) child) k
          (strip_node "" top)
        ∙ ap (Option.map (walk (depth_fields top) (join_path "" k)))
            ((strip_node-IsTame "").0 k top h))

below-walked :
    (k : String) (n : ℕ) (path : String) (o : Option Json)
    → below k o ≡ none
    → below k (Option.map (walk n path) o) ≡ none
below-walked k n path none gone = refl
below-walked k n path (some v) gone = walk-absent n path k v gone

-- A text put in at the top reaches what is encoded, unless a rule touches its key.
live-text :
    (kind api_version k s : String) (result : Fields)
    → any_key k ("spec" ∷ "metadata" ∷ "data" ∷ touched) ≡ false
    → get k (with_type kind api_version (strip_status kind result)) ≡ some (str s)
    → field_of k (live_fields kind api_version result) ≡ some (str s)
unfolding strip_top
live-text kind api_version k s result h given =
    let typed = with_type kind api_version (strip_status kind result) in
    get-live kind api_version k result (ground arith)
    ∙ (ap (Option.map (walk _ (join_path "" k))) (
          get-strip_controller kind k
            (strip_namespace_spec kind (within "metadata" strip_metadata typed)) (ground arith)
            (ground arith) (ground arith)
          ∙ (get-strip_namespace_spec kind k (within "metadata" strip_metadata typed) (ground arith)
              ∙ (get-within_ne "metadata" k strip_metadata typed
                    (differs k "metadata" (ground arith))
                  ∙ given)))
        ∙ ap some (walk-str _ (join_path "" k) s))

-- Whatever the API object is, the object that is encoded has the kind and the API version that the
-- caller gave.
pub live-typed :
    (kind api_version : String) (result : Fields)
    → (field_of "kind" (live_fields kind api_version result) ≡ some (str kind))
      × (field_of "apiVersion" (live_fields kind api_version result) ≡ some (str api_version))
unfolding strip_top
live-typed kind api_version result = (
  live-text kind api_version "kind" kind result refl (grind (arith, get-set, eq_iff)),
  live-text kind api_version "apiVersion" api_version result refl (grind (arith, get-set, eq_iff)),
)

live-dropped_absent :
    (kind api_version k : String) (result : Fields)
    → any_key k dropped_meta_fields ≡ true
    → below k (field_of "metadata" (live_fields kind api_version result)) ≡ none
unfolding strip_top
live-dropped_absent kind api_version k result h =
    ap (below k) (get-live kind api_version "metadata" result refl)
    ∙ below-walked k _ _ _ (
        below-strip_controller kind k _ (
          ap (below k) (
            get-strip_namespace_spec kind "metadata"
              (within "metadata" strip_metadata
                (with_type kind api_version (strip_status kind result)))
              refl)
          ∙ below-within "metadata" k strip_metadata
              (with_type kind api_version (strip_status kind result))
              (λ inner at_meta. strip_metadata-absent k inner h)))

-- The bookkeeping of the API server in an object's metadata.
abbrev pub IsBookkeeping : String → Type 0
IsBookkeeping k =
    (k ≡ "uid")
    ⊎ (k ≡ "resourceVersion")
    ⊎ (k ≡ "generation")
    ⊎ (k ≡ "creationTimestamp")
    ⊎ (k ≡ "deletionGracePeriodSeconds")
    ⊎ (k ≡ "finalizers")

bookkeeping-dropped : (k : String) → IsBookkeeping k → any_key k dropped_meta_fields ≡ true
bookkeeping-dropped k h = grind (arith, eq_iff, h)

-- The metadata that is encoded has none of uid, resourceVersion, generation, creationTimestamp,
-- deletionGracePeriodSeconds and finalizers, whatever the API object is.
pub live-metadata_absent :
    (kind api_version k : String) (result : Fields)
    → IsBookkeeping k
    → below k (field_of "metadata" (live_fields kind api_version result)) ≡ none
live-metadata_absent kind api_version k result h =
    live-dropped_absent kind api_version k result (bookkeeping-dropped k h)

-- A Secret's data never stands in what `LiveState` encodes.
pub live-secret_data :
    (api_version : String) (result : Fields)
    → field_of "data" (live_fields "Secret" api_version result) ≡ none
unfolding strip_top strip_controller_injected_fields
live-secret_data api_version result =
    get-live "Secret" api_version "data" result refl
    ∙ ap (Option.map _) (get-remove "data" "data" _)
