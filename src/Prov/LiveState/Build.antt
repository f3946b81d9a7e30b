-- ===== src/Prov/LiveState/Build.antt =====
-- livestate.go: `LiveState`, between the apply configuration's JSON and the bytes that are returned.
use formae_plugin_kubernetes.Prelude.{String, Option, none, some}
use formae_plugin_kubernetes.Json.{Json, Fields, str, obj, set, within}
use formae_plugin_kubernetes.Prov.LiveState.Strip.{strip_metadata}
use formae_plugin_kubernetes.Prov.LiveState.Kinds.{
  strip_status, strip_namespace_spec, strip_controller_injected_fields,
}
use formae_plugin_kubernetes.Prov.LiveState.Walk.{strip_server_defaults}

-- `kind` and `apiVersion` are put in, since typed clients leave them empty.
abbrev pub with_type : String → String → Fields → Fields
with_type kind api_version fs = set "apiVersion" (str api_version) (set "kind" (str kind) fs)

-- The steps up to the walk.
unfoldable pub strip_top : String → String → Fields → Fields
unfolding strip_status strip_metadata strip_namespace_spec strip_controller_injected_fields
strip_top kind api_version result = strip_controller_injected_fields kind (
    strip_namespace_spec kind
      (within "metadata" strip_metadata (with_type kind api_version (strip_status kind result))))

unfoldable pub live_fields : String → String → Fields → Json
unfolding strip_top strip_server_defaults
live_fields kind api_version result =
    strip_server_defaults (obj (strip_top kind api_version result)) ""

unfoldable pub live_state :
    (Json → Option Fields) → (Json → Option String) → Json → String → String → Option String
unfolding live_fields
live_state project encode object kind api_version = elim (project object) [
  | none ↦ none
  | some result ↦ encode (live_fields kind api_version result)
]
