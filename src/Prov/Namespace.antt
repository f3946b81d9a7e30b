-- ===== src/Prov/Namespace.antt =====
-- pkg/resources/prov/namespace.go: the namespaces that a request must name. The errors keep which
-- check refused and the resource type.
use formae_plugin_kubernetes.Prelude.{
  String, ◌<>◌, Option, none, some, Map, lookup, str_eq, if◌then◌else◌,
}
use formae_plugin_kubernetes.Prelude.Errors.{GoError, leaf}

-- A value, an error, or a panic: what a Go step of a handler comes to.
pub data Attempt (A : Type 0) : Type 0 where
  done : A → Attempt A
  stopped : GoError → Attempt A
  crashed : String → Attempt A

abbrev pub namespace_required : String → GoError
namespace_required resource_type =
    leaf 31 (resource_type <> ": metadata.namespace is required for namespaced resources")

-- `none` is a nil pointer.
unfoldable pub resolve_create_namespace : Option String → String → Attempt String
resolve_create_namespace none resource_type = stopped (namespace_required resource_type)
resolve_create_namespace (some ns) resource_type =
    if str_eq ns "" then stopped (namespace_required resource_type) else done ns

abbrev pub namespace_parameter_required : String → GoError
namespace_parameter_required resource_type =
    leaf 32
      (resource_type <> ": list requires 'namespace' parameter from parent Namespace listParam")

unfoldable pub resolve_list_namespace : Map String → String → Attempt String
resolve_list_namespace additional resource_type = elim (lookup "namespace" additional) [
  | none ↦ stopped (namespace_parameter_required resource_type)
  | some ns ↦ if str_eq ns "" then stopped (namespace_parameter_required resource_type) else done ns
]
