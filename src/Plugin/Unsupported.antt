-- ===== src/Plugin/Unsupported.antt =====
-- k8s.go: what a request comes to, by whether the target's version has its type.
use formae_plugin_kubernetes.Prelude.{◌<>◌, String, ◌≡◌, Option, none, some}
use formae_plugin_kubernetes.Prov.Namespace.{done}
use formae_plugin_kubernetes.Prov.Lifecycle.{Request, Provisioner, Outcome}
use formae_plugin_kubernetes.K8sVersion.Gates.{Refusal, requires, removed}
use formae_plugin_kubernetes.Prelude.Errors.{GoError, leaf}
use formae_plugin_kubernetes.Resource.{Operation, OperationStatus, ErrorCode, Wrapped}
use formae_plugin_kubernetes.Plugin.{Platform, Registrations, Names, prepare}

-- A result that has an operation, a status, an error code or none, and nothing else.
abbrev pub bare : Operation → OperationStatus → Option ErrorCode → Wrapped
bare op status code = record {
  progress_result = some record {
    operation = some op;
    status = status;
    error_code = code;
    status_message = "";
    native_id = "";
    request_id = "";
    properties = "";
  };
}

-- The error that tells which version a type needs, or which one lacks it.
abbrev pub reason : String → Refusal → GoError
reason resource_type (requires version) =
    leaf 41 (
      resource_type <> (" is not supported on the target: " <> ("requires Kubernetes " <> version)))
reason resource_type (removed version) = leaf 41 (
    resource_type
    <> (" is not supported on the target: " <> ("was removed in Kubernetes " <> version)))

module _ {W C : Type 0} (platform : Platform W C) (registry : Registrations W C) (req : Request)
    (w ready after : W) (provisioner : Provisioner W Names) (cfg : C) where
  -- A request that was prepared, with the version that the cluster answered.
  abbrev pub IsPrepared : Option String → Type 0
  IsPrepared version =
      ((payload : String)
        → prepare platform registry payload req w ≡ (ready, done (provisioner, cfg)))
      × (platform.version_of cfg ready ≡ (after, version))

  -- The outcome where a type may be refused, behind the version's lookup.
  abbrev pub answer_for :
      {A : Type 0} → (Refusal → Outcome A) → W × Outcome A → Option Refusal → W × Outcome A
  answer_for told proceeds none = proceeds
  answer_for told proceeds (some r) = (after, told r)
