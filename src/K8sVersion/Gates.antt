-- ===== src/K8sVersion/Gates.antt =====
-- registry.go: the two registries and the checks against them, and version_check.go. The reasons and
-- errors are given by what they are about; their texts are left out.
use formae_plugin_kubernetes.Prelude.{
  String, Bool, true, false, not, ◌&&◌, Option, none, some, List, [], ◌∷◌, Map, lookup, str_eq,
  if◌then◌else◌,
}
use formae_plugin_kubernetes.Prelude.Decimal.{ℤ, pos, negsuc}
use formae_plugin_kubernetes.Config.Version.{compare_k8s_versions}

pub record Gate : Type 0 where
  pub introduced_in : String
  pub deprecated_in : String
  pub removed_in : String
  pub reference : String

abbrev pub introduced : String → String → Gate
introduced version reference = record {
  introduced_in = version;
  deprecated_in = "";
  removed_in = "";
  reference = reference;
}

abbrev deprecated : String → String → Gate
deprecated version reference = record {
  introduced_in = "";
  deprecated_in = version;
  removed_in = "";
  reference = reference;
}

-- A gated field: its resource type, its path, its gate.
pub record GatedField : Type 0 where
  pub resource_type : String
  pub field_path : String
  pub gate : Gate

abbrev gated : String → String → Gate → GatedField
gated resource_type field_path gate = record {
  resource_type = resource_type;
  field_path = field_path;
  gate = gate;
}

abbrev pub registry : List GatedField
registry =
    gated "K8S::Core::Pod" "spec.resourceClaims" (introduced "1.26" "https://kep.k8s.io/3063")
    ∷ gated "K8S::Core::Pod" "spec.schedulingGates" (introduced "1.26" "https://kep.k8s.io/3521")
    ∷ gated "K8S::Core::Pod" "spec.hostUsers" (introduced "1.25" "https://kep.k8s.io/127")
    ∷ gated "K8S::Core::Pod" "spec.securityContext.appArmorProfile"
        (introduced "1.30" "https://kep.k8s.io/24")
    ∷ gated "K8S::Core::Pod" "spec.containers.#.resizePolicy"
        (introduced "1.27" "https://kep.k8s.io/1287")
    ∷ gated "K8S::Core::Pod" "spec.initContainers.#.resizePolicy"
        (introduced "1.27" "https://kep.k8s.io/1287")
    ∷ gated "K8S::Batch::Job" "spec.managedBy" (introduced "1.30" "https://kep.k8s.io/4368")
    ∷ gated "K8S::Batch::Job" "spec.maxFailedIndexes" (introduced "1.28" "https://kep.k8s.io/3850")
    ∷ gated "K8S::Batch::Job" "spec.successPolicy" (introduced "1.30" "https://kep.k8s.io/3998")
    ∷ gated "K8S::Core::Service" "spec.externalIPs"
        (deprecated "1.36" "https://github.com/kubernetes/enhancements/issues/1864")
    ∷ gated "K8S::Core::Service" "spec.trafficDistribution"
        (introduced "1.30" "https://kep.k8s.io/4444")
    ∷ []

abbrev pub type_registry : Map Gate
type_registry =
    (
      "K8S::Admissionregistration::MutatingAdmissionPolicy",
      introduced "1.36" "https://kep.k8s.io/3962",
    )
    ∷ (
      "K8S::Flowcontrol::FlowSchema",
      introduced "1.29"
          "https://kubernetes.io/blog/2024/04/30/kubernetes-1-30-release-note-flow-control-graduations/",
    )
    ∷ (
      "K8S::Flowcontrol::PriorityLevelConfiguration",
      introduced "1.29"
          "https://kubernetes.io/blog/2024/04/30/kubernetes-1-30-release-note-flow-control-graduations/",
    )
    ∷ (
      "K8S::Autoscaling::HorizontalPodAutoscaler",
      introduced "1.23" "https://github.com/kubernetes/enhancements/issues/117",
    )
    ∷ []

unfoldable pub lookup_type : String → Option Gate
lookup_type resource_type = lookup resource_type type_registry

abbrev is_negative : ℤ → Bool
is_negative (pos n) = false
is_negative (negsuc n) = true

-- The two tests that a gate makes, which an empty text leaves out.
abbrev pub too_old : Gate → String → Bool
too_old gate version =
    not (str_eq gate.introduced_in "")
    && is_negative (compare_k8s_versions version gate.introduced_in)

abbrev pub too_new : Gate → String → Bool
too_new gate version =
    not (str_eq gate.removed_in "")
    && not (is_negative (compare_k8s_versions version gate.removed_in))

-- Why something is not there: it needs a later version, or was removed in one.
pub data Refusal : Type 0 where
  requires : String → Refusal
  removed : String → Refusal

unfoldable pub gate_refusal : Gate → String → Option Refusal
unfolding compare_k8s_versions
gate_refusal gate version =
    if too_old gate version
    then some (requires gate.introduced_in)
    else if too_new gate version
    then some (removed gate.removed_in)
    else none

-- `TypeSupported`: none when the type is there.
unfoldable pub type_supported : String → String → Option Refusal
unfolding lookup_type gate_refusal
type_supported resource_type version = elim (lookup_type resource_type) [
  | none ↦ none
  | some gate ↦ gate_refusal gate version
]

abbrev paths_in : String → List GatedField → List String
paths_in resource_type [] = []
paths_in resource_type (g ∷ gs) =
    let rest = paths_in resource_type gs in
    if str_eq g.resource_type resource_type then g.field_path ∷ rest else rest

unfoldable pub paths_for_resource : String → List String
paths_for_resource resource_type = paths_in resource_type registry

abbrev gate_in : String → String → List GatedField → Option Gate
gate_in resource_type path [] = none
gate_in resource_type path (g ∷ gs) =
    if str_eq g.resource_type resource_type && str_eq g.field_path path
    then some g.gate
    else gate_in resource_type path gs

unfoldable pub lookup_field : String → String → Option Gate
lookup_field resource_type path = gate_in resource_type path registry

unfoldable pub check_field : String → String → String → Option Refusal
unfolding lookup_field gate_refusal
check_field resource_type path version = elim (lookup_field resource_type path) [
  | none ↦ none
  | some gate ↦ gate_refusal gate version
]

-- The first refusal among some paths.
unfoldable pub check_paths : String → List String → String → Option Refusal
unfolding check_field
check_paths resource_type [] version = none
check_paths resource_type (path ∷ paths) version = elim (check_field resource_type path version) [
  | some r ↦ some r
  | none ↦ check_paths resource_type paths version
]

-- What gjson finds at a path: nothing, an array with or without a value in it, or another value.
pub data Found : Type 0 where
  missing : Found
  array : Bool → Found
  value : Found

abbrev pub is_used : Found → Bool
is_used missing = false
is_used (array any) = any
is_used value = true

-- version_check.go: the loop of `CheckPayloadGates`, with the payload's answers.
unfoldable pub check_used : String → (String → Found) → List String → String → Option Refusal
unfolding check_field
check_used resource_type found [] version = none
check_used resource_type found (path ∷ paths) version =
    let rest = check_used resource_type found paths version in
    if is_used (found path)
    then elim (check_field resource_type path version) [ some r ↦ some r | none ↦ rest ]
    else rest

-- `resolved` is the cluster's version, none where it could not be found out.
unfoldable pub check_payload_gates : String → (String → Found) → Option String → Option Refusal
unfolding check_used paths_for_resource
check_payload_gates resource_type found none = none
check_payload_gates resource_type found (some version) =
    check_used resource_type found (paths_for_resource resource_type) version
