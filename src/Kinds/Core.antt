-- ===== src/Kinds/Core.antt =====
-- pkg/resources: pods, services and the volumes. core/pod.go, core/service.go,
-- core/persistentvolume.go, core/persistentvolumeclaim.go.
use formae_plugin_kubernetes.Prelude.{String, true, Option, List, str_eq}
use formae_plugin_kubernetes.Prov.Lifecycle.{Provisioner}
use formae_plugin_kubernetes.Typed.{Client, Codec, Kind, namespaced, cluster}
use formae_plugin_kubernetes.Typed.Methods.{provisioner}
use formae_plugin_kubernetes.Kinds.Base.{kind_of, is_unowned}
use formae_plugin_kubernetes.Kinds.Phases.{
  PodState, pod_status, pod_error_code, pod_message, ServiceState, service_status, service_message,
  volume_status, claim_status, phase_message,
}

-- core/pod.go
abbrev pub pod : Kind PodState
pod =
    record (kind_of namespaced "K8S::Core::Pod" "Pod" "v1" "pod" "pods" (λ s. pod_status s.phase)) {
      message = pod_message;
      error_code = λ s. pod_error_code s.reason;
      gates_create = true;
      gates_update = true;
      lists = is_unowned;
    }

abbrev pub pod_provisioner :
    {W : Type 0} → Codec → Client W PodState → Provisioner W (Option (List String))
pod_provisioner codec client = provisioner codec client pod

-- core/service.go
abbrev pub service : Kind ServiceState
service =
    record (kind_of namespaced "K8S::Core::Service" "Service" "v1" "service" "services"
      (service_status)) { message = service_message }

abbrev pub service_provisioner :
    {W : Type 0} → Codec → Client W ServiceState → Provisioner W (Option (List String))
service_provisioner codec client = provisioner codec client service

-- core/persistentvolume.go
abbrev pub persistent_volume : Kind String
persistent_volume =
    record (kind_of cluster "K8S::Core::PersistentVolume" "PersistentVolume" "v1" "persistentvolume"
      "persistentvolumes" (volume_status)) { message = phase_message }

abbrev pub persistent_volume_provisioner :
    {W : Type 0} → Codec → Client W String → Provisioner W (Option (List String))
persistent_volume_provisioner codec client = provisioner codec client persistent_volume

-- core/persistentvolumeclaim.go
abbrev pub persistent_volume_claim : Kind String
persistent_volume_claim =
    record (kind_of namespaced "K8S::Core::PersistentVolumeClaim" "PersistentVolumeClaim" "v1"
      "persistentvolumeclaim" "persistentvolumeclaims" (claim_status)) {
        message = phase_message;
        is_lost = λ phase. str_eq phase "Lost";
      }

abbrev pub persistent_volume_claim_provisioner :
    {W : Type 0} → Codec → Client W String → Provisioner W (Option (List String))
persistent_volume_claim_provisioner codec client = provisioner codec client persistent_volume_claim
