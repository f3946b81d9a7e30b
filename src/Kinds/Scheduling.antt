-- ===== src/Kinds/Scheduling.antt =====
-- pkg/resources: priorities, budgets, leases and autoscaling.
-- autoscaling/horizontalpodautoscaler.go, coordination/lease.go, flowcontrol/flowschema.go,
-- flowcontrol/prioritylevelconfiguration.go, policy/poddisruptionbudget.go,
-- scheduling/priorityclass.go.
use formae_plugin_kubernetes.Prelude.{String, Option, List}
use formae_plugin_kubernetes.Resource.{success}
use formae_plugin_kubernetes.Prov.Lifecycle.{Provisioner}
use formae_plugin_kubernetes.Typed.{Client, Codec, Kind, namespaced, cluster}
use formae_plugin_kubernetes.Typed.Methods.{provisioner}
use formae_plugin_kubernetes.Kinds.Base.{kind_of}
use formae_plugin_kubernetes.Kinds.Phases.{AutoscalerState, autoscaler_status, autoscaler_message}

-- autoscaling/horizontalpodautoscaler.go
abbrev pub horizontal_pod_autoscaler : Kind AutoscalerState
horizontal_pod_autoscaler =
    record (kind_of namespaced "K8S::Autoscaling::HorizontalPodAutoscaler" "HorizontalPodAutoscaler"
      "autoscaling/v2" "horizontalpodautoscaler" "horizontalpodautoscalers" (autoscaler_status)) {
        message = autoscaler_message;
      }

abbrev pub horizontal_pod_autoscaler_provisioner :
    {W : Type 0} → Codec → Client W AutoscalerState → Provisioner W (Option (List String))
horizontal_pod_autoscaler_provisioner codec client =
    provisioner codec client horizontal_pod_autoscaler

-- coordination/lease.go
abbrev pub lease : Kind (Unit {0})
lease =
    kind_of namespaced "K8S::Coordination::Lease" "Lease" "coordination.k8s.io/v1" "lease" "leases"
      (λ s. success)

abbrev pub lease_provisioner :
    {W : Type 0} → Codec → Client W (Unit {0}) → Provisioner W (Option (List String))
lease_provisioner codec client = provisioner codec client lease

-- flowcontrol/flowschema.go
abbrev pub flow_schema : Kind (Unit {0})
flow_schema =
    kind_of cluster "K8S::Flowcontrol::FlowSchema" "FlowSchema" "flowcontrol.apiserver.k8s.io/v1"
      "flowschema" "flowschemas" (λ s. success)

abbrev pub flow_schema_provisioner :
    {W : Type 0} → Codec → Client W (Unit {0}) → Provisioner W (Option (List String))
flow_schema_provisioner codec client = provisioner codec client flow_schema

-- flowcontrol/prioritylevelconfiguration.go
abbrev pub priority_level_configuration : Kind (Unit {0})
priority_level_configuration =
    kind_of cluster "K8S::Flowcontrol::PriorityLevelConfiguration" "PriorityLevelConfiguration"
      "flowcontrol.apiserver.k8s.io/v1" "prioritylevelconfiguration" "prioritylevelconfigurations"
      (λ s. success)

abbrev pub priority_level_configuration_provisioner :
    {W : Type 0} → Codec → Client W (Unit {0}) → Provisioner W (Option (List String))
priority_level_configuration_provisioner codec client =
    provisioner codec client priority_level_configuration

-- policy/poddisruptionbudget.go
abbrev pub pod_disruption_budget : Kind (Unit {0})
pod_disruption_budget =
    kind_of namespaced "K8S::Policy::PodDisruptionBudget" "PodDisruptionBudget" "policy/v1"
      "poddisruptionbudget" "poddisruptionbudgets" (λ s. success)

abbrev pub pod_disruption_budget_provisioner :
    {W : Type 0} → Codec → Client W (Unit {0}) → Provisioner W (Option (List String))
pod_disruption_budget_provisioner codec client = provisioner codec client pod_disruption_budget

-- scheduling/priorityclass.go
abbrev pub priority_class : Kind (Unit {0})
priority_class =
    kind_of cluster "K8S::Scheduling::PriorityClass" "PriorityClass" "scheduling.k8s.io/v1"
      "priorityclass" "priorityclasses" (λ s. success)

abbrev pub priority_class_provisioner :
    {W : Type 0} → Codec → Client W (Unit {0}) → Provisioner W (Option (List String))
priority_class_provisioner codec client = provisioner codec client priority_class
