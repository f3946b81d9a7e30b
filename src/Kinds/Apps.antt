-- ===== src/Kinds/Apps.antt =====
-- pkg/resources: the workload controllers. apps/deployment.go, apps/daemonset.go,
-- apps/replicaset.go, apps/statefulset.go.
use formae_plugin_kubernetes.Prelude.{String, Option, List}
use formae_plugin_kubernetes.Prov.Lifecycle.{Provisioner}
use formae_plugin_kubernetes.Typed.{Client, Codec, Kind, namespaced, foreground}
use formae_plugin_kubernetes.Typed.Methods.{provisioner}
use formae_plugin_kubernetes.Kinds.Base.{kind_of, is_unowned}
use formae_plugin_kubernetes.Kinds.Finish.{strip_replicas_of, finish_stateful_set}
use formae_plugin_kubernetes.Kinds.Rollout.{
  DeploymentState, deployment_status, deployment_message, DaemonSetState, daemon_set_status,
  daemon_set_message, ReplicaSetState, replica_set_status, replica_set_message, StatefulSetState,
  stateful_set_status, stateful_set_message,
}

-- apps/deployment.go
abbrev pub deployment : Kind DeploymentState
deployment =
    record (kind_of namespaced "K8S::Apps::Deployment" "Deployment" "apps/v1" "deployment"
      "deployments" (deployment_status)) {
        message = deployment_message;
        propagation = foreground;
        finish = strip_replicas_of;
      }

abbrev pub deployment_provisioner :
    {W : Type 0} → Codec → Client W DeploymentState → Provisioner W (Option (List String))
deployment_provisioner codec client = provisioner codec client deployment

-- apps/daemonset.go
abbrev pub daemon_set : Kind DaemonSetState
daemon_set =
    record (kind_of namespaced "K8S::Apps::DaemonSet" "DaemonSet" "apps/v1" "daemonset" "daemonsets"
      (daemon_set_status)) { message = daemon_set_message; propagation = foreground }

abbrev pub daemon_set_provisioner :
    {W : Type 0} → Codec → Client W DaemonSetState → Provisioner W (Option (List String))
daemon_set_provisioner codec client = provisioner codec client daemon_set

-- apps/replicaset.go
abbrev pub replica_set : Kind ReplicaSetState
replica_set =
    record (kind_of namespaced "K8S::Apps::ReplicaSet" "ReplicaSet" "apps/v1" "replicaset"
      "replicasets" (λ s. replica_set_status s.conditions)) {
        message = replica_set_message;
        propagation = foreground;
        finish = strip_replicas_of;
        lists = is_unowned;
      }

abbrev pub replica_set_provisioner :
    {W : Type 0} → Codec → Client W ReplicaSetState → Provisioner W (Option (List String))
replica_set_provisioner codec client = provisioner codec client replica_set

-- apps/statefulset.go
abbrev pub stateful_set : Kind StatefulSetState
stateful_set =
    record (kind_of namespaced "K8S::Apps::StatefulSet" "StatefulSet" "apps/v1" "statefulset"
      "statefulsets" (stateful_set_status)) {
        message = stateful_set_message;
        propagation = foreground;
        finish = finish_stateful_set;
      }

abbrev pub stateful_set_provisioner :
    {W : Type 0} → Codec → Client W StatefulSetState → Provisioner W (Option (List String))
stateful_set_provisioner codec client = provisioner codec client stateful_set
