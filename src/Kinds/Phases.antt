-- ===== src/Kinds/Phases.antt =====
-- How the kinds of core, networking and autoscaling tell their status: core/pod.go,
-- core/persistentvolume.go, core/persistentvolumeclaim.go, core/namespace.go, core/service.go,
-- networking/ingress.go and autoscaling/horizontalpodautoscaler.go. The words of phases, reasons and
-- types are those of the Kubernetes API.
use formae_plugin_kubernetes.Prelude.{
  String, ◌<>◌, Bool, true, false, not, ◌&&◌, ◌||◌, Option, none, some, List, [], ◌∷◌, str_eq,
  if◌then◌else◌,
}
use formae_plugin_kubernetes.Prelude.Decimal.{ℤ, print_int}
use formae_plugin_kubernetes.Resource.{
  OperationStatus, success, failure, in_progress, ErrorCode, resource_conflict, other,
}

-- A container with the reason that it waits for, none when it does not wait.
pub record Container : Type 0 where
  pub name : String
  pub waiting : Option String

pub record PodState : Type 0 where
  pub phase : String
  pub reason : String
  pub containers : List Container
  pub init_containers : List Container

unfoldable pub pod_status : String → OperationStatus
pod_status phase =
    if str_eq phase "Running" || str_eq phase "Succeeded"
    then success
    else if str_eq phase "Pending"
    then in_progress
    else if str_eq phase "Failed"
    then failure
    else if str_eq phase "Unknown"
    then in_progress
    else success

unfoldable pub pod_error_code : String → Option ErrorCode
pod_error_code reason =
    if str_eq reason "Evicted"
    then some resource_conflict
    else if str_eq reason "OutOfMemory" || (str_eq reason "OutOfCpu" || str_eq reason "OutOfDisk")
    then some (other "ServiceLimitExceeded")
    else none

unfoldable pub is_warning : String → Bool
is_warning reason =
    str_eq reason "CrashLoopBackOff"
    || (str_eq reason "ImagePullBackOff"
        || (str_eq reason "ErrImagePull"
            || (str_eq reason "CreateContainerConfigError" || str_eq reason "InvalidImageName")))

-- The warnings of a list of containers, each with a word before it.
unfoldable pub warnings : String → List Container → String
unfolding is_warning
warnings word [] = ""
warnings word (c ∷ cs) =
    let rest = warnings word cs in
    elim c.waiting [
      | none ↦ rest
      | some reason ↦
          if is_warning reason
          then " (WARNING: " <> (word <> (c.name <> (": " <> (reason <> (")" <> rest)))))
          else rest
    ]

unfoldable pub pod_message : PodState → String
unfolding warnings
pod_message s =
    "phase: "
    <> (s.phase
        <> (warnings "container " s.containers <> warnings "init container " s.init_containers))

unfoldable pub volume_status : String → OperationStatus
volume_status phase =
    if str_eq phase "Failed"
    then failure
    else if str_eq phase "Pending"
    then in_progress
    else success

unfoldable pub claim_status : String → OperationStatus
claim_status phase = if str_eq phase "Lost" then failure else success

abbrev pub phase_message : String → String
phase_message phase = "phase: " <> phase

unfoldable pub namespace_status : String → OperationStatus
namespace_status phase =
    if str_eq phase "Active"
    then success
    else if str_eq phase "Terminating"
    then in_progress
    else success

-- An address that a load balancer was given: an IP and a host name, each of which may be empty.
abbrev pub Address : Type 0
Address = String × String

pub record ServiceState : Type 0 where
  pub type : String
  pub cluster_ip : String
  pub addresses : List Address

abbrev pub no_addresses : List Address → Bool
no_addresses [] = true
no_addresses _ = false

unfoldable pub service_status : ServiceState → OperationStatus
service_status s =
    if str_eq s.type "LoadBalancer" && no_addresses s.addresses then in_progress else success

-- What the first address tells, or else another text.
abbrev pub address_message : List Address → String → String
address_message [] else_text = else_text
address_message ((ip, hostname) ∷ rest) else_text =
    if not (str_eq ip "")
    then "load balancer IP: " <> ip
    else if not (str_eq hostname "")
    then "load balancer hostname: " <> hostname
    else else_text

unfoldable pub service_message : ServiceState → String
service_message s =
    let told = "type: " <> (s.type <> (", clusterIP: " <> s.cluster_ip)) in
    if str_eq s.type "LoadBalancer"
    then (if no_addresses s.addresses
        then "waiting for load balancer to be provisioned"
        else address_message s.addresses told)
    else told

unfoldable pub ingress_message : List Address → String
ingress_message addresses = address_message addresses "load balancer assigned"

pub record AutoscalerState : Type 0 where
  pub current_replicas : ℤ
  pub desired_replicas : ℤ

unfoldable pub autoscaler_status : AutoscalerState → OperationStatus
autoscaler_status s = success

unfoldable pub autoscaler_message : AutoscalerState → String
autoscaler_message s =
    "currentReplicas: "
    <> (print_int s.current_replicas <> (", desiredReplicas: " <> print_int s.desired_replicas))
