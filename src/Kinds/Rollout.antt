-- ===== src/Kinds/Rollout.antt =====
-- When a controller's rollout is over: apps/deployment.go, apps/statefulset.go, apps/daemonset.go,
-- apps/replicaset.go and batch/job.go, with prov/status.go. The words of conditions and strategies
-- are those of the Kubernetes API.
pub mod Reached
use formae_plugin_kubernetes.Prelude.{
  ℕ, ◌+◌, String, ◌<>◌, Bool, true, false, not, ◌&&◌, ◌||◌, Option, none, some, List, [], ◌∷◌, ltb,
  leb, str_eq, ◌-◌, if◌then◌else◌,
}
use formae_plugin_kubernetes.Prelude.Decimal.{ℤ, pos, negsuc, print_int}
use formae_plugin_kubernetes.Config.Version.{int_lt}
use formae_plugin_kubernetes.Resource.{OperationStatus, success, failure, in_progress}

-- int32 subtraction.
unfoldable pub minus : ℤ → ℤ → ℤ
minus (pos a) (pos b) = if leb b a then pos (a - b) else negsuc (b - a - 1)
minus (pos a) (negsuc b) = pos (a + b + 1)
minus (negsuc a) (pos b) = negsuc (a + b)
minus (negsuc a) (negsuc b) = if leb a b then pos (b - a) else negsuc (a - b - 1)

unfoldable pub wrap32 : ℤ → ℤ
wrap32 (pos n) = if ltb n 0x80000000 then pos n else negsuc (0xFFFFFFFF - n)
wrap32 (negsuc n) = if ltb n 0x80000000 then negsuc n else pos (0xFFFFFFFF - n)

abbrev pub sub32 : ℤ → ℤ → ℤ
sub32 a b = wrap32 (minus a b)

-- prov/status.go
unfoldable pub observed_generation_ready : ℤ → ℤ → Bool
observed_generation_ready generation observed = not (int_lt observed generation)

pub record Condition : Type 0 where
  pub type : String
  pub status : String
  pub reason : String

-- What a Deployment's status is told by.
pub record DeploymentState : Type 0 where
  pub generation : ℤ
  pub observed_generation : ℤ
  pub conditions : List Condition
  pub paused : Bool
  pub replicas : Option ℤ
  pub total_replicas : ℤ
  pub updated_replicas : ℤ
  pub ready_replicas : ℤ
  pub available_replicas : ℤ

abbrev pub fails_deployment : Condition → Bool
fails_deployment c =
    (str_eq c.type "ReplicaFailure" && str_eq c.status "True")
    || (str_eq c.type "Progressing"
        && (str_eq c.status "False" && str_eq c.reason "ProgressDeadlineExceeded"))

unfoldable pub any_condition : (Condition → Bool) → List Condition → Bool
any_condition test [] = false
any_condition test (c ∷ cs) = let rest = any_condition test cs in if test c then true else rest

-- A nil count is one replica.
abbrev pub replicas_wanted : Option ℤ → ℤ
replicas_wanted none = pos 1
replicas_wanted (some n) = n

unfoldable pub deployment_status : DeploymentState → OperationStatus
unfolding any_condition observed_generation_ready
deployment_status s =
    if any_condition fails_deployment s.conditions
    then failure
    else if not (observed_generation_ready s.generation s.observed_generation)
    then in_progress
    else if s.paused
    then success
    else let desired = replicas_wanted s.replicas in
      if int_lt s.updated_replicas desired
        || (int_lt s.ready_replicas desired || int_lt s.available_replicas desired)
      then in_progress
      else success

unfoldable pub deployment_message : DeploymentState → String
deployment_message s =
    "replicas: "
    <> (print_int s.ready_replicas
        <> ("/"
            <> (print_int s.total_replicas
                <> (" ready, "
                    <> (print_int s.available_replicas
                        <> (" available, " <> (print_int s.updated_replicas <> " updated")))))))

pub record StatefulSetState : Type 0 where
  pub generation : ℤ
  pub observed_generation : ℤ
  pub on_delete : Bool
  pub partition : Option ℤ
  pub replicas : Option ℤ
  pub total_replicas : ℤ
  pub updated_replicas : ℤ
  pub ready_replicas : ℤ

-- The count of updated pods to reach: those from the partition on.
abbrev pub floored : ℤ → ℤ
floored n = if int_lt n (pos 0) then pos 0 else n

unfoldable pub target_updated : ℤ → Option ℤ → ℤ
unfolding minus wrap32
target_updated desired none = desired
target_updated desired (some partition) = floored (sub32 desired partition)

unfoldable pub stateful_set_status : StatefulSetState → OperationStatus
unfolding observed_generation_ready target_updated
stateful_set_status s =
    if not (observed_generation_ready s.generation s.observed_generation)
    then in_progress
    else let desired = replicas_wanted s.replicas in
      if s.on_delete
      then (if int_lt s.ready_replicas desired then in_progress else success)
      else if int_lt s.ready_replicas desired
          || int_lt s.updated_replicas (target_updated desired s.partition)
      then in_progress
      else success

unfoldable pub stateful_set_message : StatefulSetState → String
stateful_set_message s =
    "replicas: "
    <> (print_int s.ready_replicas
        <> ("/"
            <> (print_int s.total_replicas
                <> (" ready, " <> (print_int s.updated_replicas <> " updated")))))

pub record DaemonSetState : Type 0 where
  pub generation : ℤ
  pub observed_generation : ℤ
  pub on_delete : Bool
  pub desired_scheduled : ℤ
  pub number_ready : ℤ
  pub updated_scheduled : ℤ
  pub number_available : ℤ

unfoldable pub daemon_set_status : DaemonSetState → OperationStatus
unfolding observed_generation_ready
daemon_set_status s =
    if not (observed_generation_ready s.generation s.observed_generation)
    then in_progress
    else if s.on_delete
    then (if int_lt s.number_ready s.desired_scheduled then in_progress else success)
    else if int_lt s.updated_scheduled s.desired_scheduled
        || int_lt s.number_ready s.desired_scheduled
    then in_progress
    else success

unfoldable pub daemon_set_message : DaemonSetState → String
daemon_set_message s =
    "desired: "
    <> (print_int s.desired_scheduled
        <> (", ready: "
            <> (print_int s.number_ready
                <> (", updated: "
                    <> (print_int s.updated_scheduled
                        <> (", available: " <> print_int s.number_available))))))

pub record ReplicaSetState : Type 0 where
  pub conditions : List Condition
  pub total_replicas : ℤ
  pub ready_replicas : ℤ
  pub available_replicas : ℤ

abbrev pub fails_replica_set : Condition → Bool
fails_replica_set c = str_eq c.type "ReplicaFailure" && str_eq c.status "True"

unfoldable pub replica_set_status : List Condition → OperationStatus
unfolding any_condition
replica_set_status conditions =
    if any_condition fails_replica_set conditions then failure else success

unfoldable pub replica_set_message : ReplicaSetState → String
replica_set_message s =
    "replicas: "
    <> (print_int s.ready_replicas
        <> ("/"
            <> (print_int s.total_replicas
                <> (" ready, " <> (print_int s.available_replicas <> " available")))))

pub record JobState : Type 0 where
  pub conditions : List Condition
  pub active_pods : ℤ
  pub succeeded : ℤ
  pub failed : ℤ

-- The first condition that settles a job decides.
unfoldable pub job_status : List Condition → OperationStatus
job_status [] = in_progress
job_status (c ∷ cs) =
    let rest = job_status cs in
    if str_eq c.type "Failed" && str_eq c.status "True"
    then failure
    else if str_eq c.type "Complete" && str_eq c.status "True"
    then success
    else if str_eq c.type "Suspended" && str_eq c.status "True"
    then success
    else rest

unfoldable pub job_message : JobState → String
job_message s =
    "active: "
    <> (print_int s.active_pods
        <> (", succeeded: " <> (print_int s.succeeded <> (", failed: " <> print_int s.failed))))
