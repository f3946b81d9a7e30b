-- ===== src/Kinds/Batch.antt =====
-- pkg/resources: jobs. batch/job.go, batch/cronjob.go.
use formae_plugin_kubernetes.Prelude.{String, true, Option, List}
use formae_plugin_kubernetes.Resource.{success}
use formae_plugin_kubernetes.Prov.Lifecycle.{Provisioner}
use formae_plugin_kubernetes.Typed.{Client, Codec, Kind, namespaced, foreground, background}
use formae_plugin_kubernetes.Typed.Methods.{provisioner}
use formae_plugin_kubernetes.Kinds.Base.{kind_of, is_unowned}
use formae_plugin_kubernetes.Kinds.Rollout.{JobState, job_status, job_message}

-- batch/job.go
abbrev pub job : Kind JobState
job =
    record (kind_of namespaced "K8S::Batch::Job" "Job" "batch/v1" "job" "jobs"
      (λ s. job_status s.conditions)) {
        message = job_message;
        propagation = background;
        gates_create = true;
        lists = is_unowned;
      }

abbrev pub job_provisioner :
    {W : Type 0} → Codec → Client W JobState → Provisioner W (Option (List String))
job_provisioner codec client = provisioner codec client job

-- batch/cronjob.go
abbrev pub cron_job : Kind (Unit {0})
cron_job =
    record (kind_of namespaced "K8S::Batch::CronJob" "CronJob" "batch/v1" "cronjob" "cronjobs"
      (λ s. success)) { propagation = foreground }

abbrev pub cron_job_provisioner :
    {W : Type 0} → Codec → Client W (Unit {0}) → Provisioner W (Option (List String))
cron_job_provisioner codec client = provisioner codec client cron_job
