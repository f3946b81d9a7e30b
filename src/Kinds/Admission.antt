-- ===== src/Kinds/Admission.antt =====
-- pkg/resources: webhooks and admission policies.
-- admissionregistration/mutatingadmissionpolicy.go,
-- admissionregistration/mutatingwebhookconfiguration.go,
-- admissionregistration/validatingwebhookconfiguration.go.
use formae_plugin_kubernetes.Prelude.{String, Option, List}
use formae_plugin_kubernetes.Resource.{success}
use formae_plugin_kubernetes.Prov.Lifecycle.{Provisioner}
use formae_plugin_kubernetes.Typed.{Client, Codec, Kind, cluster}
use formae_plugin_kubernetes.Typed.Methods.{provisioner}
use formae_plugin_kubernetes.Kinds.Base.{kind_of}

-- admissionregistration/mutatingadmissionpolicy.go
abbrev pub mutating_admission_policy : Kind (Unit {0})
mutating_admission_policy =
    kind_of cluster "K8S::Admissionregistration::MutatingAdmissionPolicy" "MutatingAdmissionPolicy"
      "admissionregistration.k8s.io/v1" "mutatingadmissionpolicy" "mutatingadmissionpolicies"
      (λ s. success)

abbrev pub mutating_admission_policy_provisioner :
    {W : Type 0} → Codec → Client W (Unit {0}) → Provisioner W (Option (List String))
mutating_admission_policy_provisioner codec client =
    provisioner codec client mutating_admission_policy

-- admissionregistration/mutatingwebhookconfiguration.go
abbrev pub mutating_webhook_configuration : Kind (Unit {0})
mutating_webhook_configuration =
    kind_of cluster "K8S::Admissionregistration::MutatingWebhookConfiguration"
      "MutatingWebhookConfiguration" "admissionregistration.k8s.io/v1"
      "mutatingwebhookconfiguration" "mutatingwebhookconfigurations" (λ s. success)

abbrev pub mutating_webhook_configuration_provisioner :
    {W : Type 0} → Codec → Client W (Unit {0}) → Provisioner W (Option (List String))
mutating_webhook_configuration_provisioner codec client =
    provisioner codec client mutating_webhook_configuration

-- admissionregistration/validatingwebhookconfiguration.go
abbrev pub validating_webhook_configuration : Kind (Unit {0})
validating_webhook_configuration =
    kind_of cluster "K8S::Admissionregistration::ValidatingWebhookConfiguration"
      "ValidatingWebhookConfiguration" "admissionregistration.k8s.io/v1"
      "validatingwebhookconfiguration" "validatingwebhookconfigurations" (λ s. success)

abbrev pub validating_webhook_configuration_provisioner :
    {W : Type 0} → Codec → Client W (Unit {0}) → Provisioner W (Option (List String))
validating_webhook_configuration_provisioner codec client =
    provisioner codec client validating_webhook_configuration
