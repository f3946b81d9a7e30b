-- ===== src/Kinds/Networking.antt =====
-- pkg/resources: ingresses and network policies. networking/ingress.go,
-- networking/ingressclass.go, networking/networkpolicy.go.
use formae_plugin_kubernetes.Prelude.{String, Option, List}
use formae_plugin_kubernetes.Resource.{success}
use formae_plugin_kubernetes.Prov.Lifecycle.{Provisioner}
use formae_plugin_kubernetes.Typed.{Client, Codec, Kind, namespaced, cluster}
use formae_plugin_kubernetes.Typed.Methods.{provisioner}
use formae_plugin_kubernetes.Kinds.Base.{kind_of}
use formae_plugin_kubernetes.Kinds.Phases.{Address, ingress_message}

-- networking/ingress.go
abbrev pub ingress : Kind (List Address)
ingress =
    record (kind_of namespaced "K8S::Networking::Ingress" "Ingress" "networking.k8s.io/v1" "ingress"
      "ingresses" (λ s. success)) { message = ingress_message }

abbrev pub ingress_provisioner :
    {W : Type 0} → Codec → Client W (List Address) → Provisioner W (Option (List String))
ingress_provisioner codec client = provisioner codec client ingress

-- networking/ingressclass.go
abbrev pub ingress_class : Kind (Unit {0})
ingress_class =
    kind_of cluster "K8S::Networking::IngressClass" "IngressClass" "networking.k8s.io/v1"
      "ingressclass" "ingressclasses" (λ s. success)

abbrev pub ingress_class_provisioner :
    {W : Type 0} → Codec → Client W (Unit {0}) → Provisioner W (Option (List String))
ingress_class_provisioner codec client = provisioner codec client ingress_class

-- networking/networkpolicy.go
abbrev pub network_policy : Kind (Unit {0})
network_policy =
    kind_of namespaced "K8S::Networking::NetworkPolicy" "NetworkPolicy" "networking.k8s.io/v1"
      "networkpolicy" "networkpolicies" (λ s. success)

abbrev pub network_policy_provisioner :
    {W : Type 0} → Codec → Client W (Unit {0}) → Provisioner W (Option (List String))
network_policy_provisioner codec client = provisioner codec client network_policy
