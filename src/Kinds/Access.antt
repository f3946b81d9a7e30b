-- ===== src/Kinds/Access.antt =====
-- pkg/resources: roles and their bindings. rbac/role.go, rbac/rolebinding.go, rbac/clusterrole.go,
-- rbac/clusterrolebinding.go.
use formae_plugin_kubernetes.Prelude.{String, Option, List}
use formae_plugin_kubernetes.Resource.{success}
use formae_plugin_kubernetes.Prov.Lifecycle.{Provisioner}
use formae_plugin_kubernetes.Typed.{Client, Codec, Kind, namespaced, cluster}
use formae_plugin_kubernetes.Typed.Methods.{provisioner}
use formae_plugin_kubernetes.Kinds.Base.{kind_of}

-- rbac/role.go
abbrev pub role : Kind (Unit {0})
role =
    kind_of namespaced "K8S::Rbac::Role" "Role" "rbac.authorization.k8s.io/v1" "role" "roles"
      (λ s. success)

abbrev pub role_provisioner :
    {W : Type 0} → Codec → Client W (Unit {0}) → Provisioner W (Option (List String))
role_provisioner codec client = provisioner codec client role

-- rbac/rolebinding.go
abbrev pub role_binding : Kind (Unit {0})
role_binding =
    kind_of namespaced "K8S::Rbac::RoleBinding" "RoleBinding" "rbac.authorization.k8s.io/v1"
      "rolebinding" "rolebindings" (λ s. success)

abbrev pub role_binding_provisioner :
    {W : Type 0} → Codec → Client W (Unit {0}) → Provisioner W (Option (List String))
role_binding_provisioner codec client = provisioner codec client role_binding

-- rbac/clusterrole.go
abbrev pub cluster_role : Kind (Unit {0})
cluster_role =
    kind_of cluster "K8S::Rbac::ClusterRole" "ClusterRole" "rbac.authorization.k8s.io/v1"
      "clusterrole" "clusterroles" (λ s. success)

abbrev pub cluster_role_provisioner :
    {W : Type 0} → Codec → Client W (Unit {0}) → Provisioner W (Option (List String))
cluster_role_provisioner codec client = provisioner codec client cluster_role

-- rbac/clusterrolebinding.go
abbrev pub cluster_role_binding : Kind (Unit {0})
cluster_role_binding =
    kind_of cluster "K8S::Rbac::ClusterRoleBinding" "ClusterRoleBinding"
      "rbac.authorization.k8s.io/v1" "clusterrolebinding" "clusterrolebindings" (λ s. success)

abbrev pub cluster_role_binding_provisioner :
    {W : Type 0} → Codec → Client W (Unit {0}) → Provisioner W (Option (List String))
cluster_role_binding_provisioner codec client = provisioner codec client cluster_role_binding
