-- ===== src/Kinds/Config.antt =====
-- pkg/resources: configuration, accounts and quotas. core/configmap.go, core/secret.go,
-- core/serviceaccount.go, core/endpoints.go, core/limitrange.go, core/resourcequota.go.
use formae_plugin_kubernetes.Prelude.{String, Option, Map, List}
use formae_plugin_kubernetes.Resource.{success}
use formae_plugin_kubernetes.Prov.Lifecycle.{Provisioner}
use formae_plugin_kubernetes.Typed.{Client, Codec, Kind, namespaced}
use formae_plugin_kubernetes.Typed.Methods.{provisioner}
use formae_plugin_kubernetes.Kinds.Base.{kind_of}
use formae_plugin_kubernetes.Kinds.Finish.{enrich_decoded_data, finish_service_account}

-- core/configmap.go
abbrev pub config_map : Kind (Unit {0})
config_map =
    kind_of namespaced "K8S::Core::ConfigMap" "ConfigMap" "v1" "configmap" "configmaps"
      (λ s. success)

abbrev pub config_map_provisioner :
    {W : Type 0} → Codec → Client W (Unit {0}) → Provisioner W (Option (List String))
config_map_provisioner codec client = provisioner codec client config_map

-- core/secret.go
abbrev pub secret : Kind (Map String)
secret =
    record (kind_of namespaced "K8S::Core::Secret" "Secret" "v1" "secret" "secrets"
      (λ s. success)) { finish = λ codec live text. enrich_decoded_data codec text live.state }

abbrev pub secret_provisioner :
    {W : Type 0} → Codec → Client W (Map String) → Provisioner W (Option (List String))
secret_provisioner codec client = provisioner codec client secret

-- core/serviceaccount.go
abbrev pub service_account : Kind (Unit {0})
service_account =
    record (kind_of namespaced "K8S::Core::ServiceAccount" "ServiceAccount" "v1" "serviceaccount"
      "serviceaccounts" (λ s. success)) { finish = finish_service_account }

abbrev pub service_account_provisioner :
    {W : Type 0} → Codec → Client W (Unit {0}) → Provisioner W (Option (List String))
service_account_provisioner codec client = provisioner codec client service_account

-- core/endpoints.go
abbrev pub endpoints : Kind (Unit {0})
endpoints =
    kind_of namespaced "K8S::Core::Endpoints" "Endpoints" "v1" "endpoints" "endpoints"
      (λ s. success)

abbrev pub endpoints_provisioner :
    {W : Type 0} → Codec → Client W (Unit {0}) → Provisioner W (Option (List String))
endpoints_provisioner codec client = provisioner codec client endpoints

-- core/limitrange.go
abbrev pub limit_range : Kind (Unit {0})
limit_range =
    kind_of namespaced "K8S::Core::LimitRange" "LimitRange" "v1" "limitrange" "limitranges"
      (λ s. success)

abbrev pub limit_range_provisioner :
    {W : Type 0} → Codec → Client W (Unit {0}) → Provisioner W (Option (List String))
limit_range_provisioner codec client = provisioner codec client limit_range

-- core/resourcequota.go
abbrev pub resource_quota : Kind (Unit {0})
resource_quota =
    kind_of namespaced "K8S::Core::ResourceQuota" "ResourceQuota" "v1" "resourcequota"
      "resourcequotas" (λ s. success)

abbrev pub resource_quota_provisioner :
    {W : Type 0} → Codec → Client W (Unit {0}) → Provisioner W (Option (List String))
resource_quota_provisioner codec client = provisioner codec client resource_quota
