-- ===== src/Kinds/Storage.antt =====
-- pkg/resources: storage drivers and runtime classes. storage/csidriver.go,
-- storage/storageclass.go, node/runtimeclass.go.
use formae_plugin_kubernetes.Prelude.{String, Option, List}
use formae_plugin_kubernetes.Resource.{success}
use formae_plugin_kubernetes.Prov.Lifecycle.{Provisioner}
use formae_plugin_kubernetes.Typed.{Client, Codec, Kind, cluster}
use formae_plugin_kubernetes.Typed.Methods.{provisioner}
use formae_plugin_kubernetes.Kinds.Base.{kind_of}

-- storage/csidriver.go
abbrev pub csi_driver : Kind (Unit {0})
csi_driver =
    kind_of cluster "K8S::Storage::CSIDriver" "CSIDriver" "storage.k8s.io/v1" "csidriver"
      "csidrivers" (λ s. success)

abbrev pub csi_driver_provisioner :
    {W : Type 0} → Codec → Client W (Unit {0}) → Provisioner W (Option (List String))
csi_driver_provisioner codec client = provisioner codec client csi_driver

-- storage/storageclass.go
abbrev pub storage_class : Kind (Unit {0})
storage_class =
    kind_of cluster "K8S::Storage::StorageClass" "StorageClass" "storage.k8s.io/v1" "storageclass"
      "storageclasses" (λ s. success)

abbrev pub storage_class_provisioner :
    {W : Type 0} → Codec → Client W (Unit {0}) → Provisioner W (Option (List String))
storage_class_provisioner codec client = provisioner codec client storage_class

-- node/runtimeclass.go
abbrev pub runtime_class : Kind (Unit {0})
runtime_class =
    kind_of cluster "K8S::Node::RuntimeClass" "RuntimeClass" "node.k8s.io/v1" "runtimeclass"
      "runtimeclasses" (λ s. success)

abbrev pub runtime_class_provisioner :
    {W : Type 0} → Codec → Client W (Unit {0}) → Provisioner W (Option (List String))
runtime_class_provisioner codec client = provisioner codec client runtime_class
