-- ===== src/K8sVersion.antt =====
-- pkg/k8sversion/registry.go: which resource types and fields a version of Kubernetes has, and
-- pkg/resources/prov/version_check.go, which looks for gated fields in a payload. What gjson finds
-- at a path of the payload is an argument.
pub mod Gates
pub mod Types
mod Tests
