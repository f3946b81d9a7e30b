-- ===== src/Prov.antt =====
-- pkg/resources/prov: what every provisioner shares.
pub mod NativeId
pub mod LiveState
pub mod ReadErrors
pub mod Lifecycle
pub mod Ownership
pub mod Pagination
pub mod Replicas
pub mod Normalize
pub mod Namespace
mod Tests
