-- ===== src/Kinds.antt =====
-- pkg/resources/*: the typed kinds, each of which is a value of `Kind` with the provisioner that its
-- file builds.
pub mod Rollout
pub mod Finish
pub mod Phases
pub mod Base
pub mod Apps
pub mod Batch
pub mod Core
pub mod Config
pub mod Networking
pub mod Access
pub mod Admission
pub mod Scheduling
pub mod Storage
pub mod Namespace
mod Tests
