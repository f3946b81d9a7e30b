-- ===== src/Helm.antt =====
-- pkg/resources/helm: releases driven through the Helm SDK.
pub mod RequestId
pub mod Bridge
pub mod Flight
pub mod Plan
pub mod Inventory
mod Tests
