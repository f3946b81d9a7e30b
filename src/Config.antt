-- ===== src/Config.antt =====
-- pkg/config: what targets say of their clusters.
pub mod Version
mod Tests
