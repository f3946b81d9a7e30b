-- ===== src/Transport.antt =====
-- pkg/transport: the clients that requests share.
pub mod ClientCache
mod Tests
