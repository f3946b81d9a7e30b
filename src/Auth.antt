-- ===== src/Auth.antt =====
-- pkg/auth: the credentials that clients send.
pub mod TokenCache
mod Tests
