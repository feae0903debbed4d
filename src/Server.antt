-- ===== src/Server.antt =====
-- server/src/lib.rs, by part.
pub mod Ssrf
pub mod Tokens
pub mod Control
pub mod Session
pub mod Serve
pub mod Serving
pub mod Accept
pub mod Config
