-- ===== src/Client.antt =====
-- client/src, by part.
pub mod Pattern
pub mod Geosite
pub mod Geoip
pub mod Routing
pub mod Address
pub mod Talk
pub mod Socks
pub mod Http
pub mod Conn
pub mod Task
pub mod Handlers
pub mod Listeners
pub mod Relay
pub mod Pool
pub mod Keeper
pub mod Token
pub mod Config
