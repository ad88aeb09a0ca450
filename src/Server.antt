-- ===== src/Server.antt =====
-- internal/server: the relay server.
pub mod Registry
pub mod State
pub mod Sound
pub mod Streams
pub mod Ports
pub mod Url
pub mod Http
pub mod Control
pub mod Build
pub mod Deploy
pub mod Admin
pub mod Steps
pub mod Tls
pub mod Lifetime
pub mod Serving
mod Tests
