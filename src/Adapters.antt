-- ===== src/Adapters.antt =====
-- src/adapters: the ports' implementations over HTTP.
pub mod Http
pub mod Hyperswitch
pub mod Midaz
pub mod Issuer
pub mod Ports
pub mod Facts
pub mod Requests
mod Tests
