-- ===== src/Proxy.antt =====
-- HTTP Proxy Effecient: the caching proxy.
pub mod Text
mod Tests
pub mod Url
pub mod Auth
pub mod State
pub mod Server
