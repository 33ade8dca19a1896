-- ===== src/Proxy.antt =====
-- internal/proxy: SOCKS5, the HTTP proxy and digest authentication.
pub mod Socks
pub mod Digest
pub mod Http
pub mod Chain
pub mod Log
