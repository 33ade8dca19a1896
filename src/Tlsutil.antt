-- ===== src/Tlsutil.antt =====
-- internal/tlsutil: tlsutil.go and dtls.go.
pub mod EmbeddedKey
pub mod Settings
pub mod Dtls
