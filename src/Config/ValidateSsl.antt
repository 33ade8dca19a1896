-- ===== src/Config/ValidateSsl.antt =====
-- `validateSSL` and `validateSSLKeyCert` of internal/config/parse.go.
pub mod Checked
use go_packet_repeater.Base.{
  Bool, true, false, not, ◌&&◌, List, [], ◌∷◌, Bytes, if◌then◌else◌, is_empty, Result, ok, err,
  ◌>>=◌, ◌>>◌, fail_if, map_err,
}
use go_packet_repeater.System.{System}
use go_packet_repeater.Tlsutil.EmbeddedKey.{FileError, has_embedded_key}
use go_packet_repeater.Config.Options.{Options}

-- `label`: which block the key and certificate belong to
pub data Label : Type 0 where
  label_q label_z : Label

pub data SslError : Type 0 where
  z_with_m q_without_target z_without_listen m_without_listen : SslError
  dtls_without_server_name server_name_without_sign_ca listen_without_cert : SslError
  key_without_cert : Label → SslError
  unreadable_cert : Label → Bytes → FileError → SslError
  cert_without_key : Label → Bytes → SslError

-- the branch of a certificate with no key file
embedded_key : System → Label → Bytes → Result SslError (Unit {0})
embedded_key sys label cert_path = do
  embedded ← map_err (unreadable_cert label cert_path) (has_embedded_key sys cert_path)
  fail_if (not embedded) (cert_without_key label cert_path)

unfoldable pub validate_ssl_key_cert : System → Label → Bytes → Bytes → Result SslError (Unit {0})
unfolding embedded_key
validate_ssl_key_cert sys label key_path cert_path = do
  fail_if (not (is_empty key_path) && is_empty cert_path) (key_without_cert label)
  if not (is_empty cert_path) && is_empty key_path then embedded_key sys label cert_path else ok tt

unfoldable pub validate_ssl : System → Options → Bool → Bool → Bool → Result SslError (Unit {0})
validate_ssl sys o ssl_listen ssl_listen_udp ssl_target = do
  fail_if (o.z.seen && o.m.seen) z_with_m
  fail_if (o.q.seen && not ssl_target) q_without_target
  fail_if (o.z.seen && not ssl_listen) z_without_listen
  fail_if (o.m.seen && not ssl_listen) m_without_listen
  fail_if (o.m.seen && (ssl_listen_udp && is_empty o.m.server_name)) dtls_without_server_name
  fail_if (not (is_empty o.m.server_name) && is_empty o.m.sign_ca_path) server_name_without_sign_ca
  validate_ssl_key_cert sys label_q o.q.key_path o.q.cert_path
  validate_ssl_key_cert sys label_z o.z.key_path o.z.cert_path
  fail_if (ssl_listen && (is_empty o.z.cert_path && is_empty o.m.sign_ca_path)) listen_without_cert
