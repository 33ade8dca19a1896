-- ===== src/Config/ValidateSsl/Checked.antt =====
-- What `validateSSL` guarantees.
use go_packet_repeater.Base.{
  ◌≡◌, ◌≢◌, ◌⊎◌, arith, Bool, true, false, not, ◌&&◌, [], Bytes, is_empty, ok, >>-eq-ok,
  fail_if-eq-ok, not_failed,
}
use go_packet_repeater.System.{System}
use go_packet_repeater.Config.Options.{Options}
use go_packet_repeater.Config.ValidateSsl.{
  Label, label_q, label_z, validate_ssl, validate_ssl_key_cert,
}

-- What `validateSSL` guarantees of the options that it accepts.
pub record SslChecked (o : Options) (listen listen_udp target : Bool) : Type 0 where
  pub exclusive : o.z.seen ≡ true → o.m.seen ≡ false
  pub q_needs_target : o.q.seen ≡ true → target ≡ true
  pub z_needs_listen : o.z.seen ≡ true → listen ≡ true
  pub m_needs_listen : o.m.seen ≡ true → listen ≡ true
  pub dtls_named : o.m.seen ≡ true → listen_udp ≡ true → o.m.server_name ≢ []
  pub named_signed : o.m.server_name ≢ [] → o.m.sign_ca_path ≢ []
  pub q_paired : o.q.key_path ≢ [] → o.q.cert_path ≢ []
  pub z_paired : o.z.key_path ≢ [] → o.z.cert_path ≢ []
  pub certified : listen ≡ true → (o.z.cert_path ≢ []) ⊎ (o.m.sign_ca_path ≢ [])

checked :
    {o : Options} {listen listen_udp target : Bool}
    → (o.z.seen && o.m.seen) ≡ false
    → (o.q.seen && not target) ≡ false
    → (o.z.seen && not listen) ≡ false
    → (o.m.seen && not listen) ≡ false
    → (o.m.seen && (listen_udp && is_empty o.m.server_name)) ≡ false
    → (not (is_empty o.m.server_name) && is_empty o.m.sign_ca_path) ≡ false
    → (o.q.key_path ≢ [] → o.q.cert_path ≢ [])
    → (o.z.key_path ≢ [] → o.z.cert_path ≢ [])
    → (listen && (is_empty o.z.cert_path && is_empty o.m.sign_ca_path)) ≡ false
    → SslChecked o listen listen_udp target
checked c1 c2 c3 c4 c5 c6 q z e = record {
  exclusive = ground arith;
  q_needs_target = ground arith;
  z_needs_listen = ground arith;
  m_needs_listen = ground arith;
  dtls_named = ground arith;
  named_signed = ground arith;
  q_paired = q;
  z_paired = z;
  certified = ground arith;
}

key_cert_paired :
    (sys : System) (label : Label) (key_path cert_path : Bytes)
    → validate_ssl_key_cert sys label key_path cert_path ≡ ok tt
    → key_path ≢ []
    → cert_path ≢ []
unfolding validate_ssl_key_cert
key_cert_paired sys label key_path cert_path e k c =
    let (bad, _) = fail_if-eq-ok (not (is_empty key_path) && is_empty cert_path) _ _ e in
    ground arith

-- If `validateSSL` accepts the options: -Z and -M are not both given; -Q is given only with a TLS
-- target, -Z and -M only with a TLS listener; -M over DTLS has a server name, and a server name
-- only comes with a signing CA; keys under -Q and -Z come with certificates; and a TLS listener
-- has a certificate or a signing CA.
pub validate_ssl-SslChecked :
    (sys : System) (o : Options) (listen listen_udp target : Bool)
    → validate_ssl sys o listen listen_udp target ≡ ok tt
    → SslChecked o listen listen_udp target
unfolding validate_ssl
validate_ssl-SslChecked sys o listen listen_udp target e0 =
    let (c1, e1) = fail_if-eq-ok (o.z.seen && o.m.seen) _ _ e0 in
    let (c2, e2) = fail_if-eq-ok (o.q.seen && not target) _ _ e1 in
    let (c3, e3) = fail_if-eq-ok (o.z.seen && not listen) _ _ e2 in
    let (c4, e4) = fail_if-eq-ok (o.m.seen && not listen) _ _ e3 in
    let (c5, e5) = fail_if-eq-ok (o.m.seen && (listen_udp && is_empty o.m.server_name)) _ _ e4 in
    let (c6, e6) =
      fail_if-eq-ok (not (is_empty o.m.server_name) && is_empty o.m.sign_ca_path) _ _ e5 in
    let (c7, e7) = >>-eq-ok (validate_ssl_key_cert sys label_q o.q.key_path o.q.cert_path) _ e6 in
    let (c8, e8) = >>-eq-ok (validate_ssl_key_cert sys label_z o.z.key_path o.z.cert_path) _ e7 in
    checked c1 c2 c3 c4 c5 c6 (key_cert_paired sys _ _ _ c7) (key_cert_paired sys _ _ _ c8)
      (not_failed _ _ e8)
