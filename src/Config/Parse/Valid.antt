-- ===== src/Config/Parse/Valid.antt =====
-- What every accepted command line means.
use go_packet_repeater.Base.{
  ◌≤◌, ◌≡◌, ◌≢◌, ◌⊎◌, refl, arith, Bool, true, false, ◌&&◌, ◌||◌, [], Bytes, ok, map_err,
  map_err-eq-ok, ok-injective, subst, >>=-eq-ok, >>-eq-ok, fail_if-eq-ok,
}
use go_packet_repeater.System.{System}
use go_packet_repeater.Config.{forward, Config, Endpoint, no_auth}
use go_packet_repeater.Config.Options.{Options, Scope}
use go_packet_repeater.Config.Extract.Invariant.{IsValid}
use go_packet_repeater.Config.Addr.Normal.{IsNormal, normalize_addr-IsNormal}
use go_packet_repeater.Config.ParseEndpoint.{ParsedEndpoint, parse_endpoint}
use go_packet_repeater.Config.ParseEndpoint.Grammar.{parse_endpoint_iff}
use go_packet_repeater.Config.ValidateSsl.{validate_ssl}
use go_packet_repeater.Config.ValidateSsl.Checked.{SslChecked, validate_ssl-SslChecked}
use go_packet_repeater.Config.Parse.{bad_endpoint, bad_ssl, forward_config, forward_of}

endpoint-IsNormal :
    (sys : System) (tok : Bytes) (is_target : Bool) {pe : ParsedEndpoint}
    → parse_endpoint sys tok is_target ≡ ok pe
    → IsNormal pe.ep.addr
endpoint-IsNormal sys tok is_target {pe} e =
    normalize_addr-IsNormal _ is_target ((parse_endpoint_iff sys tok is_target pe).0 e).address

-- A forwarding relay that can be run as it stands.
pub record ForwardValid (c : Config) : Type 0 where
  pub mode : c.mode ≡ forward
  pub target_addr : IsNormal c.target.addr
  pub listen_addr : IsNormal c.listen.addr
  pub same_tcp : c.target.tcp ≡ c.listen.tcp
  pub same_udp : c.target.udp ≡ c.listen.udp
  pub some_protocol : (c.listen.tcp ≡ true) ⊎ (c.listen.udp ≡ true)
  pub no_upstream : (c.upstream_addr ≡ []) × (c.forward_auth ≡ no_auth)
  pub certified : c.listen.ssl ≡ true → (c.server_tls.cert_path ≢ []) ⊎ (c.mitm.sign_ca_path ≢ [])
  pub exclusive : c.server_tls.cert_path ≢ [] → c.mitm.sign_ca_path ≡ []
  pub key_paired : c.server_tls.key_path ≢ [] → c.server_tls.cert_path ≢ []
  pub client_paired : c.client_tls.key_path ≢ [] → c.client_tls.cert_path ≢ []
  pub dtls_named :
      c.listen.ssl ≡ true → c.listen.udp ≡ true → c.mitm.sign_ca_path ≢ [] → c.mitm.server_name ≢ []
  pub plain_target :
      c.target.ssl ≡ false → (c.client_tls.cert_path ≡ []) × (c.client_tls.verify ≡ true)
  pub plain_listen :
      c.listen.ssl ≡ false → (c.server_tls.cert_path ≡ []) × (c.mitm.sign_ca_path ≡ [])
  pub level : c.log_level ≤ 3

module _ {o : Options} {scope : Scope} (v : IsValid o scope) where
  forward_of-ForwardValid :
      (target listen : Endpoint)
      → IsNormal target.addr
      → IsNormal listen.addr
      → target.tcp ≡ listen.tcp
      → target.udp ≡ listen.udp
      → (listen.tcp ≡ true) ⊎ (listen.udp ≡ true)
      → SslChecked o
          (listen.tcp && listen.ssl || listen.udp && listen.ssl)
          (listen.udp && listen.ssl)
          (listen.tcp && target.ssl || listen.udp && target.ssl)
      → ForwardValid (forward_of o target listen)
  unfolding forward_of
  forward_of-ForwardValid target listen nt nl st su sp s = record {
    mode = refl;
    target_addr = nt;
    listen_addr = nl;
    same_tcp = st;
    same_udp = su;
    some_protocol = sp;
    no_upstream = (refl, refl);
    certified = ground arith;
    exclusive = ground arith;
    key_paired = ground arith;
    client_paired = ground arith;
    dtls_named = ground arith;
    plain_target = ground arith;
    plain_listen = ground arith;
    level = v.level_capped;
  }

  pub forward_config-ForwardValid :
      (sys : System) (target_tok listen_tok : Bytes) {c : Config}
      → forward_config sys o target_tok listen_tok ≡ ok c
      → ForwardValid c
  unfolding forward_config
  forward_config-ForwardValid sys target_tok listen_tok e =
      let (_, e1) = fail_if-eq-ok o.f.seen _ _ e in
      let (target, t, e2) =
        >>=-eq-ok (map_err bad_endpoint (parse_endpoint sys target_tok true)) _ e1 in
      let (listen, l, e3) =
        >>=-eq-ok (map_err bad_endpoint (parse_endpoint sys listen_tok false)) _ e2 in
      let (checked, e4) = >>-eq-ok (map_err bad_ssl (validate_ssl sys o _ _ _)) _ e3 in
      let s = validate_ssl-SslChecked sys o _ _ _ (map_err-eq-ok bad_ssl _ checked) in
      subst ForwardValid (ok-injective e4) (
        forward_of-ForwardValid _ _
          (endpoint-IsNormal sys target_tok true (map_err-eq-ok bad_endpoint _ t))
          (endpoint-IsNormal sys listen_tok false (map_err-eq-ok bad_endpoint _ l)) refl refl
          (ground arith) s)
