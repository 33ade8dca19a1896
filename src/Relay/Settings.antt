-- ===== src/Relay/Settings.antt =====
-- internal/relay/relay.go: the TLS and DTLS settings of the two sides of a relay.
use go_packet_repeater.Base.{
  ◌≡◌, ◌≢◌, arith, Bool, true, false, [], Bytes, if◌then◌else◌, is_empty, Result, ok, err, ◌>>=◌,
  Bool-cases, Result-cases, List, inl, inr,
}
use go_packet_repeater.System.{System}
use go_packet_repeater.Config.{Config}
use go_packet_repeater.Config.Parse.{parse}
use go_packet_repeater.Config.Parse.Valid.{ForwardValid}
use go_packet_repeater.Config.Parse.Accepted.{
  parse-Runnable, Runnable, forwards, proxies, shows_help, shows_version,
}
use go_packet_repeater.Relay.{server_name}
use go_packet_repeater.Tlsutil.Settings.{
  Crypto, TlsError, name_required, load_mitm_signer, mitm_server_config, server_config,
  client_config, ServerSettings, ClientSettings, load_certificate, load_ca_pool, certificate_for,
  mint, MitmSigner,
}
use go_packet_repeater.Tlsutil.Dtls.{
  server_config_dtls, mitm_server_config_dtls, client_config_dtls, server_config_dtls-server_config,
  client_config_dtls-client_config,
}

module _ (crypto : Crypto) where
  -- `clientTLSConfig`
  unfoldable pub client_tls_config : Config → Result TlsError (ClientSettings crypto)
  client_tls_config cfg =
      client_config crypto cfg.client_tls.cert_path cfg.client_tls.key_path cfg.client_tls.ca_path
        (server_name cfg.target.addr) cfg.client_tls.verify

  -- `clientDTLSConfig`
  unfoldable pub client_dtls_config : Config → Result TlsError (ClientSettings crypto)
  client_dtls_config cfg =
      client_config_dtls crypto cfg.client_tls.cert_path cfg.client_tls.key_path
        cfg.client_tls.ca_path (server_name cfg.target.addr) cfg.client_tls.verify

  -- The target is asked the same over TLS and over DTLS.
  pub client_dtls_config-client_tls_config :
      (cfg : Config) → client_dtls_config cfg ≡ client_tls_config cfg
  unfolding client_dtls_config client_tls_config
  client_dtls_config-client_tls_config cfg = client_config_dtls-client_config crypto _ _ _ _ _

  -- `serverTLSConfig`
  unfoldable pub server_tls_config : Config → Result TlsError (ServerSettings crypto)
  server_tls_config cfg =
      if is_empty cfg.mitm.sign_ca_path
      then server_config crypto cfg.server_tls.cert_path cfg.server_tls.key_path
          cfg.server_tls.ca_path cfg.server_tls.verify_client
      else (do
        signer ← load_mitm_signer crypto cfg.mitm.sign_ca_path
        mitm_server_config crypto signer cfg.mitm.server_name cfg.mitm.ca_path
            cfg.mitm.verify_client)

  -- `serverDTLSConfig`
  unfoldable pub server_dtls_config : Config → Result TlsError (ServerSettings crypto)
  server_dtls_config cfg =
      if is_empty cfg.mitm.sign_ca_path
      then server_config_dtls crypto cfg.server_tls.cert_path cfg.server_tls.key_path
          cfg.server_tls.ca_path cfg.server_tls.verify_client
      else (do
        signer ← load_mitm_signer crypto cfg.mitm.sign_ca_path
        mitm_server_config_dtls crypto signer cfg.mitm.server_name cfg.mitm.ca_path
            cfg.mitm.verify_client)

  -- Behind a certificate of its own, a listener is set up alike.
  same_server :
      (c : Config)
      → server_config_dtls crypto c.server_tls.cert_path c.server_tls.key_path c.server_tls.ca_path
          c.server_tls.verify_client
        ≡ server_config crypto c.server_tls.cert_path c.server_tls.key_path c.server_tls.ca_path
            c.server_tls.verify_client
  same_server c = server_config_dtls-server_config crypto _ _ _ _

  load_certificate-named : (cert key : Bytes) → load_certificate crypto cert key ≢ err name_required
  unfolding load_certificate
  load_certificate-named cert key e = ground arith

  load_ca_pool-named : (ca : Bytes) → load_ca_pool crypto ca ≢ err name_required
  unfolding load_ca_pool
  load_ca_pool-named ca e = ground arith

  load_mitm_signer-named : (path : Bytes) → load_mitm_signer crypto path ≢ err name_required
  unfolding load_mitm_signer
  load_mitm_signer-named path e = ground arith

  certificate_for-named :
      (m : MitmSigner crypto) (host : Bytes) → (certificate_for crypto m host).0 ≢ err name_required
  unfolding certificate_for mint
  certificate_for-named m host e = ground arith

  server_config-named :
      (cert key ca : Bytes) (verify : Bool)
      → server_config crypto cert key ca verify ≢ err name_required
  unfolding server_config
  server_config-named cert key ca verify e =
      ground (arith, load_certificate-named cert key, load_ca_pool-named ca)

  mitm_server_config_dtls-named :
      (m : MitmSigner crypto) (name ca : Bytes) (verify : Bool)
      → name ≢ []
      → mitm_server_config_dtls crypto m name ca verify ≢ err name_required
  unfolding mitm_server_config_dtls
  mitm_server_config_dtls-named m name ca verify given e =
      ground (arith, given, certificate_for-named m name, load_ca_pool-named ca)

  ForwardValid-named :
      (c : Config)
      → ForwardValid c
      → c.listen.ssl ≡ true
      → c.listen.udp ≡ true
      → server_dtls_config c ≢ err name_required
  unfolding server_dtls_config
  ForwardValid-named c v s u e = elim (Bool-cases (is_empty c.mitm.sign_ca_path)) [
    | inl p ↦
        server_config-named c.server_tls.cert_path c.server_tls.key_path c.server_tls.ca_path
          c.server_tls.verify_client (ground (arith, e, p, same_server c))
    | inr p ↦ elim (Result-cases (load_mitm_signer crypto c.mitm.sign_ca_path)) [
      | inl (m, l) ↦
          mitm_server_config_dtls-named m c.mitm.server_name c.mitm.ca_path c.mitm.verify_client
            (v.dtls_named s u (given p)) (ground (arith, e, p, l))
      | inr (x, l) ↦ load_mitm_signer-named c.mitm.sign_ca_path (ground (arith, e, p, l))
    ]
  ]
    where
      given : is_empty c.mitm.sign_ca_path ≡ false → c.mitm.sign_ca_path ≢ []
      given p = ground (arith, p)

  -- For every configuration that `Parse` returns and that has a DTLS listener (its listen
  -- endpoint has UDP and SSL), the DTLS settings are not refused for a missing server name: the
  -- error that `MITMServerConfigDTLS` leaves to its callers cannot happen.
  pub parse-server_dtls_config :
      (sys : System) (args : List Bytes) {c : Config}
      → parse sys args ≡ ok c
      → c.listen.ssl ≡ true
      → c.listen.udp ≡ true
      → server_dtls_config c ≢ err name_required
  parse-server_dtls_config sys args {c} e s u = from (parse-Runnable sys args e)
    where
      from : Runnable c → server_dtls_config c ≢ err name_required
      from (forwards v) = ForwardValid-named c v s u
      from (proxies v) = absurd (ground (arith, v, u))
      from (shows_help h) = absurd (ground (arith, h, u))
      from (shows_version h) = absurd (ground (arith, h, u))

  -- Settings that ask the same of a client.
  abbrev pub SameClients : Result TlsError (ServerSettings crypto) → ServerSettings crypto → Type 0
  SameClients (err e) d = ⊥
  SameClients (ok s) d = (s.client_cas ≡ d.client_cas) × (s.client_auth ≡ d.client_auth)

  mitm-SameClients :
      (m : MitmSigner crypto) (name ca : Bytes) (verify : Bool) {d : ServerSettings crypto}
      → mitm_server_config_dtls crypto m name ca verify ≡ ok d
      → SameClients (mitm_server_config crypto m name ca verify) d
  unfolding mitm_server_config mitm_server_config_dtls
  mitm-SameClients m name ca verify e = elim (Result-cases (certificate_for crypto m name).0) [
    | inl (cert, k) ↦ elim (Result-cases (load_ca_pool crypto ca)) [
      | inl (pool, l) ↦ ground (arith, e, k, l)
      | inr (x, l) ↦ ground (arith, e, k, l)
    ]
    | inr (x, k) ↦ absurd (ground (arith, e, k))
  ]

  -- If the DTLS settings of the listener of a configuration can be built, so can its TLS
  -- settings, and the two ask the same of a client: the same pool of CAs and the same demand for
  -- a certificate.
  pub server_dtls_config-SameClients :
      (c : Config) {d : ServerSettings crypto}
      → server_dtls_config c ≡ ok d
      → SameClients (server_tls_config c) d
  unfolding server_dtls_config server_tls_config
  server_dtls_config-SameClients c {d} e = elim (Bool-cases (is_empty c.mitm.sign_ca_path)) [
    | inl p ↦ ground (arith, e, p, same_server c)
    | inr p ↦ elim (Result-cases (load_mitm_signer crypto c.mitm.sign_ca_path)) [
      | inl (m, l) ↦
          rw (p, l)
            (mitm-SameClients m c.mitm.server_name c.mitm.ca_path c.mitm.verify_client {d = d}
              (rw (p, l) at e))
      | inr (x, l) ↦ absurd (ground (arith, e, p, l))
    ]
  ]
