-- ===== src/Tlsutil/Dtls.antt =====
-- The builders of DTLS settings: internal/tlsutil/dtls.go. pion's `dtls.Config` has the settings of
-- `tls.Config` that are used, under the same names.
use go_packet_repeater.Base.{
  ◌≡◌, refl, Bool, not, Bytes, Result, ok, ◌>>=◌, ◌>>◌, fail_if, is_empty,
}
use go_packet_repeater.Tlsutil.Settings.{
  Crypto, TlsError, name_required, load_certificate, MitmSigner, certificate_for, always,
  ServerSettings, with_client_ca, ClientSettings, own_certificate, own_roots, server_config,
  client_config,
}

module _ (crypto : Crypto) where
  -- `ServerConfigDTLS`
  unfoldable pub server_config_dtls :
      Bytes → Bytes → Bytes → Bool → Result TlsError (ServerSettings crypto)
  unfolding with_client_ca
  server_config_dtls cert_path key_path ca_path verify_client = do
    cert ← load_certificate crypto cert_path key_path
    with_client_ca crypto (always cert) ca_path verify_client

  -- `MITMServerConfigDTLS`
  unfoldable pub mitm_server_config_dtls :
      MitmSigner crypto → Bytes → Bytes → Bool → Result TlsError (ServerSettings crypto)
  unfolding with_client_ca
  mitm_server_config_dtls signer explicit ca_path verify_client = do
    fail_if (is_empty explicit) name_required
    cert ← (certificate_for crypto signer explicit).0
    with_client_ca crypto (always cert) ca_path verify_client

  -- `ClientConfigDTLS`
  unfoldable pub client_config_dtls :
      Bytes → Bytes → Bytes → Bytes → Bool → Result TlsError (ClientSettings crypto)
  unfolding own_certificate own_roots
  client_config_dtls cert_path key_path ca_path name verify = do
    cert ← own_certificate crypto cert_path key_path
    roots ← own_roots crypto ca_path
    ok (record {
      server_name = name;
      insecure_skip_verify = not verify;
      certificate = cert;
      root_cas = roots;
    })

  -- A side with a certificate of its own is set up alike for TLS and for DTLS.
  pub server_config_dtls-server_config :
      (cert_path key_path ca_path : Bytes) (verify_client : Bool)
      → server_config_dtls cert_path key_path ca_path verify_client
        ≡ server_config crypto cert_path key_path ca_path verify_client
  unfolding server_config_dtls server_config
  server_config_dtls-server_config cert_path key_path ca_path verify_client = refl

  pub client_config_dtls-client_config :
      (cert_path key_path ca_path name : Bytes) (verify : Bool)
      → client_config_dtls cert_path key_path ca_path name verify
        ≡ client_config crypto cert_path key_path ca_path name verify
  unfolding client_config_dtls client_config
  client_config_dtls-client_config cert_path key_path ca_path name verify = refl
