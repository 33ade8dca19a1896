-- ===== src/Tlsutil/Settings.antt =====
-- The builders of TLS settings of internal/tlsutil/tlsutil.go. A setting that a builder leaves alone
-- has Go's zero value.
mod Calls
pub mod Signer
pub mod Minted
use go_packet_repeater.Base.{
  ℕ, ◌+◌, ◌-◌, ◌*◌, Bool, true, false, not, Option, none, some, List, [], ◌∷◌, Bytes, if◌then◌else◌,
  is_empty, text_eq, Result, ok, err, ◌>>=◌, ◌>>◌, fail_if,
}
unfoldable pub use Calls.*

-- `tls.ClientAuthType`: the values that are used
pub data ClientAuth : Type 0 where
  no_client_cert require_any_client_cert require_and_verify_client_cert : ClientAuth

module _ (crypto : Crypto) where
  open crypto use {
    Certificate, Leaf, Key, Pool, Ip, read, pool_of, load_pair, leaf_of, is_ca, key_of, parse_ip,
    generate_key, random_serial, now, create_certificate, raw, certificate_of,
  }

  lift {ℓ} : {A : Type ℓ} → TlsError → Option A → Result TlsError A
  lift e none = err e
  lift e (some a) = ok a

  -- `loadCertificate`
  unfoldable pub load_certificate : Bytes → Bytes → Result TlsError Certificate
  unfolding lift
  load_certificate cert_path key_path =
      let key = if is_empty key_path then cert_path else key_path in
      lift (bad_pair cert_path key) (load_pair cert_path key)

  -- `loadCAPool`
  unfoldable pub load_ca_pool : Bytes → Result TlsError Pool
  unfolding lift
  load_ca_pool ca_path = do
    content ← lift (unreadable_ca ca_path) (read ca_path)
    lift (unusable_ca ca_path) (pool_of content)

  -- `calls` counts the certificates that were asked of Go's library.
  pub record MitmSigner : Type 0 where
    pub ca_cert : Leaf
    pub ca_key : Key
    pub cache : Bytes → Option Certificate
    pub calls : ℕ

  -- `LoadMITMSigner`
  unfoldable pub load_mitm_signer : Bytes → Result TlsError MitmSigner
  unfolding lift
  load_mitm_signer path = do
    pair ← lift (bad_sign_ca path) (load_pair path path)
    ca_cert ← lift (bad_leaf path) (leaf_of pair)
    fail_if (not (is_ca ca_cert)) (not_a_ca path)
    key ← lift (no_signer path) (key_of pair)
    ok (record { ca_cert = ca_cert; ca_key = key; cache = λ host. none; calls = 0 })

  -- `tmpl`, with the name that the host is: an IP address or a DNS name
  named : Bytes → Option Ip → Template Ip → Template Ip
  named host (some ip) t = record t { ip_addresses = ip ∷ [] }
  named host none t = record t { dns_names = host ∷ [] }

  unfoldable pub template : ℕ → ℕ → Bytes → Template Ip
  unfolding named
  template serial time host = named host (parse_ip host) (record {
    serial_number = serial;
    common_name = host;
    not_before = time - hour;
    not_after = time + mitm_leaf_validity;
    key_usage = digital_signature ∷ key_encipherment ∷ [];
    ext_key_usage = server_auth ∷ [];
    basic_constraints_valid = true;
    ip_addresses = [];
    dns_names = [];
  })

  -- `CertificateFor` for a host that the cache does not have
  unfoldable pub mint : MitmSigner → Bytes → Result TlsError Certificate
  unfolding lift
  mint m host = do
    key ← lift (no_leaf_key host) (generate_key m.calls)
    serial ← lift (no_serial host) (random_serial m.calls)
    der ←
        lift (not_signed host)
          (create_certificate (template serial (now m.calls) host) m.ca_cert key m.ca_key)
    ok (certificate_of (der ∷ raw m.ca_cert ∷ []) key)

  -- `CertificateFor`
  unfoldable pub certificate_for : MitmSigner → Bytes → Result TlsError Certificate × MitmSigner
  certificate_for m host = elim (m.cache host) [
    | some cert ↦ (ok cert, m)
    | none ↦ elim (mint m host) [
      | err e ↦ (err e, record m { calls = m.calls + 1 })
      | ok cert ↦ (
        ok cert,
        record m {
          cache = λ h. if text_eq host h then some cert else m.cache h;
          calls = m.calls + 1;
        },
      )
    ]
  ]

  -- `GetCertificate` of `MITMServerConfig`, for the name that the client sent
  unfoldable pub get_certificate :
      Bytes → MitmSigner → Bytes → Result TlsError Certificate × MitmSigner
  get_certificate explicit m sni =
      let host = if is_empty explicit then sni else explicit in
      if is_empty host then (err no_hostname, m) else certificate_for m host

  -- The certificate of a listener: one for all connections, or `GetCertificate`.
  pub data Serves : Type 0 where
    always : Certificate → Serves
    minted : Bytes → MitmSigner → Serves

  pub record ServerSettings : Type 0 where
    pub serves : Serves
    pub client_cas : Option Pool
    pub client_auth : ClientAuth

  -- `if caPath != "" { … }` of the four builders for a listener
  unfoldable pub with_client_ca : Serves → Bytes → Bool → Result TlsError ServerSettings
  with_client_ca serves ca_path verify_client =
      if is_empty ca_path
      then ok (record { serves = serves; client_cas = none; client_auth = no_client_cert })
      else (do
        pool ← load_ca_pool ca_path
        ok (record {
          serves = serves;
          client_cas = some pool;
          client_auth =
              if verify_client then require_and_verify_client_cert else require_any_client_cert;
        }))

  -- `ServerConfig`
  unfoldable pub server_config : Bytes → Bytes → Bytes → Bool → Result TlsError ServerSettings
  unfolding with_client_ca
  server_config cert_path key_path ca_path verify_client = do
    cert ← load_certificate cert_path key_path
    with_client_ca (always cert) ca_path verify_client

  -- `MITMServerConfig`
  unfoldable pub mitm_server_config :
      MitmSigner → Bytes → Bytes → Bool → Result TlsError ServerSettings
  unfolding with_client_ca
  mitm_server_config signer explicit ca_path verify_client =
      with_client_ca (minted explicit signer) ca_path verify_client

  pub record ClientSettings : Type 0 where
    pub server_name : Bytes
    pub insecure_skip_verify : Bool
    pub certificate : Option Certificate
    pub root_cas : Option Pool

  unfoldable pub own_certificate : Bytes → Bytes → Result TlsError (Option Certificate)
  own_certificate cert_path key_path =
      if is_empty cert_path
      then ok none
      else (do cert ← load_certificate cert_path key_path; ok (some cert))

  unfoldable pub own_roots : Bytes → Result TlsError (Option Pool)
  own_roots ca_path =
      if is_empty ca_path then ok none else (do pool ← load_ca_pool ca_path; ok (some pool))

  -- `ClientConfig`
  unfoldable pub client_config :
      Bytes → Bytes → Bytes → Bytes → Bool → Result TlsError ClientSettings
  unfolding own_certificate own_roots
  client_config cert_path key_path ca_path name verify = do
    cert ← own_certificate cert_path key_path
    roots ← own_roots ca_path
    ok (record {
      server_name = name;
      insecure_skip_verify = not verify;
      certificate = cert;
      root_cas = roots;
    })
