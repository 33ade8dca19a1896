-- ===== src/Tlsutil/Settings/Minted.antt =====
-- What the certificates of `MITMSigner` say.
use go_packet_repeater.Base.{ℕ, ◌≤◌, ◌<◌, ◌≡◌, ◌⊎◌, some, [], ◌∷◌, Bytes}
use go_packet_repeater.Tlsutil.Settings.{Crypto, MitmSigner, Template, server_auth}

module _ (crypto : Crypto) where
  open crypto use {
    Certificate, Leaf, Key, Ip, parse_ip, generate_key, random_serial, now, create_certificate, raw,
    certificate_of,
  }

  -- A template for a server of this name, and of no other, that is valid now.
  pub record ForHost (t : Template Ip) (host : Bytes) (time : ℕ) : Type 0 where
    pub common_name : t.common_name ≡ host
    pub names :
        ((t.dns_names ≡ host ∷ []) × (t.ip_addresses ≡ []))
        ⊎ ((ip : Ip) × (parse_ip host ≡ some ip) × (t.ip_addresses ≡ ip ∷ []) × (t.dns_names ≡ []))
    pub usage : t.ext_key_usage ≡ server_auth ∷ []
    pub started : t.not_before ≤ time
    pub not_over : time < t.not_after

  -- A certificate that the CA signed for the host.
  pub record IsLeaf (ca_cert : Leaf) (ca_key : Key) (host : Bytes) (cert : Certificate)
      : Type 0 where
    pub t : Template Ip
    pub call : ℕ
    pub key : Key
    pub der : Bytes
    pub for_host : ForHost t host (now call)
    pub signed : create_certificate t ca_cert key ca_key ≡ some der
    pub chain : cert ≡ certificate_of (der ∷ raw ca_cert ∷ []) key

  -- A cache of leaf certificates of one CA.
  record IsCache (ca_cert : Leaf) (ca_key : Key) (m : MitmSigner crypto) : Type 0 where
    ca_cert_kept : m.ca_cert ≡ ca_cert
    ca_key_kept : m.ca_key ≡ ca_key
    cached :
        (host : Bytes) {cert : Certificate}
        → m.cache host ≡ some cert
        → IsLeaf ca_cert ca_key host cert
