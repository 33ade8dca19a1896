-- ===== src/Tlsutil/Settings/Calls.antt =====
-- What internal/tlsutil asks of Go's crypto packages, and the template that it fills.
use go_packet_repeater.Base.{ℕ, ◌*◌, Bool, Option, List, Bytes}

pub data KeyUsage : Type 0 where
  digital_signature key_encipherment : KeyUsage

pub data ExtKeyUsage : Type 0 where
  server_auth : ExtKeyUsage

-- `x509.Certificate`: the fields that are set. Times are nanoseconds since the year 1.
pub record Template (Ip : Type 0) : Type 0 where
  pub serial_number : ℕ
  pub common_name : Bytes
  pub not_before : ℕ
  pub not_after : ℕ
  pub key_usage : List KeyUsage
  pub ext_key_usage : List ExtKeyUsage
  pub basic_constraints_valid : Bool
  pub ip_addresses : List Ip
  pub dns_names : List Bytes

abbrev pub hour : ℕ
hour = 3600000000000

-- `mitmLeafValidity`
abbrev pub mitm_leaf_validity : ℕ
mitm_leaf_validity = 46 * 24 * hour

-- What the builders ask of Go's crypto/tls, crypto/x509, crypto/rsa and os.
pub record Crypto : Type 1 where
  pub Certificate : Type 0
  pub Leaf : Type 0
  pub Key : Type 0
  pub Pool : Type 0
  -- `os.ReadFile`
  pub read : Bytes → Option Bytes
  -- `AppendCertsFromPEM` on a new pool; `none` where it answers false
  pub pool_of : Bytes → Option Pool
  -- `tls.LoadX509KeyPair`
  pub load_pair : Bytes → Bytes → Option Certificate
  -- `x509.ParseCertificate` of the first certificate of a pair, and its `IsCA`
  pub leaf_of : Certificate → Option Leaf
  pub is_ca : Leaf → Bool
  -- the private key of a pair, if it is a `crypto.Signer`
  pub key_of : Certificate → Option Key
  -- `net.ParseIP`
  pub Ip : Type 0
  pub parse_ip : Bytes → Option Ip
  -- `rsa.GenerateKey`, `rand.Int` below 2 ^ 128 and `time.Now`, at the call of this number
  pub generate_key : ℕ → Option Key
  pub random_serial : ℕ → Option ℕ
  pub now : ℕ → ℕ
  -- `x509.CreateCertificate`: the template, the parent, the new key, the parent's key
  pub create_certificate : Template Ip → Leaf → Key → Key → Option Bytes
  -- `Raw` of a parsed certificate
  pub raw : Leaf → Bytes
  -- `tls.Certificate{Certificate: …, PrivateKey: …}`
  pub certificate_of : List Bytes → Key → Certificate

pub data TlsError : Type 0 where
  bad_pair : Bytes → Bytes → TlsError
  unreadable_ca unusable_ca bad_sign_ca bad_leaf not_a_ca no_signer no_leaf_key no_serial
        not_signed :
      Bytes → TlsError
  name_required no_hostname : TlsError
