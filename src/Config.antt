-- ===== src/Config.antt =====
-- internal/config/config.go: the parsed and validated command line. The children model
-- internal/config/parse.go.
pub mod Options
pub mod Extract
pub mod Addr
pub mod Keyword
pub mod ProxyTarget
pub mod ParseEndpoint
pub mod ValidateSsl
pub mod Parse
pub mod ParseAll
use go_packet_repeater.Base.{ℕ, Bool, true, false, Bytes, []}

-- `type Mode int`
pub data Mode : Type 0 where
  forward http_proxy socks_proxy version help : Mode

pub record Endpoint : Type 0 where
  pub addr : Bytes
  pub tcp : Bool
  pub udp : Bool
  pub ssl : Bool

pub record ClientTlsConfig : Type 0 where
  pub key_path : Bytes
  pub cert_path : Bytes
  pub ca_path : Bytes
  pub verify : Bool

pub record ServerTlsConfig : Type 0 where
  pub key_path : Bytes
  pub cert_path : Bytes
  pub ca_path : Bytes
  pub verify_client : Bool

pub record MitmConfig : Type 0 where
  pub sign_ca_path : Bytes
  pub server_name : Bytes
  pub ca_path : Bytes
  pub verify_client : Bool

pub record ForwardAuthConfig : Type 0 where
  pub user : Bytes
  pub pass : Bytes

pub record Config : Type 0 where
  pub mode : Mode
  pub target : Endpoint
  pub listen : Endpoint
  pub upstream_addr : Bytes
  pub upstream_kind : Mode
  pub forward_auth : ForwardAuthConfig
  pub client_tls : ClientTlsConfig
  pub server_tls : ServerTlsConfig
  pub mitm : MitmConfig
  pub log_level : ℕ
  pub verbose : Bool

-- Go's zero values, which a composite literal gives the fields that it does not name.
abbrev pub no_endpoint : Endpoint
no_endpoint = record { addr = []; tcp = false; udp = false; ssl = false }

abbrev pub no_auth : ForwardAuthConfig
no_auth = record { user = []; pass = [] }

abbrev pub no_client_tls : ClientTlsConfig
no_client_tls = record { key_path = []; cert_path = []; ca_path = []; verify = false }

abbrev pub no_server_tls : ServerTlsConfig
no_server_tls = record { key_path = []; cert_path = []; ca_path = []; verify_client = false }

abbrev pub no_mitm : MitmConfig
no_mitm = record { sign_ca_path = []; server_name = []; ca_path = []; verify_client = false }

abbrev pub zero_config : Config
zero_config = record {
  mode = Mode.forward;
  target = no_endpoint;
  listen = no_endpoint;
  upstream_addr = [];
  upstream_kind = Mode.forward;
  forward_auth = no_auth;
  client_tls = no_client_tls;
  server_tls = no_server_tls;
  mitm = no_mitm;
  log_level = 0;
  verbose = false;
}
