-- ===== src/Examples/Tls.antt =====
-- The settings of a MITM listener on TCP and UDP, and its signer.
use go_packet_repeater.Base.{
  ◌≡◌, ◌≢◌, refl, Bool, true, false, none, some, List, [], ◌∷◌, ◌++◌, Bytes, codes, text_eq, cut,
  cut_last, split, contains, strip_prefix, ok, err, if◌then◌else◌,
}
use go_packet_repeater.HostPort.{split_host_port, join_host_port}
use go_packet_repeater.Config.{Config, zero_config}
use go_packet_repeater.Config.Options.{token_of}
use go_packet_repeater.Config.Extract.{apply, extract_from, extract_options}
use go_packet_repeater.Config.Addr.{atoi, validate_port, normalize_addr}
use go_packet_repeater.Config.Keyword.{to_upper, to_lower, proxy_mode}
use go_packet_repeater.Config.ParseEndpoint.{
  keyword_of, read_suffix, read_suffixes, add_keyword, address_and_suffixes, parse_endpoint, order,
}
use go_packet_repeater.Config.ProxyTarget.{classify_proxy_target}
use go_packet_repeater.Config.ValidateSsl.{validate_ssl, validate_ssl_key_cert}
use go_packet_repeater.Config.Parse.{parse, forward_config}
use go_packet_repeater.Tlsutil.Settings.{
  Crypto, MitmSigner, ServerSettings, ClientSettings, always, require_and_verify_client_cert,
  name_required, load_ca_pool, load_mitm_signer, mint, template, certificate_for,
}
use go_packet_repeater.Tlsutil.Dtls.{mitm_server_config_dtls}
use go_packet_repeater.Relay.Settings.{
  server_tls_config, server_dtls_config, parse-server_dtls_config, SameClients,
  server_dtls_config-SameClients,
}
use go_packet_repeater.Logx.{eof}
use go_packet_repeater.Logx.Tiers.{logger}
use go_packet_repeater.Logx.Relaying.{Exchange}
use go_packet_repeater.Relay.Serve.{Side, RelayError, handle_tcp_conn, handle_udp_dtls_conn}
use go_packet_repeater.Relay.Log.{
  Told, tcp_details, udp_dtls_details, tcp_log, udp_dtls_log, parse-Told,
}
use go_packet_repeater.Examples.{words, sys}

abbrev first : List Bytes → Bytes
first [] = []
first (d ∷ ds) = d

-- Certificates and pools are texts, and every file has the text `CA`.
abbrev crypto : Crypto
crypto = record {
  Certificate = Bytes;
  Leaf = Bytes;
  Key = Bytes;
  Pool = Bytes;
  read = λ path. some (codes "CA");
  pool_of = λ text. some text;
  load_pair = λ cert key. some cert;
  leaf_of = λ cert. some cert;
  is_ca = λ leaf. true;
  key_of = λ cert. some cert;
  Ip = Bytes;
  parse_ip = λ host. none;
  generate_key = λ n. some (n ∷ []);
  random_serial = λ n. some n;
  now = λ n. n;
  create_certificate = λ t ca key ca_key. some (0 ∷ t.common_name);
  raw = λ leaf. leaf;
  certificate_of = λ ders key. first ders;
}

abbrev line : List Bytes
line = words (
    "-M" ∷ "-signca=both.pem" ∷ "-servername=a.lan" ∷ "-ca=ca.pem" ∷ "b.lan:80" ∷ "443/tcp/udp/ssl"
    ∷ [])

abbrev relay : Config
relay = record zero_config {
  target = record { addr = codes "b.lan:80"; tcp = true; udp = true; ssl = false };
  listen = record { addr = codes "0.0.0.0:443"; tcp = true; udp = true; ssl = true };
  client_tls = record (zero_config.client_tls) { verify = true };
  server_tls = record (zero_config.server_tls) { verify_client = true };
  mitm = record {
    sign_ca_path = codes "both.pem";
    server_name = codes "a.lan";
    ca_path = codes "ca.pem";
    verify_client = true;
  };
}

parse-line : parse sys line ≡ ok relay
unfolding parse extract_options extract_from token_of apply forward_config classify_proxy_target
    proxy_mode parse_endpoint address_and_suffixes read_suffixes read_suffix add_keyword keyword_of
    order to_upper to_lower validate_ssl validate_ssl_key_cert normalize_addr validate_port atoi
    split_host_port join_host_port text_eq cut cut_last split contains strip_prefix
parse-line = refl

abbrev why : RelayError → Bytes
why e = codes "refused"

abbrev resolves : Bytes → Bool
resolves addr = true

abbrev reaches : Side (ClientSettings crypto) → Bool
reaches side = true

abbrev loud_line : List Bytes
loud_line = words ("-v" ∷ "-ddd" ∷ []) ++ line

abbrev loud : Config
loud = record relay { log_level = 3; verbose = true }

parse-loud_line : parse sys loud_line ≡ ok loud
unfolding parse extract_options extract_from token_of apply forward_config classify_proxy_target
    proxy_mode parse_endpoint address_and_suffixes read_suffixes read_suffix add_keyword keyword_of
    order to_upper to_lower validate_ssl validate_ssl_key_cert normalize_addr validate_port atoi
    split_host_port join_host_port text_eq cut cut_last split contains strip_prefix
parse-loud_line = refl

-- The client sends two bytes and the target four.
abbrev exchange : Exchange
exchange = record {
  reads = λ out. record { bytes = if out then codes "hi" else codes "here"; status = eof } ∷ [];
  writes = λ out. [];
  order = false ∷ true ∷ [];
}

parse-Told_example :
    Told why
      (codes "p")
      crypto
      (codes "tcp")
      loud
      exchange
      (tcp_details why (codes "p") crypto loud (codes "1.3"))
      (handle_tcp_conn crypto reaches loud)
      (tcp_log why
        (codes "p")
        crypto
        (logger loud.log_level loud.verbose)
        loud
        exchange
        reaches
        (codes "1.3"))
    × Told why
        (codes "p")
        crypto
        (codes "udp+dtls")
        loud
        exchange
        (udp_dtls_details why (codes "p") crypto loud)
        (handle_udp_dtls_conn crypto resolves reaches loud)
        (udp_dtls_log why
          (codes "p")
          crypto
          (logger loud.log_level loud.verbose)
          loud
          exchange
          resolves
          reaches)
parse-Told_example =
    parse-Told why (codes "p") sys loud_line loud crypto exchange resolves reaches (codes "1.3")
      parse-loud_line

parse-server_dtls_config_example : server_dtls_config crypto relay ≢ err name_required
parse-server_dtls_config_example = parse-server_dtls_config crypto sys line parse-line refl refl

abbrev settings : ServerSettings crypto
settings = record {
  serves = always (0 ∷ codes "a.lan");
  client_cas = some (codes "CA");
  client_auth = require_and_verify_client_cert;
}

dtls_settings : server_dtls_config crypto relay ≡ ok settings
unfolding server_dtls_config load_mitm_signer mitm_server_config_dtls certificate_for mint template
    load_ca_pool
dtls_settings = refl

server_dtls_config-SameClients_example :
    SameClients crypto (server_tls_config crypto relay) settings
server_dtls_config-SameClients_example = server_dtls_config-SameClients crypto relay dtls_settings

abbrev signer : MitmSigner crypto
signer = record {
  ca_cert = codes "ca.pem";
  ca_key = codes "ca.pem";
  cache = λ host. none;
  calls = 0;
}

minted_a : (certificate_for crypto signer (codes "a")).0 ≡ ok (0 ∷ codes "a")
unfolding certificate_for mint template
minted_a = refl
