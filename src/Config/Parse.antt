-- ===== src/Config/Parse.antt =====
-- `Parse` of internal/config/parse.go.
pub mod Valid
pub mod Proxy
pub mod Accepted
pub mod Precedence
use go_packet_repeater.Base.{
  ℕ, Bool, true, false, not, ◌&&◌, ◌||◌, Option, none, some, List, [], ◌∷◌, Bytes, if◌then◌else◌,
  is_empty, length, Result, ok, err, ◌>>=◌, ◌>>◌, fail_if, map_err,
}
use go_packet_repeater.System.{System}
use go_packet_repeater.Config.{
  Mode, forward, version, help, Config, Endpoint, ForwardAuthConfig, no_endpoint, no_auth,
  zero_config,
}
use go_packet_repeater.Config.Options.{Options}
use go_packet_repeater.Config.Extract.{OptionError, extract_options}
use go_packet_repeater.Config.Addr.{AddressError, normalize_addr}
use go_packet_repeater.Config.ParseEndpoint.{EndpointError, ParsedEndpoint, parse_endpoint}
use go_packet_repeater.Config.ProxyTarget.{
  SuffixError, UpstreamError, split_proxy_listen_suffix, classify_proxy_target,
}
use go_packet_repeater.Config.ValidateSsl.{SslError, validate_ssl}

pub data ParseError : Type 0 where
  bad_options : OptionError → ParseError
  wrong_count : ℕ → ParseError
  bad_upstream : UpstreamError → ParseError
  tls_with_proxy auth_without_upstream auth_without_user auth_without_proxy : ParseError
  bad_listen_suffix : SuffixError → ParseError
  bad_listen_address : AddressError → ParseError
  bad_endpoint : EndpointError → ParseError
  bad_ssl : SslError → ParseError

-- `if opts.f.seen { … }`
proxy_auth : Options → Bytes → Result ParseError ForwardAuthConfig
proxy_auth o upstream =
    if o.f.seen
    then (do
      fail_if (is_empty upstream) auth_without_upstream
      fail_if (not o.f.user_seen) auth_without_user
      ok (record { user = o.f.user; pass = o.f.pass }))
    else ok no_auth

frontend : Option Mode → Mode → Mode
frontend none mode = mode
frontend (some m) mode = m

-- the branch of a proxy target
unfoldable pub proxy_config : Options → Mode → Bytes → Bytes → Result ParseError Config
unfolding proxy_auth frontend
proxy_config o mode upstream listen_tok = do
  fail_if (o.q.seen || (o.z.seen || o.m.seen)) tls_with_proxy
  (listen_addr_tok, suffix) ← map_err bad_listen_suffix (split_proxy_listen_suffix listen_tok)
  addr ← map_err bad_listen_address (normalize_addr listen_addr_tok false)
  auth ← proxy_auth o upstream
  ok (record zero_config {
    mode = frontend suffix mode;
    listen = record no_endpoint { addr = addr; tcp = true };
    upstream_addr = upstream;
    upstream_kind = mode;
    forward_auth = auth;
    log_level = o.log_level;
    verbose = o.verbose;
  })

-- the protocols of the relay, for both endpoints
relayed : ParsedEndpoint → Bool → Bool → Endpoint
relayed pe tcp udp = record (pe.ep) { tcp = tcp; udp = udp }

forward_of : Options → Endpoint → Endpoint → Config
forward_of o target listen = record zero_config {
  mode = forward;
  target = target;
  listen = listen;
  client_tls = record {
    key_path = o.q.key_path;
    cert_path = o.q.cert_path;
    ca_path = o.q.ca_path;
    verify = o.q.verify;
  };
  server_tls = record {
    key_path = o.z.key_path;
    cert_path = o.z.cert_path;
    ca_path = o.z.ca_path;
    verify_client = o.z.verify;
  };
  mitm = record {
    sign_ca_path = o.m.sign_ca_path;
    server_name = o.m.server_name;
    ca_path = o.m.ca_path;
    verify_client = o.m.verify;
  };
  log_level = o.log_level;
  verbose = o.verbose;
}

-- the branch of a forwarding target
unfoldable pub forward_config : System → Options → Bytes → Bytes → Result ParseError Config
unfolding relayed forward_of
forward_config sys o target_tok listen_tok = do
  fail_if o.f.seen auth_without_proxy
  target ← map_err bad_endpoint (parse_endpoint sys target_tok true)
  listen ← map_err bad_endpoint (parse_endpoint sys listen_tok false)
  let udp = listen.udp
  let tcp = if not listen.tcp && not udp then true else listen.tcp
  let target_ep = relayed target tcp udp
  let listen_ep = relayed listen tcp udp
  let ssl_listen_udp = udp && listen_ep.ssl
  let ssl_listen = tcp && listen_ep.ssl || ssl_listen_udp
  let ssl_target = tcp && target_ep.ssl || udp && target_ep.ssl
  map_err bad_ssl (validate_ssl sys o ssl_listen ssl_listen_udp ssl_target)
  ok (forward_of o target_ep listen_ep)

-- `if mode, upstream, isProxy, perr := classifyProxyTarget(targetTok); isProxy { … }`
relay_config : System → Options → Bytes → Bytes → Result ParseError Config
relay_config sys o target_tok listen_tok = elim (classify_proxy_target target_tok) [
  | none ↦ forward_config sys o target_tok listen_tok
  | some (err e) ↦ err (bad_upstream e)
  | some (ok (mode, upstream)) ↦ proxy_config o mode upstream listen_tok
]

positional_config : System → Options → List Bytes → Result ParseError Config
positional_config sys o (target_tok ∷ listen_tok ∷ []) = relay_config sys o target_tok listen_tok
positional_config sys o rest = err (wrong_count (length rest))

unfoldable pub parse : System → List Bytes → Result ParseError Config
unfolding relay_config positional_config
parse sys args = do
  (o, rest) ← map_err bad_options (extract_options args)
  if o.help
      then ok (record zero_config { mode = help })
      else if o.version
      then ok (record zero_config { mode = version })
      else positional_config sys o rest
