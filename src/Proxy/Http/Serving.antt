-- ===== src/Proxy/Http/Serving.antt =====
-- How `RunHTTP` of internal/proxy/http.go answers a request: its handler, and the transports that it
-- makes for it. What net/http does with a transport is a parameter.
pub mod Routing
pub mod Passing
use go_packet_repeater.Base.{
  ℕ, Bool, true, false, Option, List, [], ◌∷◌, ◌++◌, Bytes, codes, text_eq, if◌then◌else◌, Result,
  map, map_err,
}
use go_packet_repeater.System.{System}
use go_packet_repeater.Config.{Config, ForwardAuthConfig}
use go_packet_repeater.Logx.{Logger, Wrote}
use go_packet_repeater.Proxy.Digest.{Texts, DigestError}
use go_packet_repeater.Proxy.Socks.Server.{Dial}
use go_packet_repeater.Proxy.Http.{
  Request, Response, Transport, default_transport, socks_backed, with_auth, through, transport_of,
  Forwarded, not_absolute, bad_gateway, answered, handle_forward,
}
use go_packet_repeater.Proxy.Http.Auth.{
  AuthError, unreadable_body, inner_failed, no_digest, Exchange, round_trip,
}
use go_packet_repeater.Proxy.Http.Tunnel.{Hijack, Connected, handle_connect}

-- The field `Proxy` of an `http.Transport`; its default is `http.ProxyFromEnvironment`.
pub data Proxying : Type 0 where
  from_environment no_proxy : Proxying
  proxy_url : Bytes → Proxying

-- The field `DialContext`: as `http.DefaultTransport` has it, or a call of `dialUpstreamSOCKS`.
pub data DialContext : Type 0 where
  default_dial : DialContext
  dial_socks : Bytes → ForwardAuthConfig → DialContext

-- The `http.Transport` of Go, as far as gopr sets it.
pub record GoTransport : Type 0 where
  pub proxy : Proxying
  pub dial_context : DialContext

abbrev pub go_default : GoTransport
go_default = record { proxy = from_environment; dial_context = default_dial }

-- `newSOCKSBackedTransport`
unfoldable pub new_socks_backed_transport : Bytes → ForwardAuthConfig → GoTransport
new_socks_backed_transport upstream auth = record go_default {
  proxy = no_proxy;
  dial_context = dial_socks upstream auth;
}

-- `&http.Transport{Proxy: http.ProxyURL(proxyURL)}`
unfoldable pub proxied_by : Bytes → GoTransport
proxied_by upstream = record { proxy = proxy_url upstream; dial_context = default_dial }

-- What the handler does with a request: it tunnels it; or forwards it, with the requests that it
-- hands to the transports of Go, each with its transport.
pub data Handled : Type 0 where
  tunnelling : Connected → Handled
  forwarding : Forwarded → List (GoTransport × Request) → Handled

-- `trip` is what a transport of Go makes of a request, the first or the second that it is handed;
-- `explain` is the text of an error of `buildDigestAuthorization`.
module _ (sys : System) (tx : Texts) (md5 : Bytes → Bytes) (random : Option Bytes)
    (explain : DigestError → Bytes)
    (trip : GoTransport → Bool → Request → Result Bytes Response) where
  unfoldable pub error_text : AuthError → Bytes
  error_text (unreadable_body e) = codes "upstream proxy auth: read request body: " ++ e
  error_text (inner_failed e) = e
  error_text (no_digest e) = codes "upstream proxy auth: " ++ explain e

  unfoldable pub exchange : Bytes → ForwardAuthConfig → Request → Exchange
  exchange upstream auth out = round_trip sys tx md5 random (trip (proxied_by upstream)) auth out

  -- `RoundTrip` of a transport that `RunHTTP` chose
  unfoldable pub trip_of : Transport → Request → Result Bytes Response
  unfolding exchange error_text
  trip_of default_transport out = trip go_default true out
  trip_of (socks_backed upstream auth) out =
      trip (new_socks_backed_transport upstream auth) true out
  trip_of (through upstream) out = trip (proxied_by upstream) true out
  trip_of (with_auth upstream auth) out = map_err error_text (exchange upstream auth out).result

  -- the requests that the transports of Go are handed for it
  unfoldable pub handed : Transport → Request → List (GoTransport × Request)
  unfolding exchange
  handed default_transport out = (go_default, out) ∷ []
  handed (socks_backed upstream auth) out = (new_socks_backed_transport upstream auth, out) ∷ []
  handed (through upstream) out = (proxied_by upstream, out) ∷ []
  handed (with_auth upstream auth) out =
      map (λ q. (proxied_by upstream, q)) (exchange upstream auth out).sent

  unfoldable pub handed_for : Transport → Forwarded → List (GoTransport × Request)
  unfolding handed
  handed_for transport not_absolute = []
  handed_for transport (bad_gateway out e) = handed transport out
  handed_for transport (answered out status header copied) = handed transport out

  forward_by : Option Logger → List Wrote → Transport → Request → Handled
  unfolding handed_for trip_of
  forward_by log writes transport r =
      let done = handle_forward log (trip_of transport) [] writes r in
      forwarding done (handed_for transport done)

  -- the handler of `RunHTTP`
  unfoldable pub handle_request :
      Option Logger → List Wrote → (Dial → Bool) → Hijack → Config → Request → Handled
  unfolding forward_by
  handle_request log writes reaches hijack cfg r =
      if text_eq r.method (codes "CONNECT")
      then tunnelling (handle_connect cfg.upstream_addr cfg.upstream_kind reaches hijack r.host)
      else forward_by log writes (transport_of cfg) r
