-- ===== src/Proxy/Http/Serving/Routing.antt =====
-- Where a forwarded request goes, and which credentials it has, by the configuration.
use go_packet_repeater.Base.{
  ◌≡◌, ap, Bool, true, false, Option, List, [], ◌∷◌, Bytes, text_eq, if◌then◌else◌, Result, not,
  is_empty,
}
use go_packet_repeater.System.{System}
use go_packet_repeater.Config.{Config, Mode, socks_proxy}
use go_packet_repeater.Proxy.Digest.{Texts}
use go_packet_repeater.Proxy.Http.{
  values, proxy_authorization, hop_by_hop_headers, Request, Response, Transport, default_transport,
  socks_backed, with_auth, through, transport_of,
}
use go_packet_repeater.Proxy.Http.Headers.{is_among}
use go_packet_repeater.Proxy.Http.Sent.{Proves}
use go_packet_repeater.Proxy.Http.Serving.{
  GoTransport, go_default, new_socks_backed_transport, proxied_by, from_environment, no_proxy,
  proxy_url, default_dial, dial_socks,
}

-- The transport of Go that a transport hands a request to.
abbrev pub hop : Transport → GoTransport
hop default_transport = go_default
hop (socks_backed upstream auth) = new_socks_backed_transport upstream auth
hop (through upstream) = proxied_by upstream
hop (with_auth upstream auth) = proxied_by upstream

-- `q` is `r` with its end-to-end lines, and other Proxy-Authorization lines.
abbrev pub EndToEndOf : Request → Request → Type 0
EndToEndOf r q =
    (record q { header = r.header } ≡ r)
    × ((name : Bytes)
        → text_eq proxy_authorization name ≡ false
        → values name q.header
          ≡ (if is_among name hop_by_hop_headers then [] else values name r.header))

-- Where a request goes, by whether there is an upstream, and its kind: to the target, by the
-- settings of the environment; to the target, dialed through the SOCKS5 upstream; or to the HTTP
-- proxy.
abbrev pub Goes : Config → Bool → Mode → GoTransport → Type 0
Goes cfg true kind t = (t.proxy ≡ from_environment) × (t.dial_context ≡ default_dial)
Goes cfg false socks_proxy t =
    (t.proxy ≡ no_proxy) × (t.dial_context ≡ dial_socks cfg.upstream_addr cfg.forward_auth)
Goes cfg false _ t = (t.proxy ≡ proxy_url cfg.upstream_addr) × (t.dial_context ≡ default_dial)

-- A user is shown to an HTTP proxy and to nothing else.
abbrev pub shows_user : (no_upstream : Bool) → Mode → (no_user : Bool) → Bool
shows_user true kind n = false
shows_user false socks_proxy n = false
shows_user false _ n = not n

module _ (sys : System) (tx : Texts) (md5 : Bytes → Bytes) (random : Option Bytes)
    (trip : GoTransport → Bool → Request → Result Bytes Response) where
  -- The Proxy-Authorization lines for a transport.
  abbrev pub Credentials : Transport → Request → List Bytes → Type 0
  Credentials (with_auth upstream auth) r lines =
      (c : Bytes) × (lines ≡ c ∷ [])
      × Proves sys tx md5 random (trip (proxied_by upstream)) auth r c
  Credentials _ r lines = lines ≡ []

  abbrev pub PassedBy : Transport → Request → GoTransport × Request → Type 0
  PassedBy transport r (t, q) =
      EndToEndOf r q
      × (t ≡ hop transport)
      × Credentials transport r (values proxy_authorization q.header)

  -- The Proxy-Authorization lines: one that proves the user of the configuration, or none.
  abbrev pub Proven : Bool → Config → Request → List Bytes → Type 0
  Proven true cfg r lines =
      (c : Bytes) × (lines ≡ c ∷ [])
      × Proves sys tx md5 random (trip (proxied_by cfg.upstream_addr)) cfg.forward_auth r c
  Proven false cfg r lines = lines ≡ []

  abbrev pub Passed : Config → Request → GoTransport × Request → Type 0
  Passed cfg r (t, q) =
      EndToEndOf r q
      × Goes cfg (is_empty cfg.upstream_addr) cfg.upstream_kind t
      × Proven
          (shows_user (is_empty cfg.upstream_addr) cfg.upstream_kind
            (is_empty cfg.forward_auth.user))
          cfg r (values proxy_authorization q.header)

  -- the switch of `RunHTTP`, by its cases
  by_config :
      (cfg : Config) (r : Request) (t : GoTransport) (lines : List Bytes) (no_upstream : Bool)
      (kind : Mode) (no_user : Bool)
      → let transport =
          (if no_upstream then default_transport else elim kind [
            | socks_proxy ↦ socks_backed cfg.upstream_addr cfg.forward_auth
            | _ ↦
                if not no_user
                then with_auth cfg.upstream_addr cfg.forward_auth
                else through cfg.upstream_addr
          ]) in
        t ≡ hop transport
        → Credentials transport r lines
        → Goes cfg no_upstream kind t × Proven (shows_user no_upstream kind no_user) cfg r lines
  unfolding new_socks_backed_transport proxied_by
  by_config cfg r t lines true kind n g h = ((ap (λ x. x.proxy) g, ap (λ x. x.dial_context) g), h)
  by_config cfg r t lines false socks_proxy n g h =
      ((ap (λ x. x.proxy) g, ap (λ x. x.dial_context) g), h)
  by_config cfg r t lines false _ true g h = ((ap (λ x. x.proxy) g, ap (λ x. x.dial_context) g), h)
  by_config cfg r t lines false _ false g h = ((ap (λ x. x.proxy) g, ap (λ x. x.dial_context) g), h)

  pub PassedBy-Passed :
      (cfg : Config) (r : Request) (x : GoTransport × Request)
      → PassedBy (transport_of cfg) r x
      → Passed cfg r x
  unfolding transport_of
  PassedBy-Passed cfg r (t, q) (same, goes, proven) =
      let (g, h) =
        by_config cfg r t (values proxy_authorization q.header) (is_empty cfg.upstream_addr)
          cfg.upstream_kind (is_empty cfg.forward_auth.user) goes proven in
      (same, g, h)
