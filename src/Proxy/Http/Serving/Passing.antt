-- ===== src/Proxy/Http/Serving/Passing.antt =====
-- What an upstream, or the target itself, is sent for a request that gopr forwards.
use go_packet_repeater.Base.{
  ◌≡◌, refl, ap, ◌∙◌, Bool, true, false, Option, List, [], ◌∷◌, ◌++◌, Bytes, codes, text_eq,
  if◌then◌else◌, Result, ok, err, All, Bool-cases, inl, inr, map,
}
use go_packet_repeater.System.{System}
use go_packet_repeater.Config.{Config, ForwardAuthConfig}
use go_packet_repeater.Logx.{Logger, Wrote}
use go_packet_repeater.Proxy.Digest.{Texts, DigestError}
use go_packet_repeater.Proxy.Socks.Server.{Dial}
use go_packet_repeater.Proxy.Http.{
  values, proxy_authorization, hop_by_hop_headers, Request, Response, Transport, default_transport,
  socks_backed, with_auth, through, transport_of, not_absolute, forward_answer, handle_forward,
  del_all,
}
use go_packet_repeater.Proxy.Http.Headers.{values-del_all}
use go_packet_repeater.Proxy.Http.Sent.{Presents, round_trip-Presents}
use go_packet_repeater.Proxy.Http.Tunnel.{Hijack}
use go_packet_repeater.Proxy.Http.Serving.{
  GoTransport, proxied_by, Handled, tunnelling, forwarding, trip_of, exchange, handed, handed_for,
  forward_by, handle_request,
}
use go_packet_repeater.Proxy.Http.Serving.Routing.{EndToEndOf, PassedBy, Passed, PassedBy-Passed}

-- what `handleForward` hands to its transport
abbrev outgoing : Request → Request
outgoing r = record r { header = del_all hop_by_hop_headers r.header }

module _ (sys : System) (tx : Texts) (md5 : Bytes → Bytes) (random : Option Bytes)
    (explain : DigestError → Bytes)
    (trip : GoTransport → Bool → Request → Result Bytes Response) where
  presented-PassedBy :
      (upstream : Bytes) (auth : ForwardAuthConfig) (r : Request) (qs : List Request)
      → All (Presents sys tx md5 random (trip (proxied_by upstream)) auth (outgoing r)) qs
      → All
          (PassedBy sys tx md5 random trip (with_auth upstream auth) r)
          (map (λ q. (proxied_by upstream, q)) qs)
  unfolding text_eq
  presented-PassedBy upstream auth r [] h = tt
  presented-PassedBy upstream auth r (q ∷ qs) ((same, (c, proves, lines)), h) = (
    (
      (
        ap {A = Request} (λ x. record x { header = r.header }) same,
        λ name e.
            lines name
            ∙ ap (λ b. if b then c ∷ [] else values name (outgoing r).header) e
            ∙ values-del_all name hop_by_hop_headers r.header,
      ),
      refl,
      (c, lines proxy_authorization, proves),
    ),
    presented-PassedBy upstream auth r qs h,
  )

  outgoing-EndToEndOf :
      (r : Request)
      → EndToEndOf r (outgoing r) × (values proxy_authorization (outgoing r).header ≡ [])
  unfolding text_eq
  outgoing-EndToEndOf r = (
    (refl, λ name e. values-del_all name hop_by_hop_headers r.header),
    values-del_all proxy_authorization hop_by_hop_headers r.header,
  )

  handed-PassedBy :
      (transport : Transport) (r : Request)
      → All
          (PassedBy sys tx md5 random trip transport r)
          (handed sys tx md5 random explain trip transport (outgoing r))
  unfolding handed exchange
  handed-PassedBy default_transport r =
      let (e, none_left) = outgoing-EndToEndOf r in ((e, refl, none_left), tt)
  handed-PassedBy (socks_backed upstream auth) r =
      let (e, none_left) = outgoing-EndToEndOf r in ((e, refl, none_left), tt)
  handed-PassedBy (through upstream) r =
      let (e, none_left) = outgoing-EndToEndOf r in ((e, refl, none_left), tt)
  handed-PassedBy (with_auth upstream auth) r =
      presented-PassedBy upstream auth r _
        (round_trip-Presents sys tx md5 random (trip (proxied_by upstream)) auth (outgoing r)).0

  all-Passed :
      (cfg : Config) (r : Request) (xs : List (GoTransport × Request))
      → All (PassedBy sys tx md5 random trip (transport_of cfg) r) xs
      → All (Passed sys tx md5 random trip cfg r) xs
  all-Passed cfg r [] h = tt
  all-Passed cfg r (x ∷ xs) h =
      (PassedBy-Passed sys tx md5 random trip cfg r x h.0, all-Passed cfg r xs h.1)

  answer-Passed :
      (log : Option Logger) (writes : List Wrote) (label : Bytes) (cfg : Config) (r : Request)
      (answer : Result Bytes Response)
      → All (Passed sys tx md5 random trip cfg r) (
          handed_for sys tx md5 random explain trip
            (transport_of cfg)
            (forward_answer log writes [] label (outgoing r) answer))
  unfolding handed_for forward_answer
  answer-Passed log writes label cfg r (ok resp) =
      all-Passed cfg r _ (handed-PassedBy (transport_of cfg) r)
  answer-Passed log writes label cfg r (err e) =
      all-Passed cfg r _ (handed-PassedBy (transport_of cfg) r)

  -- The requests to the next hop that a request leads to.
  abbrev pub sent_on : Handled → List (GoTransport × Request)
  sent_on (tunnelling c) = []
  sent_on (forwarding done sent) = sent

  -- Every request that the handler of `RunHTTP` hands to a transport of Go for a request of a
  -- client is this request, its body, URL and host included, with its end-to-end header lines and
  -- no hop-by-hop line. The one exception is Proxy-Authorization: none of the lines of the client
  -- is passed on, and there is exactly one line, which proves the user of the configuration by
  -- Basic or Digest, if there is a user and the upstream is an HTTP proxy, and none otherwise.
  -- Without an upstream it goes by Go's own proxy settings and dial, with a SOCKS5 upstream by no
  -- proxy and a dial through the upstream, and otherwise by the HTTP proxy of the configuration.
  pub handle_request-Passed :
      (log : Option Logger) (writes : List Wrote) (reaches : Dial → Bool) (hijack : Hijack)
      (cfg : Config) (r : Request)
      → All
          (Passed sys tx md5 random trip cfg r)
          (sent_on (handle_request sys tx md5 random explain trip log writes reaches hijack cfg r))
  unfolding handle_request forward_by handle_forward handed_for
  handle_request-Passed log writes reaches hijack cfg r =
      elim (Bool-cases (text_eq r.method (codes "CONNECT"))) [
        | inl e ↦ rw e tt
        | inr e ↦ rw e (by_url r.is_abs)
      ]
    where
      label : Bytes
      label = codes "http " ++ (r.method ++ b' ' ∷ r.url)

      transport : Transport
      transport = transport_of cfg

      by_url :
          (b : Bool)
          → All (Passed sys tx md5 random trip cfg r) (
              handed_for sys tx md5 random explain trip transport (
                if b
                then forward_answer log writes [] label
                    (outgoing r)
                    (trip_of sys tx md5 random explain trip transport (outgoing r))
                else not_absolute))
      by_url false = tt
      by_url true = answer-Passed log writes label cfg r _
