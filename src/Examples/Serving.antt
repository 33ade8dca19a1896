-- ===== src/Examples/Serving.antt =====
-- A request that is forwarded with credentials, and a shutdown during a request.
use go_packet_repeater.Base.{
  ◌≡◌, refl, Bool, true, none, some, [], ◌∷◌, Bytes, codes, Result, ok, All, if◌then◌else◌,
}
use go_packet_repeater.Config.{Mode, Config, zero_config}
use go_packet_repeater.Proxy.Digest.{DigestError}
use go_packet_repeater.Proxy.Socks.Server.{Dial}
use go_packet_repeater.Proxy.Http.{Request, Response}
use go_packet_repeater.Proxy.Http.Tunnel.{hijacked}
use go_packet_repeater.Proxy.Http.Serving.{GoTransport, handle_request}
use go_packet_repeater.Proxy.Http.Serving.Routing.{Passed}
use go_packet_repeater.Proxy.Http.Serving.Passing.{sent_on, handle_request-Passed}
use go_packet_repeater.Proxy.Http.Shutdown.{
  Server, cancels, shuts, takes, returns, server_closed, serving, step, Run, start, after,
}
use go_packet_repeater.Examples.{sys}
use go_packet_repeater.Examples.Http.{texts, md5, random, auth, asks, accepts, request}

abbrev chained : Config
chained = record zero_config {
  mode = Mode.http_proxy;
  upstream_addr = codes "up.lan:3128";
  upstream_kind = Mode.http_proxy;
  forward_auth = auth;
}

abbrev trip : GoTransport → Bool → Request → Result Bytes Response
trip transport is_first r = ok (if is_first then asks else accepts)

abbrev explain : DigestError → Bytes
explain e = []

abbrev reaches : Dial → Bool
reaches dial = true

handle_request-Passed_example : All (Passed sys texts md5 (some random) trip chained request) (
    sent_on sys texts md5 (some random) explain trip (
      handle_request sys texts md5
        (some random)
        explain
        trip
        none
        []
        reaches
        (hijacked true)
        chained
        request))
handle_request-Passed_example =
    handle_request-Passed sys texts md5 (some random) explain trip none [] reaches (hijacked true)
      chained request

-- `RunHTTP` has returned while a request is served.
abbrev cut_off : Server
cut_off = step (returns server_closed) (step shuts (step cancels (step takes serving)))

cuts_off : Run (returns server_closed ∷ shuts ∷ cancels ∷ takes ∷ []) cut_off
unfolding step
cuts_off =
    after (returns server_closed)
      (after shuts (after cancels (after takes start (refl, refl)) tt) (refl, refl)) (refl, refl)

still_active : (cut_off.active ≡ 1) × (cut_off.outcome ≡ some none)
unfolding step
still_active = (refl, refl)
