-- ===== src/Proxy/Http/Tunnel.antt =====
-- `handleConnect` of internal/proxy/http.go, up to its two copies.
use go_packet_repeater.Base.{ℕ, ◌≡◌, ◌⊎◌, arith, Bool, true, false, Bytes, if◌then◌else◌}
use go_packet_repeater.Config.{Mode, http_proxy, socks_proxy}
use go_packet_repeater.Proxy.Socks.Server.{Dial, dial_of}
use go_packet_repeater.Proxy.Http.{tunnel_of}

-- What the response writer makes of `Hijack`, and whether the answer to the client is written.
pub data Hijack : Type 0 where
  unsupported failed : Hijack
  hijacked : (is_written : Bool) → Hijack

-- How the handler goes on: with a status for the client; with the connection to the target, which
-- its `defer`s close; or with the two copies.
pub data Connected : Type 0 where
  refused : (status : ℕ) → Connected
  unanswered tunnelled : Dial → Connected

-- `handleConnect`, with the targets that are reached
unfoldable pub handle_connect : Bytes → Mode → (Dial → Bool) → Hijack → Bytes → Connected
handle_connect upstream kind reaches hijack host =
    let dial = tunnel_of upstream kind host in
    if reaches dial
    then elim hijack [
      | unsupported ↦ refused 500
      | failed ↦ refused 500
      | hijacked true ↦ tunnelled dial
      | hijacked false ↦ unanswered dial
    ]
    else refused 502

-- Both proxies dial a target in the same way.
pub tunnel_of-dial_of :
    (upstream : Bytes) (kind : Mode) (target : Bytes)
    → (kind ≡ http_proxy) ⊎ (kind ≡ socks_proxy)
    → tunnel_of upstream kind target ≡ dial_of upstream kind target
unfolding tunnel_of dial_of
tunnel_of-dial_of upstream kind target h = ground (arith, h)
