-- ===== src/Proxy/Chain.antt =====
-- Proxies of gopr in a row, each the upstream of the one before, as HTTP proxies and SOCKS5 servers
-- in any order: `handleConnect` of internal/proxy/http.go and `handleSOCKSConn` of
-- internal/proxy/socks.go, and the dials that both make of their upstream.
use go_packet_repeater.Base.{
  ◌≡◌, refl, arith, Bool, true, false, not, ◌&&◌, Option, List, [], ◌∷◌, Bytes, if◌then◌else◌,
  is_empty, All, Bool-cases,
}
use go_packet_repeater.System.{System}
use go_packet_repeater.Config.{Mode, http_proxy, socks_proxy, ForwardAuthConfig}
use go_packet_repeater.Proxy.Digest.{Texts}
use go_packet_repeater.Proxy.Socks.{Addresses}
use go_packet_repeater.Proxy.Socks.Server.{Dial, direct, by_connect, by_socks, dial_of}
use go_packet_repeater.Proxy.Socks.Reaching.{Canonical, dials_gopr-reaches}
use go_packet_repeater.Proxy.Socks.Reaching as Socks
use go_packet_repeater.Proxy.Http.{tunnel_of}
use go_packet_repeater.Proxy.Http.Tunnel.{Hijack}
use go_packet_repeater.Proxy.Http.Dialogue.{opens, dials_gopr-opens}
use go_packet_repeater.Proxy.Http.Dialogue as Http

-- A gopr in a row of proxies: the address it listens on and whether it speaks SOCKS5 there, or
-- HTTP; what its `Hijack` gives; and the credentials that it shows to its upstream.
pub record Hop : Type 0 where
  pub addr : Bytes
  pub is_socks : Bool
  pub hijack : Hijack
  pub auth : ForwardAuthConfig

-- the upstream of a proxy with this row behind it
abbrev pub next_addr : List Hop → Bytes
next_addr [] = []
next_addr (h ∷ hs) = h.addr

abbrev pub speaks_socks : List Hop → Bool
speaks_socks [] = false
speaks_socks (h ∷ hs) = h.is_socks

abbrev pub next_kind : List Hop → Mode
next_kind hs = if speaks_socks hs then socks_proxy else http_proxy

-- What the dials of a proxy reach, with the row behind it, whose first must be spoken to in its protocol.
abbrev pub dials_next : (connects through : Bytes → Bool) → List Hop → Dial → Bool
dials_next connects through hs (direct target) = connects target
dials_next connects through hs (by_connect upstream target) =
    not (speaks_socks hs) && through target
dials_next connects through hs (by_socks upstream target) = speaks_socks hs && through target

-- A SOCKS5 server of gopr takes no user; an HTTP proxy takes any, and must get hold of the
-- connection of its client.
abbrev pub admits : ForwardAuthConfig → Hop → Bool
admits auth h = if h.is_socks then is_empty auth.user else opens h.hijack

abbrev pub all_admit : ForwardAuthConfig → List Hop → Bool
all_admit auth [] = true
all_admit auth (h ∷ hs) = admits auth h && all_admit h.auth hs

module _ (sys : System) (tx : Texts) (md5 : Bytes → Bytes) (random : Option Bytes) (net : Addresses)
    (connects : Bytes → Bool) where
  -- Whether the dial of a row, with credentials for its first, reaches a target; behind the last,
  -- `connects` says what a direct dial reaches.
  unfoldable pub through_all : ForwardAuthConfig → List Hop → Bytes → Bool
  through_all auth [] target = connects target
  through_all auth (h ∷ hs) target =
      let reaches = dials_next connects (through_all h.auth hs) hs in
      if h.is_socks
      then Socks.dials_gopr net auth (next_addr hs) (next_kind hs) reaches target
      else Http.dials_gopr sys tx md5 random auth (next_addr hs) (next_kind hs) reaches h.hijack
          target

  -- Both handlers reach through their upstream what the row behind it reaches.
  tunnel_of-reaches :
      (auth : ForwardAuthConfig) (hs : List Hop) (target : Bytes)
      → All (λ h. is_empty h.addr ≡ false) hs
      → dials_next connects
          (through_all auth hs)
          hs
          (tunnel_of (next_addr hs) (next_kind hs) target)
        ≡ through_all auth hs target
  unfolding tunnel_of
  tunnel_of-reaches auth [] target named = unfold through_all in refl
  tunnel_of-reaches auth (h ∷ hs) target named = ground (arith, named.0, Bool-cases h.is_socks)

  dial_of-reaches :
      (auth : ForwardAuthConfig) (hs : List Hop) (target : Bytes)
      → All (λ h. is_empty h.addr ≡ false) hs
      → dials_next connects (through_all auth hs) hs (dial_of (next_addr hs) (next_kind hs) target)
        ≡ through_all auth hs target
  unfolding dial_of
  dial_of-reaches auth [] target named = unfold through_all in refl
  dial_of-reaches auth (h ∷ hs) target named = ground (arith, named.0, Bool-cases h.is_socks)

  -- Take proxies of gopr in a row, as HTTP proxies and SOCKS5 servers in any order, each the
  -- upstream of the one before, and a target that a SOCKS5 server reads as its client has it. A
  -- dial of the first, with credentials, reaches the target exactly if the last proxy reaches it
  -- by a direct dial, each HTTP proxy gets hold of the connection of its client and can answer
  -- it, and no user is shown to a SOCKS5 server. It does not matter which credentials are shown
  -- to the HTTP proxies.
  pub through_all-admit :
      (auth : ForwardAuthConfig) (hs : List Hop) (target : Bytes)
      → Canonical net target
      → All (λ h. is_empty h.addr ≡ false) hs
      → through_all auth hs target ≡ (all_admit auth hs && connects target)
  unfolding through_all
  through_all-admit auth [] target v named = refl
  through_all-admit auth (h ∷ hs) target v (e, named) =
      let reaches = dials_next connects (through_all h.auth hs) hs in
      ground (
        arith,
        Bool-cases h.is_socks,
        through_all-admit h.auth hs target v named,
        tunnel_of-reaches h.auth hs target named,
        dial_of-reaches h.auth hs target named,
        dials_gopr-reaches net auth (next_addr hs) (next_kind hs) reaches target v,
        dials_gopr-opens sys tx md5 random auth (next_addr hs) (next_kind hs) reaches h.hijack
            target,
      )
