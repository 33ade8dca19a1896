-- ===== src/Proxy/Socks/Reaching.antt =====
-- When a dial by `dialUpstreamSOCKS` of a gopr that listens as a SOCKS5 server reaches its target.
use go_packet_repeater.Base.{
  ◌≡◌, ap, ◌∙◌, Bool, true, false, ◌&&◌, some, Bytes, is_empty, Result, ok, err, ℤ,
}
use go_packet_repeater.HostPort.{split_host_port, join_host_port}
use go_packet_repeater.Config.{Mode, ForwardAuthConfig}
use go_packet_repeater.Config.Addr.{atoi}
use go_packet_repeater.Proxy.Socks.{Conn, SocksError, to_uint16, itoa, Addresses}
use go_packet_repeater.Proxy.Socks.Server.{Dial, dial_of, Outcome}
use go_packet_repeater.Proxy.Socks.Client.{connect_request}
use go_packet_repeater.Proxy.Socks.Wire.{named}
use go_packet_repeater.Proxy.Socks.Dialogue.{dialogue, said_to_gopr, Agreed, dialogue-Agreed}

abbrev is_ok : Result SocksError (Unit {0}) → Bool
is_ok (ok u) = true
is_ok (err e) = false

module _ (net : Addresses) where
  -- Whether `dialUpstreamSOCKS` gets a tunnel from a gopr that listens as a SOCKS5 server.
  unfoldable pub dials_gopr : ForwardAuthConfig → Bytes → Mode → (Dial → Bool) → Bytes → Bool
  unfolding dialogue
  dials_gopr auth upstream kind reaches target = elim (connect_request net target) [
    | err e ↦ false
    | ok req ↦
        is_ok (dialogue net upstream kind reaches auth target (said_to_gopr net auth req)).1.0
  ]

  -- A target with a host and a port, which the server reads as the client has it.
  pub record Canonical (target : Bytes) : Type 0 where
    pub host : Bytes
    pub port_str : Bytes
    pub port : ℤ
    pub req : Bytes
    pub splits : split_host_port target ≡ ok (host, port_str)
    pub numeric : atoi port_str ≡ some port
    pub sends : connect_request net target ≡ ok req
    pub same : join_host_port (named net (net.parse_ip host) host) (itoa (to_uint16 port)) ≡ target

  Agreed-is_ok :
      (b b' : Bool) (asked said : Bytes)
      (ends : (Outcome net × Conn) × (Result SocksError (Unit {0}) × Conn))
      → Agreed net b b' asked said ends
      → is_ok ends.1.0 ≡ (b && b')
  Agreed-is_ok true true asked said ((out, s), (r, c)) h = ap is_ok h.1
  Agreed-is_ok true false asked said ((out, s), (r, c)) h = ap is_ok h.1
  Agreed-is_ok false b' asked said ((out, s), (r, c)) h = ap is_ok h.1

  pub dials_gopr-reaches :
      (auth : ForwardAuthConfig) (upstream : Bytes) (kind : Mode) (reaches : Dial → Bool)
      (target : Bytes)
      → Canonical target
      → dials_gopr auth upstream kind reaches target
        ≡ (is_empty auth.user && reaches (dial_of upstream kind target))
  unfolding dials_gopr
  dials_gopr-reaches auth upstream kind reaches target v =
      rw (dials_gopr, v.sends)
        (Agreed-is_ok _ _ _ _
          (dialogue net upstream kind reaches auth target (said_to_gopr net auth v.req))
          (dialogue-Agreed net upstream kind reaches auth target v.host v.port_str v.port v.req
            v.splits v.numeric v.sends))
      ∙ ap (λ t. is_empty auth.user && reaches (dial_of upstream kind t)) v.same
