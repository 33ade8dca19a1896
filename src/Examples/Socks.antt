-- ===== src/Examples/Socks.antt =====
-- A SOCKS5 dialogue about the target `[::1]:443`.
use go_packet_repeater.Base.{
  ◌≤◌, ◌+◌, ◌&&◌, ltb, length, arith, ◌≡◌, ◌⊎◌, refl, Bool, true, false, some, [], ◌∷◌, ◌++◌, Bytes,
  codes, text_eq, cut, cut_last, contains, ok, err, Result, pos,
}
use go_packet_repeater.HostPort.{split_host_port, join_host_port}
use go_packet_repeater.Config.{no_auth}
use go_packet_repeater.Config.Addr.{atoi}
use go_packet_repeater.Proxy.Socks.{
  Conn, SocksError, bad_method, to_uint16, itoa, put_uint16, read_full, write,
}
use go_packet_repeater.Proxy.Socks.Server.{Dial, read_request}
use go_packet_repeater.Proxy.Socks.Client.{
  greet, connect_request, negotiate, dial_upstream_socks, address_of, request_to,
}
use go_packet_repeater.Proxy.Socks.Wire.{with_input, named, read_request-connect_request}
use go_packet_repeater.Proxy.Socks.Interop.{fresh}
use go_packet_repeater.Proxy.Socks.Client.Written.{IsBytes}
use go_packet_repeater.Proxy.Socks.Client.Bounds.{dial_upstream_socks-output}
use go_packet_repeater.Proxy.Socks.Client.Closing.{dial_upstream_socks-closed}
use go_packet_repeater.Examples.{net, loopback}

abbrev pub target : Bytes
target = codes "[::1]:443"

abbrev pub request : Bytes
request = 5 ∷ 1 ∷ 0 ∷ 4 ∷ (loopback ++ 1 ∷ 187 ∷ [])

pub target_split : split_host_port target ≡ ok (codes "::1", codes "443")
unfolding split_host_port cut cut_last contains
target_split = refl

pub port_read : atoi (codes "443") ≡ some (pos 443)
unfolding atoi
port_read = refl

pub target_request : connect_request net target ≡ ok request
unfolding connect_request request_to address_of split_host_port cut cut_last contains atoi text_eq
    put_uint16 to_uint16
target_request = refl

read_request-connect_request_example :
    read_request net (with_input (fresh []) (request ++ codes "hello")) ≡ (
      ok (
          join_host_port
            (named net (net.parse_ip (codes "::1")) (codes "::1"))
            (itoa (to_uint16 (pos 443)))),
      with_input (fresh []) (codes "hello"),
    )
read_request-connect_request_example =
    read_request-connect_request net target (codes "::1") (codes "443") (pos 443) request
      (codes "hello") (fresh []) target_split port_read target_request

abbrev pub asked : Bytes
asked =
    join_host_port (named net (net.parse_ip (codes "::1")) (codes "::1"))
      (itoa (to_uint16 (pos 443)))

abbrev pub reach_all : Dial → Bool
reach_all dial = true

abbrev refused_conn : Conn
refused_conn = fresh (5 ∷ 255 ∷ [])

abbrev refused_end : Conn
refused_end = record (fresh []) { output = 5 ∷ 1 ∷ 0 ∷ []; closed = true }

dial_refused :
    dial_upstream_socks net (some refused_conn) (codes "up.lan:1080") target no_auth
    ≡ (err (bad_method 255), some refused_end)
unfolding dial_upstream_socks negotiate greet read_full write
dial_refused = refl

dial_upstream_socks-closed_example :
    ((◌≡◌ {A = Result SocksError (Unit {0})} (err (bad_method 255)) (ok tt))
      × (refused_end.closed ≡ false))
    ⊎ ((e : SocksError) × (◌≡◌ {A = Result SocksError (Unit {0})} (err (bad_method 255)) (err e))
        × (refused_end.closed ≡ true))
dial_upstream_socks-closed_example =
    dial_upstream_socks-closed net refused_conn (codes "up.lan:1080") target no_auth
      (err (bad_method 255)) refused_end refl dial_refused

abbrev is_bytes : Bytes → Bool
is_bytes [] = true
is_bytes (c ∷ s) = ltb c 256 && is_bytes s

is_bytes-IsBytes : (s : Bytes) → is_bytes s ≡ true → IsBytes s
is_bytes-IsBytes [] h = tt
is_bytes-IsBytes (c ∷ s) h = (ground (arith, h), is_bytes-IsBytes s (ground (arith, h)))

dial_upstream_socks-output_example :
    IsBytes refused_end.output × (length refused_end.output ≤ length refused_conn.output + 778)
dial_upstream_socks-output_example =
    dial_upstream_socks-output net refused_conn (codes "up.lan:1080") target no_auth
      (err (bad_method 255)) refused_end (is_bytes-IsBytes target refl) tt tt tt dial_refused
