-- ===== src/Relay/ServerName.antt =====
-- The server name of a normal address is its host, without the brackets of an IPv6 address.
use go_packet_repeater.Base.{
  ◌≡◌, refl, arith, [], ◌∷◌, ◌++◌, Bytes, Lacks, some, cut_last, cut_last-append, Keeps, trim-Keeps,
  trim-enclosed, ok, append_assoc,
}
use go_packet_repeater.HostPort.{split_host_port, join_host_port}
use go_packet_repeater.HostPort.RoundTrip.{IsHostPort}
use go_packet_repeater.Config.Addr.Normal.{IsNormal}
use go_packet_repeater.Relay.{is_bracket, split_address, server_name}

host-Keeps : (host : Bytes) → Lacks b'[' host → Lacks b']' host → Keeps is_bracket host
host-Keeps [] o c = tt
host-Keeps (x ∷ host) o c = (ground arith, host-Keeps host o.1 c.1)

cut_last-bracketed :
    (host port : Bytes)
    → Lacks b':' port
    → cut_last b':' (b'[' ∷ (host ++ b']' ∷ b':' ∷ port)) ≡ some (b'[' ∷ (host ++ b']' ∷ []), port)
cut_last-bracketed host port h =
    rw (append_assoc host (b']' ∷ []) (b':' ∷ port)) at
      (cut_last-append b':' (b'[' ∷ (host ++ b']' ∷ [])) port h)

pub split_address-join :
    (host port : Bytes)
    → IsHostPort host port
    → split_address (join_host_port host port) ≡ ok (host, port)
unfolding split_address join_host_port
split_address-join host port v =
    let keeps = host-Keeps host v.host_open v.host_close in
    ground (
      arith,
      cut_last-bracketed host port v.port_colon,
      cut_last-append b':' host port v.port_colon,
      trim-Keeps is_bracket host keeps,
      trim-enclosed is_bracket b'[' b']' host refl refl keeps,
    )

-- For a normalized address, `serverName` gives the host that `net.SplitHostPort` reads from it,
-- without the brackets of an IPv6 address.
pub server_name-host :
    (addr host port : Bytes)
    → IsNormal addr
    → split_host_port addr ≡ ok (host, port)
    → server_name addr ≡ host
unfolding server_name
server_name-host addr host port v e =
    ground (arith, v.joined, split_address-join v.host v.port v.halves, v.splits, e)
