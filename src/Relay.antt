-- ===== src/Relay.antt =====
-- internal/relay/relay.go: which listeners a forwarding relay starts, and the server name and the
-- TLS settings that it asks internal/tlsutil for.
pub mod ServerName
pub mod Udp
pub mod Settings
pub mod Waiting
pub mod Serve
pub mod Log
use go_packet_repeater.Base.{
  ℕ, Bool, true, false, not, ◌||◌, Option, none, some, List, [], ◌∷◌, ◌++◌, Bytes, codes, cut_last,
  ◌==◌, if◌then◌else◌, trim, Result, ok, err, ◌>>=◌,
}
use go_packet_repeater.Config.{Endpoint}

pub data NoPort : Type 0 where
  no_port_in : Bytes → NoPort

abbrev pub is_bracket : ℕ → Bool
is_bracket c = c == b'[' || c == b']'

-- `splitHostPort`, the relay's own
unfoldable pub split_address : Bytes → Result NoPort (Bytes × Bytes)
split_address addr = elim (cut_last b':' addr) [
  | none ↦ err (no_port_in addr)
  | some (host, port) ↦ ok (trim is_bracket host, port)
]

-- `serverName`
unfoldable pub server_name : Bytes → Bytes
server_name addr = elim (split_address addr) [ ok (host, port) ↦ host | err e ↦ [] ]

-- The listeners of `serveTCP`, and of `serveUDP` and `serveUDPDTLS`.
pub data Listener : Type 0 where
  tcp_plain tcp_tls udp_plain udp_dtls : Listener

-- The listeners that `Run` starts.
unfoldable pub listeners : Endpoint → List Listener
listeners listen =
    (if listen.tcp then (if listen.ssl then tcp_tls else tcp_plain) ∷ [] else [])
    ++ (if listen.udp then (if listen.ssl then udp_dtls else udp_plain) ∷ [] else [])
