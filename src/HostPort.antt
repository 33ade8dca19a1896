-- ===== src/HostPort.antt =====
-- `net.SplitHostPort` and `net.JoinHostPort` of Go's standard library, and `strconv.Atoi`, as the
-- argument parser (internal/config/parse.go) and the SOCKS client (internal/proxy/socks.go) use
-- them, and the relay's own `splitHostPort` (internal/relay/relay.go).
pub mod RoundTrip
pub mod HostBytes
use go_packet_repeater.Base.{
  ℕ, ◌+◌, ◌-◌, ◌*◌, ◌^◌, Bool, true, false, not, ◌&&◌, ◌||◌, Option, none, some, List, [], ◌∷◌,
  ◌++◌, Bytes, codes, ltb, leb, ◌==◌, if◌then◌else◌, text_eq, contains, cut, cut_last, is_empty,
  Result, ok, err,
}

pub data AddrError : Type 0 where
  missing_port too_many_colons missing_bracket open_bracket close_bracket : AddrError

-- `switch end + 1` of `SplitHostPort`: what stands behind the first `]`, and whether its first
-- byte is the last colon of the text.
bracketed : Bytes → Bytes → Result AddrError (Bytes × Bytes)
bracketed host [] = err missing_port
bracketed host (c ∷ port) =
    if not (c == b':')
    then err missing_port
    else if contains b':' port
    then err too_many_colons
    else if contains b'[' host
    then err open_bracket
    else if contains b'[' port
    then err open_bracket
    else if contains b']' port
    then err close_bracket
    else ok (host, port)

plain : Bytes → Bytes → Result AddrError (Bytes × Bytes)
plain host port =
    if contains b':' host
    then err too_many_colons
    else if contains b'[' host || contains b'[' port
    then err open_bracket
    else if contains b']' host || contains b']' port
    then err close_bracket
    else ok (host, port)

split_bracketed : Bytes → Result AddrError (Bytes × Bytes)
unfolding bracketed
split_bracketed s = elim (cut b']' s) [
  | none ↦ err missing_bracket
  | some (host, rest) ↦ bracketed host rest
]

split_plain : Bytes → Result AddrError (Bytes × Bytes)
unfolding plain
split_plain s = elim (cut_last b':' s) [
  | none ↦ err missing_port
  | some (host, port) ↦ plain host port
]

unfoldable pub split_host_port : Bytes → Result AddrError (Bytes × Bytes)
unfolding split_bracketed split_plain
split_host_port [] = err missing_port
split_host_port (c ∷ s) =
    if not (contains b':' (c ∷ s))
    then err missing_port
    else if c == b'['
    then split_bracketed s
    else split_plain (c ∷ s)

unfoldable pub join_host_port : Bytes → Bytes → Bytes
join_host_port host port =
    if contains b':' host then (b'[' ∷ host) ++ (b']' ∷ b':' ∷ port) else host ++ b':' ∷ port
