-- ===== src/Proxy/Http.antt =====
-- internal/proxy/http.go: the messages that gopr makes of net/http's, how it reaches a target, and
-- `handleForward`. Requests and responses are those that net/http has parsed; a header is its
-- lines, with the canonical names that net/http gives them.
pub mod Connect
pub mod Auth
pub mod Headers
pub mod Closing
pub mod Sent
pub mod Tunnel
pub mod Serving
pub mod Dialogue
pub mod Shutdown
use go_packet_repeater.Base.{
  ℕ, zero, suc, ◌+◌, ◌-◌, ◌*◌, ◌/◌, ◌%◌, Bool, true, false, not, ◌&&◌, Option, none, some, List, [],
  ◌∷◌, ◌++◌, Bytes, codes, text_eq, ltb, ◌==◌, if◌then◌else◌, is_empty, Result, ok, err, pos,
}
use go_packet_repeater.Config.{Config, Mode, http_proxy, socks_proxy, ForwardAuthConfig}
use go_packet_repeater.Logx.{Logger, Chunk, Wrote, Output, copy}
use go_packet_repeater.Proxy.Socks.Server.{Dial, direct, by_connect, by_socks}

abbrev pub Header : Type 0
Header = List (Bytes × Bytes)

-- `h.Values(name)`
unfoldable pub values : Bytes → Header → List Bytes
values name [] = []
values name ((k, v) ∷ h) = let rest = values name h in if text_eq k name then v ∷ rest else rest

-- `h.Del(name)`
unfoldable pub del : Bytes → Header → Header
del name [] = []
del name ((k, v) ∷ h) = let rest = del name h in if text_eq k name then rest else (k, v) ∷ rest

-- `h.Set(name, value)`
unfoldable pub set : Bytes → Bytes → Header → Header
unfolding del
set name value h = del name h ++ (name, value) ∷ []

-- What reading the body of a request gives; `no_body` for nil and `http.NoBody`.
pub data Body : Type 0 where
  no_body : Body
  body broken_body : Bytes → Body

pub record Request : Type 0 where
  pub method : Bytes
  -- the URL as `String` writes it, and whether `IsAbs` holds of it
  pub url : Bytes
  pub is_abs : Bool
  pub host : Bytes
  pub header : Header
  pub content : Body

pub record Response : Type 0 where
  pub status : ℕ
  pub header : Header
  pub content : List Chunk

abbrev pub status_ok : ℕ
status_ok = 200

abbrev pub status_proxy_auth_required : ℕ
status_proxy_auth_required = 407

-- `base64.StdEncoding.EncodeToString`
unfoldable pub base64_digit : ℕ → ℕ
base64_digit n =
    if ltb n 26
    then b'A' + n
    else if ltb n 52
    then b'a' + (n - 26)
    else if ltb n 62
    then b'0' + (n - 52)
    else if n == 62
    then b'+'
    else b'/'

unfoldable pub base64 : Bytes → Bytes
unfolding base64_digit
base64 [] = []
base64 (x ∷ []) = base64_digit (x / 4) ∷ base64_digit (x % 4 * 16) ∷ codes "=="
base64 (x ∷ y ∷ []) =
    base64_digit (x / 4)
    ∷ base64_digit (x % 4 * 16 + y / 16)
    ∷ base64_digit (y % 16 * 4)
    ∷ codes "="
base64 (x ∷ y ∷ z ∷ s) =
    base64_digit (x / 4)
    ∷ base64_digit (x % 4 * 16 + y / 16)
    ∷ base64_digit (y % 16 * 4 + z / 64)
    ∷ base64_digit (z % 64)
    ∷ base64 s

unfoldable pub basic : ForwardAuthConfig → Bytes
basic auth = codes "Basic " ++ base64 (auth.user ++ b':' ∷ auth.pass)

abbrev pub proxy_authorization : Bytes
proxy_authorization = codes "Proxy-Authorization"

abbrev pub proxy_authenticate : Bytes
proxy_authenticate = codes "Proxy-Authenticate"

-- The transports that `RunHTTP` chooses from.
pub data Transport : Type 0 where
  default_transport : Transport
  socks_backed with_auth : Bytes → ForwardAuthConfig → Transport
  through : Bytes → Transport

-- the switch of `RunHTTP`
unfoldable pub transport_of : Config → Transport
transport_of cfg =
    if is_empty cfg.upstream_addr then default_transport else elim cfg.upstream_kind [
      | socks_proxy ↦ socks_backed cfg.upstream_addr cfg.forward_auth
      | _ ↦
          if not (is_empty cfg.forward_auth.user)
          then with_auth cfg.upstream_addr cfg.forward_auth
          else through cfg.upstream_addr
    ]

-- the switch of `handleConnect`
unfoldable pub tunnel_of : Bytes → Mode → Bytes → Dial
tunnel_of upstream kind target =
    if is_empty upstream
    then direct target
    else elim kind [ socks_proxy ↦ by_socks upstream target | _ ↦ by_connect upstream target ]

abbrev pub hop_by_hop_headers : List Bytes
hop_by_hop_headers =
    codes "Connection"
    ∷ codes "Proxy-Connection"
    ∷ codes "Keep-Alive"
    ∷ codes "Proxy-Authenticate"
    ∷ codes "Proxy-Authorization"
    ∷ codes "Te"
    ∷ codes "Trailer"
    ∷ codes "Transfer-Encoding"
    ∷ codes "Upgrade"
    ∷ []

-- the loops over `hopByHopHeaders`
unfoldable pub del_all : List Bytes → Header → Header
unfolding del
del_all [] h = h
del_all (n ∷ ns) h = del_all ns (del n h)

-- the loops with `w.Header().Add(k, v)`
unfoldable pub add_all : Header → Header → Header
add_all to [] = to
add_all to (line ∷ h) = add_all (to ++ line ∷ []) h

-- What the client is answered, behind the request that was handed to the transport.
pub data Forwarded : Type 0 where
  not_absolute : Forwarded
  bad_gateway : (out : Request) (reason : Bytes) → Forwarded
  answered : (out : Request) (status : ℕ) (header : Header) (copied : Output) → Forwarded

-- behind `RoundTrip`
unfoldable pub forward_answer :
    Option Logger → List Wrote → Header → Bytes → Request → Result Bytes Response → Forwarded
unfolding add_all
forward_answer log writes w label out (err e) = bad_gateway out e
forward_answer log writes w label out (ok resp) =
    answered out resp.status (add_all w (del_all hop_by_hop_headers resp.header))
      (copy log label false resp.content writes)

-- `handleForward`, with the header that the response writer has, and what its writes give
unfoldable pub handle_forward :
    Option Logger → (Request → Result Bytes Response) → Header → List Wrote → Request → Forwarded
unfolding forward_answer
handle_forward log transport w writes r =
    let out = record r { header = del_all hop_by_hop_headers r.header } in
    if r.is_abs
    then forward_answer log writes w (codes "http " ++ (r.method ++ b' ' ∷ r.url)) out
        (transport out)
    else not_absolute
