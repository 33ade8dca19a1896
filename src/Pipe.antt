-- ===== src/Pipe.antt =====
-- Two connections and the two copy loops between them: `pipeConn` of internal/relay/tcp.go,
-- `pipeSOCKS` of internal/proxy/socks.go, and the loops at the end of `handleConnect` of
-- internal/proxy/http.go. One round of a loop is one step, as in `logx.Copy`.
pub mod Order
pub mod Ends
pub mod Waiting
use go_packet_repeater.Base.{
  ℕ, ◌≤◌, ◌<◌, ◌≡◌, Bool, true, false, List, [], ◌∷◌, ◌++◌, Bytes, if◌then◌else◌, length, take,
  drop, ◌||◌,
}

-- The two connections.
pub data Who : Type 0 where
  a b : Who

abbrev pub other : Who → Who
other a = b
other b = a

abbrev pub same : Who → Who → Bool
same a a = true
same b b = true
same _ _ = false

-- A connection: what its peer has sent in all and what of it is not read yet, whether the peer has
-- ended its stream, what was written to the peer, and whether `CloseWrite` was called.
pub record Stream : Type 0 where
  pub sent : Bytes
  pub unread : Bytes
  pub ended : Bool
  pub written : Bytes
  pub shut : Bool

-- The loop that reads one connection: `broken` when `Copy` returned an error.
pub data Loop : Type 0 where
  running finished broken : Loop

pub record Pipe : Type 0 where
  pub stream : Who → Stream
  pub loop : Who → Loop

abbrev pub put {ℓ} : {A : Type ℓ} → Who → A → (Who → A) → Who → A
put w x f v = if same w v then x else f v

-- What happens: the peer of a connection sends bytes or ends its stream; the loop that reads the
-- connection passes on some bytes, meets the end of the stream, or reads some bytes, writes a part
-- of them, and fails.
pub data Event : Type 0 where
  sends : Who → Bytes → Event
  ends : Who → Event
  passes : Who → ℕ → Event
  meets_end : Who → Event
  fails : (w : Who) (read written : ℕ) → Event

abbrev pub CanHappen : Event → Pipe → Type 0
CanHappen (sends w bs) p = (p.stream w).ended ≡ false
CanHappen (ends w) p = (p.stream w).ended ≡ false
CanHappen (passes w n) p = (p.loop w ≡ running) × (0 < n) × (n ≤ length (p.stream w).unread)
CanHappen (meets_end w) p =
    (p.loop w ≡ running) × ((p.stream w).unread ≡ []) × ((p.stream w).ended ≡ true)
CanHappen (fails w n m) p = (p.loop w ≡ running) × (m ≤ n) × (n ≤ length (p.stream w).unread)

-- `n` bytes are read from `w`, and the first `m` of them are written to the other side.
move : Who → ℕ → ℕ → (Who → Stream) → Who → Stream
move w n m f =
    let from = f w in
    let to = f (other w) in
    put w (record from { unread = drop n from.unread })
      (put (other w) (record to { written = to.written ++ take m from.unread }) f)

-- What a goroutine does when its `Copy` returns: `if hc, ok := a.(halfCloser); ok { … }`. `closes`
-- says which of the connections have a `CloseWrite`.
leave : (Who → Bool) → Who → Loop → Pipe → Pipe
leave closes w how p = record {
  stream =
      put (other w)
        (record (p.stream (other w)) { shut = (p.stream (other w)).shut || closes (other w) })
        p.stream;
  loop = put w how p.loop;
}

unfoldable pub step : (Who → Bool) → Event → Pipe → Pipe
unfolding move leave
step closes (sends w bs) p = record p {
  stream =
      put w
        (record (p.stream w) { sent = (p.stream w).sent ++ bs; unread = (p.stream w).unread ++ bs })
        p.stream;
}
step closes (ends w) p = record p { stream = put w (record (p.stream w) { ended = true }) p.stream }
step closes (passes w n) p = record p { stream = move w n n p.stream }
step closes (meets_end w) p = leave closes w finished p
step closes (fails w n m) p = leave closes w broken (record p { stream = move w n m p.stream })

-- The types of the connections: `bufferedConn` is a connection of `dialUpstreamConnect`, and
-- `udp_conn` the socket that `handleUDPDTLSConn` dials without TLS.
pub data Kind : Type 0 where
  tcp_conn tls_conn dtls_conn udp_conn buffered_conn : Kind

-- Whether a connection is a `halfCloser`. A DTLS connection and a UDP socket have no `CloseWrite`,
-- and `bufferedConn` has only the methods of net.Conn.
unfoldable pub is_half_closer : Kind → Bool
is_half_closer tcp_conn = true
is_half_closer tls_conn = true
is_half_closer dtls_conn = false
is_half_closer udp_conn = false
is_half_closer buffered_conn = false

-- Where `pipeConn` and `pipeSOCKS` call `CloseWrite`.
unfoldable pub pipe_closes : Kind → Kind → Who → Bool
unfolding is_half_closer
pipe_closes kind_a kind_b a = is_half_closer kind_a
pipe_closes kind_a kind_b b = is_half_closer kind_b

-- `handleConnect` calls it nowhere.
unfoldable pub tunnel_closes : Who → Bool
tunnel_closes w = false

abbrev pub no_stream : Stream
no_stream = record { sent = []; unread = []; ended = false; written = []; shut = false }

abbrev pub connected : Pipe
connected = record { stream = λ w. no_stream; loop = λ w. running }

-- The states that a row of events leads to, the last event first.
pub data Run (closes : Who → Bool) : List Event → Pipe → Type 0 where
  start : Run closes [] connected
  after :
      {es : List Event} {p : Pipe} (e : Event)
      → Run closes es p
      → CanHappen e p
      → Run closes (e ∷ es) (step closes e p)
