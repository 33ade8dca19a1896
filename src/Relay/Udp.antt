-- ===== src/Relay/Udp.antt =====
-- internal/relay/udp.go: the sessions of the plain UDP relay. `serveUDP`, `relayUDPReplies` and
-- `reapUDPSessions` share the session table under one mutex. A round of `serveUDP` or of the reaper
-- is one step; a session that is closed between the locked part of a round of `serveUDP` and its
-- write shows as a write that fails. A round of `relayUDPReplies` is three steps, its `Read`, the
-- locked part and the write to the client, and the session may be closed between them.
pub mod Sockets
pub mod Replies
pub mod Counts
pub mod Traffic
pub mod Idle
pub mod Listening
pub mod Table
use go_packet_repeater.Base.{
  ℕ, ◌+◌, ◌-◌, ◌<◌, ◌≡◌, Bool, true, false, Option, none, some, List, [], ◌∷◌, ◌++◌, Bytes, ltb,
  ◌==◌, if◌then◌else◌, length, text_eq,
}

-- How far a round of `relayUDPReplies` is: in its `Read`, with a packet that was read, or behind
-- the locked part with it.
pub data Turn : Type 0 where
  reading : Turn
  holding noted : Bytes → Turn

-- `udpSession`, with its client's key: `is_open` until `conn` is closed, `served` while
-- `relayUDPReplies` runs for it, `turn` as far as that is
pub record UdpSession : Type 0 where
  pub key : Bytes
  pub last : ℕ
  pub sent : ℕ
  pub recv : ℕ
  pub is_open : Bool
  pub served : Bool
  pub turn : Turn

-- The map `sessions` holds pointers: `heap` has the session behind each pointer below `next`.
-- `forwarded` and `returned` list the packets written to the target and to the clients.
pub record UdpRelay : Type 0 where
  pub sessions : Bytes → Option ℕ
  pub heap : ℕ → UdpSession
  pub next : ℕ
  pub forwarded : List (ℕ × Bytes)
  pub returned : List (Bytes × Bytes)

-- `udpSessionIdleTimeout`, in nanoseconds
abbrev pub idle_timeout : ℕ
idle_timeout = 120000000000

abbrev pub put : ℕ → UdpSession → (ℕ → UdpSession) → ℕ → UdpSession
put i s heap j = if i == j then s else heap j

abbrev pub put_key : Bytes → Option ℕ → (Bytes → Option ℕ) → Bytes → Option ℕ
put_key key o sessions k = if text_eq key k then o else sessions k

abbrev pub new_session : Bytes → ℕ → UdpSession
new_session key now = record {
  key = key;
  last = now;
  sent = 0;
  recv = 0;
  is_open = true;
  served = true;
  turn = reading;
}

-- `sess, ok := sessions[key]`, and the new session if there is none and the target is dialed
session_for : Bool → ℕ → Bytes → UdpRelay → Option (ℕ × UdpRelay)
session_for dialed now key r = elim (r.sessions key) [
  | some i ↦ some (i, r)
  | none ↦
      if dialed
      then some (
        r.next,
        record r {
          sessions = put_key key (some r.next) r.sessions;
          heap = put r.next (new_session key now) r.heap;
          next = r.next + 1;
        },
      )
      else none
]

-- `sess.last = time.Now()`
touch : ℕ → ℕ → UdpRelay → UdpRelay
touch now i r = record r { heap = put i (record (r.heap i) { last = now }) r.heap }

-- `sess.conn.Write(buf[:n])`
forward : Bool → ℕ → Bytes → UdpRelay → UdpRelay
forward false i data_ r = r
forward true i data_ r = record r {
  heap = put i (record (r.heap i) { sent = (r.heap i).sent + length data_ }) r.heap;
  forwarded = r.forwarded ++ (i, data_) ∷ [];
}

-- a round of `serveUDP`
unfoldable pub receive : Bool → Bool → ℕ → Bytes → Bytes → UdpRelay → UdpRelay
unfolding session_for touch forward
receive dialed written now key data_ r = elim (session_for dialed now key r) [
  | none ↦ r
  | some (i, r') ↦ forward written i data_ (touch now i r')
]

-- `sess.conn.Read(buf)` gives a packet, and `sess.recv.Add(int64(n))`
unfoldable pub fetch : ℕ → Bytes → UdpRelay → UdpRelay
fetch i data_ r = record r {
  heap =
      put i (record (r.heap i) { recv = (r.heap i).recv + length data_; turn = holding data_ })
        r.heap;
}

-- `sess.last = time.Now()` in `relayUDPReplies`
unfoldable pub note : ℕ → ℕ → Bytes → UdpRelay → UdpRelay
note now i data_ r = record r {
  heap = put i (record (r.heap i) { last = now; turn = noted data_ }) r.heap;
}

-- `listenConn.WriteToUDP(buf[:n], clientAddr)`; the loop ends if it fails
unfoldable pub reply : Bool → ℕ → Bytes → UdpRelay → UdpRelay
reply true i data_ r = record r {
  heap = put i (record (r.heap i) { turn = reading }) r.heap;
  returned = r.returned ++ ((r.heap i).key, data_) ∷ [];
}
reply false i data_ r = record r {
  heap = put i (record (r.heap i) { turn = reading; served = false }) r.heap;
}

-- `sessions[key] == sess`
abbrev pub is_at : ℕ → Option ℕ → Bool
is_at i none = false
is_at i (some j) = i == j

-- a round of `relayUDPReplies` in which the read fails
unfoldable pub read_failed : ℕ → UdpRelay → UdpRelay
read_failed i r = record r {
  sessions =
      if is_at i (r.sessions (r.heap i).key)
      then put_key (r.heap i).key none r.sessions
      else r.sessions;
  heap = put i (record (r.heap i) { is_open = false; served = false }) r.heap;
}

-- `now.Sub(sess.last) > udpSessionIdleTimeout`
abbrev pub is_idle : ℕ → UdpSession → Bool
is_idle now s = ltb idle_timeout (now - s.last)

abbrev drop_idle : ℕ → (ℕ → UdpSession) → Option ℕ → Option ℕ
drop_idle now heap none = none
drop_idle now heap (some i) = if is_idle now (heap i) then none else some i

abbrev close_idle : ℕ → ℕ → Option ℕ → UdpSession → UdpSession
close_idle now i at s =
    if is_at i at then (if is_idle now s then record s { is_open = false } else s) else s

-- a round of `reapUDPSessions`: each session of the table that is idle is closed and leaves it
unfoldable pub reap : ℕ → UdpRelay → UdpRelay
reap now r = record r {
  sessions = λ key. drop_idle now r.heap (r.sessions key);
  heap = λ i. close_idle now i (r.sessions (r.heap i).key) (r.heap i);
}

-- What happens: a packet of a client, with whether a dial and the write succeed; the three steps of
-- a round of `relayUDPReplies` for a packet of the target, the last with whether the client can be
-- written to; a read of the socket that fails; a tick of the reaper.
pub data Event : Type 0 where
  received : (dialed written : Bool) (now : ℕ) (key packet : Bytes) → Event
  fetched : (i : ℕ) (packet : Bytes) → Event
  timed : (now i : ℕ) (packet : Bytes) → Event
  replied : (written : Bool) (i : ℕ) (packet : Bytes) → Event
  failed : ℕ → Event
  ticked : ℕ → Event

-- Only a session that is served reads, and only an open socket gives a packet; what follows does not
-- look at the socket.
abbrev pub CanHappen : Event → UdpRelay → Type 0
CanHappen (received dialed written now key packet) r = Unit
CanHappen (fetched i packet) r =
    (i < r.next)
    × ((r.heap i).served ≡ true)
    × ((r.heap i).is_open ≡ true)
    × ((r.heap i).turn ≡ reading)
CanHappen (timed now i packet) r =
    (i < r.next) × ((r.heap i).served ≡ true) × ((r.heap i).turn ≡ holding packet)
CanHappen (replied written i packet) r =
    (i < r.next) × ((r.heap i).served ≡ true) × ((r.heap i).turn ≡ noted packet)
CanHappen (failed i) r = (i < r.next) × ((r.heap i).served ≡ true) × ((r.heap i).turn ≡ reading)
CanHappen (ticked now) r = Unit

unfoldable pub step : Event → UdpRelay → UdpRelay
unfolding receive fetch note reply read_failed reap
step (received dialed written now key packet) r = receive dialed written now key packet r
step (fetched i packet) r = fetch i packet r
step (timed now i packet) r = note now i packet r
step (replied written i packet) r = reply written i packet r
step (failed i) r = read_failed i r
step (ticked now) r = reap now r

abbrev pub no_session : UdpSession
no_session = record {
  key = [];
  last = 0;
  sent = 0;
  recv = 0;
  is_open = false;
  served = false;
  turn = reading;
}

abbrev pub started : UdpRelay
started = record {
  sessions = λ key. none;
  heap = λ i. no_session;
  next = 0;
  forwarded = [];
  returned = [];
}

-- The states that a row of events leads to, the last event first.
pub data Run : List Event → UdpRelay → Type 0 where
  start : Run [] started
  after :
      {es : List Event} {r : UdpRelay} (e : Event)
      → Run es r
      → CanHappen e r
      → Run (e ∷ es) (step e r)
