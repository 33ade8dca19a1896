-- ===== src/Relay/Udp/Listening.antt =====
-- `serveUDP` of internal/relay/udp.go from its start to its end: the set-up, and the loop that reads
-- the packets of the clients, as it runs by itself.
use go_packet_repeater.Base.{
  ℕ, Bool, true, false, not, List, [], ◌∷◌, Bytes, if◌then◌else◌, Result, ok, fail_if, ◌>>=◌, ◌>>◌,
}
use go_packet_repeater.Config.{Config}
use go_packet_repeater.Tlsutil.Settings.{Crypto, ServerSettings}
use go_packet_repeater.Relay.Serve.{
  Accept, Ending, accepting, stopped, gave_up, Side, RelayError, unresolved, unreached,
  serve_udp_dtls,
}
use go_packet_repeater.Relay.Udp.{UdpRelay, Event, received, started, receive, step, Run, after}

-- What `ReadFromUDP` gives: a packet of a client, with whether a dial and the write succeed; or an
-- error, with whether the context is cancelled by then.
pub data Read : Type 0 where
  packet : (dialed written : Bool) (now : ℕ) (key bytes : Bytes) → Read
  failed_read : (is_cancelled : Bool) (reason : Bytes) → Read

-- the loop of `serveUDP`
unfoldable pub receive_all : List Read → UdpRelay → UdpRelay × Ending
receive_all [] r = (r, accepting)
receive_all (packet dialed written now key bytes ∷ reads) r =
    receive_all reads (receive dialed written now key bytes r)
receive_all (failed_read true e ∷ reads) r = (r, stopped)
receive_all (failed_read false e ∷ reads) r = (r, gave_up e)

-- What a UDP listener does: it accepts DTLS connections, or relays packets.
pub data Served : Type 0 where
  over_dtls : List ℕ × Ending → Served
  in_plain : UdpRelay × Ending → Served

module _ (crypto : Crypto) (resolves : Bytes → Bool) where
  -- `serveUDP`; `listens` says whether a socket can be bound to the address
  unfoldable pub serve_udp :
      (Side (ServerSettings crypto) → Bool)
      → (listens : Bytes → Bool) → List Accept
      → List Read
      → Config
      → Result RelayError Served
  unfolding receive_all
  serve_udp listens_dtls listens accepts reads cfg =
      if cfg.listen.ssl
      then (do
        served ← serve_udp_dtls crypto resolves listens_dtls accepts cfg
        ok (over_dtls served))
      else (do
        fail_if (not (resolves cfg.listen.addr)) (unresolved cfg.listen.addr)
        fail_if (not (listens cfg.listen.addr)) (unreached cfg.listen.addr)
        ok (in_plain (receive_all reads started)))

-- The packets that were read before the loop ended, the last first, behind those of `es`.
abbrev events_of : List Read → List Event → List Event
events_of [] es = es
events_of (packet dialed written now key bytes ∷ reads) es =
    events_of reads (received dialed written now key bytes ∷ es)
events_of (failed_read c e ∷ reads) es = es

-- The loop by itself is one of the runs of the relay.
pub receive_all-Run :
    (reads : List Read) {es : List Event} {r : UdpRelay}
    → Run es r
    → Run (events_of reads es) (receive_all reads r).0
unfolding receive_all
receive_all-Run [] run = run
receive_all-Run (packet dialed written now key bytes ∷ reads) run =
    receive_all-Run reads (unfold step in after (received dialed written now key bytes) run tt)
receive_all-Run (failed_read true e ∷ reads) run = run
receive_all-Run (failed_read false e ∷ reads) run = run
