-- ===== src/Examples/Udp.antt =====
-- Two clients of the UDP relay, and a client that cannot be written to.
use go_packet_repeater.Base.{
  ◌≡◌, ◌<◌, ◌↔◌, refl, arith, true, false, none, some, ◌+◌, ◌≤◌, List, [], ◌∷◌, codes, text_eq,
  Bytes,
}
use go_packet_repeater.Relay.Udp.{
  UdpRelay, Event, received, fetched, timed, replied, ticked, idle_timeout, CanHappen, started,
  step, Run, start, after,
}
use go_packet_repeater.Relay.Udp.Sockets.{open_sockets}
use go_packet_repeater.Relay.Udp.Replies.{Stuck, unserved-step}
use go_packet_repeater.Relay.Udp.Idle.{last_use, ticked-last_use}
use go_packet_repeater.Relay.Udp.Table.{table, act, acts_as, step-Refines}
use go_packet_repeater.Relay.Udp.Traffic.{of_client, packets, of_client-packets}

abbrev from_a : Bytes → Event
from_a packet = received true true 5 (codes "a") packet

abbrev from_b : Event
from_b = received true true 6 (codes "b") (codes "yo")

abbrev events : List Event
events = from_a (codes "ho") ∷ from_b ∷ from_a (codes "hi") ∷ []

abbrev relay : UdpRelay
relay = step (from_a (codes "ho")) (step from_b (step (from_a (codes "hi")) started))

running : Run events relay
running = after (from_a (codes "ho")) (after from_b (after (from_a (codes "hi")) start tt) tt) tt

known : 0 < relay.next
unfolding step text_eq
known = ground arith

session_a : relay.sessions (codes "a") ≡ some 0
unfolding step text_eq
session_a = refl

forwarded_all : relay.forwarded ≡ (0, codes "hi") ∷ (1, codes "yo") ∷ (0, codes "ho") ∷ []
unfolding step text_eq
forwarded_all = refl

open_sockets_example :
    ((relay.heap 0).is_open ≡ true) ↔ (relay.sessions (relay.heap 0).key ≡ some 0)
open_sockets_example = open_sockets running 0 known

ticked-last_use_example :
    (last_use (codes "a") 0 events + idle_timeout < 200000000000
      → ((step (ticked 200000000000) relay).sessions (codes "a") ≡ none)
        × (((step (ticked 200000000000) relay).heap 0).is_open ≡ false))
    × (200000000000 ≤ last_use (codes "a") 0 events + idle_timeout
        → ((step (ticked 200000000000) relay).sessions (codes "a") ≡ some 0)
          × (((step (ticked 200000000000) relay).heap 0).is_open ≡ true))
ticked-last_use_example = ticked-last_use running 200000000000 (codes "a") 0 session_a

of_client-packets_example :
    of_client (codes "a") relay.heap relay.forwarded ≡ packets (codes "a") events
of_client-packets_example =
    of_client-packets running (codes "a") ((refl, refl), ((refl, refl), ((refl, refl), tt)))

-- A packet of the target is read, and the write to the client fails.
abbrev fetched_a : Event
fetched_a = fetched 0 (codes "re")

abbrev timed_a : Event
timed_a = timed 7 0 (codes "re")

abbrev undelivered : Event
undelivered = replied false 0 (codes "re")

abbrev holding_a : UdpRelay
holding_a = step timed_a (step fetched_a relay)

can_fetch : CanHappen fetched_a relay
unfolding step text_eq
can_fetch = (ground arith, refl, refl, refl)

can_time : CanHappen timed_a (step fetched_a relay)
unfolding step text_eq
can_time = (ground arith, refl, refl)

can_reply : CanHappen undelivered holding_a
unfolding step text_eq
can_reply = (ground arith, refl, refl)

holding : Run (timed_a ∷ fetched_a ∷ events) holding_a
holding = after timed_a (after fetched_a running can_fetch) can_time

step-Refines_example :
    table (step undelivered holding_a) (codes "a")
    ≡ act (acts_as undelivered holding_a) (table holding_a) (codes "a")
step-Refines_example = step-Refines holding undelivered (codes "a")

unserved_a : ((step undelivered holding_a).heap 0).served ≡ false
unfolding step text_eq
unserved_a = refl

still_session_a : (step undelivered holding_a).sessions (codes "a") ≡ some 0
unfolding step text_eq
still_session_a = refl

unserved-step_example : Stuck (from_a (codes "hu")) (step undelivered holding_a) (codes "a") 0
unserved-step_example =
    unserved-step (after undelivered holding can_reply) (from_a (codes "hu")) (codes "a") 0 tt
      still_session_a unserved_a
