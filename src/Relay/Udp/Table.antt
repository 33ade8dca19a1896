-- ===== src/Relay/Udp/Table.antt =====
-- The plain UDP relay as a table of values: what it promises, without pointers, sockets and packets.
use go_packet_repeater.Base.{
  ℕ, ◌+◌, ◌≡◌, arith, Bool, true, false, Option, none, some, List, Bytes, length, ltb, text_eq,
  text_eq_iff, if◌then◌else◌, Option-cases, Bool-cases, inl, inr,
}
use go_packet_repeater.Relay.Udp.{
  UdpSession, UdpRelay, Event, received, fetched, timed, replied, failed, ticked, is_at,
  idle_timeout, session_for, touch, forward, receive, fetch, note, reply, read_failed, reap, step,
  Run,
}
use go_packet_repeater.Relay.Udp.Sockets.{IsSound, Run-IsSound}

-- What the relay knows of a client.
pub record Entry : Type 0 where
  pub last : ℕ
  pub sent : ℕ
  pub recv : ℕ
  pub served : Bool

abbrev pub Table : Type 0
Table = Bytes → Option Entry

pub data Action : Type 0 where
  -- a packet of a client
  goes_out : (dialed written : Bool) (now : ℕ) (key : Bytes) (n : ℕ) → Action
  -- one of the target for a client: it is counted, its time is set, or its write fails
  comes_in : (key : Bytes) (n : ℕ) → Action
  times : (now : ℕ) (key : Bytes) → Action
  stops : Bytes → Action
  forgets : Bytes → Action
  expires : ℕ → Action
  stays : Action

abbrev pub counted : Bool → ℕ → ℕ
counted written n = if written then n else 0

abbrev pub out : Bool → Bool → ℕ → ℕ → Option Entry → Option Entry
out dialed written now n none =
    if dialed
    then some (record { last = now; sent = counted written n; recv = 0; served = true })
    else none
out dialed written now n (some e) =
    some (record e { last = now; sent = e.sent + counted written n })

abbrev pub back : ℕ → Option Entry → Option Entry
back n none = none
back n (some e) = some (record e { recv = e.recv + n })

abbrev pub at_time : ℕ → Option Entry → Option Entry
at_time now none = none
at_time now (some e) = some (record e { last = now })

abbrev pub unserved : Option Entry → Option Entry
unserved none = none
unserved (some e) = some (record e { served = false })

abbrev pub expired : ℕ → Option Entry → Option Entry
expired now none = none
expired now (some e) = if ltb (e.last + idle_timeout) now then none else some e

-- What an action does to the entry of a client.
abbrev pub act : Action → Table → Table
act (goes_out dialed written now key n) t k =
    if text_eq key k then out dialed written now n (t k) else t k
act (comes_in key n) t k = if text_eq key k then back n (t k) else t k
act (times now key) t k = if text_eq key k then at_time now (t k) else t k
act (stops key) t k = if text_eq key k then unserved (t k) else t k
act (forgets key) t k = if text_eq key k then none else t k
act (expires now) t k = expired now (t k)
act stays t k = t k

abbrev entry : UdpSession → Entry
entry s = record { last = s.last; sent = s.sent; recv = s.recv; served = s.served }

abbrev look : (ℕ → UdpSession) → Option ℕ → Option Entry
look heap none = none
look heap (some i) = some (entry (heap i))

-- The table that a state of the relay stands for.
abbrev pub table : UdpRelay → Table
table r k = look r.heap (r.sessions k)

-- What an event is to the table: one of a session that has left it is none.
abbrev pub acts_as : Event → UdpRelay → Action
acts_as (received dialed written now key packet) r = goes_out dialed written now key (length packet)
acts_as (fetched i packet) r =
    if is_at i (r.sessions (r.heap i).key) then comes_in (r.heap i).key (length packet) else stays
acts_as (timed now i packet) r =
    if is_at i (r.sessions (r.heap i).key) then times now (r.heap i).key else stays
acts_as (replied true i packet) r = stays
acts_as (replied false i packet) r =
    if is_at i (r.sessions (r.heap i).key) then stops (r.heap i).key else stays
acts_as (failed i) r = if is_at i (r.sessions (r.heap i).key) then forgets (r.heap i).key else stays
acts_as (ticked now) r = expires now

-- A step of the relay is the action on the table.
abbrev Refines : Event → UdpRelay → Type 0
Refines e r = (k : Bytes) → table (step e r) k ≡ act (acts_as e r) (table r) k

reap-Refines : (now : ℕ) (r : UdpRelay) → IsSound r → Refines (ticked now) r
unfolding step reap
reap-Refines now r v = λ k. elim (Option-cases (r.sessions k)) [
  | inl e ↦ ground (arith, e)
  | inr (i, e) ↦ ground (arith, e, v.tabled k i e)
]

failed-Refines : (i : ℕ) (r : UdpRelay) → IsSound r → Refines (failed i) r
unfolding step read_failed
failed-Refines i r v = λ k. elim (Option-cases (r.sessions k)) [
  | inl e ↦ ground (arith, e, text_eq_iff (r.heap i).key k)
  | inr (j, e) ↦ ground (arith, e, v.tabled k j e, text_eq_iff (r.heap i).key k)
]

fetched-Refines : (i : ℕ) (packet : Bytes) (r : UdpRelay) → IsSound r → Refines (fetched i packet) r
unfolding step fetch
fetched-Refines i packet r v = λ k. elim (Option-cases (r.sessions k)) [
  | inl e ↦ ground (arith, e, text_eq_iff (r.heap i).key k)
  | inr (j, e) ↦ ground (arith, e, v.tabled k j e, text_eq_iff (r.heap i).key k)
]

timed-Refines :
    (now i : ℕ) (packet : Bytes) (r : UdpRelay) → IsSound r → Refines (timed now i packet) r
unfolding step note
timed-Refines now i packet r v = λ k. elim (Option-cases (r.sessions k)) [
  | inl e ↦ ground (arith, e, text_eq_iff (r.heap i).key k)
  | inr (j, e) ↦ ground (arith, e, v.tabled k j e, text_eq_iff (r.heap i).key k)
]

replied-Refines :
    (written : Bool) (i : ℕ) (packet : Bytes) (r : UdpRelay)
    → IsSound r
    → Refines (replied written i packet) r
unfolding step reply
replied-Refines true i packet r v = λ k. elim (Option-cases (r.sessions k)) [
  | inl e ↦ ground (arith, e, text_eq_iff (r.heap i).key k)
  | inr (j, e) ↦ ground (arith, e, v.tabled k j e, text_eq_iff (r.heap i).key k)
]
replied-Refines false i packet r v = λ k. elim (Option-cases (r.sessions k)) [
  | inl e ↦ ground (arith, e, text_eq_iff (r.heap i).key k)
  | inr (j, e) ↦ ground (arith, e, v.tabled k j e, text_eq_iff (r.heap i).key k)
]

-- with the session that there is, and with a new one
old-Refines :
    (written : Bool) (now i : ℕ) (key packet : Bytes) (r : UdpRelay)
    → IsSound r
    → r.sessions key ≡ some i
    → (k : Bytes)
    → table (forward written i packet (touch now i r)) k
      ≡ act (goes_out true written now key (length packet)) (table r) k
unfolding forward touch
old-Refines true now i key packet r v e k = elim (Option-cases (r.sessions k)) [
  | inl h ↦ ground (arith, e, h, text_eq_iff key k)
  | inr (j, h) ↦ ground (arith, e, h, v.tabled k j h, v.tabled key i e, text_eq_iff key k)
]
old-Refines false now i key packet r v e k = elim (Option-cases (r.sessions k)) [
  | inl h ↦ ground (arith, e, h, text_eq_iff key k)
  | inr (j, h) ↦ ground (arith, e, h, v.tabled k j h, v.tabled key i e, text_eq_iff key k)
]

new-Refines :
    (written : Bool) (now : ℕ) (key packet : Bytes) (r : UdpRelay)
    → IsSound r
    → r.sessions key ≡ none
    → Refines (received true written now key packet) r
unfolding step receive session_for forward touch
new-Refines true now key packet r v e = λ k. elim (Option-cases (r.sessions k)) [
  | inl h ↦ ground (arith, e, h, text_eq_iff key k)
  | inr (j, h) ↦ ground (arith, e, h, v.tabled k j h, text_eq_iff key k)
]
new-Refines false now key packet r v e = λ k. elim (Option-cases (r.sessions k)) [
  | inl h ↦ ground (arith, e, h, text_eq_iff key k)
  | inr (j, h) ↦ ground (arith, e, h, v.tabled k j h, text_eq_iff key k)
]

received-Refines :
    (dialed written : Bool) (now : ℕ) (key packet : Bytes) (r : UdpRelay)
    → IsSound r
    → Refines (received dialed written now key packet) r
unfolding step receive session_for
received-Refines dialed written now key packet r v = elim (Option-cases (r.sessions key)) [
  | inr (i, e) ↦
      λ k. ground (arith, e, old-Refines written now i key packet r v e k, text_eq_iff key k)
  | inl e ↦ elim (Bool-cases dialed) [
    | inl d ↦ rw d (new-Refines written now key packet r v e)
    | inr d ↦ λ k. ground (arith, e, d, text_eq_iff key k)
  ]
]

-- In every run of the UDP relay, each step does to the table of its clients, taken as a map from
-- a client to the time of its last packet, its counts of bytes and whether replies are read for
-- it, what the following table does. A packet of a client makes an entry if there is none and the
-- target can be dialed, and sets its time and counts the bytes that are written; a packet of the
-- target that is read on the session of the entry is counted, then sets its time, and ends the
-- reading if it cannot be written to the client; a failed read on this session removes the entry;
-- a tick removes all that are idle. Nothing else changes an entry, in particular no session that
-- has left the table.
pub step-Refines :
    {es : List Event} {r : UdpRelay} (run : Run es r) (e : Event) (k : Bytes)
    → table (step e r) k ≡ act (acts_as e r) (table r) k
step-Refines {es} {r} run (received dialed written now key packet) k =
    received-Refines dialed written now key packet r (Run-IsSound run) k
step-Refines {es} {r} run (fetched i packet) k = fetched-Refines i packet r (Run-IsSound run) k
step-Refines {es} {r} run (timed now i packet) k = timed-Refines now i packet r (Run-IsSound run) k
step-Refines {es} {r} run (replied written i packet) k =
    replied-Refines written i packet r (Run-IsSound run) k
step-Refines {es} {r} run (failed i) k = failed-Refines i r (Run-IsSound run) k
step-Refines {es} {r} run (ticked now) k = reap-Refines now r (Run-IsSound run) k
