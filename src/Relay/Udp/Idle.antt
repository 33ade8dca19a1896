-- ===== src/Relay/Udp/Idle.antt =====
-- How long a session lives: the clock of a session, and what a tick of the reaper does to it.
use go_packet_repeater.Base.{
  ℕ, ◌+◌, ◌<◌, ◌≤◌, ◌≡◌, arith, Bool, true, false, none, some, List, [], ◌∷◌, Bytes, ◌==◌, text_eq,
  text_eq_iff, if◌then◌else◌, Option-cases, Bool-cases, inl, inr,
}
use go_packet_repeater.Relay.Udp.{
  UdpRelay, Event, received, fetched, timed, replied, failed, ticked, idle_timeout, session_for,
  touch, forward, receive, fetch, note, reply, read_failed, reap, step, Run, start, after,
}
use go_packet_repeater.Relay.Udp.Sockets.{IsSound, Run-IsSound}

-- When the session `i` of a client was last used, by the events alone, the last event first: the
-- time of the last packet from the client, or from the target on this session.
abbrev pub last_use : Bytes → ℕ → List Event → ℕ
last_use k i [] = 0
last_use k i (received dialed written now key packet ∷ es) =
    let before = last_use k i es in if text_eq key k then now else before
last_use k i (timed now j packet ∷ es) =
    let before = last_use k i es in if i == j then now else before
last_use k i (fetched j packet ∷ es) = last_use k i es
last_use k i (replied written j packet ∷ es) = last_use k i es
last_use k i (failed j ∷ es) = last_use k i es
last_use k i (ticked now ∷ es) = last_use k i es

-- The clock of each session in the table is right.
abbrev Clocked : List Event → UdpRelay → Type 0
Clocked es r = (k : Bytes) (i : ℕ) → r.sessions k ≡ some i → (r.heap i).last ≡ last_use k i es

-- A packet of `key` sets its clock, and no other.
abbrev Touched : Bytes → ℕ → UdpRelay → UdpRelay → Type 0
Touched key now r r' =
    (k : Bytes) (i : ℕ)
    → r'.sessions k ≡ some i
    → (text_eq key k ≡ true → (r'.heap i).last ≡ now)
      × (text_eq key k ≡ false → (r.sessions k ≡ some i) × ((r'.heap i).last ≡ (r.heap i).last))

touch-Touched :
    (written : Bool) (now i : ℕ) (key packet : Bytes) (r : UdpRelay)
    → IsSound r
    → r.sessions key ≡ some i
    → Touched key now r (forward written i packet (touch now i r))
unfolding forward touch
touch-Touched true now i key packet r v e k j h =
    ground (arith, h, e, v.tabled k j, v.tabled key i, text_eq_iff key k)
touch-Touched false now i key packet r v e k j h =
    ground (arith, h, e, v.tabled k j, v.tabled key i, text_eq_iff key k)

receive-Touched :
    (dialed written : Bool) (now : ℕ) (key packet : Bytes) (r : UdpRelay)
    → IsSound r
    → Touched key now r (receive dialed written now key packet r)
unfolding receive session_for forward touch
receive-Touched dialed written now key packet r v = elim (Option-cases (r.sessions key)) [
  | inr (i, e) ↦ λ k j h. ground (arith, e, h, touch-Touched written now i key packet r v e k j)
  | inl e ↦ elim (Bool-cases dialed) [
    | inr d ↦ λ k j h. ground (arith, e, d, h, text_eq_iff key k)
    | inl d ↦ λ k j h. ground (arith, e, d, h, v.tabled k j, text_eq_iff key k)
  ]
]

fetch-Clocked :
    (es : List Event) (j : ℕ) (packet : Bytes) (r : UdpRelay)
    → Clocked es r
    → Clocked (fetched j packet ∷ es) (fetch j packet r)
unfolding fetch
fetch-Clocked es j packet r c k i h = ground (arith, c k i h)

note-Clocked :
    (es : List Event) (now j : ℕ) (packet : Bytes) (r : UdpRelay)
    → Clocked es r
    → Clocked (timed now j packet ∷ es) (note now j packet r)
unfolding note
note-Clocked es now j packet r c k i h = ground (arith, c k i h)

reply-Clocked :
    (es : List Event) (written : Bool) (j : ℕ) (packet : Bytes) (r : UdpRelay)
    → Clocked es r
    → Clocked (replied written j packet ∷ es) (reply written j packet r)
unfolding reply
reply-Clocked es true j packet r c k i h = ground (arith, c k i h)
reply-Clocked es false j packet r c k i h = ground (arith, c k i h)

read_failed-Clocked :
    (es : List Event) (j : ℕ) (r : UdpRelay)
    → Clocked es r
    → Clocked (failed j ∷ es) (read_failed j r)
unfolding read_failed
read_failed-Clocked es j r c k i h = ground (arith, h, c k i)

reap-Clocked :
    (es : List Event) (now : ℕ) (r : UdpRelay)
    → Clocked es r
    → Clocked (ticked now ∷ es) (reap now r)
unfolding reap
reap-Clocked es now r c k i h = ground (arith, h, c k i)

step-Clocked :
    (es : List Event) (e : Event) (r : UdpRelay)
    → IsSound r
    → Clocked es r
    → Clocked (e ∷ es) (step e r)
unfolding step
step-Clocked es (received dialed written now key packet) r v c =
    λ k i h. ground (arith, c k i, receive-Touched dialed written now key packet r v k i h)
step-Clocked es (fetched j packet) r v c = fetch-Clocked es j packet r c
step-Clocked es (timed now j packet) r v c = note-Clocked es now j packet r c
step-Clocked es (replied written j packet) r v c = reply-Clocked es written j packet r c
step-Clocked es (failed j) r v c = read_failed-Clocked es j r c
step-Clocked es (ticked now) r v c = reap-Clocked es now r c

Run-Clocked : {es : List Event} {r : UdpRelay} → Run es r → Clocked es r
Run-Clocked start = λ k i h. cc
Run-Clocked (after e run c) = step-Clocked _ e _ (Run-IsSound run) (Run-Clocked run)

-- After every run of the UDP relay, take a session in the table under a client, and the time of
-- the last packet that came from this client or, on this session, from the target. At a tick of
-- the reaper more than two minutes later, the session leaves the table and its socket is closed;
-- at an earlier tick it stays, with its socket open.
pub ticked-last_use :
    {es : List Event} {r : UdpRelay} (run : Run es r) (now : ℕ) (k : Bytes) (i : ℕ)
    → r.sessions k ≡ some i
    → (last_use k i es + idle_timeout < now
        → ((step (ticked now) r).sessions k ≡ none)
          × (((step (ticked now) r).heap i).is_open ≡ false))
      × (now ≤ last_use k i es + idle_timeout
          → ((step (ticked now) r).sessions k ≡ some i)
            × (((step (ticked now) r).heap i).is_open ≡ true))
unfolding step reap
ticked-last_use run now k i h =
    let clock = Run-Clocked run k i h in
    let tabled = (Run-IsSound run).tabled k i h in
    ((λ l. ground (arith, h, l, clock, tabled)), (λ l. ground (arith, h, l, clock, tabled)))
