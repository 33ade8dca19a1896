-- ===== src/Relay/Udp/Sockets.antt =====
-- The sockets towards the target: which are open, and for whom.
use go_packet_repeater.Base.{
  ℕ, ◌+◌, ◌<◌, ◌≡◌, ◌↔◌, arith, Bool, true, false, Option, none, some, List, Bytes, ◌==◌,
  text_eq_iff, Option-cases, Bool-cases, inl, inr,
}
use go_packet_repeater.Relay.Udp.{
  UdpRelay, Event, received, fetched, timed, replied, failed, ticked, CanHappen, new_session, put,
  put_key, session_for, touch, forward, receive, fetch, note, reply, read_failed, reap, step, Run,
  start, after,
}

-- The table holds open sessions of its keys, and all sessions that are open.
pub record IsSound (r : UdpRelay) : Type 0 where
  pub tabled :
      (k : Bytes) (i : ℕ)
      → r.sessions k ≡ some i
      → (i < r.next) × ((r.heap i).key ≡ k) × ((r.heap i).is_open ≡ true)
  pub opened : (i : ℕ) → i < r.next → (r.heap i).is_open ≡ true → r.sessions (r.heap i).key ≡ some i

fetch-IsSound : (i : ℕ) (packet : Bytes) (r : UdpRelay) → IsSound r → IsSound (fetch i packet r)
unfolding fetch
fetch-IsSound i packet r v = record {
  tabled = λ k j h. ground (arith, v.tabled k j h);
  opened = λ j l h. ground (arith, v.opened j l);
}

note-IsSound :
    (now i : ℕ) (packet : Bytes) (r : UdpRelay) → IsSound r → IsSound (note now i packet r)
unfolding note
note-IsSound now i packet r v = record {
  tabled = λ k j h. ground (arith, v.tabled k j h);
  opened = λ j l h. ground (arith, v.opened j l);
}

reply-IsSound :
    (written : Bool) (i : ℕ) (packet : Bytes) (r : UdpRelay)
    → IsSound r
    → IsSound (reply written i packet r)
unfolding reply
reply-IsSound true i packet r v = record {
  tabled = λ k j h. ground (arith, v.tabled k j h);
  opened = λ j l h. ground (arith, v.opened j l);
}
reply-IsSound false i packet r v = record {
  tabled = λ k j h. ground (arith, v.tabled k j h);
  opened = λ j l h. ground (arith, v.opened j l);
}

reap-IsSound : (now : ℕ) (r : UdpRelay) → IsSound r → IsSound (reap now r)
unfolding reap
reap-IsSound now r v = record {
  tabled = λ k j h. ground (arith, v.tabled k j);
  opened = λ j l h. ground (arith, v.opened j l);
}

read_failed-IsSound : (i : ℕ) (r : UdpRelay) → i < r.next → IsSound r → IsSound (read_failed i r)
unfolding read_failed
read_failed-IsSound i r b v = record {
  tabled = λ k j h. ground (arith, v.tabled k j, text_eq_iff (r.heap i).key k);
  opened = λ j l h.
      ground (arith, v.opened j l, v.opened i b, text_eq_iff (r.heap i).key (r.heap j).key);
}

touch-IsSound : (now i : ℕ) (r : UdpRelay) → IsSound r → IsSound (touch now i r)
unfolding touch
touch-IsSound now i r v = record {
  tabled = λ k j h. ground (arith, v.tabled k j h);
  opened = λ j l h. ground (arith, v.opened j l);
}

forward-IsSound :
    (written : Bool) (i : ℕ) (packet : Bytes) (r : UdpRelay)
    → IsSound r
    → IsSound (forward written i packet r)
unfolding forward
forward-IsSound false i packet r v = v
forward-IsSound true i packet r v = record {
  tabled = λ k j h. ground (arith, v.tabled k j h);
  opened = λ j l h. ground (arith, v.opened j l);
}

-- The session that a packet of `key` goes to, in the state that has it.
record Found (key : Bytes) (i : ℕ) (r : UdpRelay) : Type 0 where
  at_key : r.sessions key ≡ some i
  sound : IsSound r

abbrev FoundIn : Bytes → Option (ℕ × UdpRelay) → Type 0
FoundIn key none = Unit
FoundIn key (some (i, r)) = Found key i r

new_session-IsSound :
    (now : ℕ) (key : Bytes) (r : UdpRelay)
    → r.sessions key ≡ none
    → IsSound r
    → IsSound (record r {
      sessions = put_key key (some r.next) r.sessions;
      heap = put r.next (new_session key now) r.heap;
      next = r.next + 1;
    })
new_session-IsSound now key r e v = record {
  tabled = λ k j h. ground (arith, v.tabled k j, text_eq_iff key k);
  opened = λ j l h. elim (Bool-cases (r.next == j)) [
    | inl same ↦ ground (arith, same, text_eq_iff key key)
    | inr other ↦
        ground (arith, other, v.opened j (ground (arith, other)), text_eq_iff key (r.heap j).key)
  ];
}

session_for-FoundIn :
    (dialed : Bool) (now : ℕ) (key : Bytes) (r : UdpRelay)
    → IsSound r
    → FoundIn key (session_for dialed now key r)
unfolding session_for
session_for-FoundIn dialed now key r v = elim (Option-cases (r.sessions key)) [
  | inl e ↦ ground (arith, e, new_session-IsSound now key r e v, text_eq_iff key key)
  | inr (i, e) ↦ ground (arith, e, v)
]

receive-IsSound :
    (dialed written : Bool) (now : ℕ) (key packet : Bytes) (r : UdpRelay)
    → IsSound r
    → IsSound (receive dialed written now key packet r)
unfolding receive
receive-IsSound dialed written now key packet r v =
    from (session_for dialed now key r) (session_for-FoundIn dialed now key r v)
  where
    from :
        (o : Option (ℕ × UdpRelay))
        → FoundIn key o
        → IsSound (elim o [ none ↦ r | some (i, r') ↦ forward written i packet (touch now i r') ])
    from none f = v
    from (some (i, r')) f = forward-IsSound written i packet _ (touch-IsSound now i r' f.sound)

step-IsSound : (e : Event) (r : UdpRelay) → CanHappen e r → IsSound r → IsSound (step e r)
unfolding step
step-IsSound (received dialed written now key packet) r c v =
    receive-IsSound dialed written now key packet r v
step-IsSound (fetched i packet) r c v = fetch-IsSound i packet r v
step-IsSound (timed now i packet) r c v = note-IsSound now i packet r v
step-IsSound (replied written i packet) r c v = reply-IsSound written i packet r v
step-IsSound (failed i) r c v = read_failed-IsSound i r c.0 v
step-IsSound (ticked now) r c v = reap-IsSound now r v

pub Run-IsSound : {es : List Event} {r : UdpRelay} → Run es r → IsSound r
Run-IsSound start = record { tabled = λ k i h. cc; opened = λ i l h. cc }
Run-IsSound (after e run c) = step-IsSound e _ c (Run-IsSound run)

-- After every run of the UDP relay, the socket of a session is open exactly if the session is in
-- the table under its client: no socket is left open outside the table, and the table holds no
-- session that is closed.
pub open_sockets :
    {es : List Event} {r : UdpRelay} (run : Run es r) (i : ℕ)
    → i < r.next
    → ((r.heap i).is_open ≡ true) ↔ (r.sessions (r.heap i).key ≡ some i)
open_sockets {es} {r} run i l =
    let v = Run-IsSound run in (v.opened i l, λ h. (v.tabled (r.heap i).key i h).2)

-- After every run of the UDP relay, two sessions of one client with open sockets are the same
-- session.
pub one_socket :
    {es : List Event} {r : UdpRelay} (run : Run es r) (i j : ℕ)
    → i < r.next
    → j < r.next
    → (r.heap i).is_open ≡ true
    → (r.heap j).is_open ≡ true
    → (r.heap i).key ≡ (r.heap j).key
    → i ≡ j
one_socket run i j li lj oi oj e =
    let v = Run-IsSound run in ground (arith, v.opened i li oi, v.opened j lj oj, e)
