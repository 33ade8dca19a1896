-- ===== src/Relay/Udp/Counts.antt =====
-- The byte counts of the sessions.
use go_packet_repeater.Base.{
  ℕ, ◌+◌, ◌<◌, ◌≤◌, ◌≡◌, refl, arith, true, false, List, [], ◌∷◌, ◌++◌, Bytes, ◌==◌, if◌then◌else◌,
  Option-cases, Bool-cases, inl, inr, length,
}
use go_packet_repeater.Relay.Udp.{
  UdpRelay, Event, received, fetched, timed, replied, failed, ticked, CanHappen, step, Run, start,
  after,
}
use go_packet_repeater.Relay.Udp.Sockets.{IsSound, Run-IsSound}

-- The bytes written to the target over a session.
abbrev pub total : ℕ → List (ℕ × Bytes) → ℕ
total i [] = 0
total i ((j, packet) ∷ ps) = if j == i then length packet + total i ps else total i ps

total-append :
    (i : ℕ) (ps : List (ℕ × Bytes)) (j : ℕ) (packet : Bytes)
    → total i (ps ++ (j, packet) ∷ []) ≡ total i ps + (if j == i then length packet else 0)
total-append i [] j packet = ground arith
total-append i ((j', p) ∷ ps) j packet = ground (arith, total-append i ps j packet)

record Counted (r : UdpRelay) : Type 0 where
  counted : (i : ℕ) → i < r.next → (r.heap i).sent ≡ total i r.forwarded
  uncounted : (i : ℕ) → r.next ≤ i → total i r.forwarded ≡ 0

step-Counted :
    (e : Event) (r : UdpRelay) → CanHappen e r → IsSound r → Counted r → Counted (step e r)
unfolding step
step-Counted (received dialed true now key packet) r c v h = elim (Option-cases (r.sessions key)) [
  | inl e ↦ elim (Bool-cases dialed) [
    | inl d ↦ record {
      counted = λ i l.
          ground
            (arith, e, d, h.counted i, h.uncounted i, total-append i r.forwarded r.next packet);
      uncounted =
          λ i l. ground (arith, e, d, h.uncounted i, total-append i r.forwarded r.next packet);
    }
    | inr d ↦ record {
      counted = λ i l. ground (arith, e, d, h.counted i);
      uncounted = λ i l. ground (arith, e, d, h.uncounted i);
    }
  ]
  | inr (j, e) ↦ record {
    counted = λ i l. ground (arith, e, h.counted i, total-append i r.forwarded j packet);
    uncounted = λ i l.
        ground (arith, e, h.uncounted i, v.tabled key j e, total-append i r.forwarded j packet);
  }
]
step-Counted (received dialed false now key packet) r c v h = record {
  counted = λ i l. ground (arith, h.counted i, h.uncounted i);
  uncounted = λ i l. ground (arith, h.uncounted i);
}
step-Counted (fetched j packet) r c v h = record {
  counted = λ i l. ground (arith, h.counted i l);
  uncounted = λ i l. ground (arith, h.uncounted i l);
}
step-Counted (timed now j packet) r c v h = record {
  counted = λ i l. ground (arith, h.counted i l);
  uncounted = λ i l. ground (arith, h.uncounted i l);
}
step-Counted (replied true j packet) r c v h = record {
  counted = λ i l. ground (arith, h.counted i l);
  uncounted = λ i l. ground (arith, h.uncounted i l);
}
step-Counted (replied false j packet) r c v h = record {
  counted = λ i l. ground (arith, h.counted i l);
  uncounted = λ i l. ground (arith, h.uncounted i l);
}
step-Counted (failed j) r c v h = record {
  counted = λ i l. ground (arith, h.counted i l);
  uncounted = λ i l. ground (arith, h.uncounted i l);
}
step-Counted (ticked now) r c v h = record {
  counted = λ i l. ground (arith, h.counted i l);
  uncounted = λ i l. ground (arith, h.uncounted i l);
}

-- After every run of the UDP relay, the count of bytes sent of each session is the number of
-- bytes written to the target over it.
pub sent-total :
    {es : List Event} {r : UdpRelay} (run : Run es r) (i : ℕ)
    → i < r.next
    → (r.heap i).sent ≡ total i r.forwarded
sent-total run i l = (from run).counted i l
  where
    from : {es : List Event} {r : UdpRelay} → Run es r → Counted r
    from start = record { counted = λ i l. refl; uncounted = λ i l. refl }
    from (after e run c) = step-Counted e _ c (Run-IsSound run) (from run)
