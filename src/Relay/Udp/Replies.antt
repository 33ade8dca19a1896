-- ===== src/Relay/Udp/Replies.antt =====
-- Whose packets go where, and when a session's replies stop.
use go_packet_repeater.Base.{
  ℕ, ◌<◌, ◌≡◌, ◌⊎◌, arith, true, false, some, List, [], ◌∷◌, ◌++◌, Bytes, if◌then◌else◌, text_eq,
  text_eq_iff, All, Bool-cases, inl, inr,
}
use go_packet_repeater.Relay.Udp.{
  UdpRelay, Event, received, fetched, timed, replied, failed, ticked, CanHappen, noted, step, Run,
  start, after, started, is_idle,
}
use go_packet_repeater.Relay.Udp.Sockets.{IsSound, Run-IsSound}

-- The events but a reply that cannot be written to its client.
abbrev pub Delivered : Event → Type 0
Delivered (replied false i packet) = ⊥
Delivered _ = Unit

AllServed : UdpRelay → Type 0
AllServed r = (k : Bytes) (i : ℕ) → r.sessions k ≡ some i → (r.heap i).served ≡ true

step-AllServed :
    (e : Event) (r : UdpRelay) → Delivered e → IsSound r → AllServed r → AllServed (step e r)
unfolding step AllServed
step-AllServed (received dialed written now key packet) r d v a k i h =
    ground (arith, a k i, a key, v.tabled k i, text_eq_iff key k)
step-AllServed (fetched j packet) r d v a k i h = ground (arith, a k i)
step-AllServed (timed now j packet) r d v a k i h = ground (arith, a k i)
step-AllServed (replied true j packet) r d v a k i h = ground (arith, a k i)
step-AllServed (replied false j packet) r d v a k i h = absurd d
step-AllServed (failed j) r d v a k i h =
    ground (arith, a k i, v.tabled k i, text_eq_iff (r.heap j).key k)
step-AllServed (ticked now) r d v a k i h = ground (arith, a k i)

started-AllServed : AllServed started
unfolding AllServed
started-AllServed k i h = cc

-- After every run of the UDP relay in which each reply that was read could be written to its
-- client, each session in the table is served by its loop of replies.
pub Run-served :
    {es : List Event} {r : UdpRelay} (run : Run es r) (k : Bytes) (i : ℕ)
    → All Delivered es
    → r.sessions k ≡ some i
    → (r.heap i).served ≡ true
unfolding AllServed
Run-served {es} {r} run k i d h = from run d k i h
  where
    from : {es : List Event} {r : UdpRelay} → Run es r → All Delivered es → AllServed r
    from start d = started-AllServed
    from (after e run c) d = step-AllServed e _ d.0 (Run-IsSound run) (from run d.1)

-- The packets written back to a client.
abbrev pub answers : Bytes → List (Bytes × Bytes) → List Bytes
answers k [] = []
answers k ((key, packet) ∷ ps) = if text_eq key k then packet ∷ answers k ps else answers k ps

answers-append :
    (k : Bytes) (ps : List (Bytes × Bytes)) (key packet : Bytes)
    → text_eq key k ≡ false
    → answers k (ps ++ (key, packet) ∷ []) ≡ answers k ps
answers-append k [] key packet e = ground (arith, e)
answers-append k ((key', p) ∷ ps) key packet e = ground (arith, answers-append k ps key packet e)

-- A session that is served is not the one of a key whose session is not; nor is it of this key, if
-- it is open.
other_key :
    {r : UdpRelay} {k : Bytes} {i j : ℕ}
    → IsSound r
    → r.sessions k ≡ some i
    → (r.heap i).served ≡ false
    → j < r.next
    → (r.heap j).served ≡ true
    → (r.heap j).is_open ≡ true
    → text_eq (r.heap j).key k ≡ false
other_key {r} {k} {i} {j} v h s b t o =
    ground (arith, h, s, t, v.opened j b o, text_eq_iff (r.heap j).key k)

-- The step writes back a packet that was read on an earlier session, which is closed.
abbrev pub Belated : Event → UdpRelay → Type 0
Belated (replied true j packet) r = ((r.heap j).is_open ≡ false) × ((r.heap j).turn ≡ noted packet)
Belated _ r = ⊥

-- What a step does for the client `k`, whose session is `i`: nothing is written back but what an
-- earlier session has read, nothing is read for it, and the session stays as it is, unless the
-- reaper finds it idle.
pub record Stuck (e : Event) (r : UdpRelay) (k : Bytes) (i : ℕ) : Type 0 where
  pub silent : (answers k (step e r).returned ≡ answers k r.returned) ⊎ Belated e r
  pub unread :
      (((step e r).heap i).recv ≡ (r.heap i).recv) × (((step e r).heap i).turn ≡ (r.heap i).turn)
  pub stays :
      (((step e r).sessions k ≡ some i) × (((step e r).heap i).served ≡ false))
      ⊎ ((now : ℕ) × (e ≡ ticked now) × (is_idle now (r.heap i) ≡ true))

replied-silent :
    {r : UdpRelay} {k : Bytes} {i : ℕ}
    → IsSound r
    → r.sessions k ≡ some i
    → (r.heap i).served ≡ false
    → (j : ℕ) (packet : Bytes) → CanHappen (replied true j packet) r
    → (answers k (step (replied true j packet) r).returned ≡ answers k r.returned)
      ⊎ Belated (replied true j packet) r
unfolding step
replied-silent {r} {k} v h s j packet (b, t, n) = elim (Bool-cases (r.heap j).is_open) [
  | inr o ↦ inr (o, n)
  | inl o ↦ inl (answers-append k r.returned (r.heap j).key packet (other_key v h s b t o))
]

-- After every run of the UDP relay, if the session of a client in the table is no longer served,
-- then no step that can happen reads a packet on it, and none writes a packet back to this client
-- but one that an earlier session, which is closed by now, had read; and the session stays in the
-- table, not served, unless the step is a tick at which it is idle.
pub unserved-step :
    {es : List Event} {r : UdpRelay} (run : Run es r) (e : Event) (k : Bytes) (i : ℕ)
    → CanHappen e r
    → r.sessions k ≡ some i
    → (r.heap i).served ≡ false
    → Stuck e r k i
unfolding step
unserved-step {es} {r} run e k i c h s = from e c
  where
    v : IsSound r
    v = Run-IsSound run

    from : (e : Event) → CanHappen e r → Stuck e r k i
    from (received dialed written now key packet) c =
        ground (arith, h, s, text_eq_iff key k, v.tabled k i h)
    from (fetched j packet) c = ground (arith, h, s, c, v.tabled k i h)
    from (timed now j packet) c = ground (arith, h, s, c, v.tabled k i h)
    from (replied true j packet) c =
        ground (arith, h, s, c, v.tabled k i h, replied-silent v h s j packet c)
    from (replied false j packet) c = ground (arith, h, s, c, v.tabled k i h)
    from (failed j) c = ground (arith, h, s, c, text_eq_iff (r.heap j).key k, v.tabled k i h)
    from (ticked now) c = ground (arith, h, s)
