-- ===== src/Relay/Udp/Traffic.antt =====
-- The packets that reach the target.
use go_packet_repeater.Base.{
  ℕ, ◌<◌, ◌≤◌, ◌≡◌, refl, ◌∙◌, arith, true, false, List, [], ◌∷◌, ◌++◌, Bytes, if◌then◌else◌,
  text_eq, Option-cases, inl, inr, All, All-append,
}
use go_packet_repeater.Relay.Udp.{
  UdpSession, UdpRelay, Event, received, fetched, timed, replied, failed, ticked, step, Run, start,
  after,
}
use go_packet_repeater.Relay.Udp.Sockets.{IsSound, Run-IsSound}

-- The packets written to the target for a client, by the keys of the sessions.
abbrev pub of_client : Bytes → (ℕ → UdpSession) → List (ℕ × Bytes) → List Bytes
of_client k heap [] = []
of_client k heap ((i, packet) ∷ ps) =
    if text_eq (heap i).key k then packet ∷ of_client k heap ps else of_client k heap ps

-- The packets received from a client, in the order of their events.
abbrev pub packets : Bytes → List Event → List Bytes
packets k [] = []
packets k (received dialed written now key packet ∷ es) =
    if text_eq key k then packets k es ++ packet ∷ [] else packets k es
packets k (_ ∷ es) = packets k es

-- The target can be dialed and written to.
abbrev pub Reaches : Event → Type 0
Reaches (received dialed written now key packet) = (dialed ≡ true) × (written ≡ true)
Reaches _ = Unit

-- Sessions below `next` keep their client.
abbrev Known : UdpRelay → Type 0
Known r = All (λ x. x.0 < r.next) r.forwarded

of_client-keys :
    (k : Bytes) (heap heap' : ℕ → UdpSession) (n : ℕ) (ps : List (ℕ × Bytes))
    → ((i : ℕ) → i < n → (heap' i).key ≡ (heap i).key)
    → All (λ x. x.0 < n) ps
    → of_client k heap' ps ≡ of_client k heap ps
of_client-keys k heap heap' n [] same l = refl
of_client-keys k heap heap' n ((i, p) ∷ ps) same l =
    ground (arith, same i l.0, of_client-keys k heap heap' n ps same l.1)

of_client-append :
    (k : Bytes) (heap : ℕ → UdpSession) (ps : List (ℕ × Bytes)) (i : ℕ) (packet : Bytes)
    → of_client k heap (ps ++ (i, packet) ∷ [])
      ≡ (if text_eq (heap i).key k then of_client k heap ps ++ packet ∷ [] else of_client k heap ps)
of_client-append k heap [] i packet = ground arith
of_client-append k heap ((j, p) ∷ ps) i packet = ground (arith, of_client-append k heap ps i packet)

step-key :
    (e : Event) (r : UdpRelay) (i : ℕ) → i < r.next → ((step e r).heap i).key ≡ (r.heap i).key
unfolding step
step-key (received dialed true now key packet) r i l = ground arith
step-key (received dialed false now key packet) r i l = ground arith
step-key (fetched j packet) r i l = ground arith
step-key (timed now j packet) r i l = ground arith
step-key (replied true j packet) r i l = ground arith
step-key (replied false j packet) r i l = ground arith
step-key (failed j) r i l = ground arith
step-key (ticked now) r i l = ground arith

-- What a step adds to the packets written to the target.
abbrev Adds : Event → UdpRelay → Type 0
Adds (received dialed written now key packet) r =
    (i : ℕ) × (i < (step (received dialed written now key packet) r).next)
    × (((step (received dialed written now key packet) r).heap i).key ≡ key)
    × ((step (received dialed written now key packet) r).forwarded
        ≡ r.forwarded ++ (i, packet) ∷ [])
Adds e r = (step e r).forwarded ≡ r.forwarded

step-Adds : (e : Event) (r : UdpRelay) → Reaches e → IsSound r → Adds e r
unfolding step
step-Adds (received dialed written now key packet) r (d, w) v =
    elim (Option-cases (r.sessions key)) [
      | inl e ↦ (r.next, ground (arith, e, d, w), ground (arith, e, d, w), ground (arith, e, d, w))
      | inr (i, e) ↦ (
        i,
        ground (arith, e, w, v.tabled key i e),
        ground (arith, e, w, v.tabled key i e),
        ground (arith, e, w),
      )
    ]
step-Adds (fetched j packet) r d v = refl
step-Adds (timed now j packet) r d v = refl
step-Adds (replied true j packet) r d v = refl
step-Adds (replied false j packet) r d v = refl
step-Adds (failed j) r d v = refl
step-Adds (ticked now) r d v = refl

step-next : (e : Event) (r : UdpRelay) → r.next ≤ (step e r).next
unfolding step
step-next (received dialed true now key packet) r = ground arith
step-next (received dialed false now key packet) r = ground arith
step-next (fetched j packet) r = ground arith
step-next (timed now j packet) r = ground arith
step-next (replied true j packet) r = ground arith
step-next (replied false j packet) r = ground arith
step-next (failed j) r = ground arith
step-next (ticked now) r = ground arith

widen : (n m : ℕ) (ps : List (ℕ × Bytes)) → n ≤ m → All (λ x. x.0 < n) ps → All (λ x. x.0 < m) ps
widen n m [] le h = tt
widen n m ((i, p) ∷ ps) le h = (omega (arith, h.0), widen n m ps le h.1)

-- A step that adds nothing.
same-Known :
    (e : Event) (r : UdpRelay) → (step e r).forwarded ≡ r.forwarded → Known r → Known (step e r)
same-Known e r a h = rw a (widen _ _ r.forwarded (step-next e r) h)

same-packets :
    (e : Event) (r : UdpRelay) (k : Bytes)
    → (step e r).forwarded ≡ r.forwarded
    → Known r
    → of_client k (step e r).heap (step e r).forwarded ≡ of_client k r.heap r.forwarded
same-packets e r k a h =
    rw a (of_client-keys k r.heap (step e r).heap r.next r.forwarded (step-key e r) h)

step-Known : (e : Event) (r : UdpRelay) → Adds e r → Known r → Known (step e r)
step-Known (received dialed written now key packet) r (i, l, k, f) h =
    let e = received dialed written now key packet in
    rw f (
      All-append (λ x. x.0 < (step e r).next) r.forwarded ((i, packet) ∷ [])
        (widen _ _ r.forwarded (step-next e r) h) (l, tt))
step-Known (fetched j packet) r a h = same-Known (fetched j packet) r a h
step-Known (timed now j packet) r a h = same-Known (timed now j packet) r a h
step-Known (replied w j packet) r a h = same-Known (replied w j packet) r a h
step-Known (failed j) r a h = same-Known (failed j) r a h
step-Known (ticked now) r a h = same-Known (ticked now) r a h

step-packets :
    (e : Event) (es : List Event) (r : UdpRelay) (k : Bytes)
    → Adds e r
    → Known r
    → of_client k r.heap r.forwarded ≡ packets k es
    → of_client k (step e r).heap (step e r).forwarded ≡ packets k (e ∷ es)
step-packets (received dialed written now key packet) es r k (i, l, key_i, f) h p =
    let e = received dialed written now key packet in
    ground (
      arith,
      f,
      key_i,
      p,
      of_client-append k (step e r).heap r.forwarded i packet,
      of_client-keys k r.heap (step e r).heap r.next r.forwarded (step-key e r) h,
    )
step-packets (fetched j packet) es r k a h p = same-packets (fetched j packet) r k a h ∙ p
step-packets (timed now j packet) es r k a h p = same-packets (timed now j packet) r k a h ∙ p
step-packets (replied w j packet) es r k a h p = same-packets (replied w j packet) r k a h ∙ p
step-packets (failed j) es r k a h p = same-packets (failed j) r k a h ∙ p
step-packets (ticked now) es r k a h p = same-packets (ticked now) r k a h ∙ p

-- In every run of the UDP relay in which the target can be dialed and written to, the packets
-- written to the target over the sessions of a client are the packets received from this client,
-- in their order, whatever else happens between them.
pub of_client-packets :
    {es : List Event} {r : UdpRelay} (run : Run es r) (k : Bytes)
    → All Reaches es
    → of_client k r.heap r.forwarded ≡ packets k es
of_client-packets run k reach = (from run reach).1
  where
    from :
        {es : List Event} {r : UdpRelay}
        → Run es r
        → All Reaches es
        → Known r × (of_client k r.heap r.forwarded ≡ packets k es)
    from start d = (tt, refl)
    from (after {es} {r} e run c) d =
        let (h, p) = from run d.1 in
        let a = step-Adds e r d.0 (Run-IsSound run) in
        (step-Known e r a h, step-packets e es r k a h p)
