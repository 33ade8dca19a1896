-- ===== src/Pipe/Waiting.antt =====
-- A peer that ends its stream only when it has seen the end of the other's, behind the loops of
-- `pipeConn` and `pipeSOCKS`, and behind those of `handleConnect` of internal/proxy/http.go.
use go_packet_repeater.Base.{
  ◌≡◌, ◌≢◌, ◌⊎◌, ◌↔◌, ◌∙◌, arith, refl, Bool, true, false, List, [], ◌∷◌, Bytes, length, drop,
  Bool-cases, inl, inr, ap,
}
use go_packet_repeater.Pipe.{
  Who, a, b, other, Kind, tcp_conn, tls_conn, running, finished, Pipe, Event, sends, ends, passes,
  meets_end, fails, CanHappen, step, Run, start, after, is_half_closer, pipe_closes, tunnel_closes,
}
use go_packet_repeater.Pipe.Ends.{shut-loop}

-- The code that runs the loops: `pipeConn` or `pipeSOCKS`, or `handleConnect`.
pub data Handler : Type 0 where
  pipes tunnels : Handler

-- Where it calls `CloseWrite`, between connections of these kinds.
abbrev pub calls : Handler → (Who → Kind) → Who → Bool
calls pipes kind = pipe_closes (kind a) (kind b)
calls tunnels kind = tunnel_closes

-- The peer of `v` ends its stream only after `CloseWrite` was called on the connection to it.
abbrev pub Waits :
    {closes : Who → Bool} {es : List Event} {p : Pipe} → Who → Run closes es p → Type 0
Waits v start = Unit
Waits v (after {es} {p} e run c) = (e ≡ ends v → (p.stream v).shut ≡ true) × Waits v run

-- Nothing ends on the side of `v`.
Open : Pipe → Who → Type 0
Open p v = ((p.stream v).shut ≡ false) × ((p.stream v).ended ≡ false) × (p.loop v ≢ finished)

step-Open :
    (closes : Who → Bool) (e : Event) (p : Pipe) (v : Who)
    → closes v ≡ false
    → CanHappen e p
    → (e ≡ ends v → (p.stream v).shut ≡ true)
    → Open p v
    → Open (step closes e p) v
unfolding step Open
step-Open closes (sends w bs) p v n c ok h = ground (arith, h, c)
step-Open closes (ends a) p a n c ok h = ground (arith, h, c, ok refl)
step-Open closes (ends b) p b n c ok h = ground (arith, h, c, ok refl)
step-Open closes (ends a) p b n c ok h = ground (arith, h, c)
step-Open closes (ends b) p a n c ok h = ground (arith, h, c)
step-Open closes (passes w k) p v n c ok h = ground (arith, h, c)
step-Open closes (meets_end w) p v n c ok h = ground (arith, h, c, n)
step-Open closes (fails w k m) p v n c ok h = ground (arith, h, c, n)

step_from :
    {closes : Who → Bool} {es : List Event} {p : Pipe} (run : Run closes es p) (v : Who)
    → closes v ≡ false
    → Waits v run
    → Open p v
unfolding Open
step_from start v n ok = (refl, refl, λ h. cc)
step_from {closes} (after {es} {p} e run c) v n ok =
    step-Open closes e p v n c ok.0 (step_from run v n ok.1)

-- What can follow a state while the peer of `v` waits.
pub data Later (closes : Who → Bool) (v : Who) : Pipe → Pipe → Type 0 where
  at_once : {p : Pipe} → Later closes v p p
  behind :
      {p q : Pipe} (e : Event)
      → CanHappen e p
      → (e ≡ ends v → (p.stream v).shut ≡ true)
      → Later closes v (step closes e p) q
      → Later closes v p q

-- The loop that reads `v` can still meet the end of its stream.
abbrev pub CanFinish : (Who → Bool) → Who → Pipe → Type 0
CanFinish closes v p = (q : Pipe) × Later closes v p q × (q.loop v ≡ finished)

Later-Open :
    {closes : Who → Bool} {v : Who} {p q : Pipe}
    → closes v ≡ false
    → Later closes v p q
    → Open p v
    → Open q v
Later-Open n at_once o = o
Later-Open {closes} {v} {p} n (behind e c ok rest) o =
    Later-Open n rest (step-Open closes e p v n c ok o)

drop-length : (bs : Bytes) → drop (length bs) bs ≡ []
drop-length [] = refl
drop-length (x ∷ bs) = drop-length bs

passes-Ended :
    (closes : Who → Bool) (v : Who) (p : Pipe)
    → p.loop v ≡ running
    → (p.stream v).ended ≡ true
    → CanHappen (meets_end v) (step closes (passes v (length (p.stream v).unread)) p)
unfolding step
passes-Ended closes a p r e = ground (arith, r, e, drop-length (p.stream a).unread)
passes-Ended closes b p r e = ground (arith, r, e, drop-length (p.stream b).unread)

meets_end-finished :
    (closes : Who → Bool) (v : Who) (p : Pipe) → (step closes (meets_end v) p).loop v ≡ finished
unfolding step
meets_end-finished closes a p = refl
meets_end-finished closes b p = refl

-- A loop whose stream has ended can pass on what is left, and meet the end.
ended-CanFinish :
    (closes : Who → Bool) (v : Who) (p : Pipe)
    → p.loop v ≡ running
    → (p.stream v).ended ≡ true
    → CanFinish closes v p
ended-CanFinish closes v p r e = by_unread (p.stream v).unread refl
  where
    by_unread : (bs : Bytes) → (p.stream v).unread ≡ bs → CanFinish closes v p
    by_unread [] h = (
      step closes (meets_end v) p,
      behind (meets_end v) (r, h, e) (λ i. ground (arith, i)) at_once,
      meets_end-finished closes v p,
    )
    by_unread (x ∷ bs) h =
        let n = length (p.stream v).unread in
        let p' = step closes (passes v n) p in
        (
          step closes (meets_end v) p',
          behind (passes v n) (r, omega (arith, ap length h), omega arith) (λ i. ground (arith, i))
              (behind (meets_end v) (passes-Ended closes v p r e) (λ i. ground (arith, i)) at_once),
          meets_end-finished closes v p',
        )

ends-Ended :
    (closes : Who → Bool) (v : Who) (p : Pipe)
    → p.loop v ≡ running
    → ((step closes (ends v) p).loop v ≡ running)
      × (((step closes (ends v) p).stream v).ended ≡ true)
unfolding step
ends-Ended closes a p r = (r, refl)
ends-Ended closes b p r = (r, refl)

shut-CanFinish :
    (closes : Who → Bool) (v : Who) (p : Pipe)
    → p.loop v ≡ running
    → (p.stream v).shut ≡ true
    → CanFinish closes v p
shut-CanFinish closes v p r s = elim (Bool-cases (p.stream v).ended) [
  | inl e ↦ ended-CanFinish closes v p r e
  | inr e ↦
      let (r', e') = ends-Ended closes v p r in
      let (q, l, f) = ended-CanFinish closes v (step closes (ends v) p) r' e' in
      (q, behind (ends v) e (λ i. s) l, f)
]

shut-side :
    {closes : Who → Bool} {es : List Event} {p : Pipe} (run : Run closes es p) (v : Who)
    → p.loop (other v) ≢ running
    → (p.stream v).shut ≡ closes v
shut-side run a o = (shut-loop run b).1 o
shut-side run b o = (shut-loop run a).1 o

-- The handler and the kind of the connection with which the end of a stream is passed on.
abbrev pub PassesOn : Handler → Kind → Type 0
PassesOn pipes kind = (kind ≡ tcp_conn) ⊎ (kind ≡ tls_conn)
PassesOn tunnels kind = ⊥

calls-PassesOn :
    (h : Handler) (kind : Who → Kind) (v : Who) → (calls h kind v ≡ true) ↔ PassesOn h (kind v)
unfolding pipe_closes tunnel_closes is_half_closer
calls-PassesOn pipes kind a = ground arith
calls-PassesOn pipes kind b = ground arith
calls-PassesOn tunnels kind v = ground arith

-- Take a connection whose peer ends its stream only when its own side was ended by CloseWrite,
-- and a state in which the copy loop that writes to this peer has ended and the one that reads it
-- still runs. Then the loop that reads it can still meet the end of its stream, by steps in which
-- the peer goes on to wait, exactly if the handler is `pipeConn` or `pipeSOCKS` and the
-- connection is a TCP or a TLS connection. It never can in `handleConnect`, and not on a DTLS
-- connection, a UDP socket or a `bufferedConn`.
pub CanFinish-iff :
    (h : Handler) (kind : Who → Kind) {es : List Event} {p : Pipe} (run : Run (calls h kind) es p)
    (v : Who)
    → Waits v run
    → p.loop v ≡ running
    → p.loop (other v) ≢ running
    → CanFinish (calls h kind) v p ↔ PassesOn h (kind v)
unfolding Open
CanFinish-iff h kind {p = p} run v ok r o = (
  (λ (q, l, f). elim (Bool-cases (calls h kind v)) [
    | inl c ↦ (calls-PassesOn h kind v).0 c
    | inr c ↦ absurd ((Later-Open c l (step_from run v c ok)).2 f)
  ]),
  (λ on. shut-CanFinish (calls h kind) v p r (shut-side run v o ∙ (calls-PassesOn h kind v).1 on)),
)
