-- ===== src/Examples/Pipe.antt =====
-- A client `a` that sends a request and a target `b` that answers and ends its stream first.
use go_packet_repeater.Base.{
  suc, ◌≤◌, ◌≢◌, ◌≡◌, ◌↔◌, ◌⊎◌, refl, arith, Bool, true, false, List, [], ◌∷◌, ◌++◌, codes, text_eq,
  Bytes, length,
}
use go_packet_repeater.Pipe.{
  Who, a, b, Pipe, Event, sends, ends, passes, meets_end, running, finished, pipe_closes, Kind,
  tcp_conn, tunnel_closes, CanHappen, connected, step, Run, start, after,
}
use go_packet_repeater.Pipe.Order.{written-sent}
use go_packet_repeater.Pipe.Ends.{shut-loop, Steps, none_left, first, rounds, rounds-le}
use go_packet_repeater.Pipe.Waiting.{pipes, calls, Waits, CanFinish, PassesOn, CanFinish-iff}

-- as `pipeConn` does between TCP connections
abbrev all_close : Who → Bool
all_close = pipe_closes tcp_conn tcp_conn

abbrev answered : (Who → Bool) → Pipe
answered closes = step closes (ends b) (
    step closes (passes a 2)
      (step closes (sends b (codes "ho")) (step closes (sends a (codes "hi")) connected)))

abbrev closed : (Who → Bool) → Pipe
closed closes = step closes (meets_end b) (step closes (passes b 2) (answered closes))

abbrev events : List Event
events =
    meets_end b
    ∷ passes b 2
    ∷ ends b
    ∷ passes a 2
    ∷ sends b (codes "ho")
    ∷ sends a (codes "hi")
    ∷ []

running_to : (closes : Who → Bool) → Run closes events (closed closes)
unfolding step text_eq
running_to closes =
    after (meets_end b)
      (after (passes b 2)
        (after (ends b)
          (after (passes a 2)
            (after (sends b (codes "ho")) (after (sends a (codes "hi")) start refl) refl)
            (refl, ground arith, ground arith))
          refl)
        (refl, ground arith, ground arith))
      (refl, refl, refl)

written-sent_example :
    ((rest : Bytes) × (((closed all_close).stream b).sent
        ≡ ((closed all_close).stream a).written ++ rest))
    × ((closed all_close).loop b ≡ finished
        → (((closed all_close).stream a).written ≡ ((closed all_close).stream b).sent)
          × (((closed all_close).stream b).ended ≡ true))
written-sent_example = written-sent (running_to all_close) b

shut-loop_example :
    ((closed all_close).loop b ≡ running → ((closed all_close).stream a).shut ≡ false)
    × ((closed all_close).loop b ≢ running → ((closed all_close).stream a).shut ≡ all_close a)
shut-loop_example = shut-loop (running_to all_close) b

answered-ended : ((answered tunnel_closes).stream b).ended ≡ true
unfolding step text_eq
answered-ended = refl

to_the_end :
    Steps tunnel_closes
      (passes b 2 ∷ meets_end b ∷ [])
      (answered tunnel_closes)
      (closed tunnel_closes)
unfolding step text_eq
to_the_end =
    first (passes b 2) (refl, ground arith, ground arith)
      (first (meets_end b) (refl, refl, refl) none_left)

rounds-le_example :
    (rounds b (passes b 2 ∷ meets_end b ∷ [])
      ≤ suc (length ((answered tunnel_closes).stream b).unread))
    × ((closed tunnel_closes).loop b ≡ running
        → CanHappen (meets_end b) (closed tunnel_closes)
          ⊎ CanHappen (passes b 1) (closed tunnel_closes))
rounds-le_example = rounds-le to_the_end b answered-ended

abbrev tcp : Who → Kind
tcp v = tcp_conn

Waits-a : Waits a (running_to (calls pipes tcp))
unfolding running_to
Waits-a = (
  (λ h. ground arith),
  (
    (λ h. ground arith),
    ((λ h. ground arith), ((λ h. ground arith), ((λ h. ground arith), ((λ h. ground arith), tt)))),
  ),
)

running-a : (closed (calls pipes tcp)).loop a ≡ running
unfolding step
running-a = refl

left-b : (closed (calls pipes tcp)).loop b ≢ running
unfolding step
left-b = λ h. ground (arith, h)

CanFinish-iff_example :
    CanFinish (calls pipes tcp) a (closed (calls pipes tcp)) ↔ PassesOn pipes tcp_conn
CanFinish-iff_example =
    CanFinish-iff pipes tcp (running_to (calls pipes tcp)) a Waits-a running-a left-b
