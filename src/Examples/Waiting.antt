-- ===== src/Examples/Waiting.antt =====
-- A relay with one listener, which fails, and whose error is lost.
use go_packet_repeater.Base.{◌≡◌, refl, arith, true, false, none, Option, Bytes, [], ◌∷◌, codes}
use go_packet_repeater.Config.{Endpoint}
use go_packet_repeater.Relay.{listeners}
use go_packet_repeater.Relay.Waiting.{
  Wait, cancels, fails, leaves, closes_done, sees_done, returned, running, step, Run, start, after,
}
use go_packet_repeater.Relay.Waiting.Progress.{Reaches, cancelled-returns}
use go_packet_repeater.Relay.Waiting.Returned.{Explains, returned-Explains}

abbrev listen : Endpoint
listen = record { addr = codes "h:1"; tcp = true; udp = false; ssl = false }

abbrev finished : Wait
finished =
    step sees_done (step closes_done (step (leaves 0) (step (fails 0 (codes "in use")) running)))

lost : Run listen (sees_done ∷ closes_done ∷ leaves 0 ∷ fails 0 (codes "in use") ∷ []) finished
unfolding step listeners
lost =
    after sees_done
      (after closes_done
        (after (leaves 0) (after (fails 0 (codes "in use")) (start) (omega arith, refl))
          (codes "in use", refl))
        (λ i l. ground (arith, l)))
      (refl, refl)

returns_nil : finished.stage ≡ returned none
unfolding step
returns_nil = refl

not_cancelled : finished.cancelled ≡ false
unfolding step
not_cancelled = refl

returned-Explains_example : Explains listen finished none
returned-Explains_example = returned-Explains listen lost none returns_nil

-- A cancelled relay whose listener still serves.
abbrev stopping : Wait
stopping = step cancels running

is_cancelled : stopping.cancelled ≡ true
unfolding step
is_cancelled = refl

cancelled-returns_example :
    (t : Wait) × Reaches listen stopping t × ((r : Option Bytes) × (t.stage ≡ returned r))
cancelled-returns_example = cancelled-returns listen stopping is_cancelled
