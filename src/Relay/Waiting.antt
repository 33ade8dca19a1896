-- ===== src/Relay/Waiting.antt =====
-- How `Run` of internal/relay/relay.go waits for the listeners that it started. The goroutines and
-- the `select` of `Run` take their steps in any order; a listener is named by its number.
pub mod Returned
pub mod Progress
use go_packet_repeater.Base.{
  ℕ, ◌<◌, ◌≡◌, ◌==◌, Bool, true, false, Option, none, some, List, [], ◌∷◌, ◌++◌, Bytes,
  if◌then◌else◌, length,
}
use go_packet_repeater.Config.{Endpoint}
use go_packet_repeater.Relay.{listeners}

-- A listener: `failing` has sent its error, and has not called `wg.Done`; `gone` has, with the error
-- that it sent, if any.
pub data Phase : Type 0 where
  serving : Phase
  failing : Bytes → Phase
  gone : Option Bytes → Phase

-- `Run` itself: in its `select`, behind `<-ctx.Done()`, or with its result, `none` for nil.
pub data Stage : Type 0 where
  selecting draining : Stage
  returned : Option Bytes → Stage

pub record Wait : Type 0 where
  pub phase : ℕ → Phase
  -- what `errCh` holds; it has room for the errors of both listeners
  pub errors : List Bytes
  -- whether the context is cancelled, and whether `done` is closed
  pub cancelled : Bool
  pub done : Bool
  pub stage : Stage

pub data Event : Type 0 where
  cancels : Event
  -- a listener returns nil
  quits : ℕ → Event
  -- a listener returns an error, which is sent; and its `wg.Done`
  fails : ℕ → Bytes → Event
  leaves : ℕ → Event
  -- the goroutine behind `wg.Wait` closes `done`
  closes_done : Event
  -- the cases of the `select`, and the receive in its last one
  takes_error sees_done sees_cancel drains : Event

abbrev pub is_gone : Phase → Bool
is_gone (gone r) = true
is_gone _ = false

-- The error of a listener.
abbrev pub failure : Phase → Option Bytes
failure serving = none
failure (failing e) = some e
failure (gone r) = r

abbrev pub running : Wait
running = record {
  phase = λ i. serving;
  errors = [];
  cancelled = false;
  done = false;
  stage = selecting;
}

abbrev put : ℕ → Phase → (ℕ → Phase) → ℕ → Phase
put i x f j = if j == i then x else f j

-- the end of the goroutine of a listener
leave : ℕ → Phase → Wait → Wait
leave i (failing e) s = record s { phase = put i (gone (some e)) s.phase }
leave i _ s = s

-- `case err := <-errCh: return err`
take_error : List Bytes → Wait → Wait
take_error [] s = s
take_error (e ∷ es) s = record s { errors = es; stage = returned (some e) }

unfoldable pub step : Event → Wait → Wait
unfolding leave take_error
step cancels s = record s { cancelled = true }
step (quits i) s = record s { phase = put i (gone none) s.phase }
step (fails i e) s = record s { phase = put i (failing e) s.phase; errors = s.errors ++ e ∷ [] }
step (leaves i) s = leave i (s.phase i) s
step closes_done s = record s { done = true }
step takes_error s = take_error s.errors s
step sees_done s = record s { stage = returned none }
step sees_cancel s = record s { stage = draining }
step drains s = record s { stage = returned none }

module _ (listen : Endpoint) where
  -- An accept loop returns nil only where its context is cancelled.
  abbrev pub CanHappen : Event → Wait → Type 0
  CanHappen cancels s = Unit
  CanHappen (quits i) s =
      (i < length (listeners listen)) × (s.phase i ≡ serving) × (s.cancelled ≡ true)
  CanHappen (fails i e) s = (i < length (listeners listen)) × (s.phase i ≡ serving)
  CanHappen (leaves i) s = (e : Bytes) × (s.phase i ≡ failing e)
  CanHappen closes_done s = (i : ℕ) → i < length (listeners listen) → is_gone (s.phase i) ≡ true
  CanHappen takes_error s =
      (s.stage ≡ selecting) × ((e : Bytes) × (es : List Bytes) × (s.errors ≡ e ∷ es))
  CanHappen sees_done s = (s.stage ≡ selecting) × (s.done ≡ true)
  CanHappen sees_cancel s = (s.stage ≡ selecting) × (s.cancelled ≡ true)
  CanHappen drains s = (s.stage ≡ draining) × (s.done ≡ true)

  -- The states that a row of events leads to, the last event first.
  pub data Run : List Event → Wait → Type 0 where
    start : Run [] running
    after :
        {es : List Event} {s : Wait} (e : Event)
        → Run es s
        → CanHappen e s
        → Run (e ∷ es) (step e s)
